-- ===== src/SyncModel/Folder.antt =====
-- What a synchronised folder shows, sync_folder_state of core/sync_model.c.
use nova_desktop.Base.{
  ◌≡◌, ◌↔◌, true, false, not, ◌||◌, arith, pos, Bool, ◌&&◌, ◌==◌, if◌then◌else◌, ℤ, negsuc,
}

pub data SyncRelation : Type 0 where
  rel_unknown rel_local rel_publisher rel_subscriber rel_connected : SyncRelation

pub data SyncFolderPhase : Type 0 where
  folder_unknown folder_bind folder_check folder_working folder_error folder_conflict folder_wait :
      SyncFolderPhase
  folder_changes folder_current : SyncFolderPhase

pub record SyncFolderFacts : Type 0 where
  pub metadata_known : Bool
  pub bound : Bool
  pub publisher : Bool
  pub inspected : Bool
  pub busy : Bool
  pub failed : Bool
  pub pushes : ℤ
  pub pulls : ℤ
  pub conflicts : ℤ
  pub waiting : ℤ
  pub publisher_known : Bool

pub record SyncFolderState : Type 0 where
  pub relation : SyncRelation
  pub phase : SyncFolderPhase

-- An int as a condition.
abbrev pub nonzero : ℤ → Bool
nonzero (pos n) = not (n == 0)
nonzero (negsuc n) = true

pub folder_relation : SyncFolderFacts → SyncRelation
folder_relation f =
    if f.metadata_known
    then if not f.bound
      then rel_local
      else if not f.publisher_known
      then rel_connected
      else if f.publisher
      then rel_publisher
      else rel_subscriber
    else rel_unknown

pub folder_phase : SyncFolderFacts → SyncFolderPhase
folder_phase f =
    if f.busy
    then folder_working
    else if f.failed
    then folder_error
    else if f.metadata_known && not f.bound
    then folder_bind
    else if not f.inspected
    then folder_check
    else if nonzero f.conflicts
    then folder_conflict
    else if nonzero f.waiting
    then folder_wait
    else if nonzero f.pushes || nonzero f.pulls
    then folder_changes
    else folder_current

pub sync_folder_state : SyncFolderFacts → SyncFolderState
unfolding folder_relation folder_phase
sync_folder_state f = record { relation = folder_relation f; phase = folder_phase f }

-- A folder shows that it is current exactly when it was inspected without a failure, no work is going on,
-- it is not known to be unbound, and there is nothing to push, to pull, to resolve or to wait for.
pub sync_folder_state-current_iff :
    (f : SyncFolderFacts)
    → ((sync_folder_state f).phase ≡ folder_current) ↔ (
        (f.busy ≡ false)
        × (f.failed ≡ false)
        × ((not f.metadata_known || f.bound) ≡ true)
        × (f.inspected ≡ true)
        × (f.conflicts ≡ pos 0)
        × (f.waiting ≡ pos 0)
        × (f.pushes ≡ pos 0)
        × (f.pulls ≡ pos 0))
unfolding sync_folder_state folder_phase
sync_folder_state-current_iff f = ground arith
