-- ===== src/SyncClient/Outcome.antt =====
-- platform/sync_client.c: what the reception of one version can do to the files of the working folder.
use nova_desktop.Base.{
  ℕ, ◌%◌, ◌^◌, Bool, true, false, ◌&&◌, ◌||◌, Option, none, some, ◌==◌, length, ◌≡◌, ◌⊎◌, arith,
  ◌∙◌, sym, ap,
}
use nova_desktop.Text.{Text, text_eq_iff}
use nova_desktop.SyncClient.{Client, File, Working, set_file, is_same}
use nova_desktop.SyncClient.Jobs.{Job, Seen, is_delete, job_of, place_of}
use nova_desktop.SyncClient.Receive.{seed_previous, hash_in, manifest_of, is_resolving}
use nova_desktop.SyncClient.Quiet.{View, IsQuiet, quiet}
use nova_desktop.SyncClient.Looks.{seed-IsQuiet}
use nova_desktop.SyncClient.Facts.{Local}
use nova_desktop.SyncClient.Apply.{temporary, disturbed, moved_in}
use nova_desktop.SyncClient.Temporary.{SameBut}

-- The version that the index remembers for the file of a manifest.
abbrev pub recorded : Client → Local → Job → Option Text
recorded c v job = hash_in c (manifest_of (v.heads job.dataset job.key))

-- A content that may be lost: it is the recorded version, or the one that the user's choice has accepted.
abbrev IsCovered : Client → Local → Job → Text → Type 0
IsCovered c v job hash =
    (recorded c v job ≡ some hash) ⊎ ((is_resolving c job ≡ true) × (hash ≡ v.accepted_local))

abbrev pub IsCoveredFile : Client → Local → Job → Option File → Type 0
IsCoveredFile c v job none = Unit {0}
IsCoveredFile c v job (some file) =
    (hash : Text) × (c.sha file.content ≡ some hash) × IsCovered c v job hash

abbrev pub IsCoveredSeen : Client → Local → Job → Option Seen → Type 0
IsCoveredSeen c v job none = Unit {0}
IsCoveredSeen c v job (some seen) = IsCovered c v job seen.hash

-- A file with the hash and the size of a manifest.
abbrev pub IsVersion : Client → Job → Option File → Type 0
IsVersion c job none = true ≡ false
IsVersion c job (some file) =
    (hash : Text) × (c.sha file.content ≡ some hash)
    × (job.expected ≡ some hash)
    × (length file.content % 2 ^ 64 ≡ job.total)

-- What the working folder can be after a version was received, from what it was before. The temporary file is beside the file of
-- the manifest, with the name that temporary_name makes of the identifier.
pub data Outcome (c : Client) (v : Local) (manifest : Text) : Working → Type 0 where
  kept : Outcome c v manifest v.working
  written :
      (job : Job) (place name : Text) (files : Working)
      → job_of c manifest ≡ some job
      → place_of c job.relative ≡ some place
      → temporary c place job.id ≡ some name
      → SameBut name v.working files
      → Outcome c v manifest files
  others :
      (job : Job) (place name : Text) (files : Working)
      → job_of c manifest ≡ some job
      → place_of c job.relative ≡ some place
      → temporary c place job.id ≡ some name
      → SameBut name v.working files
      → Outcome c v manifest (disturbed c name files)
  replaced :
      (job : Job) (place name : Text) (files : Working)
      → job_of c manifest ≡ some job
      → place_of c job.relative ≡ some place
      → temporary c place job.id ≡ some name
      → SameBut name v.working files
      → IsVersion c job (files name)
      → IsCoveredFile c v job (disturbed c name files place)
      → Outcome c v manifest (moved_in name place (disturbed c name files))
  removed :
      (job : Job) (place : Text)
      → job_of c manifest ≡ some job
      → place_of c job.relative ≡ some place
      → is_delete job ≡ true
      → c.sync_deletes ≡ true
      → IsCoveredFile c v job (v.working place)
      → Outcome c v manifest (set_file place none v.working)

-- What a look has found of a file.
abbrev pub IsSeen : Client → Option File → Option Seen → Type 0
IsSeen c none none = Unit {0}
IsSeen c none (some seen) = true ≡ false
IsSeen c (some file) none = true ≡ false
IsSeen c (some file) (some seen) = c.sha file.content ≡ some seen.hash

pub left_over :
    (r already adopted unchanged : Bool)
    → r ≡ false
    → already || adopted ≡ false
    → r || already || adopted || unchanged ≡ true
    → unchanged ≡ true
left_over r already adopted unchanged p n u = ground arith

pub seed_previous-IsQuiet :
    {O : Type 0} {g : View → O} (c : Client) (place : Text) (previous : Option Text) (same : Bool)
    → IsQuiet g (seed_previous c place previous same)
seed_previous-IsQuiet c place none same = search quiet
seed_previous-IsQuiet c place (some previous) same = search (quiet, seed-IsQuiet)

pub same_hash :
    (sha expected : Option Text) (final : Text) (sized : Bool)
    → sha ≡ some final
    → sized && is_same expected final ≡ true
    → sha ≡ expected
same_hash sha none final sized h e = ground arith
same_hash sha (some hash) final sized h e =
    h ∙ ap some (sym ((text_eq_iff hash final).0 (ground arith)))

pub same_size : (n total : ℕ) (same : Bool) → (n == total && same) ≡ true → n ≡ total
same_size n total same e = ground arith
