-- ===== src/SyncClient/Compare.antt =====
-- platform/sync_client.c: the comparison of a file with the recorded and the server's version, the CASE of the view
-- inspection_states, and how the reception of the server's version agrees with it.
use nova_desktop.Base.{
  Bool, true, false, not, ◌&&◌, ◌||◌, Option, none, some, if◌then◌else◌, ◌≡◌, refl, arith, sym,
}
use nova_desktop.Text.{Text}
use nova_desktop.SyncClient.Download.{is_there}
use nova_desktop.SyncClient.Jobs.{
  Job, Seen, same_version, has_hash, size_is, is_adopted, is_unchanged,
}

-- What the comparison reads of a manifest.
pub record Version : Type 0 where
  pub id : Option Text
  pub sha256 : Option Text

abbrev pub id_of : Option Version → Option Text
id_of none = none
id_of (some v) = v.id

abbrev sha_of : Option Version → Option Text
sha_of none = none
sha_of (some v) = v.sha256

pub data State : Type 0 where
  conflict pull waiting push synced : State

-- The server has another version than the recorded one.
abbrev is_newer : Option Version → Option Version → Bool
is_newer base remote = is_there remote && not (same_version (id_of remote) (id_of base))

-- `IS` of SQL is `same_version`, with NULL as none.
unfoldable pub state_of : Option Text → Option Version → Option Version → Bool → State
state_of local_hash base remote available =
    if is_newer base remote
      && not (same_version local_hash (sha_of base))
      && not (same_version local_hash (sha_of remote))
    then conflict
    else if is_newer base remote
    then if available then pull else waiting
    else if not (same_version local_hash (sha_of base))
    then push
    else synced

-- Without sync_deletes, a file that is gone here and has nothing newer on the server is not listed.
unfoldable is_listed : Bool → Option Text → Option Version → Option Version → Bool
is_listed sync_deletes local_hash base remote =
    sync_deletes || is_there local_hash || is_newer base remote

abbrev pub hash_of_seen : Option Seen → Option Text
hash_of_seen none = none
hash_of_seen (some seen) = some seen.hash

-- One of the two versions is the file's, where the comparison says pull.
pull_same :
    (local_hash : Option Text) (base remote : Option Version) (available : Bool)
    → state_of local_hash base remote available ≡ pull
    → same_version local_hash (sha_of base) || same_version local_hash (sha_of remote) ≡ true
unfolding state_of
pull_same local_hash base remote available h = ground arith

has_hash_same :
    (seen : Seen) (hash : Option Text)
    → same_version (some seen.hash) hash ≡ has_hash (some seen) hash
has_hash_same seen none = refl
has_hash_same seen (some hash) = refl

found_lem :
    (new sized old absent : Bool)
    → old || new ≡ true
    → (new ≡ true → sized ≡ true)
    → new && sized || (old || absent && false) ≡ true
found_lem true sized old absent h s = ground (arith, s refl)
found_lem false sized old absent h s = ground arith

checks_lem :
    (job : Job) (seen : Option Seen) (old : Option Text)
    → same_version (hash_of_seen seen) old || same_version (hash_of_seen seen) job.expected ≡ true
    → (has_hash seen job.expected ≡ true → size_is seen job.total ≡ true)
    → is_adopted job seen || is_unchanged old seen ≡ is_there seen || not (is_there old)
unfolding is_adopted is_unchanged
checks_lem job none none h sized = refl
checks_lem job none (some hash) h sized = refl
checks_lem job (some seen) old h sized =
    found_lem (has_hash (some seen) job.expected) (size_is (some seen) job.total)
      (has_hash (some seen) old) (not (is_there old))
      (rw (sym (has_hash_same seen old)) (rw (sym (has_hash_same seen job.expected)) h)) sized

-- Where the comparison lists a file as a pull, the check of its reception takes it for the new version or the recorded one
-- exactly where the file is there or no content is recorded, so that a file which is gone here and on the server
-- does not pass as unchanged. A file with the hash of the new version is taken to have its size.
pub state_of-pull :
    (job : Job) (seen : Option Seen) (base remote : Option Version) (available : Bool)
    → state_of (hash_of_seen seen) base remote available ≡ pull
    → sha_of remote ≡ job.expected
    → (has_hash seen job.expected ≡ true → size_is seen job.total ≡ true)
    → is_adopted job seen || is_unchanged (sha_of base) seen
      ≡ is_there seen || not (is_there (sha_of base))
state_of-pull job seen base remote available state same sized =
    checks_lem job seen (sha_of base)
      (rw (sym same) (pull_same (hash_of_seen seen) base remote available state)) sized
