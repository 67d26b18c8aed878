-- ===== src/SyncClient/Jobs.antt =====
-- platform/sync_client.c: what a manifest says, where its file stands, and what a look at it finds.
use nova_desktop.Base.{
  ℕ, ◌%◌, ◌^◌, Bool, true, false, ◌&&◌, ◌||◌, not, List, [], ◌∷◌, Option, none, some, ◌==◌,
  if◌then◌else◌, negsuc, length, take, drop, map,
}
use nova_desktop.Text.{Text, codes, text_eq}
use nova_desktop.SyncModel.{sync_path_cap}
use nova_desktop.SyncModel.Relative.{sync_relative_path}
use nova_desktop.SyncWire.{path}
use nova_desktop.SyncFiles.{prefixes, sy_join}
use nova_desktop.SyncClient.{
  Act, Client, File, Phase, applied, ask, call, fail, from, hash_of, lift, of_option, or_do,
  or_fail, poll, pure, ready, unless_cancelled, unsigned, ◌>>=◌, ◌>>◌,
}
use nova_desktop.SyncClient.Download.{is_there}

-- What a manifest says.
pub record Job : Type 0 where
  pub id : Text
  pub dataset : Text
  pub relative : Text
  pub key : Text
  pub kind : Text
  pub expected : Option Text
  pub parent : Option Text
  pub total : ℕ

-- What a look at a file finds.
pub record Seen : Type 0 where
  pub hash : Text
  pub size : ℕ
  pub mtime : ℕ

abbrev pub is_put : Job → Bool
is_put job = text_eq job.kind (codes "PUT")

abbrev pub is_delete : Job → Bool
is_delete job = text_eq job.kind (codes "DELETE")

-- `a&&b&&!strcmp(a,b)`, with both missing counted as the same.
abbrev pub same_version : Option Text → Option Text → Bool
same_version none none = true
same_version none (some b) = false
same_version (some a) none = false
same_version (some a) (some b) = text_eq a b

-- The file is there with the hash.
abbrev pub has_hash : Option Seen → Option Text → Bool
has_hash none hash = false
has_hash (some seen) none = false
has_hash (some seen) (some hash) = text_eq seen.hash hash

abbrev pub size_is : Option Seen → ℕ → Bool
size_is none total = false
size_is (some seen) total = seen.size == total

-- The file is the version of the manifest already.
unfoldable pub is_adopted : Job → Option Seen → Bool
is_adopted job seen = has_hash seen job.expected && size_is seen job.total

abbrev pub is_ready : Option Phase → Bool
is_ready (some ready) = true
is_ready _ = false

abbrev pub is_applied : Option Phase → Bool
is_applied (some applied) = true
is_applied _ = false

-- An earlier run came as far as READY, and the file is as it shall be.
unfoldable pub is_already : Job → Option Phase → Option Seen → Bool
unfolding is_adopted
is_already job phase seen =
    is_ready phase && (is_adopted job seen || not (is_there job.expected) && not (is_there seen))

-- The file is as the index remembers it.
unfoldable pub is_unchanged : Option Text → Option Seen → Bool
is_unchanged old_hash seen =
    has_hash seen old_hash || not (is_there old_hash) && not (is_there seen)

-- The hash that a choice of a version has accepted, empty where there was no file.
abbrev pub is_accepted : Option Seen → Text → Bool
is_accepted none accepted = length accepted == 0
is_accepted (some seen) accepted = not (length accepted == 0) && text_eq seen.hash accepted

abbrev slash_to_backslash : ℕ → ℕ
slash_to_backslash ch = if ch == b'/' then b'\\' else ch

abbrev pub chosen : Text → Option Text → Bool
chosen name none = false
chosen name (some wide) = text_eq wide name

-- The path without a reparse point on it.
abbrev none_reparse : (Text → Bool) → List Text → Bool
none_reparse reparse [] = true
none_reparse reparse (p ∷ ps) = not (reparse p) && none_reparse reparse ps

abbrev sound_path : (Text → Bool) → Text → Option Text
sound_path reparse p =
    if none_reparse reparse (prefixes (take 3 p) (drop 3 p)) then some p else none

abbrev sound_join : (Text → Bool) → Option Text → Option Text
sound_join reparse none = none
sound_join reparse (some p) = sound_path reparse (map slash_to_backslash p)

abbrev path_in : (Text → Bool) → Text → Option Text → Option Text
path_in reparse directory none = none
path_in reparse directory (some name) =
    if sync_relative_path name then sound_join reparse (sy_join directory name) else none

module _ (c : Client) where
  unfoldable pub place_of : Text → Option Text
  unfolding sync_relative_path sy_join prefixes
  place_of relative = path_in c.reparse c.directory (c.wide relative sync_path_cap)

  unfoldable pub target_path : Text → Act Text
  unfolding place_of lift
  target_path relative = or_fail c path (of_option (place_of relative))

  -- A file that is not there must be missing for that reason.
  abbrev pub probe_of : Option File → Act (Option Seen)
  probe_of none = or_fail c path call >> pure none
  probe_of (some file) =
      or_do (unless_cancelled c >> fail c path) (hash_of c file.content) >>= λ hash.
      pure (some (record { hash = hash; size = length file.content % 2 ^ 64; mtime = file.mtime }))

  unfoldable pub probe : Text → Act (Option Seen)
  unfolding ask lift poll
  probe place = from (λ w. w.working place) probe_of

  abbrev pub string : Text → Text → Option Text
  string manifest name = c.outside.json_string manifest name

  abbrev pub with_names : Text → Text → Text → Text → Text → Text → Job
  with_names manifest id dataset relative key kind = record {
    id = id;
    dataset = dataset;
    relative = relative;
    key = key;
    kind = kind;
    expected = string manifest (codes "$.sha256");
    parent = string manifest (codes "$.parent");
    total = unsigned (c.outside.json_int manifest (codes "$.size") (negsuc 0));
  }

  abbrev pub read_names :
      Text → Option Text → Option Text → Option Text → Option Text → Option Text → Option Job
  read_names manifest (some id) (some dataset) (some relative) (some key) (some kind) =
      some (with_names manifest id dataset relative key kind)
  read_names manifest _ _ _ _ _ = none

  -- The names that a manifest must have.
  unfoldable pub job_of : Text → Option Job
  job_of manifest =
      read_names manifest (string manifest (codes "$.id")) (string manifest (codes "$.dataset"))
        (string manifest (codes "$.path")) (string manifest (codes "$.path_key"))
        (string manifest (codes "$.kind"))
