-- ===== src/SyncFiles.antt =====
-- platform/sync_files.c: paths, directories and the hash of a file. The attributes of paths are the state; what
-- CreateDirectoryW, ReadFile and OpenSSL answer are parameters.
pub mod Cache
mod Directories
mod Hashes
mod Examples
use nova_desktop.Base.{
  ℕ, ◌+◌, ◌-◌, ◌*◌, ◌/◌, ◌%◌, ◌^◌, Bool, true, false, ◌&&◌, ◌||◌, not, List, [], ◌∷◌, ◌++◌, Option,
  none, some, ltb, leb, ◌==◌, if◌then◌else◌, length, take, drop,
}
use nova_desktop.Text.{Text, text_eq}
use nova_desktop.SyncModel.{sync_path_cap}

abbrev pub Bytes : Type 0
Bytes = List ℕ

unfoldable pub sy_join : Text → Text → Option Text
sy_join root name =
    if leb sync_path_cap (length root + length name + 2) then none else some (root ++ b'\\' ∷ name)

-- What GetFileAttributesExW tells of a path: nothing, or whether it is a directory, whether it is a reparse point, its size
-- and its last write in ticks of 100 ns.
pub record Attributes : Type 0 where
  pub directory : Bool
  pub reparse : Bool
  pub size : ℕ
  pub ticks : ℕ

abbrev pub Files : Type 0
Files = Text → Option Attributes

abbrev pub is_regular : Option Attributes → Bool
is_regular none = false
is_regular (some a) = not (a.directory || a.reparse)

unfoldable pub sy_regular : Files → Text → Bool
sy_regular files path = is_regular (files path)

-- 1970 in the ticks of Windows, and INT64_MAX.
abbrev pub epoch : ℕ
epoch = 116444736000000000

abbrev pub int64_max : ℕ
int64_max = 2 ^ 63 - 1

abbrev pub meta_of : Option Attributes → Option (ℕ × ℕ)
meta_of none = none
meta_of (some a) =
    if a.directory || a.reparse
    then none
    else if ltb a.ticks epoch || ltb (int64_max / 100) (a.ticks - epoch)
    then none
    else some (a.size, (a.ticks - epoch) * 100)

-- The size and the time of the last write in nanoseconds since 1970.
unfoldable pub sy_meta : Files → Text → Option (ℕ × ℕ)
sy_meta files path = meta_of (files path)

-- What CreateDirectoryW does, and what another program has made of the path in the case of ERROR_ALREADY_EXISTS.
pub data Creation : Type 0 where
  created fails : Creation
  exists : Option Attributes → Creation

abbrev pub new_directory : Attributes
new_directory = record { directory = true; reparse = false; size = 0; ticks = 0 }

abbrev pub set_path : Text → Option Attributes → Files → Files
set_path path a files q = if text_eq q path then a else files q

abbrev pub is_directory : Option Attributes → Bool
is_directory none = false
is_directory (some a) = a.directory && not a.reparse

abbrev pub after_creation : Text → Creation → Files → Option Files
after_creation path created files = some (set_path path (some new_directory) files)
after_creation path fails files = none
after_creation path (exists a) files = some (set_path path a files)

abbrev pub made : Text → Option Attributes → Creation → Files → Option Files
made path (some a) creation files = some files
made path none creation files = after_creation path creation files

abbrev pub if_directory : Text → Option Files → Option Files
if_directory path none = none
if_directory path (some files) = if is_directory (files path) then some files else none

-- One round of the loop.
unfoldable pub make_directory : (Text → Creation) → Text → Files → Option Files
make_directory creation path files =
    if_directory path (made path (files path) (creation path) files)

-- The prefixes that end before a backslash, and the path, from the index where `before` ends.
unfoldable pub prefixes : Text → Text → List Text
prefixes before [] = before ∷ []
prefixes before (c ∷ cs) =
    if c == b'\\' then before ∷ prefixes (before ++ c ∷ []) cs else prefixes (before ++ c ∷ []) cs

abbrev pub and_then : (Files → Option Files) → Option Files → Option Files
and_then f none = none
and_then f (some files) = f files

unfoldable pub make_all : (Text → Creation) → List Text → Files → Option Files
unfolding make_directory
make_all creation [] files = some files
make_all creation (path ∷ paths) files =
    and_then (make_all creation paths) (make_directory creation path files)

-- A path of fewer than 3 characters would be read beyond its end.
unfoldable pub sy_mkdirs : (Text → Creation) → Text → Files → Option Files
unfolding make_all prefixes
sy_mkdirs creation path files =
    if leb sync_path_cap (length path) || ltb (length path) 3
    then none
    else make_all creation (prefixes (take 3 path) (drop 3 path)) files

-- A round of the loop over a file: the cancel event is set, ReadFile fails, or it reads.
pub data Round : Type 0 where
  stops fails_to_read : Round
  reads : Bytes → Round

-- The functions of OpenSSL on the context of a digest, none where they refuse: EVP_DigestInit_ex, EVP_DigestUpdate and
-- EVP_DigestFinal_ex.
pub record Digest (D : Type 0) : Type 0 where
  pub init : Option D
  pub update : D → Bytes → Option D
  pub final : D → Option Bytes

abbrev pub hex_digit : ℕ → ℕ
hex_digit n = if ltb n 10 then b'0' + n else b'a' + (n - 10)

-- `%02x` for each byte.
unfoldable pub hex : Bytes → Text
hex [] = []
hex (b ∷ bs) = hex_digit (b / 16) ∷ hex_digit (b % 16) ∷ hex bs

pub record Hashed : Type 0 where
  pub out : Text
  pub size : ℕ
  pub mtime : ℕ

abbrev pub updated : {D : Type 0} → (D → Option (ℕ × D)) → Option D → Option (ℕ × D)
updated next none = none
updated next (some ctx) = next ctx

module _ {D : Type 0} (evp : Digest D) where
  -- The loop over a file, with the size and the context so far. The rounds end before an empty read in no run of the code.
  unfoldable pub read_all : List Round → ℕ → D → Option (ℕ × D)
  read_all [] total ctx = none
  read_all (stops ∷ rounds) total ctx = none
  read_all (fails_to_read ∷ rounds) total ctx = none
  read_all (reads [] ∷ rounds) total ctx = some (total, ctx)
  read_all (reads (b ∷ bs) ∷ rounds) total ctx =
      updated (read_all rounds ((total + length (b ∷ bs)) % 2 ^ 64)) (evp.update ctx (b ∷ bs))

  abbrev pub digested : ℕ → ℕ → Option Bytes → Option Hashed
  digested size mtime none = none
  digested size mtime (some digest) =
      if length digest == 32
      then some (record { out = hex digest; size = size; mtime = mtime })
      else none

  abbrev pub finished : ℕ × ℕ → Option (ℕ × D) → Option Hashed
  finished (initial, nanos) none = none
  finished (initial, nanos) (some (total, ctx)) =
      if total == initial then digested total nanos (evp.final ctx) else none

  abbrev pub opened : Bool → List Round → Option (ℕ × ℕ) → Option Hashed
  opened opens rounds none = none
  opened opens rounds (some meta) =
      if opens then finished meta (updated (read_all rounds 0) evp.init) else none

  -- `opens` is that the file is open and there is memory.
  unfoldable pub sync_hash_file : Bool → List Round → Files → Text → Option Hashed
  unfolding sy_meta read_all hex
  sync_hash_file opens rounds files path = opened opens rounds (sy_meta files path)
