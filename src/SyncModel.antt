-- ===== src/SyncModel.antt =====
-- core/sync_model.h and core/sync_model.c: the saved pairs of folders and data sets, and in the child
-- modules the state that a folder shows, relative paths and chunks. Arrays are buffers with all their
-- cells. towlower depends on the locale and is a parameter.
pub mod Folder
pub mod Identifier
pub mod Relative
pub mod Pairs
pub mod Chunks
pub mod Samples
mod Examples
use nova_desktop.Base.{
  ℕ, ◌+◌, ◌-◌, Bool, true, false, ◌&&◌, ◌||◌, not, List, [], ◌∷◌, none, some, ltb, leb, ◌==◌,
  if◌then◌else◌, ℤ, pos, negsuc, count_in, index_in, length, set, take, replicate, memmove, checked,
}
use nova_desktop.Text.{Text, Buffer, bounded, c_str, codes, first, text_eq, has_any, wcscpy}

-- `(c>='a'&&c<='z')||(c>='A'&&c<='Z')||(c>='0'&&c<='9')||c=='_'||c=='-'`
abbrev pub is_identifier_char : ℕ → Bool
is_identifier_char c =
    (leb b'a' c && leb c b'z')
    || (leb b'A' c && leb c b'Z')
    || (leb b'0' c && leb c b'9')
    || c == b'_'
    || c == b'-'

-- The loop of sync_identifier from its index `n`.
unfoldable pub identifier_from : ℕ → Text → Bool
identifier_from n [] = true
identifier_from n (c ∷ cs) =
    let rest = identifier_from (n + 1) cs in
    if leb 80 n || not (is_identifier_char c) then false else rest

unfoldable pub sync_identifier : Text → Bool
unfolding identifier_from
sync_identifier s = if first s == 0 then false else identifier_from 0 s

abbrev pub pair_limit : ℕ
pair_limit = 16

abbrev pub device_limit : ℕ
device_limit = 16

abbrev pub sync_path_cap : ℕ
sync_path_cap = 2048

abbrev pub id_cap : ℕ
id_cap = 81

abbrev pub sync_name_cap : ℕ
sync_name_cap = 128

abbrev pub filter_cap : ℕ
filter_cap = 1024

pub record SyncPair : Type 0 where
  pub id : Buffer
  pub dataset : Buffer
  pub name : Buffer
  pub group : Buffer
  pub directory : Buffer
  pub excludes : Buffer
  pub paused : Bool
  pub sync_deletes : Bool

-- `pairs` has all `pair_limit` cells.
pub record SyncSettings : Type 0 where
  pub version : ℤ
  pub count : ℤ
  pub role : ℤ
  pub interval : ℤ
  pub server_id : ℤ
  pub registered : Bool
  pub server_instance : Buffer
  pub node_id : Buffer
  pub name : Buffer
  pub project : Buffer
  pub broker : Buffer
  pub pairs : List SyncPair

-- A pair of zeros.
abbrev pub zeroed : SyncPair
zeroed = record {
  id = replicate id_cap 0;
  dataset = replicate id_cap 0;
  name = replicate sync_name_cap 0;
  group = replicate sync_name_cap 0;
  directory = replicate sync_path_cap 0;
  excludes = replicate filter_cap 0;
  paused = false;
  sync_deletes = false;
}

pub sync_settings_default : SyncSettings
unfolding wcscpy
sync_settings_default = record {
  version = pos 1;
  count = pos 0;
  role = pos 0;
  interval = pos 60;
  server_id = pos 0;
  registered = false;
  server_instance = replicate id_cap 0;
  node_id = replicate id_cap 0;
  name = replicate sync_name_cap 0;
  project = wcscpy (replicate sync_path_cap 0) (codes "/opt/nova-sync");
  broker = wcscpy (replicate sync_path_cap 0) (codes "/opt/nova-sync/runtime/broker");
  pairs = replicate pair_limit zeroed;
}

-- `bounded(s,cap)` and an identifier.
abbrev pub bounded_identifier : Buffer → ℕ → Bool
bounded_identifier s cap = bounded s cap && sync_identifier (c_str s)

-- `bounded(s,cap)` and some text of at most 120 characters.
abbrev pub bounded_label : Buffer → Bool
bounded_label s =
    bounded s sync_name_cap && not (first (c_str s) == 0) && leb (length (c_str s)) 120

unfoldable pub pair_valid : SyncPair → Bool
unfolding sync_identifier
pair_valid p =
    bounded_identifier p.id id_cap
    && bounded_identifier p.dataset id_cap
    && bounded_label p.name
    && bounded_label p.group
    && bounded p.directory sync_path_cap
    && not (first (c_str p.directory) == 0)
    && bounded p.excludes filter_cap

-- `low<=value&&value<=high`
abbrev pub within : ℤ → ℕ → ℕ → Bool
within (pos n) low high = leb low n && leb n high
within (negsuc n) low high = false

-- `s[0]&&!sync_identifier(s)` is refused.
abbrev pub identifier_or_empty : Buffer → Bool
identifier_or_empty s = bounded s id_cap && (first (c_str s) == 0 || sync_identifier (c_str s))

-- A remote path of one line.
abbrev pub remote_ok : Buffer → Bool
remote_ok s =
    bounded s sync_path_cap && first (c_str s) == b'/' && not (has_any (c_str s) (13 ∷ 10 ∷ []))

-- The tests of sync_settings_valid before its loop, without that of the count.
unfoldable pub header_valid : SyncSettings → Bool
unfolding sync_identifier
header_valid s =
    identifier_or_empty s.server_instance
    && within s.version 1 1
    && within s.role 0 (device_limit - 1)
    && within s.interval 10 86400
    && not (elim s.server_id [ pos n ↦ false | negsuc n ↦ true ])
    && identifier_or_empty s.node_id
    && bounded s.name sync_name_cap
    && leb (length (c_str s.name)) 100
    && remote_ok s.project
    && remote_ok s.broker
    && not (s.registered && (first (c_str s.node_id) == 0 || first (c_str s.name) == 0))

-- `if(x==L'/')x=L'\\'`
abbrev pub backslash : ℕ → ℕ
backslash x = if x == b'/' then b'\\' else x

-- The next settings of sync_pair_set, before they are checked.
abbrev pub with_pair : SyncSettings → ℕ → ℕ → SyncPair → SyncSettings
with_pair s count index p = record s {
  pairs = set s.pairs index p;
  count = if index == count then pos (count + 1) else pos count;
}

module _ (towlower : ℕ → ℕ) where
  pub equal_path : Text → Text → Bool
  equal_path [] [] = true
  equal_path [] (b ∷ bs) = false
  equal_path (a ∷ as') [] = false
  equal_path (a ∷ as') (b ∷ bs) =
      let rest = equal_path as' bs in
      if towlower (backslash a) == towlower (backslash b) then rest else false

  -- Two pairs with the same identifier, the same data set or the same directory.
  unfoldable pub same_pair : SyncPair → SyncPair → Bool
  unfolding equal_path
  same_pair p q =
      text_eq (c_str p.id) (c_str q.id)
      || text_eq (c_str p.dataset) (c_str q.dataset)
      || equal_path (c_str p.directory) (c_str q.directory)

  unfoldable pub sync_settings_valid : SyncSettings → Bool
  unfolding header_valid same_pair pair_valid
  sync_settings_valid s = elim (count_in s.count pair_limit) [
    | none ↦ false
    | some count ↦ header_valid s && checked pair_valid same_pair [] (take count s.pairs)
  ]

  -- A negative count leaves no index that is not above it.
  pub sync_pair_set : SyncSettings → ℤ → SyncPair → ℤ × SyncSettings
  unfolding sync_settings_valid
  sync_pair_set s (negsuc index) p = (negsuc 0, s)
  sync_pair_set s (pos index) p = elim s.count [
    | negsuc count ↦ (negsuc 0, s)
    | pos count ↦
        if ltb count index || leb pair_limit index
        then (negsuc 0, s)
        else let next = with_pair s count index p in
          if not (sync_settings_valid next) then (negsuc 0, s) else (pos index, next)
  ]

abbrev pub count_of : ℤ → ℕ
count_of (pos n) = n
count_of (negsuc n) = 0

-- The pairs behind move up by one, and the last cell is cleared.
abbrev pub without_pair : SyncSettings → ℕ → SyncSettings
without_pair s index =
    let count = count_of s.count in
    record s {
      pairs = set (memmove s.pairs index (index + 1) (count - index - 1)) (count - 1) zeroed;
      count = pos (count - 1);
    }

pub sync_pair_remove : SyncSettings → ℤ → Bool × SyncSettings
sync_pair_remove s index = elim (index_in index (count_of s.count)) [
  | none ↦ (false, s)
  | some i ↦ (true, without_pair s i)
]
