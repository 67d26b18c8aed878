-- ===== src/SyncStore/Import.antt =====
-- sync_settings_import of platform/sync_settings.c: the settings in a file of JSON. What Windows reads from the file,
-- whether its bytes are UTF-8, and what the JSON functions of SQLite answer are parameters.
pub mod Checks
use nova_desktop.Base.{
  ℕ, zero, suc, ◌+◌, ◌*◌, Bool, true, false, ◌&&◌, ◌||◌, not, List, [], ◌∷◌, ◌++◌, Option, none,
  some, ◌>>=◌, ◌>>◌, guard, ltb, ◌==◌, if◌then◌else◌, ℤ, pos, count_in, is_positive, length,
}
use nova_desktop.Text.{Text, c_str, codes, text_eq, first, has_char, strip_prefix}
use nova_desktop.Decimal.{to_decimal}
use nova_desktop.SyncModel.{
  SyncPair, SyncSettings, pair_limit, id_cap, sync_name_cap, sync_path_cap, filter_cap,
  sync_settings_default, sync_settings_valid,
}
use nova_desktop.SyncStore.{filled, whole_number, settings_of, Header}

abbrev pub Bytes : Type 0
Bytes = List ℕ

-- A value that a query yields: whether it is a text, and its characters.
pub record Value : Type 0 where
  pub is_text : Bool
  pub cells : Text

-- What the queries answer for a document and a path; none where a call of SQLite fails or there is no
-- row.
pub record Queries : Type 0 where
  -- `SELECT json_extract(?1,?2)`
  pub extract : Bytes → Text → Option Value
  -- The first query: whether the tests hold, the number of folders, and the flag `registered`.
  pub summary : Bytes → Option (Bool × ℤ × Bool)
  -- `SELECT json_type(?1,?2),json_extract(?1,?2)`: the type, and whether the value is not 0.
  pub flag_at : Bytes → Text → Option (Option Text × Bool)
  -- `SELECT type,value FROM json_each(?1,?2)`: the rows of an array, none where it is not prepared.
  pub each : Bytes → Text → Option (List Value)

-- The file as it is found: its size, and the bytes that are read.
pub record Found : Type 0 where
  pub size : ℕ
  pub bytes : Bytes

-- `size.QuadPart>0&&size.QuadPart<1024*1024` and all bytes are read.
unfoldable pub document : Found → Option Bytes
document file =
    if ltb 0 file.size && ltb file.size (1024 * 1024) && length file.bytes == file.size
    then some file.bytes
    else none

abbrev byte_order_mark : Bytes
byte_order_mark = 239 ∷ 187 ∷ 191 ∷ []

-- Without a byte order mark at its front.
abbrev or_whole : Bytes → Option Bytes → Bytes
or_whole json none = json
or_whole json (some rest) = rest

unfoldable pub without_mark : Bytes → Bytes
without_mark json = or_whole json (strip_prefix byte_order_mark json)

-- `$.folders[%d].%s`
abbrev pub folder_path : ℕ → Text → Text
folder_path i key = codes "$.folders[" ++ to_decimal i ++ codes "]." ++ key

abbrev true_or_false : Option Text × Bool → Option Bool
true_or_false (none, value) = none
true_or_false (some type, value) =
    if text_eq type (codes "true") || text_eq type (codes "false") then some value else none

-- The loop over the patterns; `joined` are those before, with semicolons between them.
unfoldable pub join_patterns : Text → List Value → Option Text
join_patterns joined [] = some joined
join_patterns joined (value ∷ values) =
    let pattern = c_str value.cells in
    let next = if length joined == 0 then pattern else joined ++ codes ";" ++ pattern in
    let rest = join_patterns next values in
    if value.is_text
      && length pattern == length value.cells
      && not (has_char pattern b';')
      && ltb (length joined + length pattern + 2) filter_cap
    then rest
    else none

-- `hint[0]&&end&&!*end&&!errno&&id>0`
abbrev pub hinted : Text → Option ℤ
hinted hint = do
  guard (not (first hint == 0))
  id ← whole_number hint
  guard (is_positive id)
  some id

-- The id of the server, 0 where the file has none.
abbrev pub server_hint : Option Text → Option ℤ
server_hint none = some (pos 0)
server_hint (some hint) = hinted hint

-- `!wcscmp(role,L"A")||!wcscmp(role,L"B")`, and `role[0]==L'B'`.
abbrev pub role_of : Text → Option ℤ
role_of role =
    if text_eq role (codes "A")
    then some (pos 0)
    else if text_eq role (codes "B")
    then some (pos 1)
    else none

abbrev pub checked_summary : Bool × ℤ × Bool → Option (ℕ × Bool)
checked_summary (ok, folders, registered) = do
  guard ok
  count ← count_in folders pair_limit
  some (count, registered)

module _ (q : Queries) (json : Bytes) where
  -- The string at a path, if it is a text without a terminator inside that fits.
  unfoldable pub json_wide : Text → ℕ → Option Text
  json_wide path capacity = do
    value ← q.extract json path
    guard value.is_text
    guard (ltb (length value.cells) capacity)
    guard (length (c_str value.cells) == length value.cells)
    some (c_str value.cells)

  -- One folder. Its pair starts paused.
  unfoldable pub import_pair : ℕ → Option SyncPair
  unfolding json_wide join_patterns filled
  import_pair i = do
    id ← json_wide (folder_path i (codes "id")) id_cap
    dataset ← json_wide (folder_path i (codes "dataset")) id_cap
    name ← json_wide (folder_path i (codes "name")) sync_name_cap
    group ← json_wide (folder_path i (codes "group_name")) sync_name_cap
    directory ← json_wide (folder_path i (codes "path")) sync_path_cap
    found ← q.flag_at json (folder_path i (codes "sync_deletes"))
    deletes ← true_or_false found
    patterns ← q.each json (folder_path i (codes "excludes"))
    excludes ← join_patterns [] patterns
    some (record {
      id = filled id_cap id;
      dataset = filled id_cap dataset;
      name = filled sync_name_cap name;
      group = filled sync_name_cap group;
      directory = filled sync_path_cap directory;
      excludes = filled filter_cap excludes;
      paused = true;
      sync_deletes = deletes;
    })

  unfoldable pub import_pairs : ℕ → ℕ → Option (List SyncPair)
  unfolding import_pair
  import_pairs i zero = some []
  import_pairs i (suc n) = do p ← import_pair i; ps ← import_pairs (i + 1) n; some (p ∷ ps)

  -- The number of folders, and all but the pairs.
  unfoldable pub import_header : Option (ℕ × Header)
  unfolding json_wide
  import_header = do
    answer ← q.summary json
    (count, registered) ← checked_summary answer
    node_id ← json_wide (codes "$.identity.node_id") id_cap
    name ← json_wide (codes "$.identity.name") sync_name_cap
    role_text ← json_wide (codes "$.identity.role") 8
    role ← role_of role_text
    project ← json_wide (codes "$.connection.remote_project") sync_path_cap
    broker ← json_wide (codes "$.connection.remote_root") sync_path_cap
    server_id ← server_hint (json_wide (codes "$.nova_server_id") 32)
    some (
      count,
      record {
        server_instance = [];
        count = pos count;
        role = role;
        interval = sync_settings_default.interval;
        registered = registered;
        server_id = server_id;
        node_id = node_id;
        name = name;
        project = project;
        broker = broker;
      },
    )

  -- The settings before they are checked. The strings that no query fills are those of the defaults.
  unfoldable pub import_next : Option SyncSettings
  unfolding import_header import_pairs
  import_next = do
    (count, header) ← import_header
    pairs ← import_pairs 0 count
    some (settings_of (record header { count = pos count }) count pairs)

-- The text of the file, in which a terminator would end the document early.
unfoldable pub json_of : (Bytes → Bool) → Found → Option Bytes
unfolding document without_mark
json_of is_utf8 file = do
  bytes ← document file
  guard (length (c_str (without_mark bytes)) == length (without_mark bytes))
  guard (is_utf8 (without_mark bytes))
  some (without_mark bytes)

abbrev pub accepted_settings : (ℕ → ℕ) → Option SyncSettings → Option SyncSettings
accepted_settings towlower imported_settings = do
  next ← imported_settings
  guard (sync_settings_valid towlower next)
  some next

-- The result, and the out argument, which changes only where it is TRUE. `opens` is whether SQLite opens
-- a memory database and memory can be had.
abbrev pub imported : SyncSettings → Option SyncSettings → Bool × SyncSettings
imported out none = (false, out)
imported out (some next) = (true, next)

module _ (towlower : ℕ → ℕ) (is_utf8 : Bytes → Bool) (q : Queries) (opens : Bool) where
  unfoldable pub import_document : Found → Option SyncSettings
  unfolding json_of import_next
  import_document file = do
    json ← json_of is_utf8 file
    guard opens
    accepted_settings towlower (import_next q json)

  -- A file that cannot be opened is none.
  unfoldable pub sync_settings_import : Option Found → SyncSettings → Bool × SyncSettings
  unfolding import_document
  sync_settings_import file out = imported out (file >>= import_document)
