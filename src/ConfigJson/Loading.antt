-- ===== src/ConfigJson/Loading.antt =====
-- platform/config_json.c: reading the documents into the database, and the import of an old database. What SQLite makes of
-- a document is a parameter over an unknown type of databases; a statement that fails gives none. A transaction that is
-- rolled back leaves the database as it was.
use nova_desktop.Base.{
  ℕ, ◌*◌, Bool, true, false, ◌&&◌, ◌||◌, not, [], ◌∷◌, Option, none, some, ltb, ◌==◌, if◌then◌else◌,
  length, take, drop, ◌>>=◌,
}
use nova_desktop.Text.{text_eq, c_str}
use nova_desktop.ConfigJson.{Bytes, Document, local, runtime, base, nova, Folder, is_there}

-- valid_json, MultiByteToWideChar on a document, and the statements, by what they do.
pub record Sql (D : Type 0) : Type 0 where
  pub valid_json : Bytes → Bool
  pub converts : Bytes → Bool
  pub initialized : Bytes → Option Bool
  pub begin : D → Option D
  pub insert_settings : Bytes → D → Option D
  pub insert_workspaces : Bytes → D → Option D
  pub insert_items : Bytes → D → Option D
  pub commit : D → Option D
  pub has_local_state : D → Bool
  pub is_local : Bytes → Bool
  pub replace_settings : Bytes → D → Option D
  -- with whether a selection was out of range
  pub normalize : D → Option (Bool × D)

-- A document that cannot be opened though it may be there, and one that is read in whole.
pub record Reads : Type 0 where
  pub blocked : Document → Bool
  pub reads : Document → Bool

pub data Found : Type 0 where
  absent : Found
  broken : Found
  found : Bytes → Found

abbrev pub json_limit : ℕ
json_limit = 16 * 1024 * 1024

abbrev pub without_bom : Bytes → Bytes
without_bom json = if text_eq (take 3 json) (239 ∷ 187 ∷ 191 ∷ []) then drop 3 json else json

-- `initialized` and `migrate` are the out values.
pub record Loaded (D : Type 0) : Type 0 where
  pub ok : Bool
  pub db : D
  pub initialized : Bool
  pub migrate : Bool

-- The old database: its path is not there, or is not read, or the calls up to the export of its rows.
pub data OldDatabase : Type 0 where
  no_database : OldDatabase
  unreadable : OldDatabase
  exported : Bool → Option Bytes → OldDatabase

module _ {D : Type 0} (q : Sql D) where
  unfoldable pub import_json : Bytes → D → Option D
  import_json json d =
      q.begin d
      >>= q.insert_settings json
      >>= q.insert_workspaces json
      >>= q.insert_items json
      >>= q.commit

  abbrev pub checked : Bytes → Found
  checked json =
      if q.converts json && length (c_str json) == length json && q.valid_json json
      then found json
      else broken

  abbrev pub content_of : Bool → Option Bytes → Found
  content_of reads none = absent
  content_of reads (some json) =
      if length json == 0 || ltb json_limit (length json) || not reads
      then broken
      else checked (without_bom json)

  unfoldable pub read_document : Reads → Folder → Document → Found
  read_document r folder name =
      if r.blocked name then broken else content_of (r.reads name) (folder name)

  abbrev pub loaded : Bool → Bool → D → Option D → Loaded D
  loaded initialized migrate d none = record {
    ok = false;
    db = d;
    initialized = initialized;
    migrate = migrate;
  }
  loaded initialized migrate d (some d') = record {
    ok = true;
    db = d';
    initialized = initialized;
    migrate = migrate;
  }

  -- `initialized` as the document has it.
  abbrev pub load_json : Bool → Bytes → D → Option Bool → Loaded D
  load_json migrate json d none = loaded false migrate d none
  load_json migrate json d (some initialized) =
      loaded initialized migrate d
        (if initialized then import_json json d else if migrate then some d else none)

  abbrev pub load_found : Bool → D → Found → Loaded D
  load_found migrate d absent = loaded false migrate d (some d)
  load_found migrate d broken = loaded false migrate d none
  load_found migrate d (found json) = load_json migrate json d (q.initialized json)

  -- The document of the time before runtime.json, where there is no baseline.
  abbrev pub load_migration : Reads → Folder → D → Loaded D
  load_migration r folder d =
      if is_there (folder base) || r.blocked base
      then loaded false false d none
      else load_found true d (read_document r folder nova)

  abbrev pub load_runtime : Reads → Folder → D → Found → Loaded D
  load_runtime r folder d absent = load_migration r folder d
  load_runtime r folder d broken = load_found false d broken
  load_runtime r folder d (found json) = load_found false d (found json)

  unfoldable pub config_json_load : Reads → Folder → D → Loaded D
  unfolding read_document import_json
  config_json_load r folder d = load_runtime r folder d (read_document r folder runtime)

  abbrev pub normalized : D → Bool → Option (Bool × D) → Bool × Bool × D
  normalized d migrate none = (false, migrate, d)
  normalized d migrate (some (changed, d')) = (true, migrate || changed, d')

  abbrev pub replaced : D → Bool → Option D → Bool × Bool × D
  replaced d migrate none = (false, migrate, d)
  replaced d migrate (some d') = normalized d' migrate (q.normalize d')

  abbrev pub load_local : D → Bool → Found → Bool × Bool × D
  load_local d migrate absent = (true, migrate, d)
  load_local d migrate broken = (false, migrate, d)
  load_local d migrate (found json) =
      replaced d migrate (if q.is_local json then q.replace_settings json d else none)

  -- TRUE, `migrate` and the database.
  unfoldable pub config_json_load_local : Reads → Folder → D → Bool × Bool × D
  unfolding read_document
  config_json_load_local r folder d =
      load_local d (q.has_local_state d) (read_document r folder local)

  abbrev pub import_export : Bool → Option Bytes → D → Option D
  import_export ok none d = none
  import_export ok (some json) d = if ok && q.valid_json json then import_json json d else none

  abbrev imported : D → Option D → Bool × Bool × D
  imported d none = (false, false, d)
  imported d (some d') = (true, true, d')

  -- TRUE, `imported` and the database.
  unfoldable pub config_json_legacy : OldDatabase → D → Bool × Bool × D
  unfolding import_json
  config_json_legacy no_database d = (true, false, d)
  config_json_legacy unreadable d = (false, false, d)
  config_json_legacy (exported ok json) d = imported d (import_export ok json d)
