-- ===== src/ConfigJson.antt =====
-- platform/config_json.c: the documents of the configuration in their folder. The folder gives the content of each document,
-- none where there is no file; what Windows and SQLite answer are parameters, and a call that fails
-- changes nothing but where ReplaceFileW is documented to. Temporary files and error texts are left out.
pub mod Publications
pub mod Commit
pub mod Loading
pub mod Loads
mod Examples
use nova_desktop.Base.{
  ℕ, ◌*◌, Bool, true, false, ◌&&◌, ◌||◌, not, List, [], ◌∷◌, Option, none, some, ◌==◌,
  if◌then◌else◌,
}
use nova_desktop.Text.{text_eq}

abbrev pub Bytes : Type 0
Bytes = List ℕ

pub data Document : Type 0 where
  local runtime base seed nova migration runtime_backup local_backup : Document

abbrev number_of : Document → ℕ
number_of local = 0
number_of runtime = 1
number_of base = 2
number_of seed = 3
number_of nova = 4
number_of migration = 5
number_of runtime_backup = 6
number_of local_backup = 7

abbrev pub same_document : Document → Document → Bool
same_document d e = number_of d == number_of e

abbrev pub Folder : Type 0
Folder = Document → Option Bytes

abbrev pub put : Document → Option Bytes → Folder → Folder
put d content folder e = if same_document e d then content else folder e

abbrev pub is_there : Option Bytes → Bool
is_there none = false
is_there (some content) = true

-- `previous` is the content under the path of the replaced file.
pub record ConfigPublication : Type 0 where
  pub document : Document
  pub json : Bytes
  pub changed : Bool
  pub existed : Bool
  pub published : Bool
  pub previous : Option Bytes

-- What the calls answer: a document cannot be opened though it may be there, it can be read for the comparison, its temporary
-- file is written, it is published, and it is restored.
pub record Answers : Type 0 where
  pub blocked : Document → Bool
  pub compares : Document → Bool
  pub writes_temp : Document → Bool
  pub publishes : Document → Bool
  -- A ReplaceFileW that fails has moved the replaced file to the path of `previous` (ERROR_UNABLE_TO_MOVE_REPLACEMENT_2).
  pub moves_away : Document → Bool
  pub restores : Document → Bool
  -- the snapshots of the database
  pub shared_json : Option Bytes
  pub local_json : Option Bytes
  -- CopyFileW fails for another reason than that the source is missing or the target there
  pub copy_fails : Bool
  pub sql_commits : Bool
  -- CopyFileW and MoveFileExW of config_json_backup
  pub backs_up : Document → Bool

abbrev pub publication : Document → Bytes → Bool → Bool → ConfigPublication
publication document json changed existed = record {
  document = document;
  json = json;
  changed = changed;
  existed = existed;
  published = false;
  previous = none;
}

abbrev same_content : Bool → Option Bytes → Bytes → Bool
same_content compares none json = false
same_content compares (some content) json = compares && text_eq content json

module _ (o : Answers) where
  abbrev with_temp : Document → Bytes → Bool → Option ConfigPublication
  with_temp document json existed =
      if o.writes_temp document then some (publication document json true existed) else none

  unfoldable pub prepare_publication : Folder → Document → Bytes → Option ConfigPublication
  unfolding text_eq
  prepare_publication folder document json =
      if o.blocked document
      then none
      else if same_content (o.compares document) (folder document) json
      then some (publication document json false true)
      else with_temp document json (is_there (folder document))

  abbrev add_prepared :
      Option ConfigPublication → Option (List ConfigPublication) → Option (List ConfigPublication)
  add_prepared none ps = none
  add_prepared (some p) none = none
  add_prepared (some p) (some ps) = some (p ∷ ps)

  unfoldable pub prepare_all : Folder → List (Document × Bytes) → Option (List ConfigPublication)
  unfolding prepare_publication
  prepare_all folder [] = some []
  prepare_all folder ((document, json) ∷ rest) =
      add_prepared (prepare_publication folder document json) (prepare_all folder rest)

  -- ReplaceFileW or MoveFileExW.
  abbrev pub publish : ConfigPublication → Folder → Bool × ConfigPublication × Folder
  publish p folder =
      if o.publishes p.document
      then (
        true,
        record p { published = true; previous = if p.existed then folder p.document else none },
        put p.document (some p.json) folder,
      )
      else (
        false,
        p,
        if o.moves_away p.document && p.existed then put p.document none folder else folder,
      )

  abbrev pub add_published :
      ConfigPublication
      → Bool × List ConfigPublication × Folder
      → Bool × List ConfigPublication × Folder
  add_published p (ok, ps, folder) = (ok, p ∷ ps, folder)

  abbrev pub published_next :
      List ConfigPublication
      → (Folder → Bool × List ConfigPublication × Folder)
      → Bool × ConfigPublication × Folder
      → Bool × List ConfigPublication × Folder
  published_next rest go (ok, p, folder) =
      if ok then add_published p (go folder) else (false, p ∷ rest, folder)

  -- The loop over the publications, up to the first that fails.
  unfoldable pub publish_all :
      List ConfigPublication → Folder → Bool × List ConfigPublication × Folder
  publish_all [] folder = (true, [], folder)
  publish_all (p ∷ ps) folder =
      published_next ps (publish_all ps) (if p.changed then publish p folder else (true, p, folder))

  abbrev pub restore : ConfigPublication → Folder → Folder
  restore p folder =
      if p.published && o.restores p.document
      then put p.document (if p.existed then p.previous else none) folder
      else folder

  -- From the last to the first.
  unfoldable pub restore_all : List ConfigPublication → Folder → Folder
  restore_all [] folder = folder
  restore_all (p ∷ ps) folder = restore p (restore_all ps folder)

  -- Whether the database has committed; otherwise it is rolled back and the documents are restored.
  abbrev pub end_commit : Bool × List ConfigPublication × Folder → Bool × Folder
  end_commit (ok, ps, folder) =
      if ok && o.sql_commits then (true, folder) else (false, restore_all ps folder)

  abbrev pub publish_prepared : Option (List ConfigPublication) → Folder → Bool × Folder
  publish_prepared none folder = (false, folder)
  publish_prepared (some ps) folder = end_commit (publish_all ps folder)

  -- The documents that are written, with those of the first launch.
  abbrev pub documents_of : Bool → Bytes → Bytes → List (Document × Bytes)
  documents_of first shared local_state =
      (local, local_state)
      ∷ (runtime, shared)
      ∷ (if first then (base, shared) ∷ (seed, shared) ∷ [] else [])

  -- CopyFileW with bFailIfExists.
  abbrev pub keep_evidence : Folder → Folder
  keep_evidence folder =
      if is_there (folder migration) then folder else put migration (folder nova) folder

  abbrev pub commit_snapshots : Option Bytes → Option Bytes → Folder → Bool × Folder
  commit_snapshots none local_state folder = (false, folder)
  commit_snapshots (some shared) none folder = (false, folder)
  commit_snapshots (some shared) (some local_state) folder =
      let first : Bool = not (is_there (folder runtime)) && not (o.blocked runtime) in
      if first && o.copy_fails
      then (false, folder)
      else (let folder' : Folder = if first then keep_evidence folder else folder in
          publish_prepared (prepare_all folder' (documents_of first shared local_state)) folder')

  unfoldable pub config_json_commit : Folder → Bool × Folder
  unfolding prepare_all publish_all restore_all
  config_json_commit folder = commit_snapshots o.shared_json o.local_json folder

  abbrev backed_up : Document → Document → Folder → Bool × Folder
  backed_up source target folder =
      if is_there (folder source) && o.backs_up source
      then (true, put target (folder source) folder)
      else (false, folder)

  abbrev backup_next : (Folder → Bool × Folder) → Bool × Folder → Bool × Folder
  backup_next go (ok, folder) = if ok then go folder else (false, folder)

  unfoldable pub config_json_backup : Folder → Bool × Folder
  config_json_backup folder =
      backup_next (backed_up local local_backup) (backed_up runtime runtime_backup folder)
