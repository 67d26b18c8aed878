-- ===== src/ConfigJson/Examples.antt =====
-- The theorems on platform/config_json.c at the folder of a first launch.
use nova_desktop.Base.{true, false, [], ◌∷◌, none, some, not, if◌then◌else◌, ◌≡◌, refl, inl}
use nova_desktop.ConfigJson.{
  Bytes, runtime, nova, Folder, same_document, Answers, config_json_commit,
}
use nova_desktop.ConfigJson.Commit.{config_json_commit_lem, IsCommitted}
use nova_desktop.ConfigJson.Loading.{Sql, Reads, config_json_load, loaded, import_json}
use nova_desktop.ConfigJson.Loads.{
  config_json_load_lem, config_json_load-config_json_commit, IsSafe, IsDocument,
}
use nova_desktop.Text.{text_eq, c_str}

abbrev shared : Bytes
shared = 123 ∷ 125 ∷ 10 ∷ []

abbrev old : Bytes
old = 123 ∷ 32 ∷ 125 ∷ []

abbrev first_launch : Folder
first_launch document = if same_document document nova then some old else none

abbrev answers : Answers
answers = record {
  blocked = λ document. false;
  compares = λ document. true;
  writes_temp = λ document. true;
  publishes = λ document. true;
  moves_away = λ document. false;
  restores = λ document. true;
  shared_json = some shared;
  local_json = some shared;
  copy_fails = false;
  sql_commits = true;
  backs_up = λ document. true;
}

-- The database is the document that was imported last.
abbrev sql : Sql Bytes
sql = record {
  valid_json = λ json. true;
  converts = λ json. true;
  initialized = λ json. some true;
  begin = λ db. some db;
  insert_settings = λ json db. some json;
  insert_workspaces = λ json db. some db;
  insert_items = λ json db. some db;
  commit = λ db. some db;
  has_local_state = λ db. false;
  is_local = λ json. true;
  replace_settings = λ json db. some db;
  normalize = λ db. some (false, db);
}

abbrev readable : Reads
readable = record { blocked = λ document. false; reads = λ document. true }

config_json_commit_lem_example :
    IsCommitted answers first_launch runtime (config_json_commit answers first_launch)
config_json_commit_lem_example =
    config_json_commit_lem answers first_launch runtime (λ d. (refl, refl)) (inl refl)

config_json_load_lem_example :
    IsSafe sql first_launch [] (config_json_load sql readable first_launch [])
config_json_load_lem_example = config_json_load_lem sql readable first_launch []

committed : (config_json_commit answers first_launch).0 ≡ true
unfolding config_json_commit
committed = refl

shared-IsDocument : IsDocument sql shared
unfolding text_eq c_str
shared-IsDocument = (refl, refl, refl)

config_json_load-config_json_commit_example :
    config_json_load sql readable (config_json_commit answers first_launch).1 []
    ≡ loaded sql true false [] (import_json sql shared [])
config_json_load-config_json_commit_example =
    config_json_load-config_json_commit sql answers readable first_launch [] shared
      (λ e. (refl, refl)) refl committed shared-IsDocument refl refl refl

-- A replacement of runtime.json that fails and has moved the file away: the commit fails, and the document is not restored.
abbrev moving : Answers
moving = record answers {
  publishes = λ document. not (same_document document runtime);
  moves_away = λ document. true;
}

lost : (config_json_commit moving (λ document. some old)).1 runtime ≡ none
unfolding config_json_commit text_eq
lost = refl
