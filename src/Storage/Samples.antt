-- ===== src/Storage/Samples.antt =====
-- Stores for the examples.
use nova_desktop.Base.{true, false, [], ◌∷◌, none}
use nova_desktop.Text.{Text, codes}
use nova_desktop.Storage.Table.{Row}
use nova_desktop.Storage.{Store, fine, failing}

-- An open store without rows, to which SQLite refuses nothing.
abbrev pub empty : Store
empty = record {
  is_open = true;
  rows = [];
  snapshot = none;
  transaction_failed = false;
  opening = false;
  open_changed = false;
  outcomes = [];
}

-- The same store, where the second statement is refused.
abbrev pub failing_second : Store
failing_second = record empty { outcomes = fine ∷ failing ∷ [] }

-- One row of a table.
abbrev entry : Text → Text → Text → Text → Row
entry scope section name value = record {
  key = record { scope = scope; section = section; name = name };
  value = value;
}

-- One batch task of version 1, without an id.
abbrev pub task_rows : Store
task_rows = record empty {
  rows =
      entry (codes "batch_tasks") (codes "Collection") (codes "Version") (codes "1")
      ∷ entry (codes "batch_tasks") (codes "Collection") (codes "Count") (codes "1")
      ∷ entry (codes "batch_tasks") (codes "Task0") (codes "Name") (codes "pull")
      ∷ entry (codes "batch_tasks") (codes "Task0") (codes "Command") (codes "git pull")
      ∷ entry (codes "batch_tasks") (codes "Task0") (codes "Mode") (codes "0")
      ∷ entry (codes "batch_tasks") (codes "Task0") (codes "DirectoryCount") (codes "0")
      ∷ [];
}
