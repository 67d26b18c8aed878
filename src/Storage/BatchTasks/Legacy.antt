-- ===== src/Storage/BatchTasks/Legacy.antt =====
-- The one batch task of older versions in platform/storage.c, and store_load_batch_tasks, which takes it
-- over where there are no tasks.
use nova_desktop.Base.{
  ℕ, zero, suc, ◌+◌, ◌-◌, Bool, not, List, [], ◌∷◌, Option, none, some, ltb, ◌==◌, if◌then◌else◌,
  pos, count_in, length, take, replicate,
}
use nova_desktop.Text.{Text, Buffer, c_str, codes, first}
use nova_desktop.Decimal.Signed.{print_int}
use nova_desktop.BatchTask.{
  BatchTask, Added, added, duplicate, invalid, directory_limit, directory_cap, command_cap,
  name_cap, batch_task_is_valid, batch_task_add_directory, count_or_zero,
}
use nova_desktop.Storage.{
  Store, M, ◌>>=◌, ◌>>◌, pure, require, loaded, in_transaction, store_clear, Entry, write_each,
  write_all, in_section, numbered, store_count, get_text, get_int, or_fail,
}
use nova_desktop.Storage.BatchTasks.{
  BatchTaskList, task_limit, tasks_scope, filled, zeroed, store_save_batch_tasks, after_save,
  load_stored_tasks,
}

abbrev pub task_scope : Text
task_scope = codes "batch_git_pull_main"

abbrev pub default_command : Text
default_command = codes "git pull origin main"

-- `task->directories[i]` from the index `i`.
abbrev directory_entries : ℕ → List Buffer → List Entry
directory_entries i [] = []
directory_entries i (d ∷ ds) =
    (codes "Task", numbered (codes "Directory") i, c_str d) ∷ directory_entries (i + 1) ds

unfoldable pub write_batch_task : BatchTask → M (Unit {0})
write_batch_task task =
    write_each (store_clear task_scope) task_scope (
      in_section (codes "Task") (
        (codes "Command", c_str task.command)
        ∷ (codes "DirectoryCount", print_int task.directory_count)
        ∷ []))
    >> write_all task_scope
        (directory_entries 0 (take (count_or_zero task.directory_count) task.directories))

-- The first list: the task of older versions with a name, and with a command if it has none.
abbrev pub first_list : Text → BatchTask → BatchTaskList
first_list first_name task = record {
  count = pos 1;
  tasks =
      record task {
        name = filled name_cap first_name;
        command =
            if first task.command == 0 then filled command_cap default_command else task.command;
      }
      ∷ replicate (task_limit - 1) zeroed;
}

-- `batch_task_add_directory(task,directory)!=1` fails.
abbrev pub if_added : Added × BatchTask → Option BatchTask
if_added (added, task) = some task
if_added (duplicate, task) = none
if_added (invalid, task) = none

module _ (towlower : ℕ → ℕ) where
  unfoldable pub store_save_batch_task : BatchTask → M (Unit {0})
  unfolding write_batch_task
  store_save_batch_task task s =
      if not (batch_task_is_valid towlower task)
      then (none, s)
      else in_transaction (write_batch_task task) s

  abbrev pub added_task : Text → BatchTask → Option BatchTask
  added_task directory task = if_added (batch_task_add_directory towlower task directory)

  -- The loop of store_load_batch_task from its index `i`, with `n` rounds left.
  unfoldable pub add_directories : BatchTask → ℕ → ℕ → M BatchTask
  add_directories task i zero = pure task
  add_directories task i (suc n) =
      get_text task_scope (codes "Task") (numbered (codes "Directory") i) [] directory_cap
      >>= λ directory.
          or_fail (added_task directory task) >>= λ task'. add_directories task' (i + 1) n

  unfoldable pub store_load_batch_task : M BatchTask
  unfolding add_directories
  store_load_batch_task = do
    command ← get_text task_scope (codes "Task") (codes "Command") default_command (command_cap + 1)
    require (ltb (length command) command_cap)
    directory_count ← get_int task_scope (codes "Task") (codes "DirectoryCount") (pos 0)
    count ← or_fail (count_in directory_count directory_limit)
    add_directories (record zeroed { command = filled command_cap command }) 0 count

  module _ (new_id : ℕ → ℕ) (first_name : Text) where
    unfoldable pub load_first_list : M BatchTaskList
    unfolding store_load_batch_task
    load_first_list = store_load_batch_task >>= λ task s.
        after_save (store_save_batch_tasks towlower new_id (first_list first_name task) s)

    -- The result, and what the out argument holds.
    unfoldable pub store_load_batch_tasks : BatchTaskList → Store → (Bool × BatchTaskList) × Store
    unfolding load_first_list
    store_load_batch_tasks old s = loaded old (
        (store_count tasks_scope >>= λ rows.
        if rows == 0 then load_first_list else load_stored_tasks towlower new_id)
          s)
