-- ===== src/Storage/BatchTasks.antt =====
-- The batch tasks in platform/storage.c: the one task of older versions, and the list of tasks with its
-- version. The numbers that store_new_id draws and the name of the first task, which depends on the
-- language, are parameters. Arrays are buffers.
pub mod Legacy
pub mod Checks
pub mod Loads
use nova_desktop.Base.{
  ℕ, zero, suc, ◌+◌, ◌-◌, Bool, true, false, ◌&&◌, ◌||◌, not, List, [], ◌∷◌, ◌++◌, Option, none,
  some, ltb, leb, ◌==◌, if◌then◌else◌, ℤ, pos, negsuc, count_in, same_int, take, drop, replicate,
}
use nova_desktop.Text.{Text, Buffer, c_str, codes, first, wcscpy}
use nova_desktop.Decimal.Signed.{print_int}
use nova_desktop.BatchTask.{
  BatchTask, directory_limit, directory_cap, command_cap, name_cap, all_blank, count_or_zero,
  batch_task_is_valid,
}
use nova_desktop.BatchTask.Target.{target_prefix, batch_task_target_id}
use nova_desktop.Storage.{
  Store, M, ◌>>=◌, ◌>>◌, pure, require, in_transaction, store_clear, write_each, in_section,
  numbered, read_text, read_number,
}

abbrev pub task_limit : ℕ
task_limit = 16

-- `tasks` has all `task_limit` cells.
pub record BatchTaskList : Type 0 where
  pub count : ℤ
  pub tasks : List BatchTask

abbrev pub tasks_scope : Text
tasks_scope = codes "batch_tasks"

abbrev pub collection : Text
collection = codes "Collection"

abbrev pub filled : ℕ → Text → Buffer
filled cap text = wcscpy (replicate cap 0) text

-- A task of zeros.
unfoldable pub zeroed : BatchTask
zeroed = record {
  id = pos 0;
  name = replicate name_cap 0;
  mode = pos 0;
  command = replicate command_cap 0;
  directory_count = pos 0;
  directories = replicate directory_limit (replicate directory_cap 0);
  commands = replicate directory_limit (replicate command_cap 0);
}

abbrev pub not_negative : ℤ → Bool
not_negative (pos n) = true
not_negative (negsuc n) = false

-- The tasks that are used.
abbrev pub used : BatchTaskList → List BatchTask
used tasks = take (count_or_zero tasks.count) tasks.tasks

abbrev pub step_entries : ℕ → Buffer → Buffer → List (Text × Text)
step_entries j directory command =
    (numbered (codes "Directory") j, c_str directory)
    ∷ (numbered (codes "StepCommand") j, c_str command)
    ∷ []

-- The inner loop of save_batch_tasks_impl over the steps of a task.
pub write_steps : Text → ℕ → List Buffer → List Buffer → M (Unit {0})
write_steps section j [] commands = pure tt
write_steps section j (d ∷ ds) [] = pure tt
write_steps section j (d ∷ ds) (c ∷ cs) =
    write_each (pure tt) tasks_scope (in_section section (step_entries j d c))
    >> write_steps section (j + 1) ds cs

abbrev pub task_entries : BatchTask → List (Text × Text)
task_entries t =
    (codes "Id", print_int t.id)
    ∷ (codes "Name", c_str t.name)
    ∷ (codes "Command", c_str t.command)
    ∷ (codes "Mode", print_int t.mode)
    ∷ (codes "DirectoryCount", print_int t.directory_count)
    ∷ []

abbrev pub step_count : BatchTask → ℕ
step_count t = count_or_zero t.directory_count

-- The loop of save_batch_tasks_impl within its transaction.
pub write_tasks : ℕ → List BatchTask → M (Unit {0})
unfolding write_steps
write_tasks i [] = pure tt
write_tasks i (t ∷ ts) =
    write_each (pure tt) tasks_scope (in_section (numbered (codes "Task") i) (task_entries t))
    >> write_steps (numbered (codes "Task") i) 0 (take (step_count t) t.directories)
        (take (step_count t) t.commands)
    >> write_tasks (i + 1) ts

abbrev pub header_entries : BatchTaskList → List (Text × Text)
header_entries tasks =
    (codes "Version", print_int (pos 3)) ∷ (codes "Count", print_int tasks.count) ∷ []

unfoldable pub write_batch_tasks : BatchTaskList → M (Unit {0})
unfolding write_tasks
write_batch_tasks tasks =
    write_each (store_clear tasks_scope) tasks_scope (in_section collection (header_entries tasks))
    >> write_tasks 0 (used tasks)

abbrev pub batch_read_text : Text → Text → ℕ → M Text
batch_read_text section key capacity = read_text tasks_scope section key capacity

abbrev pub batch_read_number : Text → Text → ℕ → M ℕ
batch_read_number section key maximum = read_number tasks_scope section key maximum

-- One step in the loop of store_load_batch_tasks. Versions below 3 know no commands of steps.
pub load_step : ℕ → Text → ℕ → M (Buffer × Buffer)
load_step version section j = do
  directory ← batch_read_text section (numbered (codes "Directory") j) directory_cap
  command ←
      (if leb 3 version
        then batch_read_text section (numbered (codes "StepCommand") j) command_cap
        else pure [])
  pure (filled directory_cap directory, filled command_cap command)

pub load_steps : ℕ → Text → ℕ → ℕ → M (List Buffer × List Buffer)
unfolding load_step
load_steps version section j zero = pure ([], [])
load_steps version section j (suc n) = do
  (d, c) ← load_step version section j
  (ds, cs) ← load_steps version section (j + 1) n
  pure (d ∷ ds, c ∷ cs)

-- `t->id`, which versions below 2 do not know.
pub load_id : ℕ → Text → M ℤ
load_id version section =
    if leb 2 version
    then (do
      identity ← batch_read_text section (codes "Id") 40
      let id = batch_task_target_id (target_prefix ++ identity) in
          do require (not (id == 0)); pure (pos id))
    else pure (pos 0)

-- `tasks[j].id==id` for some task of the list.
unfoldable pub has_id : ℤ → List BatchTask → Bool
has_id id [] = false
has_id id (t ∷ ts) = if same_int t.id id then true else has_id id ts

-- `if(!t->id)t->id=store_new_id();`
abbrev pub with_id : (ℕ → ℕ) → ℕ → BatchTask → BatchTask
with_id new_id i t = if same_int t.id (pos 0) then record t { id = pos (new_id i) } else t

abbrev pub with_ids : BatchTaskList → ℕ → List BatchTask → BatchTaskList
with_ids tasks count prepared = record tasks { tasks = prepared ++ drop count tasks.tasks }

abbrev pub saved_list : BatchTaskList → Option (Unit {0}) × Store → (Bool × BatchTaskList) × Store
saved_list tasks (none, s) = ((false, tasks), s)
saved_list tasks (some _, s) = ((true, tasks), s)

-- The tasks are only taken over where they were saved.
abbrev pub after_save : (Bool × BatchTaskList) × Store → Option BatchTaskList × Store
after_save ((ok, tasks), s) = (if ok then some tasks else none, s)

abbrev pub save_prepared :
    BatchTaskList → ℕ → Bool × List BatchTask → Store → (Bool × BatchTaskList) × Store
save_prepared tasks count (false, prepared) s = ((false, with_ids tasks count prepared), s)
save_prepared tasks count (true, prepared) s =
    saved_list (with_ids tasks count prepared)
      (in_transaction (write_batch_tasks (with_ids tasks count prepared)) s)

abbrev pub list_of : ℕ → List BatchTask → BatchTaskList
list_of count tasks = record {
  count = pos count;
  tasks = tasks ++ replicate (task_limit - count) zeroed;
}

module _ (towlower : ℕ → ℕ) where
  -- `batch_task_is_valid(t)&&t->name[0]&&t->command[0]`
  unfoldable pub usable : BatchTask → Bool
  usable t = batch_task_is_valid towlower t && not (first t.name == 0) && not (first t.command == 0)

  -- `!t->name[wcsspn(t->name,L" \t\r\n")]`, the same of the command, and a task that is not valid.
  unfoldable pub savable : BatchTask → Bool
  savable t =
      batch_task_is_valid towlower t
      && not (all_blank (c_str t.name))
      && not (all_blank (c_str t.command))

  -- One task in the loop of store_load_batch_tasks; `earlier` are the tasks before it. Versions below 2
  -- compare no ids.
  unfoldable pub load_task : ℕ → List BatchTask → Text → M BatchTask
  unfolding load_id load_steps has_id
  load_task version earlier section = do
    id ← load_id version section
    require (ltb version 2 || not (has_id id earlier))
    name ← batch_read_text section (codes "Name") name_cap
    command ← batch_read_text section (codes "Command") command_cap
    mode ← batch_read_number section (codes "Mode") 1
    count ← batch_read_number section (codes "DirectoryCount") directory_limit
    (ds, cs) ← load_steps version section 0 count
    let task : BatchTask = record {
      id = id;
      name = filled name_cap name;
      mode = pos mode;
      command = filled command_cap command;
      directory_count = pos count;
      directories = ds ++ replicate (directory_limit - count) (replicate directory_cap 0);
      commands = cs ++ replicate (directory_limit - count) (replicate command_cap 0);
    } in
        do require (usable task); pure task

  unfoldable pub load_tasks : ℕ → List BatchTask → ℕ → ℕ → M (List BatchTask)
  unfolding load_task
  load_tasks version earlier i zero = pure []
  load_tasks version earlier i (suc n) =
      load_task version earlier (numbered (codes "Task") i) >>= λ t.
      load_tasks version (t ∷ earlier) (i + 1) n >>= λ ts. pure (t ∷ ts)

  module _ (new_id : ℕ → ℕ) where
    -- The first loop of save_batch_tasks_impl: whether it returns, and the tasks with their ids.
    unfoldable pub prepare_tasks : ℕ → List BatchTask → List BatchTask → Bool × List BatchTask
    unfolding savable has_id
    prepare_tasks i earlier [] = (true, [])
    prepare_tasks i earlier (t ∷ ts) =
        let t' = with_id new_id i t in
        let (ok, rest) = prepare_tasks (i + 1) (t' ∷ earlier) ts in
        if not_negative t'.id && not (has_id t'.id earlier) && savable t'
        then (ok, t' ∷ rest)
        else (false, t' ∷ ts)

    abbrev pub save_counted : BatchTaskList → Option ℕ → Store → (Bool × BatchTaskList) × Store
    save_counted tasks none s = ((false, tasks), s)
    save_counted tasks (some count) s =
        save_prepared tasks count (prepare_tasks 0 [] (take count tasks.tasks)) s

    -- The result, and the list, whose tasks have been given ids.
    unfoldable pub store_save_batch_tasks : BatchTaskList → Store → (Bool × BatchTaskList) × Store
    unfolding prepare_tasks write_batch_tasks
    store_save_batch_tasks tasks s = save_counted tasks (count_in tasks.count task_limit) s

    -- Tasks of an older version are saved at once.
    abbrev pub stored_or_saved : ℕ → BatchTaskList → M BatchTaskList
    stored_or_saved version next s =
        if ltb version 3 then after_save (store_save_batch_tasks next s) else (some next, s)

    unfoldable pub load_stored_tasks : M BatchTaskList
    unfolding load_tasks store_save_batch_tasks
    load_stored_tasks = do
      version ← batch_read_number collection (codes "Version") 3
      require (leb 1 version)
      count ← batch_read_number collection (codes "Count") task_limit
      tasks ← load_tasks version [] 0 count
      stored_or_saved version (list_of count tasks)
