-- ===== src/Storage/Examples.antt =====
-- The theorems on platform/storage.c at a store without rows, and at one with some.
use nova_desktop.Base.{
  ℕ, zero, suc, ◌≡◌, refl, true, [], ◌∷◌, some, arith, pos, replicate, get_elem?, subst, ◌+◌,
}
use nova_desktop.Text.{IsText, codes, text_eq}
use nova_desktop.FileCommand.{
  FileCommand, FileCommandList, zeroed, file_command_defaults, file_command_list_is_valid, presets,
  entries_valid, is_entry, is_taken, has_text,
}
use nova_desktop.Storage.Samples.{empty}
use nova_desktop.Storage.Reads.{calm}
use nova_desktop.Storage.Samples.{task_rows}
use nova_desktop.BatchTask.Samples.{lower}
use nova_desktop.Storage.BatchTasks.{BatchTaskList}
use nova_desktop.Storage.BatchTasks.Legacy.{store_load_batch_tasks}
use nova_desktop.Storage.BatchTasks.Loads.{LoadedOrKept, store_load_batch_tasks-IsLoaded}
use nova_desktop.Storage.Commands.{
  store_save_file_commands, store_load_file_commands, next_commands,
}
use nova_desktop.Storage.Commands.Loads.{store_save_file_commands_works}
use nova_desktop.Storage.Commands.RoundTrip.{store_load_file_commands-store_save_file_commands}

abbrev one : FileCommandList
one = record {
  items = record { name = codes "git"; command = codes "git status" } ∷ replicate 15 zeroed;
  count = pos 1;
  default_index = pos 0;
}

one-valid : file_command_list_is_valid text_eq one ≡ true
unfolding file_command_list_is_valid entries_valid is_entry is_taken has_text
one-valid = refl

one_texts :
    (i : ℕ) (x : FileCommand)
    → get_elem? (presets one) i ≡ some x
    → IsText x.name × IsText x.command
one_texts zero x e =
    subst (λ y. IsText y.name × IsText y.command)
      (let p : record { name = codes "git"; command = codes "git status" } ≡ x = cc in p)
      (ground arith, ground arith)
one_texts (suc i) x e = cc

one_saved : (store_save_file_commands text_eq one empty).0 ≡ some tt
one_saved = store_save_file_commands_works text_eq one empty refl refl refl one-valid

store_load_file_commands-store_save_file_commands_example :
    let s' = calm (store_save_file_commands text_eq one empty).1 in
    store_load_file_commands text_eq file_command_defaults s'
    ≡ ((true, next_commands 1 0 (presets one)), s')
store_load_file_commands-store_save_file_commands_example =
    store_load_file_commands-store_save_file_commands text_eq file_command_defaults one empty refl
      one_texts refl one_saved

abbrev no_tasks : BatchTaskList
no_tasks = record { count = pos 0; tasks = [] }

store_load_batch_tasks-IsLoaded_example :
    LoadedOrKept lower
      (λ i. i + 1)
      no_tasks
      (store_load_batch_tasks lower (λ i. i + 1) (codes "Task 1") no_tasks task_rows)
store_load_batch_tasks-IsLoaded_example =
    store_load_batch_tasks-IsLoaded lower (λ i. i + 1) (codes "Task 1") no_tasks task_rows
