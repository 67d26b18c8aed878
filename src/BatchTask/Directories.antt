-- ===== src/BatchTask/Directories.antt =====
-- What batch_task_is_valid of core/batch_task.c accepts, with the cells behind the count.
use nova_desktop.Base.{
  ℕ, zero, suc, ◌≤◌, ◌≡◌, true, [], ◌∷◌, some, arith, pos, length, get_elem?, take, length-take,
}
use nova_desktop.Text.{Buffer, bounded}
use nova_desktop.BatchTask.{
  BatchTask, is_mode, directory_limit, command_cap, name_cap, batch_task_is_valid,
}
use nova_desktop.BatchTask.Steps.{Steps, Apart, steps_valid_iff}

-- An emptied command: it begins with the terminator.
abbrev pub IsEmptied : Buffer → Type 0
IsEmptied [] = ⊥
IsEmptied (zero ∷ rest) = Unit
IsEmptied (suc c ∷ rest) = ⊥

module _ (towlower : ℕ → ℕ) where
  -- What batch_task_is_valid accepts, with all cells there and the unused commands emptied.
  pub record IsValid (task : BatchTask) : Type 0 where
    pub count : ℕ
    pub counted : task.directory_count ≡ pos count
    pub within : count ≤ directory_limit
    pub cells : length task.directories ≡ directory_limit
    pub command_cells : length task.commands ≡ directory_limit
    pub mode_known : is_mode task.mode ≡ true
    pub name_bounded : bounded task.name name_cap ≡ true
    pub command_bounded : bounded task.command command_cap ≡ true
    pub steps : Steps towlower (take count task.commands) (take count task.directories)
    pub apart : Apart towlower (take count task.directories)
    pub unused : (k : ℕ) (c : Buffer) → count ≤ k → get_elem? task.commands k ≡ some c → IsEmptied c

  -- Such a task passes the code's own check.
  pub batch_task_is_valid-IsValid :
      {task : BatchTask} → IsValid task → batch_task_is_valid towlower task ≡ true
  unfolding batch_task_is_valid
  batch_task_is_valid-IsValid {task} v = rw v.counted (
      ground (
        arith,
        v.within,
        v.mode_known,
        v.name_bounded,
        v.command_bounded,
        (steps_valid_iff towlower (take v.count task.commands) (take v.count task.directories) (
              omega (
                arith,
                length-take v.count task.commands,
                length-take v.count task.directories,
                v.cells,
                v.command_cells,
              ))).1
            (v.steps, v.apart),
      ))
