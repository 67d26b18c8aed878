-- ===== src/BatchTask.antt =====
-- core/batch_task.h and core/batch_task.c: a batch task with its directories and commands. Arrays of
-- wide characters are buffers; towlower depends on the locale and is a parameter.
pub mod Target
pub mod Steps
pub mod Directories
pub mod Samples
mod Examples
pub mod Queue
use nova_desktop.Base.{
  ◌>>◌, ◌>>=◌, ℕ, zero, suc, ◌+◌, ◌-◌, Bool, true, false, ◌&&◌, ◌||◌, not, List, [], ◌∷◌, Option,
  none, some, ltb, leb, ◌==◌, if◌then◌else◌, guard, ℤ, pos, negsuc, count_in, index_in, length,
  get_elem?, get_or, modify, take, memmove,
}
use nova_desktop.Text.{Text, Buffer, c_str, bounded, wcscpy, first}

abbrev pub directory_limit : ℕ
directory_limit = 24

abbrev pub directory_cap : ℕ
directory_cap = 260

abbrev pub command_cap : ℕ
command_cap = 2048

abbrev pub name_cap : ℕ
name_cap = 64

pub record BatchTask : Type 0 where
  pub id : ℤ
  pub name : Buffer
  pub mode : ℤ
  pub command : Buffer
  pub directory_count : ℤ
  pub directories : List Buffer
  pub commands : List Buffer

-- The results 1, 0 and -1 of adding.
pub data Added : Type 0 where
  added duplicate invalid : Added

abbrev pub is_separator : ℕ → Bool
is_separator c = c == b'\\' || c == b'/'

-- The loop of normalized_length, from the length of the text down.
pub trimmed_length : Text → ℕ → ℕ
trimmed_length directory zero = zero
trimmed_length directory (suc n) =
    let shorter = trimmed_length directory n in
    if ltb 3 (suc n) && is_separator (get_or directory n 0) then shorter else suc n

pub normalized_length : Text → ℕ
unfolding trimmed_length
normalized_length directory = trimmed_length directory (length directory)

-- `wmemcpy(normalized,directory,length);normalized[length]=0;`
pub normalized : Text → Text
unfolding normalized_length
normalized directory = take (normalized_length directory) directory

abbrev pub is_blank : ℕ → Bool
is_blank c = c == b' ' || c == 9 || c == 13 || c == 10

-- `!s[wcsspn(s,L" \t\r\n")]`
unfoldable pub all_blank : Text → Bool
all_blank [] = true
all_blank (c ∷ cs) = if is_blank c then all_blank cs else false

-- `cells[0]=0`
abbrev pub clear : Buffer → Buffer
clear [] = []
clear (c ∷ cells) = 0 ∷ cells

-- `mode!=BATCH_SEQUENTIAL&&mode!=BATCH_PARALLEL` does not hold.
abbrev pub is_mode : ℤ → Bool
is_mode (pos m) = m == 0 || m == 1
is_mode (negsuc m) = false

-- A negative count leaves no index in range.
abbrev pub count_or_zero : ℤ → ℕ
count_or_zero (pos n) = n
count_or_zero (negsuc n) = 0

module _ (towlower : ℕ → ℕ) where
  pub same_directory : Text → Text → Bool
  same_directory [] [] = true
  same_directory [] (b ∷ bs) = false
  same_directory (a ∷ as') [] = false
  same_directory (a ∷ as') (b ∷ bs) =
      if towlower a == towlower b then same_directory as' bs else false

  -- `same_directory(task->directories[i],normalized)` for some directory of the list.
  pub any_same : List Buffer → Text → Bool
  any_same [] t = false
  any_same (d ∷ ds) t = if same_directory (c_str d) t then true else any_same ds t

  -- The same, but for the directory at `index`.
  pub any_same_but : List Buffer → ℕ → Text → Bool
  any_same_but [] index t = false
  any_same_but (d ∷ ds) zero t = any_same ds t
  any_same_but (d ∷ ds) (suc index) t =
      if same_directory (c_str d) t then true else any_same_but ds index t

  -- `same_directory(task->directories[i],task->directories[j])` for some earlier directory.
  pub any_earlier : Text → List Buffer → Bool
  any_earlier t [] = false
  any_earlier t (d ∷ ds) = if same_directory t (c_str d) then true else any_earlier t ds

  abbrev add_to : BatchTask → ℕ → Text → Added × BatchTask
  add_to task count directory =
      if normalized_length directory == 0
        || leb directory_cap (normalized_length directory)
        || count == directory_limit
      then (invalid, task)
      else if any_same (take count task.directories) (normalized directory)
      then (duplicate, task)
      else (
        added,
        record task {
          directories =
              modify task.directories count (λ cells. wcscpy cells (normalized directory));
          directory_count = pos (count + 1);
        },
      )

  pub batch_task_add_directory : BatchTask → Text → Added × BatchTask
  unfolding any_same normalized
  batch_task_add_directory task directory = elim (count_in task.directory_count directory_limit) [
    | none ↦ (invalid, task)
    | some count ↦ add_to task count directory
  ]

  -- The guards of batch_task_edit_step: the index, where none returns.
  pub edit_index : BatchTask → ℤ → Text → Text → Option ℕ
  edit_index task index directory command = do
    count ← count_in task.directory_count directory_limit
    i ← index_in index count
    guard (not (normalized_length directory == 0))
    guard (not (leb directory_cap (normalized_length directory)))
    guard (not (leb command_cap (length command)))
    guard (not (all_blank command))
    guard (not (any_same_but (take count task.directories) i (normalized directory)))
    some i

  pub batch_task_edit_step : BatchTask → ℤ → Text → Text → Bool × BatchTask
  unfolding edit_index normalized
  batch_task_edit_step task index directory command =
      elim (edit_index task index directory command) [
        | none ↦ (false, task)
        | some i ↦ (
          true,
          record task {
            directories = modify task.directories i (λ cells. wcscpy cells (normalized directory));
            commands = modify task.commands i (λ cells. wcscpy cells command);
          },
        )
      ]

  -- The loop over the steps of batch_task_is_valid; `earlier` are the directories passed.
  pub steps_valid : List Buffer → List Buffer → List Buffer → Bool
  steps_valid earlier [] ds = true
  steps_valid earlier (c ∷ cs) [] = true
  steps_valid earlier (c ∷ cs) (d ∷ ds) =
      bounded c command_cap
      && not (not (first c == 0) && all_blank (c_str c))
      && bounded d directory_cap
      && not (length (c_str d) == 0 || leb directory_cap (length (c_str d)))
      && not (any_earlier (c_str d) earlier)
      && steps_valid (d ∷ earlier) cs ds

  pub batch_task_is_valid : BatchTask → Bool
  unfolding steps_valid
  batch_task_is_valid task = elim (count_in task.directory_count directory_limit) [
    | none ↦ false
    | some count ↦
        is_mode task.mode
        && bounded task.name name_cap
        && bounded task.command command_cap
        && steps_valid [] (take count task.commands) (take count task.directories)
  ]

-- Both arrays close the gap, and the freed last step is cleared.
abbrev remove_step : BatchTask → ℕ → ℕ → BatchTask
remove_step task count i = record task {
  directories = modify (memmove task.directories i (i + 1) (count - i - 1)) (count - 1) clear;
  commands = modify (memmove task.commands i (i + 1) (count - i - 1)) (count - 1) clear;
  directory_count = pos (count - 1);
}

pub batch_task_remove_directory : BatchTask → ℤ → Bool × BatchTask
batch_task_remove_directory task index = elim (count_in task.directory_count directory_limit) [
  | none ↦ (false, task)
  | some count ↦ elim (index_in index count) [
    | none ↦ (false, task)
    | some i ↦ (true, remove_step task count i)
  ]
]

-- `task->commands[index]` for an index in range. The field is an int of any sign.
abbrev own_command : BatchTask → ℤ → Option Buffer
own_command task index = do
  i ← index_in index (count_or_zero task.directory_count)
  get_elem? task.commands i

-- The step's own command, or the task's where that is empty.
pub batch_task_command : BatchTask → ℤ → Text
batch_task_command task index = elim (own_command task index) [
  | none ↦ []
  | some own ↦ if first own == 0 then c_str task.command else c_str own
]
