-- ===== src/BatchTask/Queue.antt =====
-- The queue of pending batch tasks in core/batch_task.h and core/batch_task.c. An add takes a snapshot
-- of the task; one task is active at a time.
pub mod Fifo
pub mod Runs
use nova_desktop.Base.{
  ℕ, ◌+◌, ◌-◌, ◌≤◌, ◌≡◌, Bool, true, false, ◌&&◌, ◌||◌, not, List, [], ◌∷◌, Option, none, some, ltb,
  leb, ◌==◌, if◌then◌else◌, ℤ, pos, count_in, same_int, is_positive, length, set, take, memmove,
}
use nova_desktop.Text.{first}
use nova_desktop.BatchTask.{
  BatchTask, Added, added, duplicate, invalid, batch_task_is_valid, count_or_zero,
}

abbrev pub task_limit : ℕ
task_limit = 16

-- `items` has all `task_limit` cells.
pub record BatchTaskQueue : Type 0 where
  pub items : List BatchTask
  pub count : ℤ
  pub active_id : ℤ

-- `queue->items[i].id==value->id` for some pending task.
unfoldable pub is_pending : List BatchTask → ℤ → Bool
is_pending [] id = false
is_pending (t ∷ ts) id = if same_int t.id id then true else is_pending ts id

-- 1 for a field other than 0.
abbrev pub is_active : ℤ → ℕ
is_active id = if same_int id (pos 0) then 0 else 1

module _ (towlower : ℕ → ℕ) where
  abbrev is_runnable : BatchTask → Bool
  is_runnable value =
      batch_task_is_valid towlower value
      && is_positive value.id
      && not (same_int value.directory_count (pos 0))
      && not (first value.command == 0)

  abbrev add_to_queue : BatchTaskQueue → BatchTask → ℕ → Added × BatchTaskQueue
  add_to_queue queue value count =
      if same_int queue.active_id value.id
      then (duplicate, queue)
      else if is_pending (take count queue.items) value.id
      then (duplicate, queue)
      else if leb task_limit (count + is_active queue.active_id)
      then (invalid, queue)
      else (added, record queue { items = set queue.items count value; count = pos (count + 1) })

  pub batch_task_queue_add : BatchTaskQueue → BatchTask → Added × BatchTaskQueue
  unfolding is_pending
  batch_task_queue_add queue value = elim (count_in queue.count task_limit) [
    | none ↦ (invalid, queue)
    | some count ↦ if is_runnable value then add_to_queue queue value count else (invalid, queue)
  ]

-- `*value=queue->items[0]`, and the rest moves down. Without a first cell C reads beyond the array.
pub take_first : BatchTaskQueue → List BatchTask → ℕ → Option BatchTask × BatchTaskQueue
take_first queue [] count = (none, queue)
take_first queue (value ∷ rest) count = (
  some value,
  record queue {
    items = memmove (value ∷ rest) 0 1 (count - 1);
    count = pos (count - 1);
    active_id = value.id;
  },
)

pub batch_task_queue_take : BatchTaskQueue → Option BatchTask × BatchTaskQueue
unfolding take_first
batch_task_queue_take queue =
    if not (same_int queue.active_id (pos 0))
      || ltb (count_or_zero queue.count) 1
      || ltb task_limit (count_or_zero queue.count)
    then (none, queue)
    else take_first queue queue.items (count_or_zero queue.count)

pub batch_task_queue_cancel : BatchTaskQueue → BatchTaskQueue
batch_task_queue_cancel queue = record queue { count = pos 0 }

-- The tasks that wait, the oldest first.
abbrev pub pending : BatchTaskQueue → List BatchTask
pending queue = take (count_or_zero queue.count) queue.items

-- No two of the tasks have one id.
abbrev pub DistinctIds : List BatchTask → Type 0
DistinctIds [] = Unit
DistinctIds (t ∷ ts) = (is_pending ts t.id ≡ false) × DistinctIds ts

-- Every waiting task has passed the guard of an add.
abbrev pub Runnable : (ℕ → ℕ) → List BatchTask → Type 0
Runnable towlower [] = Unit
Runnable towlower (t ∷ ts) =
    (batch_task_is_valid towlower t ≡ true) × (is_positive t.id ≡ true) × Runnable towlower ts

pub record IsValid (towlower : ℕ → ℕ) (queue : BatchTaskQueue) : Type 0 where
  pub cells : length queue.items ≡ task_limit
  pub counted : queue.count ≡ pos (count_or_zero queue.count)
  pub room : count_or_zero queue.count + is_active queue.active_id ≤ task_limit
  pub distinct : DistinctIds (pending queue)
  pub runnable : Runnable towlower (pending queue)
  pub active_gone : is_pending (pending queue) queue.active_id ≡ false
