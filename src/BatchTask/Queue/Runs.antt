-- ===== src/BatchTask/Queue/Runs.antt =====
-- Any sequence of calls on the queue of core/batch_task.c, with the end of the active task as
-- start_next_task and its callers in ui/batch_tasks.c record it, behaves as a bounded FIFO.
use nova_desktop.Base.{
  ℕ, ◌+◌, ◌≡◌, refl, ap, ◌⊎◌, false, not, ◌||◌, List, [], ◌∷◌, ◌++◌, Option, none, some, arith, leb,
  if◌then◌else◌, ℤ, pos, same_int, length, length-take, take-set_more,
}
use nova_desktop.BatchTask.{BatchTask, Added, added, duplicate, invalid, count_or_zero}
use nova_desktop.BatchTask.Queue.{
  BatchTaskQueue, task_limit, is_pending, is_active, is_runnable, batch_task_queue_add,
  batch_task_queue_take, batch_task_queue_cancel, pending, IsValid, Runnable,
}
use nova_desktop.BatchTask.Queue.Fifo.{
  batch_task_queue_add-IsValid, batch_task_queue_take-IsValid, batch_task_queue_cancel-IsValid,
  take-IsTaken, take_none, take_none_why,
}

pub data Call : Type 0 where
  adds : BatchTask → Call
  takes cancels finishes : Call

-- What a call returns.
pub data Reply : Type 0 where
  of_add : Added → Reply
  of_take : Option BatchTask → Reply
  nothing : Reply

pub finish : BatchTaskQueue → BatchTaskQueue
finish queue = record queue { active_id = pos 0 }

-- A FIFO of waiting tasks, and the id of the active one or 0.
pub record Fifo : Type 0 where
  pub waiting : List BatchTask
  pub active : ℤ

abbrev view : BatchTaskQueue → Fifo
view queue = record { waiting = pending queue; active = queue.active_id }

module _ (towlower : ℕ → ℕ) where
  pub step : BatchTaskQueue → Call → Reply × BatchTaskQueue
  step queue (adds value) =
      let (r, queue') = batch_task_queue_add towlower queue value in (of_add r, queue')
  step queue takes = let (r, queue') = batch_task_queue_take queue in (of_take r, queue')
  step queue cancels = (nothing, batch_task_queue_cancel queue)
  step queue finishes = (nothing, finish queue)

  pub fifo_add : Fifo → BatchTask → Added × Fifo
  fifo_add fifo value =
      if not (is_runnable towlower value)
      then (invalid, fifo)
      else if same_int fifo.active value.id || is_pending fifo.waiting value.id
      then (duplicate, fifo)
      else if leb task_limit (length fifo.waiting + is_active fifo.active)
      then (invalid, fifo)
      else (added, record fifo { waiting = fifo.waiting ++ value ∷ [] })

  pub fifo_take : Fifo → List BatchTask → Option BatchTask × Fifo
  fifo_take fifo [] = (none, fifo)
  fifo_take fifo (value ∷ rest) =
      if same_int fifo.active (pos 0)
      then (some value, record { waiting = rest; active = value.id })
      else (none, fifo)

  pub fifo_step : Fifo → Call → Reply × Fifo
  fifo_step fifo (adds value) = let (r, fifo') = fifo_add fifo value in (of_add r, fifo')
  fifo_step fifo takes = let (r, fifo') = fifo_take fifo fifo.waiting in (of_take r, fifo')
  fifo_step fifo cancels = (nothing, record fifo { waiting = [] })
  fifo_step fifo finishes = (nothing, record fifo { active = pos 0 })

  pub run : BatchTaskQueue → List Call → List Reply
  run queue [] = []
  run queue (c ∷ cs) = let (r, queue') = step queue c in r ∷ run queue' cs

  pub fifo_run : Fifo → List Call → List Reply
  fifo_run fifo [] = []
  fifo_run fifo (c ∷ cs) = let (r, fifo') = fifo_step fifo c in r ∷ fifo_run fifo' cs

  never_zero : (ts : List BatchTask) → Runnable towlower ts → is_pending ts (pos 0) ≡ false
  unfolding is_pending
  never_zero [] r = refl
  never_zero (t ∷ ts) r = ground (arith, never_zero ts r.2)

  step-IsValid :
      (queue : BatchTaskQueue) (c : Call)
      → IsValid towlower queue
      → IsValid towlower (step queue c).1
  unfolding step finish
  step-IsValid queue (adds value) v = batch_task_queue_add-IsValid towlower queue v value
  step-IsValid queue takes v = batch_task_queue_take-IsValid towlower queue v
  step-IsValid queue cancels v = (batch_task_queue_cancel-IsValid towlower queue v).0
  step-IsValid queue finishes v = record {
    cells = v.cells;
    counted = v.counted;
    room = ground (arith, v.room);
    distinct = v.distinct;
    runnable = v.runnable;
    active_gone = never_zero (pending queue) v.runnable;
  }

  length-pending :
      (queue : BatchTaskQueue)
      → IsValid towlower queue
      → length (pending queue) ≡ count_or_zero queue.count
  length-pending queue v =
      ground (arith, length-take (count_or_zero queue.count) queue.items, v.cells, v.room)

  add_refines :
      (queue : BatchTaskQueue) (value : BatchTask)
      → IsValid towlower queue
      → (let (r, queue') = batch_task_queue_add towlower queue value in (r, view queue'))
        ≡ fifo_add (view queue) value
  unfolding batch_task_queue_add fifo_add
  add_refines queue value v = ground (
    arith,
    v.counted,
    v.room,
    v.cells,
    length-pending queue v,
    take-set_more (count_or_zero queue.count) queue.items value,
  )

  take_refines :
      (queue : BatchTaskQueue) (r : Option BatchTask × BatchTaskQueue)
      → IsValid towlower queue
      → batch_task_queue_take queue ≡ r
      → (r.0, view r.1) ≡ fifo_take (view queue) (pending queue)
  unfolding fifo_take
  take_refines queue (some value, queue') v e =
      let t = take-IsTaken towlower queue v e in
      rw (t.split, fifo_take) (ground (arith, t.idle, t.active))
  take_refines queue (none, queue') v e = ground (
    arith,
    take_none queue queue' e,
    nothing_taken (pending queue) (
        let w = take_none_why queue queue' v.cells (ground (arith, v.room)) e in
        ground (arith, w, length-pending queue v)),
  )
    where
      nothing_taken :
          (ts : List BatchTask)
          → (same_int queue.active_id (pos 0) ≡ false) ⊎ (length ts ≡ 0)
          → fifo_take (view queue) ts ≡ (none, view queue)
      nothing_taken [] h = refl
      nothing_taken (t ∷ ts) h = ground arith

  step_refines :
      (queue : BatchTaskQueue) (c : Call)
      → IsValid towlower queue
      → (let (r, queue') = step queue c in (r, view queue')) ≡ fifo_step (view queue) c
  unfolding step fifo_step batch_task_queue_cancel finish
  step_refines queue (adds value) v =
      ap (λ (t : Added × Fifo). (of_add t.0, t.1)) (add_refines queue value v)
  step_refines queue takes v =
      ap (λ (t : Option BatchTask × Fifo). (of_take t.0, t.1))
        (take_refines queue (batch_task_queue_take queue) v refl)
  step_refines queue cancels v = refl
  step_refines queue finishes v = refl

  -- No sequence of adds, takes, cancels and ends tells a valid queue from the bounded FIFO of its waiting
  -- tasks: every reply is the same.
  pub run_refines :
      (queue : BatchTaskQueue) (cs : List Call)
      → IsValid towlower queue
      → run queue cs ≡ fifo_run (view queue) cs
  unfolding run fifo_run
  run_refines queue [] v = refl
  run_refines queue (c ∷ cs) v =
      rw (run_refines (step queue c).1 cs (step-IsValid queue c v), ← step_refines queue c v)
