-- ===== src/BatchTask/Queue/Fifo.antt =====
-- The queue of core/batch_task.c hands out the waiting tasks in the order in which they were added, and
-- keeps its invariant.
use nova_desktop.Base.{
  ℕ, zero, suc, ◌+◌, ◌-◌, ◌≤◌, ◌<◌, ◌≡◌, refl, ap, ◌∙◌, ◌⊎◌, inl, inr, true, false, List, [], ◌∷◌,
  ◌++◌, Option, none, some, arith, if◌then◌else◌, ℤ, pos, same_int, is_positive, length, set, take,
  take-set_more, take-memmove_first, length-set, length-memmove,
}
use nova_desktop.BatchTask.{BatchTask, added, batch_task_is_valid, count_or_zero}
use nova_desktop.BatchTask.Queue.{
  BatchTaskQueue, task_limit, is_pending, is_active, batch_task_queue_add, take_first,
  batch_task_queue_take, batch_task_queue_cancel, pending, DistinctIds, Runnable, IsValid,
}

is_pending-append :
    (ts : List BatchTask) (t : BatchTask) (id : ℤ)
    → is_pending (ts ++ t ∷ []) id ≡ (if is_pending ts id then true else same_int t.id id)
unfolding is_pending
is_pending-append [] t id = ground arith
is_pending-append (u ∷ ts) t id = ground (arith, is_pending-append ts t id)

same_int_comm : (a b : ℤ) → same_int a b ≡ same_int b a
same_int_comm a b = ground arith

DistinctIds-append :
    (ts : List BatchTask) (t : BatchTask)
    → DistinctIds ts
    → is_pending ts t.id ≡ false
    → DistinctIds (ts ++ t ∷ [])
unfolding is_pending
DistinctIds-append [] t d h = (refl, tt)
DistinctIds-append (u ∷ ts) t d h = (
  ground (arith, is_pending-append ts t u.id, same_int_comm t.id u.id),
  DistinctIds-append ts t d.1 (ground arith),
)

Runnable-append :
    (towlower : ℕ → ℕ) (ts : List BatchTask) (t : BatchTask)
    → Runnable towlower ts
    → batch_task_is_valid towlower t ≡ true
    → is_positive t.id ≡ true
    → Runnable towlower (ts ++ t ∷ [])
Runnable-append towlower [] t r h p = (h, p, tt)
Runnable-append towlower (u ∷ ts) t r h p = (r.0, r.1, Runnable-append towlower ts t r.2 h p)

module _ (towlower : ℕ → ℕ) (queue : BatchTaskQueue) (v : IsValid towlower queue) where
  add_new :
      (value : BatchTask) {queue' : BatchTaskQueue}
      → batch_task_queue_add towlower queue value ≡ (added, queue')
      → (queue' ≡ record queue {
        items = set queue.items (count_or_zero queue.count) value;
        count = pos (count_or_zero queue.count + 1);
      })
        × (is_pending (pending queue) value.id ≡ false)
        × (same_int queue.active_id value.id ≡ false)
        × (count_or_zero queue.count + is_active queue.active_id < task_limit)
        × (batch_task_is_valid towlower value ≡ true)
        × (is_positive value.id ≡ true)
  unfolding batch_task_queue_add
  add_new value e = ground (arith, v.counted, v.room)

  -- An added task is the last to wait.
  pub pending-add :
      (value : BatchTask) {queue' : BatchTaskQueue}
      → batch_task_queue_add towlower queue value ≡ (added, queue')
      → pending queue' ≡ pending queue ++ value ∷ []
  pending-add value e =
      let a = add_new value e in
      rw a.0
        (take-set_more (count_or_zero queue.count) queue.items value (omega (arith, v.cells, a.3)))

-- A take that hands out a task.
pub record IsTaken (queue : BatchTaskQueue) (value : BatchTask) (queue' : BatchTaskQueue)
    : Type 0 where
  pub idle : queue.active_id ≡ pos 0
  pub active : queue'.active_id ≡ value.id
  pub split : pending queue ≡ value ∷ pending queue'
  pub counts : count_or_zero queue'.count + 1 ≡ count_or_zero queue.count
  pub counted : queue'.count ≡ pos (count_or_zero queue'.count)
  pub same_cells : length queue'.items ≡ length queue.items

take_first-IsTaken :
    (queue : BatchTaskQueue) (xs : List BatchTask) (value : BatchTask) (queue' : BatchTaskQueue)
    → queue.items ≡ xs
    → queue.active_id ≡ pos 0
    → 0 < count_or_zero queue.count
    → count_or_zero queue.count ≤ length xs
    → take_first queue xs (count_or_zero queue.count) ≡ (some value, queue')
    → IsTaken queue value queue'
unfolding take_first
take_first-IsTaken queue [] value queue' q i p b e = absurd (omega arith)
take_first-IsTaken queue (x ∷ xs) value queue' q i p b e = record {
  idle = i;
  active = ground arith;
  split = ground (
    arith,
    q,
    take-memmove_first x xs (count_or_zero queue.count - 1),
    take_cons (count_or_zero queue.count) p,
  );
  counts = ground arith;
  counted = ground arith;
  same_cells = ground (arith, q, length-memmove (x ∷ xs) 0 1 (count_or_zero queue.count - 1));
}
  where
    take_cons : (n : ℕ) → 0 < n → take n (x ∷ xs) ≡ x ∷ take (n - 1) xs
    take_cons zero h = absurd (omega arith)
    take_cons (suc n) h = ap (λ k. x ∷ take k xs) (omega arith)

take_first-none :
    (queue : BatchTaskQueue) (xs : List BatchTask) (n : ℕ) (queue' : BatchTaskQueue)
    → take_first queue xs n ≡ (none, queue')
    → queue' ≡ queue
unfolding take_first
take_first-none queue [] n queue' e = ground arith
take_first-none queue (x ∷ xs) n queue' e = ground arith

take_first_nothing :
    (queue : BatchTaskQueue) (xs : List BatchTask) (n : ℕ) (queue' : BatchTaskQueue)
    → take_first queue xs n ≡ (none, queue')
    → length xs ≡ 0
unfolding take_first
take_first_nothing queue [] n queue' e = refl
take_first_nothing queue (x ∷ xs) n queue' e = ground arith

-- A take hands out nothing only while a task is active or none waits.
pub take_none_why :
    (queue queue' : BatchTaskQueue)
    → length queue.items ≡ task_limit
    → count_or_zero queue.count ≤ task_limit
    → batch_task_queue_take queue ≡ (none, queue')
    → (same_int queue.active_id (pos 0) ≡ false) ⊎ (count_or_zero queue.count ≡ 0)
unfolding batch_task_queue_take
take_none_why queue queue' c b e =
    ground (arith, take_first_nothing queue queue.items (count_or_zero queue.count) queue')

-- A take that hands out nothing changes nothing.
pub take_none :
    (queue queue' : BatchTaskQueue) → batch_task_queue_take queue ≡ (none, queue') → queue' ≡ queue
unfolding batch_task_queue_take
take_none queue queue' e =
    ground (arith, take_first-none queue queue.items (count_or_zero queue.count) queue')

module _ (towlower : ℕ → ℕ) (queue : BatchTaskQueue) (v : IsValid towlower queue) where
  pub take-IsTaken :
      {value : BatchTask} {queue' : BatchTaskQueue}
      → batch_task_queue_take queue ≡ (some value, queue')
      → IsTaken queue value queue'
  unfolding batch_task_queue_take
  take-IsTaken {value} {queue'} e =
      take_first-IsTaken queue queue.items value queue' refl (ground arith) (ground arith)
        (ground (arith, v.cells, v.room)) (ground arith)

  added_or_kept :
      (value : BatchTask)
      → ((batch_task_queue_add towlower queue value).0 ≡ added)
        ⊎ ((batch_task_queue_add towlower queue value).1 ≡ queue)
  unfolding batch_task_queue_add
  added_or_kept value = ground arith

  added-IsValid :
      (value : BatchTask) (queue' : BatchTaskQueue)
      → batch_task_queue_add towlower queue value ≡ (added, queue')
      → IsValid towlower queue'
  added-IsValid value queue' e =
      let a = add_new towlower queue v value e in
      let p = pending-add towlower queue v value e in
      record {
        cells =
            ground (arith, a.0, v.cells, length-set queue.items (count_or_zero queue.count) value);
        counted = ground (arith, a.0);
        room = ground (arith, a.0, a.3);
        distinct = rw p (DistinctIds-append (pending queue) value v.distinct a.1);
        runnable = rw p (Runnable-append towlower (pending queue) value v.runnable a.4 a.5);
        active_gone = rw p (
            ground (
              arith,
              a.0,
              is_pending-append (pending queue) value queue.active_id,
              v.active_gone,
              a.2,
              same_int_comm value.id queue.active_id,
              is_pending-append (pending queue) value queue'.active_id,
            ));
      }

  -- Adding keeps the invariant, whether the task is added, a duplicate or refused.
  pub batch_task_queue_add-IsValid :
      (value : BatchTask) → IsValid towlower (batch_task_queue_add towlower queue value).1
  batch_task_queue_add-IsValid value = elim (added_or_kept value) [
    | inl e ↦
        added-IsValid value (batch_task_queue_add towlower queue value).1
          (ap (λ a. (a, (batch_task_queue_add towlower queue value).1)) e)
    | inr e ↦ rw e v
  ]

  taken-IsValid :
      (value : BatchTask) (queue' : BatchTaskQueue)
      → batch_task_queue_take queue ≡ (some value, queue')
      → IsValid towlower queue'
  taken-IsValid value queue' e =
      let t = take-IsTaken e in
      let d : DistinctIds (value ∷ pending queue') = rw t.split at v.distinct in
      let r : Runnable towlower (value ∷ pending queue') = rw t.split at v.runnable in
      record {
        cells = t.same_cells ∙ v.cells;
        counted = t.counted;
        room = ground (arith, t.counts, v.room, t.idle);
        distinct = d.1;
        runnable = r.2;
        active_gone = rw t.active d.0;
      }

  taken_or_kept :
      (r : Option BatchTask × BatchTaskQueue)
      → batch_task_queue_take queue ≡ r
      → IsValid towlower r.1
  taken_or_kept (some value, queue') e = taken-IsValid value queue' e
  taken_or_kept (none, queue') e = rw (take_none queue queue' e) v

  -- So does taking a task, whether there is one or not.
  pub batch_task_queue_take-IsValid : IsValid towlower (batch_task_queue_take queue).1
  batch_task_queue_take-IsValid = taken_or_kept (batch_task_queue_take queue) refl

  -- And cancelling, which leaves no task waiting.
  pub batch_task_queue_cancel-IsValid :
      IsValid towlower (batch_task_queue_cancel queue)
      × (pending (batch_task_queue_cancel queue) ≡ [])
  unfolding batch_task_queue_cancel is_pending
  batch_task_queue_cancel-IsValid = (
    record {
      cells = v.cells;
      counted = refl;
      room = ground (arith, v.room);
      distinct = tt;
      runnable = tt;
      active_gone = refl;
    },
    refl,
  )
