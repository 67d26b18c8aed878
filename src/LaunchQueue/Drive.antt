-- ===== src/LaunchQueue/Drive.antt =====
-- A client of core/launch_queue.c that steps until the queue stops.
use nova_desktop.Base.{
  ℕ, zero, suc, ◌+◌, ◌≤◌, ◌<◌, ◌≡◌, refl, ap, Bool, true, false, List, [], ◌∷◌, some, arith,
  if◌then◌else◌, ◌==◌, get_elem?, take, drop, Bool-cases, inl, inr, get_elem?-some, get_elem?-take,
  drop-eq-cons, drop_all, length-take, take-append_exact,
}
use nova_desktop.Workspace.{AppItem, Workspace, max_apps, count_of, items}
use nova_desktop.Workspace.Invariant as Workspaces
use nova_desktop.LaunchQueue.{LaunchQueue, begin, step}
use nova_desktop.LaunchQueue.Invariant.{IsValid, begin-IsValid, step-IsValid}

-- The items of the snapshot that are still to be launched.
abbrev pub pending : LaunchQueue → List AppItem
pending q = drop q.next (take q.count q.items)

module _ {C : Type 0} (launch : AppItem → C → Bool × C) where
  -- `while(launch_queue_step(q,launch,context));` for at most so many rounds.
  unfoldable pub drive : ℕ → LaunchQueue → C → LaunchQueue × C
  drive zero q context = (q, context)
  drive (suc rounds) q context =
      let (more, q', context') = step launch q context in
      let rest = drive rounds q' context' in if more then rest else (q', context')

  -- Each item once, in order: how many were not accepted, and the context that is left.
  unfoldable pub launch_all : List AppItem → C → ℕ × C
  launch_all [] context = (0, context)
  launch_all (item ∷ rest) context =
      let (accepted, context') = launch item context in
      let (failures, final) = launch_all rest context' in
      (if accepted then failures else failures + 1, final)

  next_pending :
      (q : LaunchQueue) (item : AppItem)
      → get_elem? q.items q.next ≡ some item
      → q.next < q.count
      → pending q ≡ item ∷ drop (q.next + 1) (take q.count q.items)
  next_pending q item e h =
      drop-eq-cons (take q.count q.items) q.next
        (ground (arith, get_elem?-take q.count q.items q.next))

  none_pending : (n : ℕ) (xs : List AppItem) → drop n (take n xs) ≡ []
  none_pending n xs = drop_all n (take n xs) (omega (arith, length-take n xs))

  -- The queue after one item.
  abbrev after : LaunchQueue → AppItem → C → LaunchQueue
  after q item context = record q {
    next = q.next + 1;
    failed = if (launch item context).0 then q.failed else q.failed + 1;
  }

  step_last :
      (q : LaunchQueue) (item : AppItem) (context : C)
      → q.running ≡ true
      → get_elem? q.items q.next ≡ some item
      → q.next + 1 ≡ q.count
      → step launch q context
        ≡ (false, record (after q item context) { running = false }, (launch item context).1)
  unfolding step
  step_last q item context r e h = ground arith

  step_more :
      (q : LaunchQueue) (item : AppItem) (context : C)
      → q.running ≡ true
      → get_elem? q.items q.next ≡ some item
      → ((q.next + 1) == q.count) ≡ false
      → step launch q context ≡ (true, after q item context, (launch item context).1)
  unfolding step
  step_more q item context r e h = ground arith

  -- As many rounds as items are pending launch each of them once, in order, and stop the queue.
  pub drive_lem :
      (rounds : ℕ) (q : LaunchQueue) (context : C)
      → IsValid q
      → q.running ≡ true
      → q.count ≤ q.next + rounds
      → drive rounds q context ≡ (
        record q {
          next = q.count;
          failed = q.failed + (launch_all (pending q) context).0;
          running = false;
        },
        (launch_all (pending q) context).1,
      )
  unfolding drive launch_all
  drive_lem zero q context v r h = absurd (omega (arith, v.busy r, h))
  drive_lem (suc rounds) q context v r h = elim (Bool-cases ((q.next + 1) == q.count)) [
    | inl last ↦
        rw (step_last q item context r e (ground arith))
          (ground (arith, next_pending q item e (v.busy r), none_pending q.count q.items))
    | inr more ↦ rw (step_more q item context r e more) (
        ground (
          arith,
          drive_lem rounds (after q item context) (launch item context).1
              (rw (ap (λ t. t.1) (step_more q item context r e more)) at
                (step-IsValid launch q context v))
              r (omega arith),
          next_pending q item e (v.busy r),
        ))
  ]
    where
      found : (item : AppItem) × (get_elem? q.items q.next ≡ some item)
      found = get_elem?-some q.items q.next (omega (arith, v.busy r, v.cells, v.within))

      item : AppItem
      item = found.0

      e : get_elem? q.items q.next ≡ some item
      e = found.1

  pending-begin :
      (q : LaunchQueue) (w : Workspace) {q' : LaunchQueue}
      → Workspaces.IsValid w
      → begin q w ≡ (true, q')
      → pending q' ≡ items w
  unfolding begin
  pending-begin q w v e = ground (
    arith,
    v,
    length-take (count_of w.app_count) w.apps,
    take-append_exact (items w) (drop (count_of w.app_count) q.items),
  )

  started :
      (q : LaunchQueue) (w : Workspace) {q' : LaunchQueue}
      → begin q w ≡ (true, q')
      → (q'.running ≡ true) × (q'.count ≡ count_of w.app_count) × (q'.next ≡ 0) × (q'.failed ≡ 0)
  unfolding begin
  started q w e = ground arith

  -- Once a launch of a well-formed workspace has begun, MAX_APPS steps launch each of its items exactly
  -- once, in the order shown, count those that were not accepted, and leave the queue stopped.
  pub begin-drive :
      (q : LaunchQueue) (w : Workspace) (context : C) {q' : LaunchQueue}
      → IsValid q
      → Workspaces.IsValid w
      → begin q w ≡ (true, q')
      → let (end, final) = drive max_apps q' context in
        (final ≡ (launch_all (items w) context).1)
        × (end.failed ≡ (launch_all (items w) context).0)
        × (end.next ≡ count_of w.app_count)
        × (end.running ≡ false)
  begin-drive q w context {q'} v h e =
      let s = started q w e in
      let p = pending-begin q w h e in
      let valid : IsValid q' = rw (ap (λ t. t.1) e) at (begin-IsValid q w v h) in
      rw (drive_lem max_apps q' context valid s.0 (omega (arith, valid.within)), p)
        (refl, omega (arith, s), s.1, refl)
