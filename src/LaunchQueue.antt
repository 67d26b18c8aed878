-- ===== src/LaunchQueue.antt =====
-- core/launch_queue.h and core/launch_queue.c: the launch of a workspace's items, one by one. The
-- callback and what it reads and writes through its context are parameters.
pub mod Invariant
pub mod Drive
mod Examples
use nova_desktop.Base.{
  ℕ, ◌+◌, Bool, true, false, ◌||◌, List, ◌++◌, none, some, ltb, ◌==◌, if◌then◌else◌, ℤ, pos, negsuc,
  get_elem?, take, drop,
}
use nova_desktop.Workspace.{AppItem, Workspace, max_apps, count_of}

-- `items` has MAX_APPS cells. The counters start at 0 and only grow, so they are naturals.
pub record LaunchQueue : Type 0 where
  pub items : List AppItem
  pub count : ℕ
  pub next : ℕ
  pub failed : ℕ
  pub running : Bool

-- `w->app_count<1||w->app_count>MAX_APPS`
abbrev pub has_bad_count : ℤ → Bool
has_bad_count (pos n) = ltb n 1 || ltb max_apps n
has_bad_count (negsuc n) = true

pub begin : LaunchQueue → Workspace → Bool × LaunchQueue
begin q w = if q.running || has_bad_count w.app_count then (false, q) else (
  true,
  record q {
    items = take (count_of w.app_count) w.apps ++ drop (count_of w.app_count) q.items;
    count = count_of w.app_count;
    next = 0;
    failed = 0;
    running = true;
  },
)

-- A read beyond the cells is undefined in C.
pub step {ℓ} : {C : Type ℓ} → (AppItem → C → Bool × C) → LaunchQueue → C → Bool × LaunchQueue × C
step launch q context =
    if q.running
    then (elim (get_elem? q.items q.next) [
      | none ↦ (false, q, context)
      | some item ↦
          let (accepted, context') = launch item context in
          let next' = q.next + 1 in
          let running' = if next' == q.count then false else q.running in
          (
            running',
            record q {
              next = next';
              failed = if accepted then q.failed else q.failed + 1;
              running = running';
            },
            context',
          )
    ])
    else (false, q, context)

pub cancel : LaunchQueue → LaunchQueue
cancel q = record q { running = false }
