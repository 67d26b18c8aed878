-- ===== src/LaunchQueue/Invariant.antt =====
-- The counters of core/launch_queue.c stay within the snapshot.
use nova_desktop.Base.{
  ◌≤◌, ◌<◌, ◌≡◌, true, arith, length, take, drop, length-append, length-take, length-drop, Bool,
}
use nova_desktop.Workspace.{AppItem, Workspace, max_apps, count_of}
use nova_desktop.Workspace.Invariant as Workspaces
use nova_desktop.LaunchQueue.{LaunchQueue, begin, step, cancel}

pub record IsValid (q : LaunchQueue) : Type 0 where
  pub cells : length q.items ≡ max_apps
  pub within : q.count ≤ max_apps
  pub next_within : q.next ≤ q.count
  pub failed_within : q.failed ≤ q.next
  pub busy : q.running ≡ true → q.next < q.count

-- Taking a snapshot of a well-formed workspace keeps the queue valid, whether it starts or not.
pub begin-IsValid :
    (q : LaunchQueue) (w : Workspace) → IsValid q → Workspaces.IsValid w → IsValid (begin q w).1
unfolding begin
begin-IsValid q w v h = ground (
  arith,
  v,
  h.cells,
  length-append (take (count_of w.app_count) w.apps) (drop (count_of w.app_count) q.items),
  length-take (count_of w.app_count) w.apps,
  length-drop (count_of w.app_count) q.items,
)

-- A step keeps the counters within the snapshot: next between 0 and count, failed at most next, and a
-- running queue with an item left, whatever the callback answers.
pub step-IsValid {ℓ} :
    {C : Type ℓ} (launch : AppItem → C → Bool × C) (q : LaunchQueue) (context : C)
    → IsValid q
    → IsValid (step launch q context).1
unfolding step
step-IsValid launch q context v = ground (arith, v)

pub cancel-IsValid : (q : LaunchQueue) → IsValid q → IsValid (cancel q)
unfolding cancel
cancel-IsValid q v = ground (arith, v)
