-- ===== src/BatchTask/Examples.antt =====
-- core/batch_task.c on a small task and a queue of two.
use nova_desktop.Base.{◌≡◌, ◌↔◌, refl, List, [], ◌∷◌, arith, pos, replicate}
use nova_desktop.Text.{codes}
use nova_desktop.BatchTask.Samples.{lower, build}
use nova_desktop.BatchTask.Target.{batch_task_target_id, Denotes, batch_task_target_id_iff}
use nova_desktop.BatchTask.Queue.{BatchTaskQueue, task_limit}
use nova_desktop.BatchTask.Queue as Queue
use nova_desktop.BatchTask.Queue.Runs.{
  Call, adds, takes, cancels, finishes, run, fifo_run, run_refines,
}

batch_task_target_id_iff_example :
    (batch_task_target_id (codes "nova-batch:42") ≡ 42) ↔ Denotes (codes "nova-batch:42") 42
batch_task_target_id_iff_example = batch_task_target_id_iff (codes "nova-batch:42") 42 (omega arith)

abbrev idle : BatchTaskQueue
idle = record { items = replicate task_limit build; count = pos 0; active_id = pos 0 }

idle-IsValid : Queue.IsValid lower idle
unfolding Queue.is_pending
idle-IsValid = record {
  cells = refl;
  counted = refl;
  room = omega arith;
  distinct = tt;
  runnable = tt;
  active_gone = refl;
}

abbrev calls : List Call
calls = adds build ∷ adds build ∷ takes ∷ takes ∷ finishes ∷ cancels ∷ takes ∷ []

run_refines_example :
    run lower idle calls ≡ fifo_run lower (record { waiting = []; active = pos 0 }) calls
run_refines_example = run_refines lower idle calls idle-IsValid
