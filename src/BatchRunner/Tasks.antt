-- ===== src/BatchRunner/Tasks.antt =====
-- The run of a batch task, run_directory and batch_runner_task_logged of platform/batch_runner.c: what is
-- counted and what is reported.
use nova_desktop.Base.{ℕ, ◌+◌, ◌≡◌, ◌⊎◌, List, [], ◌∷◌, Bool, true, false, if◌then◌else◌}
use nova_desktop.Text.{Text}
use nova_desktop.BatchTask.{BatchTask}
use nova_desktop.BatchRunner.{
  RunState, run_none, run_succeeded, run_failed, run_skipped, run_cancelled, Event, event_started,
  event_result, event_skipped, event_cancelled, BatchResult, error_cancelled, no_code,
}

-- The number of steps that ended so.
abbrev pub number : (RunState → Bool) → List (RunState × List Event) → ℕ
number test [] = 0
number test (run ∷ runs) = if test run.0 then number test runs + 1 else number test runs

abbrev pub is_succeeded : RunState → Bool
is_succeeded run_succeeded = true
is_succeeded s = false

abbrev pub is_failed : RunState → Bool
is_failed run_failed = true
is_failed run_none = true
is_failed s = false

abbrev pub is_skipped : RunState → Bool
is_skipped run_skipped = true
is_skipped s = false

abbrev pub is_cancelled : RunState → Bool
is_cancelled run_cancelled = true
is_cancelled s = false

-- The four counters are those of the steps, on top of what was counted.
abbrev Counts : BatchResult → BatchResult → List (RunState × List Event) → Type 0
Counts before r runs =
    (r.success ≡ before.success + number is_succeeded runs)
    × (r.failed ≡ before.failed + number is_failed runs)
    × (r.skipped ≡ before.skipped + number is_skipped runs)
    × (r.cancelled ≡ before.cancelled + number is_cancelled runs)

-- The events of a step fit its state.
abbrev pub Reported : RunState × List Event → Type 0
Reported (run_none, events) = ⊥
Reported (run_skipped, events) = events ≡ event_skipped ∷ []
Reported (run_cancelled, events) =
    (code : ℕ) × (events ≡ event_started ∷ event_cancelled code error_cancelled ∷ [])
Reported (run_succeeded, events) =
    (error : ℕ) × (events ≡ event_started ∷ event_result 0 error ∷ [])
Reported (run_failed, events) =
    (code : ℕ) × (error : ℕ) × ((events ≡ event_started ∷ event_result code error ∷ [])
      ⊎ (events ≡ event_result no_code error ∷ []))
