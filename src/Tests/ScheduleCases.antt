-- ===== src/Tests/ScheduleCases.antt =====
-- The schedules of src/scheduler at concrete definitions.
use owner_operator.Prelude.{
  map, List, if◌then◌else◌, ℕ, ◌+◌, ◌*◌, ◌≤◌, ◌<◌, String, ◌≡◌, refl, ◌⊎◌, true, false, Option,
  none, some, [], ◌∷◌, arith, whole,
}
use owner_operator.Schedule.{CronRuns, compute_next_run_at, count_missed_occurrences, cron, every}
use owner_operator.Schedule.Every.{compute_next_run_at-every, count_missed_occurrences-every}
use owner_operator.Schedule.Cron.{
  Counted, Later, compute_next_run_at-Later, count_missed_occurrences-cron,
}
use owner_operator.Schedules.{
  ScheduleOutcome, ScheduleRun, completed, running, create_schedule_run, finish_schedule_run,
  schedule_by_id, ScheduleDefinition, Schedules, claim_scheduled_run, command, manual,
  new_schedule_run, scheduled,
}
use owner_operator.Scheduler.{Ticked, claimed, failed, skipped, tick_schedule}
use owner_operator.Scheduler.Runtime.{
  Event, Runtime, done, due, end_execution, enqueue, execute, is_running, manual_request, next,
  run_now, runtime_after, runtime_step, tick,
}
use owner_operator.Scheduler.Holders.{current, runtime_after-holders, waiting}
use owner_operator.Scheduler.Steps.{replay, reschedule, start_run}
use owner_operator.Scheduler.Once.{claim_scheduled_run-once}

-- No text is a timestamp; every cron expression occurs each second.
abbrev no_dates : String → Option ℕ
no_dates text = none

abbrev each_second : CronRuns
each_second expression zone after = some (some (after + 1000))

each_second-Later : (expression zone : String) → Later (each_second expression zone)
each_second-Later expression zone t u e = ground arith

compute_next_run_at-every_example :
    (t : ℕ) × (some 7000 ≡ some t)
    × (5500 < t)
    × ((t ≡ 1000) ⊎ (t ≤ 5500 + 2000))
    × ((k : ℕ) × (t ≡ 1000 + k * 2000))
unfolding compute_next_run_at
compute_next_run_at-every_example =
    compute_next_run_at-every no_dates each_second 2000 1000 5500 (some 7000) refl

count_missed_occurrences-every_example : some 9000 ≡ some (1000 + 1 * 2000 + (2 + 1) * 2000)
unfolding compute_next_run_at count_missed_occurrences
count_missed_occurrences-every_example =
    count_missed_occurrences-every no_dates each_second 2000 1000 1 7500 2 (some 9000) (omega arith)
      refl refl

compute_next_run_at-Later_example : 500 < 1500
unfolding compute_next_run_at
compute_next_run_at-Later_example =
    compute_next_run_at-Later no_dates each_second (cron "* * * * * *" "UTC") 500 1500
      each_second-Later refl

count_missed_occurrences-cron_example :
    Counted
      (each_second "* * * * * *" "UTC")
      1000
      3500
      0
      (count_missed_occurrences each_second (cron "* * * * * *" "UTC") 1000 3500)
count_missed_occurrences-cron_example =
    count_missed_occurrences-cron each_second "* * * * * *" "UTC" 1000 3500
      (each_second-Later "* * * * * *" "UTC") (omega arith)

abbrev report : ScheduleDefinition
report = record {
  id = "s";
  name = "report";
  enabled = true;
  trigger = every (whole 2000) (whole 1000);
  payload = command ("report" ∷ []);
  cwd = "/work";
  timeout_seconds = 60;
  revision = 1;
  created_at = 0;
  updated_at = 0;
  next_run_at = some 3000;
}

abbrev tables : Schedules
tables = record { schedules = record { definition = report; deleted_at = none } ∷ []; runs = [] }

claim_scheduled_run-once_example :
    (claim_scheduled_run 5000 "r2" report 3000 (some 7000) true (
      replay no_dates each_second
        ((3200, start_run "m" report manual none) ∷ (3300, reschedule "s" (some 3000) true 2) ∷ [])
        (claim_scheduled_run 3100 "r1" report 3000 (some 5000) true tables).0)).1
    ≡ none
unfolding claim_scheduled_run
claim_scheduled_run-once_example =
    claim_scheduled_run-once no_dates each_second 3100 5000 "r1" "r2" report 3000 3000 (some 5000)
      (some 7000) true true
      ((3200, start_run "m" report manual none) ∷ (3300, reschedule "s" (some 3000) true 2) ∷ [])
      tables (new_schedule_run 3100 "r1" report scheduled (some 3000)) (omega arith) refl refl

abbrev tables_in : Ticked → Schedules
tables_in (claimed db run) = db
tables_in (skipped db) = db
tables_in failed = tables

abbrev completed_outcome : ScheduleOutcome
completed_outcome = record {
  status = completed;
  exit_code = some 0;
  stdout_tail = some "";
  stderr_tail = some "";
  error = none;
  transcript_id = none;
}

-- The schedule falls due while another execution is in progress, and is asked for by hand before its
-- turn comes.
abbrev overtaken : List (ℕ × Event)
overtaken =
    (3100, due "r1" report)
    ∷ (3200, manual_request "m1" "s")
    ∷ (3300, next)
    ∷ (3300, next)
    ∷ (3400, done completed_outcome)
    ∷ []

abbrev fresh : Runtime
fresh = record { tables = tables; running = []; queue = []; executing = none; stopping = false }

runtime_after-holders_example :
    current "s" (runtime_after no_dates each_second overtaken fresh).executing
      + waiting "s" (runtime_after no_dates each_second overtaken fresh).queue
    ≡ (if is_running "s" (runtime_after no_dates each_second overtaken fresh).running then 1 else 0)
runtime_after-holders_example = runtime_after-holders no_dates each_second overtaken tables "s"

-- The claimed run is never finished: nothing waits or executes, and its row still runs.
overtaken_run :
    ((runtime_after no_dates each_second overtaken fresh).queue ≡ [])
    × ((runtime_after no_dates each_second overtaken fresh).executing ≡ none)
    × (map
          (λ (r : ScheduleRun). r.status)
          (runtime_after no_dates each_second overtaken fresh).tables.runs
        ≡ running ∷ completed ∷ [])
unfolding runtime_after runtime_step tick run_now execute end_execution enqueue tick_schedule
    compute_next_run_at count_missed_occurrences claim_scheduled_run create_schedule_run
    finish_schedule_run schedule_by_id
overtaken_run = (refl, refl, refl)
