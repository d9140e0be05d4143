-- ===== src/Scheduler/Runtime.antt =====
-- src/scheduler/scheduler.ts: the queue of executions and the set `running`. One execution runs at a
-- time; `preclaimed` tells that the request has put its schedule into `running` already.
use owner_operator.Prelude.{
  ℕ, String, Bool, true, false, not, ◌&&◌, Option, none, some, List, [], ◌∷◌, ◌++◌, ◌==◌,
  if◌then◌else◌, any, keep,
}
use owner_operator.Schedule.{CronRuns}
use owner_operator.Schedules.{
  ScheduleDefinition, ScheduleOutcome, ScheduleRun, Schedules, create_schedule_run,
  finish_schedule_run, interrupted, manual, schedule_by_id,
}
use owner_operator.Scheduler.{Ticked, claimed, failed, skipped, tick_schedule}

pub record Job : Type 0 where
  pub schedule_id : String
  pub run_id : String
  pub preclaimed : Bool

pub record Runtime : Type 0 where
  pub tables : Schedules
  pub running : List String
  pub queue : List Job
  pub executing : Option Job
  pub stopping : Bool

abbrev pub is_running : String → List String → Bool
is_running id running = any (λ i. i == id) running

-- `running.delete`.
abbrev pub removed : String → List String → List String
removed id running = keep (λ i. not (i == id)) running

-- What `enqueue` rejects is dropped.
unfoldable pub enqueue : Job → Runtime → Runtime
enqueue job s = if s.stopping then s else record s { queue = s.queue ++ job ∷ [] }

abbrev job : (schedule_id run_id : String) → (preclaimed : Bool) → Job
job schedule_id run_id preclaimed = record {
  schedule_id = schedule_id;
  run_id = run_id;
  preclaimed = preclaimed;
}

abbrev pub tick_job : ScheduleDefinition → Ticked → Runtime → Runtime
tick_job schedule (claimed db run) s =
    enqueue (job schedule.id run.id false) (record s { tables = db })
tick_job schedule (skipped db) s = record s { tables = db }
tick_job schedule failed s = s

-- `tick`, for one schedule that is due.
unfoldable pub tick :
    (parse : String → Option ℕ)
    → CronRuns
    → (now : ℕ) → (new_id : String) → ScheduleDefinition
    → Runtime
    → Runtime
tick parse runs now new_id schedule s =
    if s.stopping
    then s
    else tick_job schedule (tick_schedule parse runs now new_id s.running schedule s.tables) s

abbrev pub manual_job : Option (Schedules × ScheduleRun) → (id : String) → Runtime → Runtime
manual_job none id s = s
manual_job (some (db, run)) id s =
    enqueue (job id run.id true) (record s { tables = db; running = id ∷ s.running })

abbrev pub manual_of :
    (now : ℕ) → (new_id : String) → (id : String) → Option ScheduleDefinition → Runtime → Runtime
manual_of now new_id id none s = s
manual_of now new_id id (some schedule) s =
    if is_running id s.running
    then s
    else manual_job (create_schedule_run now new_id schedule manual none s.tables) id s

-- A throw leaves the scheduler as it was.
unfoldable pub run_now : (now : ℕ) → (new_id : String) → (id : String) → Runtime → Runtime
run_now now new_id id s =
    if s.stopping then s else manual_of now new_id id (schedule_by_id id s.tables.schedules) s

abbrev stopped_before_execution : ScheduleOutcome
stopped_before_execution = record {
  status = interrupted;
  exit_code = none;
  stdout_tail = none;
  stderr_tail = none;
  error = some "scheduler stopped before execution";
  transcript_id = none;
}

-- `execute`, from its start to the work: a job whose schedule runs already throws, and is gone.
abbrev pub execute_job : (now : ℕ) → Job → Runtime → Runtime
execute_job now j s =
    if not j.preclaimed && is_running j.schedule_id s.running
    then s
    else if s.stopping
    then record s {
      tables = finish_schedule_run now j.run_id stopped_before_execution s.tables;
      running = removed j.schedule_id s.running;
    }
    else record s {
      running = if j.preclaimed then s.running else j.schedule_id ∷ s.running;
      executing = some j;
    }

abbrev pub start_next : (now : ℕ) → List Job → Option Job → Runtime → Runtime
start_next now queue (some current) s = s
start_next now [] none s = s
start_next now (j ∷ rest) none s = execute_job now j (record s { queue = rest })

-- The chain of promises goes on with the next job.
unfoldable pub execute : (now : ℕ) → Runtime → Runtime
execute now s = start_next now s.queue s.executing s

abbrev pub end_current : (now : ℕ) → Option Job → ScheduleOutcome → Runtime → Runtime
end_current now none outcome s = s
end_current now (some j) outcome s = record s {
  tables = finish_schedule_run now j.run_id outcome s.tables;
  running = removed j.schedule_id s.running;
  executing = none;
}

-- The end of the work: its outcome is recorded, and the schedule runs no more.
unfoldable pub end_execution : (now : ℕ) → ScheduleOutcome → Runtime → Runtime
end_execution now outcome s = end_current now s.executing outcome s

pub data Event : Type 0 where
  due : (new_id : String) → ScheduleDefinition → Event
  manual_request : (new_id id : String) → Event
  next : Event
  done : ScheduleOutcome → Event
  stop : Event

unfoldable pub runtime_step :
    (parse : String → Option ℕ) → CronRuns → (now : ℕ) → Event → Runtime → Runtime
runtime_step parse runs now (due new_id schedule) s = tick parse runs now new_id schedule s
runtime_step parse runs now (manual_request new_id id) s = run_now now new_id id s
runtime_step parse runs now next s = execute now s
runtime_step parse runs now (done outcome) s = end_execution now outcome s
runtime_step parse runs now stop s = record s { stopping = true }

unfoldable pub runtime_after :
    (parse : String → Option ℕ) → CronRuns → List (ℕ × Event) → Runtime → Runtime
runtime_after parse runs [] s = s
runtime_after parse runs ((now, event) ∷ rest) s =
    runtime_after parse runs rest (runtime_step parse runs now event s)
