-- ===== src/Scheduler/Steps.antt =====
-- src/scheduler/scheduler.ts and src/state/database.ts: what changes the tables of the schedules, as
-- steps on them.
use owner_operator.Prelude.{ℕ, String, ◌==◌, any, Bool, false, Option, none, some, List, [], ◌∷◌}
use owner_operator.Schedule.{CronRuns}
use owner_operator.Schedules.{
  ScheduleDefinition, ScheduleOutcome, ScheduleRun, ScheduleRunTrigger, Schedules,
  claim_scheduled_run, create_schedule_run, finish_schedule_run,
  mark_running_schedule_runs_interrupted, soft_delete_schedule, update_schedule_next_run,
}
use owner_operator.Scheduler.{
  ScheduleCreateInput, SaveResult, create_schedule, err, ok, update_schedule,
}

pub data Operation : Type 0 where
  create : (new_id : String) → ScheduleCreateInput → Operation
  update : (id : String) → ScheduleCreateInput → Operation
  delete : (id : String) → Operation
  reschedule : (id : String) (next : Option ℕ) (enabled : Bool) (expected_revision : ℕ) → Operation
  claim :
      (run_id : String)
      → ScheduleDefinition
      → (scheduled_for : ℕ) (next : Option ℕ) (enabled : Bool) → Operation
  start_run :
      (run_id : String)
      → ScheduleDefinition
      → ScheduleRunTrigger
      → (scheduled_for : Option ℕ) → Operation
  finish_run : (run_id : String) → ScheduleOutcome → Operation
  interrupt : (reason : String) → Operation

-- A throw leaves the tables.
abbrev pub after_save : SaveResult → Schedules → Schedules
after_save (ok db s) old = db
after_save (err e) old = old

abbrev pub after_start : Option (Schedules × ScheduleRun) → Schedules → Schedules
after_start none old = old
after_start (some (db, run)) old = db

unfoldable pub step :
    (parse : String → Option ℕ) → CronRuns → (now : ℕ) → Operation → Schedules → Schedules
step parse runs now (create new_id input) db =
    after_save (create_schedule parse runs now new_id input db) db
step parse runs now (update id input) db =
    after_save (update_schedule parse runs now id input db) db
step parse runs now (delete id) db = (soft_delete_schedule now id db).0
step parse runs now (reschedule id next enabled expected) db =
    (update_schedule_next_run now id next enabled expected db).0
step parse runs now (claim run_id s scheduled_for next enabled) db =
    (claim_scheduled_run now run_id s scheduled_for next enabled db).0
step parse runs now (start_run run_id s trigger scheduled_for) db =
    after_start (create_schedule_run now run_id s trigger scheduled_for db) db
step parse runs now (finish_run run_id outcome) db = finish_schedule_run now run_id outcome db
step parse runs now (interrupt reason) db = (mark_running_schedule_runs_interrupted now reason db).0

-- A history: each operation with the instant at which it ran.
unfoldable pub replay :
    (parse : String → Option ℕ) → CronRuns → List (ℕ × Operation) → Schedules → Schedules
replay parse runs [] db = db
replay parse runs ((now, op) ∷ rest) db = replay parse runs rest (step parse runs now op db)

-- The schedule is created under this id.
abbrev pub creates : String → Operation → Bool
creates id (create new_id input) = new_id == id
creates id op = false

abbrev pub creates_any : String → List (ℕ × Operation) → Bool
creates_any id history = any (λ (x : ℕ × Operation). creates id x.1) history
