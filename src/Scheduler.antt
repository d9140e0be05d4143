-- ===== src/Scheduler.antt =====
-- src/scheduler/scheduler.ts: the definition of schedules and the claims of a tick. A throw is an
-- error and leaves the tables as they were. `new_id` is what `randomUUID` returns; `parse` and `runs`
-- are those of `Schedule`. The queue of executions is in
-- `Scheduler/Runtime`. The events on threads are left out.
pub mod Steps
pub mod Runtime
pub mod Holders
pub mod Past
pub mod Once
pub mod Tick
use owner_operator.Prelude.{
  coalesce, is_some, ℕ, ◌+◌, String, Bool, true, false, not, ◌&&◌, ◌||◌, Option, none, some, List,
  [], ◌∷◌, ◌==◌, if◌then◌else◌, ltb, any, is_blank, is_absolute, trim, Number, whole, other,
}
use owner_operator.Schedule.{
  CronRuns, Missed, NextRun, ScheduleError, ScheduleTrigger, at, compute_next_run_at,
  count_missed_occurrences, counted, threw, out_of_fuel, not_a_number, is_safe, to_iso,
}
use owner_operator.Schedule
use owner_operator.Schedules.{
  AgentToolId, unknown_tool, ScheduleDefinition, ScheduleRun, ScheduledPayload, Schedules,
  claim_scheduled_run, command, prompt, save_schedule, schedule_by_id,
}

pub record ScheduleCreateInput : Type 0 where
  pub name : String
  pub enabled : Bool
  pub trigger : ScheduleTrigger
  pub payload : ScheduledPayload
  pub cwd : String
  pub timeout_seconds : Number

pub data InputError : Type 0 where
  name_required cwd_not_absolute bad_timeout argv_required prompt_required unknown_tools
        no_such_schedule name_taken :
      InputError
  bad_trigger : ScheduleError → InputError

pub data SaveResult : Type 0 where
  ok : Schedules → ScheduleDefinition → SaveResult
  err : InputError → SaveResult

abbrev is_unknown : AgentToolId → Bool
is_unknown (unknown_tool text) = true
is_unknown tool = false

abbrev pub timeout_of : Number → Option ℕ
timeout_of other = none
timeout_of (whole n) = if not (is_safe n) || ltb n 1 then none else some n

-- `validateSchedule` of the payload; `none` is a payload that passes.
abbrev pub payload_error : ScheduledPayload → Option InputError
payload_error (command []) = some argv_required
payload_error (command (executable ∷ arguments)) = none
payload_error (prompt text none) = if is_blank text then some prompt_required else none
payload_error (prompt text (some tools)) =
    if is_blank text
    then some prompt_required
    else if any is_unknown tools
    then some unknown_tools
    else none

abbrev pub trigger_error : NextRun → Option InputError
trigger_error (Schedule.ok next) = none
trigger_error (Schedule.err e) = some (bad_trigger e)

-- A timestamp that `Date.parse` does not read is found before the payload is looked at.
abbrev pub at_error : (parse : String → Option ℕ) → ScheduleTrigger → Option InputError
at_error parse (at text) =
    if is_some (parse text) then none else some (bad_trigger Schedule.invalid_at)
at_error parse trigger = none

-- The seconds of a definition that `validateSchedule` lets pass.
abbrev pub validated :
    ScheduleCreateInput
    → Option ℕ
    → Option InputError
    → Option InputError
    → (ℕ → SaveResult)
    → SaveResult
validated input none payload trigger save = err bad_timeout
validated input (some seconds) (some e) trigger save = err e
validated input (some seconds) none (some e) save = err e
validated input (some seconds) none none save = save seconds

unfoldable pub validate_schedule :
    (parse : String → Option ℕ)
    → CronRuns
    → (now : ℕ) → ScheduleCreateInput
    → (ℕ → SaveResult)
    → SaveResult
validate_schedule parse runs now input save =
    if is_blank input.name
    then err name_required
    else if not (is_absolute input.cwd)
    then err cwd_not_absolute
    else validated input (timeout_of input.timeout_seconds)
        (coalesce (at_error parse input.trigger) (payload_error input.payload))
        (trigger_error (compute_next_run_at parse runs input.trigger now)) save

-- An occurrence in the past is kept for a timestamp.
abbrev first_run : (parse : String → Option ℕ) → CronRuns → ScheduleTrigger → (now : ℕ) → NextRun
first_run parse runs (at text) now = elim (parse text) [
  | none ↦ Schedule.err Schedule.invalid_at
  | some ms ↦ to_iso ms
]
first_run parse runs trigger now = compute_next_run_at parse runs trigger now

unfoldable pub initial_next_run_at :
    (parse : String → Option ℕ) → CronRuns → ScheduleCreateInput → (now : ℕ) → NextRun
initial_next_run_at parse runs input now =
    if not input.enabled then Schedule.ok none else first_run parse runs input.trigger now

abbrev pub definition_of :
    (id : String)
    → ScheduleCreateInput
    → (seconds revision created_at now : ℕ) → (next : Option ℕ) → ScheduleDefinition
definition_of id input seconds revision created_at now next = record {
  id = id;
  name = trim input.name;
  enabled = input.enabled;
  trigger = input.trigger;
  payload = input.payload;
  cwd = input.cwd;
  timeout_seconds = seconds;
  revision = revision;
  created_at = created_at;
  updated_at = now;
  next_run_at = next;
}

abbrev pub saved : Option Schedules → ScheduleDefinition → SaveResult
saved none s = err name_taken
saved (some db) s = ok db s

abbrev pub save_next :
    (id : String)
    → ScheduleCreateInput
    → (seconds revision created_at now : ℕ) → NextRun
    → Schedules
    → SaveResult
save_next id input seconds revision created_at now (Schedule.err e) db = err (bad_trigger e)
save_next id input seconds revision created_at now (Schedule.ok next) db =
    let s = definition_of id input seconds revision created_at now next in
    saved (save_schedule s db) s

unfoldable pub create_schedule :
    (parse : String → Option ℕ)
    → CronRuns
    → (now : ℕ) → (new_id : String) → ScheduleCreateInput
    → Schedules
    → SaveResult
unfolding validate_schedule initial_next_run_at
create_schedule parse runs now new_id input db = validate_schedule parse runs now input (λ seconds.
    save_next new_id input seconds 1 now now (initial_next_run_at parse runs input now) db)

abbrev pub update_found :
    (parse : String → Option ℕ)
    → CronRuns
    → (now : ℕ) → (id : String) → ScheduleCreateInput
    → (seconds : ℕ) → Option ScheduleDefinition
    → Schedules
    → SaveResult
update_found parse runs now id input seconds none db = err no_such_schedule
update_found parse runs now id input seconds (some existing) db =
    save_next id input seconds (existing.revision + 1) existing.created_at now
      (initial_next_run_at parse runs input now) db

unfoldable pub update_schedule :
    (parse : String → Option ℕ)
    → CronRuns
    → (now : ℕ) → (id : String) → ScheduleCreateInput
    → Schedules
    → SaveResult
unfolding validate_schedule
update_schedule parse runs now id input db =
    validate_schedule parse runs now input
      (λ seconds. update_found parse runs now id input seconds (schedule_by_id id db.schedules) db)

-- What a tick does with a schedule that is due.
pub data Ticked : Type 0 where
  claimed : Schedules → ScheduleRun → Ticked
  skipped : Schedules → Ticked
  failed : Ticked

abbrev pub is_at : ScheduleTrigger → Bool
is_at (at text) = true
is_at trigger = false

abbrev pub ticked : Schedules × Option ScheduleRun → Ticked
ticked (db, none) = skipped db
ticked (db, some run) = claimed db run

abbrev pub tick_next :
    (now : ℕ)
    → (new_id : String) → ScheduleDefinition
    → (scheduled_for : ℕ) → NextRun
    → Schedules
    → Ticked
tick_next now new_id s scheduled_for (Schedule.err e) db = failed
tick_next now new_id s scheduled_for (Schedule.ok next) db =
    ticked
      (claim_scheduled_run now new_id s scheduled_for next (not (is_at s.trigger) && s.enabled) db)

abbrev pub tick_missed :
    (parse : String → Option ℕ)
    → CronRuns
    → (now : ℕ) → (new_id : String) → ScheduleDefinition
    → (scheduled_for : ℕ) → Missed
    → Schedules
    → Ticked
tick_missed parse runs now new_id s scheduled_for threw db = failed
tick_missed parse runs now new_id s scheduled_for missed db =
    tick_next now new_id s scheduled_for (compute_next_run_at parse runs s.trigger now) db

abbrev pub tick_due :
    (parse : String → Option ℕ)
    → CronRuns
    → (now : ℕ) → (new_id : String) → ScheduleDefinition
    → Option ℕ
    → Schedules
    → Ticked
tick_due parse runs now new_id s none db = skipped db
tick_due parse runs now new_id s (some scheduled_for) db =
    tick_missed parse runs now new_id s scheduled_for
      (count_missed_occurrences runs s.trigger scheduled_for now) db

-- One turn of the loop of `tick`, at whose instant all its reads of the clock stand; `running` are
-- the schedules in execution. A schedule that is due has a next occurrence.
unfoldable pub tick_schedule :
    (parse : String → Option ℕ)
    → CronRuns
    → (now : ℕ) → (new_id : String) → (running : List String) → ScheduleDefinition
    → Schedules
    → Ticked
tick_schedule parse runs now new_id running s db =
    if any (λ id. id == s.id) running
    then skipped db
    else tick_due parse runs now new_id s s.next_run_at db
