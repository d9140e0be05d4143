-- ===== src/Schedules.antt =====
-- src/state/database.ts: the tables `schedules` and `schedule_runs`, and the operations of
-- src/scheduler/scheduler.ts on them. Instants are milliseconds; `now` is what `this.now()` returns.
-- The column of a run's trigger context is written and never read back, and is left out.
use owner_operator.Prelude.{
  ℕ, ◌+◌, String, Bool, true, false, not, ◌&&◌, ◌||◌, Option, none, some, List, [], ◌∷◌, ◌++◌, ◌==◌,
  if◌then◌else◌, nat_eq, ltb, leb, any, find, keep, map, count, update_where, sort_by, is_some,
  text_before,
}
use owner_operator.Schedule.{ScheduleTrigger}

pub data AgentToolId : Type 0 where
  bash edit find_files grep ls read write : AgentToolId
  unknown_tool : String → AgentToolId

pub data ScheduledPayload : Type 0 where
  prompt : (text : String) (tools_allow : Option (List AgentToolId)) → ScheduledPayload
  command : (argv : List String) → ScheduledPayload

pub record ScheduleDefinition : Type 0 where
  pub id : String
  pub name : String
  pub enabled : Bool
  pub trigger : ScheduleTrigger
  pub payload : ScheduledPayload
  pub cwd : String
  pub timeout_seconds : ℕ
  pub revision : ℕ
  pub created_at : ℕ
  pub updated_at : ℕ
  pub next_run_at : Option ℕ

-- A row of the table `schedules`.
pub record ScheduleRow : Type 0 where
  pub definition : ScheduleDefinition
  pub deleted_at : Option ℕ

pub data ScheduleRunStatus : Type 0 where
  running completed failed interrupted : ScheduleRunStatus

pub data ScheduleRunTrigger : Type 0 where
  scheduled manual needs_you : ScheduleRunTrigger

pub record ScheduleRun : Type 0 where
  pub id : String
  pub schedule_id : String
  pub trigger : ScheduleRunTrigger
  pub payload : ScheduledPayload
  pub cwd : String
  pub timeout_seconds : ℕ
  pub status : ScheduleRunStatus
  pub created_at : ℕ
  pub scheduled_for : Option ℕ
  pub started_at : Option ℕ
  pub finished_at : Option ℕ
  pub exit_code : Option ℕ
  pub stdout_tail : Option String
  pub stderr_tail : Option String
  pub error : Option String
  pub transcript_id : Option String

pub record Schedules : Type 0 where
  pub schedules : List ScheduleRow
  pub runs : List ScheduleRun

abbrev pub is_schedule : String → ScheduleRow → Bool
is_schedule id r = r.definition.id == id

abbrev pub is_live : ScheduleRow → Bool
is_live r = not (is_some r.deleted_at)

-- The live row of an id, which is unique.
unfoldable pub schedule_by_id : String → List ScheduleRow → Option ScheduleDefinition
schedule_by_id id rows = elim (find (λ r. is_live r && is_schedule id r) rows) [
  | none ↦ none
  | some r ↦ some r.definition
]

-- The name of another schedule, deleted ones included.
abbrev pub takes_name : ScheduleDefinition → ScheduleRow → Bool
takes_name s r = r.definition.name == s.name && not (is_schedule s.id r)

-- What `ON CONFLICT(id) DO UPDATE` keeps is the instant of creation.
abbrev pub overwritten : ScheduleDefinition → ScheduleRow → ScheduleRow
overwritten s r = record {
  definition = record s { created_at = r.definition.created_at };
  deleted_at = none;
}

-- `none` is the throw on a name that another row has.
unfoldable pub save_schedule : ScheduleDefinition → Schedules → Option Schedules
save_schedule s db =
    if any (takes_name s) db.schedules
    then none
    else if any (is_schedule s.id) db.schedules
    then some
        (record db { schedules = update_where (is_schedule s.id) (overwritten s) db.schedules })
    else some (record db {
      schedules = db.schedules ++ record { definition = s; deleted_at = none } ∷ [];
    })

abbrev due_at : ℕ → ScheduleDefinition → Bool
due_at now s = s.enabled && elim s.next_run_at [ none ↦ false | some t ↦ leb t now ]

abbrev due_before : ScheduleDefinition → ScheduleDefinition → Bool
due_before s t = elim s.next_run_at [
  | none ↦ true
  | some a ↦ elim t.next_run_at [
    | none ↦ false
    | some b ↦ ltb a b || nat_eq a b && text_before s.id t.id
  ]
]

unfoldable pub due_schedules : (now : ℕ) → List ScheduleRow → List ScheduleDefinition
due_schedules now rows =
    sort_by due_before (keep (due_at now) (map (λ r. r.definition) (keep is_live rows)))

abbrev pub live_schedule : String → ScheduleRow → Bool
live_schedule id r = is_schedule id r && is_live r

abbrev pub deleted : (now : ℕ) → ScheduleRow → ScheduleRow
deleted now r = record {
  definition = record r.definition { enabled = false; updated_at = now };
  deleted_at = some now;
}

unfoldable pub soft_delete_schedule : (now : ℕ) → (id : String) → Schedules → Schedules × Bool
soft_delete_schedule now id db = (
  record db { schedules = update_where (live_schedule id) (deleted now) db.schedules },
  any (live_schedule id) db.schedules,
)

abbrev pub rescheduled :
    (now : ℕ) → (next : Option ℕ) → (enabled : Bool) → ScheduleRow → ScheduleRow
rescheduled now next enabled r = record r {
  definition = record r.definition {
    next_run_at = next;
    enabled = enabled;
    updated_at = now;
    revision = r.definition.revision + 1;
  };
}

abbrev pub at_revision : (id : String) → (revision : ℕ) → ScheduleRow → Bool
at_revision id revision r = live_schedule id r && nat_eq r.definition.revision revision

unfoldable pub update_schedule_next_run :
    (now : ℕ)
    → (id : String) → (next : Option ℕ) → (enabled : Bool) → (expected_revision : ℕ) → Schedules
    → Schedules × Bool
update_schedule_next_run now id next enabled expected db = (
  record db {
    schedules = update_where (at_revision id expected) (rescheduled now next enabled) db.schedules;
  },
  any (at_revision id expected) db.schedules,
)

abbrev same_instant : Option ℕ → ℕ → Bool
same_instant none t = false
same_instant (some s) t = nat_eq s t

abbrev pub claimable : ScheduleDefinition → (scheduled_for : ℕ) → ScheduleRow → Bool
claimable s scheduled_for r =
    at_revision s.id s.revision r
    && r.definition.enabled
    && same_instant r.definition.next_run_at scheduled_for

abbrev pub new_schedule_run :
    (now : ℕ)
    → (id : String) → ScheduleDefinition
    → ScheduleRunTrigger
    → (scheduled_for : Option ℕ) → ScheduleRun
new_schedule_run now id s trigger scheduled_for = record {
  id = id;
  schedule_id = s.id;
  trigger = trigger;
  payload = s.payload;
  cwd = s.cwd;
  timeout_seconds = s.timeout_seconds;
  status = running;
  created_at = now;
  scheduled_for = scheduled_for;
  started_at = some now;
  finished_at = none;
  exit_code = none;
  stdout_tail = none;
  stderr_tail = none;
  error = none;
  transcript_id = none;
}

abbrev pub is_run : String → ScheduleRun → Bool
is_run id r = r.id == id

-- `insertScheduleRun`: `none` is the throw on a run id that stands already, or on a schedule that
-- has no row.
unfoldable pub create_schedule_run :
    (now : ℕ)
    → (id : String) → ScheduleDefinition
    → ScheduleRunTrigger
    → (scheduled_for : Option ℕ) → Schedules
    → Option (Schedules × ScheduleRun)
create_schedule_run now id s trigger scheduled_for db =
    let run = new_schedule_run now id s trigger scheduled_for in
    if any (is_run id) db.runs || not (any (is_schedule s.id) db.schedules)
    then none
    else some (record db { runs = db.runs ++ run ∷ [] }, run)

-- The transaction rolls back on a throw.
abbrev pub rolled_back :
    Option (Schedules × ScheduleRun) → Schedules → Schedules × Option ScheduleRun
rolled_back none db = (db, none)
rolled_back (some (db', run)) db = (db', some run)

unfoldable pub claim_scheduled_run :
    (now : ℕ)
    → (id : String) → ScheduleDefinition
    → (scheduled_for : ℕ) → (next : Option ℕ) → (enabled : Bool) → Schedules
    → Schedules × Option ScheduleRun
unfolding create_schedule_run
claim_scheduled_run now id s scheduled_for next enabled db =
    let db' = record db {
      schedules =
          update_where (claimable s scheduled_for) (rescheduled now next enabled) db.schedules;
    } in
    if any (claimable s scheduled_for) db.schedules
    then rolled_back (create_schedule_run now id s scheduled (some scheduled_for) db') db
    else (db, none)

pub record ScheduleOutcome : Type 0 where
  pub status : ScheduleRunStatus
  pub exit_code : Option ℕ
  pub stdout_tail : Option String
  pub stderr_tail : Option String
  pub error : Option String
  pub transcript_id : Option String

abbrev pub ended : (now : ℕ) → ScheduleOutcome → ScheduleRun → ScheduleRun
ended now o r = record r {
  status = o.status;
  finished_at = some now;
  exit_code = o.exit_code;
  stdout_tail = o.stdout_tail;
  stderr_tail = o.stderr_tail;
  error = o.error;
  transcript_id = o.transcript_id;
}

unfoldable pub finish_schedule_run :
    (now : ℕ) → (id : String) → ScheduleOutcome → Schedules → Schedules
finish_schedule_run now id o db = record db {
  runs = update_where (is_run id) (ended now o) db.runs;
}

abbrev is_running : ScheduleRun → Bool
is_running r = elim r.status [
  | running ↦ true
  | completed ↦ false
  | failed ↦ false
  | interrupted ↦ false
]

abbrev cut_off : (now : ℕ) → (reason : String) → ScheduleRun → ScheduleRun
cut_off now reason r = record r {
  status = interrupted;
  finished_at = some now;
  error = some reason;
}

unfoldable pub mark_running_schedule_runs_interrupted :
    (now : ℕ) → (reason : String) → Schedules → Schedules × ℕ
mark_running_schedule_runs_interrupted now reason db = (
  record db { runs = update_where is_running (cut_off now reason) db.runs },
  count is_running db.runs,
)
