-- ===== src/Scheduler/Past.antt =====
-- src/scheduler/scheduler.ts and src/state/database.ts: revisions of a schedule only rise.
use owner_operator.Prelude.{
  coalesce, ℕ, ◌+◌, String, ◌≡◌, refl, Bool, true, false, not, ◌&&◌, ◌||◌, Option, none, some, List,
  [], ◌∷◌, ◌==◌, arith, if_elim, leb, any, find, update_where, eq_iff, any-append, is_blank,
  is_absolute,
}
use owner_operator.Schedule.{CronRuns, NextRun, compute_next_run_at}
use owner_operator.Schedule
use owner_operator.Schedules.{
  ScheduleDefinition, ScheduleRow, ScheduleRun, ScheduleRunTrigger, Schedules, at_revision, is_run,
  claim_scheduled_run, claimable, create_schedule_run, deleted, finish_schedule_run, is_live,
  is_schedule, live_schedule, mark_running_schedule_runs_interrupted, overwritten, rescheduled,
  rolled_back, save_schedule, schedule_by_id, soft_delete_schedule, takes_name,
  update_schedule_next_run,
}
use owner_operator.Scheduler.{
  InputError, SaveResult, ScheduleCreateInput, create_schedule, save_next, update_found,
  update_schedule, validate_schedule, validated, saved, at_error, payload_error, timeout_of,
  trigger_error, initial_next_run_at,
}
use owner_operator.Scheduler.Steps.{
  creates, creates_any, Operation, after_save, after_start, claim, create, delete, finish_run,
  interrupt, replay, reschedule, start_run, step, update,
}

-- A row of this id whose revision is not past this one.
abbrev pub not_past : (id : String) → (revision : ℕ) → ScheduleRow → Bool
not_past id n r = is_schedule id r && leb r.definition.revision n

abbrev pub Past : (id : String) → (revision : ℕ) → List ScheduleRow → Type 0
Past id n rows = any (not_past id n) rows ≡ false

pub Past-update_where :
    (id : String) (n : ℕ) (p : ScheduleRow → Bool) (f : ScheduleRow → ScheduleRow)
    (rows : List ScheduleRow)
    → ((r : ScheduleRow) → p r ≡ true → not_past id n (f r) ≡ true → not_past id n r ≡ true)
    → Past id n rows
    → Past id n (update_where p f rows)
Past-update_where id n p f [] back h = refl
Past-update_where id n p f (r ∷ rows) back h =
    ground (arith, back r, Past-update_where id n p f rows back)

pub Past-overwritten :
    (id : String) (n : ℕ) (s : ScheduleDefinition) (rows : List ScheduleRow)
    → (s.id == id) && leb s.revision n ≡ false
    → Past id n rows
    → Past id n (update_where (is_schedule s.id) (overwritten s) rows)
Past-overwritten id n s rows new h =
    Past-update_where id n (is_schedule s.id) (overwritten s) rows (λ r e b. absurd (cc)) h

pub save_schedule-Past :
    (id : String) (n : ℕ) (s : ScheduleDefinition) (db : Schedules)
    → (s.id == id) && leb s.revision n ≡ false
    → Past id n db.schedules
    → Past id n (after_save (saved (save_schedule s db) s) db).schedules
unfolding save_schedule
save_schedule-Past id n s db new h =
    if_elim (λ x. Past id n (after_save (saved x s) db).schedules) (any (takes_name s) db.schedules)
      _ _ (λ _. h)
      (λ _.
        if_elim (λ x. Past id n (after_save (saved x s) db).schedules)
          (any (is_schedule s.id) db.schedules) _ _
          (λ _. Past-overwritten id n s db.schedules new h)
          (λ _. any-append (not_past id n) db.schedules _ h (ground arith)))

pub save_next-Past :
    (id : String) (n : ℕ) (key : String) (input : ScheduleCreateInput)
    (seconds revision created_at now : ℕ) (next : NextRun) (db : Schedules)
    → (key == id) && leb revision n ≡ false
    → Past id n db.schedules
    → Past id n
        (after_save (save_next key input seconds revision created_at now next db) db).schedules
save_next-Past id n key input seconds revision created_at now (Schedule.err e) db new h = h
save_next-Past id n key input seconds revision created_at now (Schedule.ok next) db new h =
    save_schedule-Past id n _ db new h

pub validated-keeps {ℓ} :
    (P : SaveResult → Type ℓ) (input : ScheduleCreateInput) (seconds : Option ℕ)
    (payload trigger : Option InputError) (save : ℕ → SaveResult)
    → ((e : InputError) → P (SaveResult.err e))
    → ((n : ℕ) → P (save n))
    → P (validated input seconds payload trigger save)
validated-keeps P input none payload trigger save failed went = failed _
validated-keeps P input (some n) (some e) trigger save failed went = failed e
validated-keeps P input (some n) none (some e) save failed went = failed e
validated-keeps P input (some n) none none save failed went = went n

-- What holds of an error and of what a valid input saves holds of the result.
pub validate_schedule-keeps {ℓ} :
    (P : SaveResult → Type ℓ) (parse : String → Option ℕ) (runs : CronRuns) (now : ℕ)
    (input : ScheduleCreateInput) (save : ℕ → SaveResult)
    → ((e : InputError) → P (SaveResult.err e))
    → ((n : ℕ) → P (save n))
    → P (validate_schedule parse runs now input save)
unfolding validate_schedule
validate_schedule-keeps P parse runs now input save failed went =
    if_elim P (is_blank input.name) _ _ (λ _. failed _)
      (λ _.
        if_elim P (not (is_absolute input.cwd)) _ _ (λ _. failed _)
          (λ _.
            validated-keeps P input (timeout_of input.timeout_seconds)
              (coalesce (at_error parse input.trigger) (payload_error input.payload))
              (trigger_error (compute_next_run_at parse runs input.trigger now)) save failed went))

-- The definition that an update reads is past the revision, if it has this id.
pub found-Past :
    (id : String) (n : ℕ) (key : String) (rows : List ScheduleRow) (row : ScheduleRow)
    → find (λ r. is_live r && is_schedule key r) rows ≡ some row
    → Past id n rows
    → (key == id) && leb (row.definition.revision + 1) n ≡ false
found-Past id n key [] row e h = absurd (ground arith)
found-Past id n key (r ∷ rows) row e h = ground (
  arith,
  eq_iff r.definition.id key,
  eq_iff r.definition.id id,
  eq_iff key id,
  found-Past id n key rows row,
)

pub found_row-Past :
    (parse : String → Option ℕ) (runs : CronRuns) (now : ℕ) (id : String) (n : ℕ) (key : String)
    (input : ScheduleCreateInput) (seconds : ℕ) (found : Option ScheduleRow) (db : Schedules)
    → find (λ r. is_live r && is_schedule key r) db.schedules ≡ found
    → Past id n db.schedules
    → Past id n
        (after_save
          (update_found parse runs now key input seconds
            (elim found [ none ↦ none | some r ↦ some r.definition ])
            db)
          db).schedules
found_row-Past parse runs now id n key input seconds none db e h = h
found_row-Past parse runs now id n key input seconds (some row) db e h =
    save_next-Past id n key input seconds _ _ now (initial_next_run_at parse runs input now) db
      (found-Past id n key db.schedules row e h) h

pub update_found-Past :
    (parse : String → Option ℕ) (runs : CronRuns) (now : ℕ) (id : String) (n : ℕ) (key : String)
    (input : ScheduleCreateInput) (seconds : ℕ) (db : Schedules)
    → Past id n db.schedules
    → Past id n
        (after_save
          (update_found parse runs now key input seconds (schedule_by_id key db.schedules) db)
          db).schedules
unfolding schedule_by_id
update_found-Past parse runs now id n key input seconds db h =
    found_row-Past parse runs now id n key input seconds _ db refl h

pub create_run-schedules :
    (now : ℕ) (run_id : String) (s : ScheduleDefinition) (trigger : ScheduleRunTrigger)
    (scheduled_for : Option ℕ) (db : Schedules)
    → (after_start (create_schedule_run now run_id s trigger scheduled_for db) db).schedules
      ≡ db.schedules
unfolding create_schedule_run
create_run-schedules now run_id s trigger scheduled_for db =
    if_elim (λ x. (after_start x db).schedules ≡ db.schedules)
      (any (is_run run_id) db.runs || not (any (is_schedule s.id) db.schedules)) _ _ (λ _. refl)
      (λ _. refl)

pub Past-rescheduled :
    (id : String) (n now : ℕ) (next : Option ℕ) (enabled : Bool) (p : ScheduleRow → Bool)
    (rows : List ScheduleRow)
    → Past id n rows
    → Past id n (update_where p (rescheduled now next enabled) rows)
Past-rescheduled id n now next enabled p rows h =
    Past-update_where id n p (rescheduled now next enabled) rows (λ r e b. ground arith) h

-- The tables after a claim: those before it, or the schedule moved on and a run recorded.
pub claim-Past :
    (id : String) (n now : ℕ) (run_id : String) (s : ScheduleDefinition) (scheduled_for : ℕ)
    (next : Option ℕ) (enabled : Bool) (db : Schedules)
    → Past id n db.schedules
    → Past id n (claim_scheduled_run now run_id s scheduled_for next enabled db).0.schedules
unfolding claim_scheduled_run create_schedule_run
claim-Past id n now run_id s scheduled_for next enabled db h =
    if_elim (λ (x : Schedules × Option ScheduleRun). Past id n x.0.schedules)
      (any (claimable s scheduled_for) db.schedules) _ _
      (λ _.
        if_elim (λ (x : Option (Schedules × ScheduleRun)). Past id n (rolled_back x db).0.schedules)
          (any (is_run run_id) db.runs || not (any (is_schedule s.id) _)) _ _ (λ _. h)
          (λ _. Past-rescheduled id n now next enabled (claimable s scheduled_for) db.schedules h))
      (λ _. h)

pub step-Past :
    (parse : String → Option ℕ) (runs : CronRuns) (now : ℕ) (id : String) (n : ℕ) (op : Operation)
    (db : Schedules)
    → creates id op ≡ false
    → Past id n db.schedules
    → Past id n (step parse runs now op db).schedules
unfolding step create_schedule update_schedule soft_delete_schedule update_schedule_next_run
    finish_schedule_run mark_running_schedule_runs_interrupted
step-Past parse runs now id n (create key input) db new h =
    validate_schedule-keeps (λ x. Past id n (after_save x db).schedules) parse runs now input _
      (λ e. h)
      (λ seconds.
        save_next-Past id n key input seconds 1 now now (initial_next_run_at parse runs input now)
          db (ground (arith, eq_iff key id)) h)
step-Past parse runs now id n (update key input) db new h =
    validate_schedule-keeps (λ x. Past id n (after_save x db).schedules) parse runs now input _
      (λ e. h) (λ seconds. update_found-Past parse runs now id n key input seconds db h)
step-Past parse runs now id n (delete key) db new h =
    Past-update_where id n (live_schedule key) (deleted now) db.schedules (λ r e b. b) h
step-Past parse runs now id n (reschedule key next enabled expected) db new h =
    Past-rescheduled id n now next enabled (at_revision key expected) db.schedules h
step-Past parse runs now id n (claim run_id s scheduled_for next enabled) db new h =
    claim-Past id n now run_id s scheduled_for next enabled db h
step-Past parse runs now id n (start_run run_id s trigger scheduled_for) db new h =
    rw (create_run-schedules now run_id s trigger scheduled_for db) h
step-Past parse runs now id n (finish_run run_id outcome) db new h = h
step-Past parse runs now id n (interrupt reason) db new h = h

pub replay-Past :
    (parse : String → Option ℕ) (runs : CronRuns) (id : String) (n : ℕ)
    (history : List (ℕ × Operation)) (db : Schedules)
    → creates_any id history ≡ false
    → Past id n db.schedules
    → Past id n (replay parse runs history db).schedules
unfolding replay
replay-Past parse runs id n [] db new h = h
replay-Past parse runs id n ((now, op) ∷ rest) db new h =
    replay-Past parse runs id n rest (step parse runs now op db) (ground arith)
      (step-Past parse runs now id n op db (ground arith) h)
