-- ===== src/Scheduler/Once.antt =====
-- src/state/database.ts `claimScheduledRun`: a definition that was read once is claimed at most once.
use owner_operator.Prelude.{
  ℕ, ◌≤◌, String, ◌≡◌, refl, inl, inr, Bool, true, false, not, ◌||◌, Option, none, some, List, [],
  ◌∷◌, arith, if_elim, any, update_where, Bool-cases, count,
}
use owner_operator.Schedule.{CronRuns}
use owner_operator.Schedules.{
  ScheduleDefinition, ScheduleRow, ScheduleRun, Schedules, is_run, claim_scheduled_run, claimable,
  create_schedule_run, is_schedule, rescheduled, rolled_back,
}
use owner_operator.Scheduler.Steps.{creates_any, Operation, replay}
use owner_operator.Scheduler.Past.{Past, Past-rescheduled, replay-Past}

claimable-counted :
    (s : ScheduleDefinition) (scheduled_for : ℕ) (rows : List ScheduleRow)
    → any (claimable s scheduled_for) rows ≡ true
    → 1 ≤ count (is_schedule s.id) rows
claimable-counted s scheduled_for [] h = ground arith
claimable-counted s scheduled_for (r ∷ rows) h =
    ground (arith, claimable-counted s scheduled_for rows)

none-Past :
    (id : String) (n : ℕ) (rows : List ScheduleRow)
    → count (is_schedule id) rows ≡ 0
    → Past id n rows
none-Past id n [] h = refl
none-Past id n (r ∷ rows) h = ground (arith, none-Past id n rows)

-- The only row of the schedule has moved on.
claimed-Past :
    (now : ℕ) (s : ScheduleDefinition) (scheduled_for : ℕ) (next : Option ℕ) (enabled : Bool)
    (rows : List ScheduleRow)
    → count (is_schedule s.id) rows ≤ 1
    → any (claimable s scheduled_for) rows ≡ true
    → Past s.id s.revision
        (update_where (claimable s scheduled_for) (rescheduled now next enabled) rows)
claimed-Past now s scheduled_for next enabled [] one h = ground arith
claimed-Past now s scheduled_for next enabled (r ∷ rows) one h =
    elim (Bool-cases (claimable s scheduled_for r)) [
      | inl mine ↦
          let below =
            Past-rescheduled s.id s.revision now next enabled (claimable s scheduled_for) rows
              (none-Past s.id s.revision rows (ground arith)) in
          rw (mine, below) (ground arith)
      | inr other_row ↦
          let claimed_below : any (claimable s scheduled_for) rows ≡ true =
            ground (other_row, arith) in
          let counted_below = claimable-counted s scheduled_for rows claimed_below in
          let below =
            claimed-Past now s scheduled_for next enabled rows (ground arith) claimed_below in
          rw (other_row, below) (ground arith)
    ]

Past-unclaimable :
    (s : ScheduleDefinition) (scheduled_for : ℕ) (rows : List ScheduleRow)
    → Past s.id s.revision rows
    → any (claimable s scheduled_for) rows ≡ false
Past-unclaimable s scheduled_for [] h = refl
Past-unclaimable s scheduled_for (r ∷ rows) h =
    ground (arith, Past-unclaimable s scheduled_for rows)

claim-fresh :
    (now : ℕ) (run_id : String) (s : ScheduleDefinition) (scheduled_for : ℕ) (next : Option ℕ)
    (enabled : Bool) (db : Schedules) (run : ScheduleRun)
    → count (is_schedule s.id) db.schedules ≤ 1
    → (claim_scheduled_run now run_id s scheduled_for next enabled db).1 ≡ some run
    → Past s.id s.revision
        (claim_scheduled_run now run_id s scheduled_for next enabled db).0.schedules
unfolding claim_scheduled_run create_schedule_run
claim-fresh now run_id s scheduled_for next enabled db run one =
    if_elim
      (λ (x : Schedules × Option ScheduleRun). x.1 ≡ some run → Past s.id s.revision x.0.schedules)
      (any (claimable s scheduled_for) db.schedules) _ _
      (λ there.
        if_elim
          (λ (x : Option (Schedules × ScheduleRun)).
            (rolled_back x db).1 ≡ some run → Past s.id s.revision (rolled_back x db).0.schedules)
          (any (is_run run_id) db.runs || not (any (is_schedule s.id) _)) _ _
          (λ _ e. absurd (ground arith))
          (λ _ e. claimed-Past now s scheduled_for next enabled db.schedules one there))
      (λ _ e. absurd (ground arith))

unclaimed :
    (now : ℕ) (run_id : String) (s : ScheduleDefinition) (scheduled_for : ℕ) (next : Option ℕ)
    (enabled : Bool) (db : Schedules)
    → any (claimable s scheduled_for) db.schedules ≡ false
    → (claim_scheduled_run now run_id s scheduled_for next enabled db).1 ≡ none
unfolding claim_scheduled_run
unclaimed now run_id s scheduled_for next enabled db h = ground (arith, h)

-- Where the schedules have distinct ids, a definition that a claim has succeeded on is not claimed
-- again: whatever operations follow, if none creates a schedule under its id, a later claim of the
-- same definition, for any occurrence, records no run.
pub claim_scheduled_run-once :
    (parse : String → Option ℕ) (runs : CronRuns) (now later : ℕ) (run_id again : String)
    (s : ScheduleDefinition) (scheduled_for scheduled_for' : ℕ) (next next' : Option ℕ)
    (enabled enabled' : Bool) (history : List (ℕ × Operation)) (db : Schedules) (run : ScheduleRun)
    → count (is_schedule s.id) db.schedules ≤ 1
    → creates_any s.id history ≡ false
    → (claim_scheduled_run now run_id s scheduled_for next enabled db).1 ≡ some run
    → (claim_scheduled_run later again s scheduled_for' next' enabled' (
        replay parse runs history
          (claim_scheduled_run now run_id s scheduled_for next enabled db).0)).1
      ≡ none
claim_scheduled_run-once parse runs now later run_id again s f f' next next' enabled enabled'
      history db run one new e =
    let db' = (claim_scheduled_run now run_id s f next enabled db).0 in
    let past =
      replay-Past parse runs s.id s.revision history db' new
        (claim-fresh now run_id s f next enabled db run one e) in
    unclaimed later again s f' next' enabled' (replay parse runs history db')
      (Past-unclaimable s f' _ past)
