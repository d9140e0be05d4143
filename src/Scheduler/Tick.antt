-- ===== src/Scheduler/Tick.antt =====
-- src/scheduler/scheduler.ts `tick`: what the claim of a due schedule leaves.
use owner_operator.Prelude.{
  ℕ, ◌<◌, String, ◌≡◌, true, not, ◌&&◌, Option, some, [], ◌∷◌, ◌++◌, any, update_where,
}
use owner_operator.Schedule.{ScheduleTrigger, compute_next_run_at, count_missed_occurrences}
use owner_operator.Schedule
use owner_operator.Schedules.{
  ScheduleDefinition, ScheduleRun, Schedules, claimable, new_schedule_run, rescheduled, scheduled,
}
use owner_operator.Scheduler.{is_at}

-- The tables after a claim of the occurrence that was due: one run of it is recorded, and the
-- schedule waits for a later one, or for none.
abbrev pub IsClaim :
    (now : ℕ)
    → (new_id : String) → ScheduleDefinition
    → (due : ℕ) → Schedules
    → Schedules
    → ScheduleRun
    → Type 0
IsClaim now new_id s due db db' run =
    (any (claimable s due) db.schedules ≡ true)
    × (run ≡ new_schedule_run now new_id s scheduled (some due))
    × (db'.runs ≡ db.runs ++ run ∷ [])
    × ((next : Option ℕ) × ((t : ℕ) → next ≡ some t → now < t)
        × (db'.schedules
            ≡ update_where (claimable s due)
                (rescheduled now next (not (is_at s.trigger) && s.enabled)) db.schedules))
