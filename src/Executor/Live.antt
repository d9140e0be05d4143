-- ===== src/Executor/Live.antt =====
-- src/agent-runs/executor.ts: the turns in flight and the running rows are the same.
pub mod Rows
pub mod Claims
use owner_operator.Prelude.{
  ℕ, zero, suc, ◌-◌, ◌≤◌, String, ◌≡◌, refl, sym, ap, ◌∙◌, ◌⊎◌, inl, inr, Bool, true, false, not,
  ◌||◌, ◌&&◌, Option, none, some, List, [], ◌∷◌, ◌++◌, ◌==◌, arith, if_elim, if◌then◌else◌, leb,
  any, keep, find, length, update_where, eq_iff, eq_refl, Bool-cases, Option-cases, is_some, map,
  sort_by, All, any-find-none, find-passes, ◌+◌,
}
use owner_operator.AgentRuns.{
  AgentRun, AgentRunActivityUpdate, AgentRunFinalStatus, AgentRunOutcome, Status, is_pending,
  is_running, final_status, interrupted, lost,
}
use owner_operator.Ledger.{
  AgentRunInsert, Ledger, agent_run_by_id, has_id, create_agent_run, admits, inserted, started,
  running_row, active_row, finished, ended, lost_error, with_activity, append_result_record,
  append_results, start_run, claim_next_pending_agent_run, claimed, oldest_pending, running_count,
  record_agent_run_activity, finish_agent_run, mark_running_agent_runs_interrupted, mark_lost,
  mark_each_lost, mark_agent_runs_lost, append_agent_run_event,
}
use owner_operator.Ledger.Steps.{created}
use owner_operator.Ledger.Rows.{
  append_result_record-runs, append_results-runs, mark_each_lost-keeps, oldest_pending-cons,
}
use owner_operator.Executor.Turns.{
  AbortIntent, Entry, Turns, TurnEnd, Event, create, claims, activity, stream, end_of, deadline,
  cancellation, sweep, shutdown, entry_of, has_turn, set_active, delete_active, intend,
  active_run_ids, claimed_turn, claim_turn, pump_loop, pump, end_turn, abort, cancel_run,
  cancel_row, stop_turns, sweep_lost_runs, start_turns, turn_step, turns_after,
}
use Rows.{
  runs_now, Mirrors, any-running-keep, any-running-end, any-running-append, any-running-started,
  any-started, has_turn-intend, has_turn-delete, has_turn-delete_other, has_turn-update_entry,
  has_turn-append, has_turn-set_active, final_status-still, any-weaker, finish-ends, finish-other,
}
use Claims.{
  Mirror, oldest_pending-stands, start-Mirrors, claimed-Mirror, claim_turn-Mirror, pump_loop-Mirror,
}

-- A run that ends while it has no turn.
finish-Mirrors :
    (now : ℕ) (id : String) (o : AgentRunOutcome) (l : Ledger) (active : List Entry)
    → has_turn id active ≡ false
    → Mirrors l active
    → Mirrors (finish_agent_run now id o l).0 active
finish-Mirrors now id o l active idle m j = elim (Bool-cases (id == j)) [
  | inl here ↦ rw (← (eq_iff id j).0 here) (finish-ends now id o l ∙ sym idle)
  | inr other ↦ finish-other now id j o l other ∙ m j
]

end_turn-Mirrors :
    (now : ℕ) (id : String) (o : AgentRunOutcome) (l : Ledger) (active : List Entry)
    → Mirrors l active
    → Mirrors (finish_agent_run now id o l).0 (delete_active id active)
end_turn-Mirrors now id o l active m j = elim (Bool-cases (id == j)) [
  | inl here ↦
      rw (← (eq_iff id j).0 here) (finish-ends now id o l ∙ sym (has_turn-delete id active))
  | inr other ↦
      finish-other now id j o l other ∙ m j ∙ sym (has_turn-delete_other id j active other)
]

mark_lost-Mirrors :
    (now : ℕ) (id : String) (l : Ledger) (active : List Entry)
    → has_turn id active ≡ false
    → Mirrors l active
    → Mirrors (mark_lost now id l) active
unfolding mark_lost
mark_lost-Mirrors now id l active idle m j =
    rw (append_result_record-runs now id _) (elim (Bool-cases (id == j)) [
      | inl here ↦ rw (← (eq_iff id j).0 here) (
          any-running-end (running_row id) (ended now lost lost_error) id l.runs (λ r h. h)
            (λ r. refl)
          ∙ sym idle)
      | inr other ↦
          any-running-keep (running_row id) (ended now lost lost_error) j l.runs
            (λ r h. ground (arith, eq_iff r.id id, eq_iff r.id j))
          ∙ m j
    ])

mark_each_lost-Mirrors :
    (now : ℕ) (ids : List String) (l : Ledger) (active : List Entry)
    → All (λ id. has_turn id active ≡ false) ids
    → Mirrors l active
    → Mirrors (mark_each_lost now ids l) active
unfolding mark_each_lost
mark_each_lost-Mirrors now [] l active idle m = m
mark_each_lost-Mirrors now (id ∷ ids) l active (first, rest) m =
    mark_each_lost-Mirrors now ids (mark_lost now id l) active rest
      (mark_lost-Mirrors now id l active first m)

pub has_turn-active_run_ids :
    (id : String) (active : List Entry)
    → any (λ i. i == id) (active_run_ids active) ≡ has_turn id active
has_turn-active_run_ids id [] = refl
has_turn-active_run_ids id (e ∷ es) = ground (arith, has_turn-active_run_ids id es)

idle-keep :
    (active : List Entry) (ids : List String)
    → All
        (λ id. has_turn id active ≡ false)
        (keep (λ id. not (any (λ i. i == id) (active_run_ids active))) ids)
idle-keep active [] = tt
idle-keep active (id ∷ ids) =
    if_elim (λ xs. All (λ id. has_turn id active ≡ false) xs)
      (not (any (λ i. i == id) (active_run_ids active))) _ _
      (λ idle. (ground (arith, has_turn-active_run_ids id active), idle-keep active ids))
      (λ _. idle-keep active ids)

cancel_row-Mirror :
    (now : ℕ) (id : String) (found : Option AgentRun) (s : Turns)
    → has_turn id s.active ≡ false
    → Mirror s
    → Mirror (cancel_row now id found s)
cancel_row-Mirror now id none s idle m = m
cancel_row-Mirror now id (some run) s idle m =
    if_elim Mirror (is_pending run.status) _ _
      (λ _. finish-Mirrors now id _ s.ledger s.active idle m) (λ _. m)

abort-Mirrors :
    (p : Entry → Bool) (intent : AbortIntent) (l : Ledger) (active : List Entry)
    → Mirrors l active
    → Mirrors l (update_where p (intend intent) active)
abort-Mirrors p intent l active m j = m j ∙ sym (has_turn-intend p intent j active)

cancel_run-Mirror : (now : ℕ) (id : String) (s : Turns) → Mirror s → Mirror (cancel_run now id s)
unfolding cancel_run abort
cancel_run-Mirror now id s m =
    if_elim Mirror (not (is_some (agent_run_by_id id s.ledger.runs))) _ _ (λ _. m)
      (λ _.
        if_elim Mirror (has_turn id s.active) _ _ (λ _. abort-Mirrors _ _ s.ledger s.active m)
          (λ idle. cancel_row-Mirror now id _ s idle m))

created-Mirrors :
    (now : ℕ) (i : AgentRunInsert) (l : Ledger) (active : List Entry)
    → Mirrors l active
    → Mirrors (created (create_agent_run now i l) l) active
unfolding create_agent_run
created-Mirrors now i l active m =
    if_elim (λ x. Mirrors (created x l) active) (admits i l.runs) _ _
      (λ _ j. any-running-append j l.runs (inserted now i) refl ∙ m j) (λ _. m)

activity-Mirrors :
    (now : ℕ) (id : String) (u : AgentRunActivityUpdate) (l : Ledger) (active : List Entry)
    → Mirrors l active
    → Mirrors (record_agent_run_activity now id u l).0 active
unfolding record_agent_run_activity
activity-Mirrors now id u l active m =
    if_elim (λ (x : Ledger × Option AgentRun). Mirrors x.0 active) (any (running_row id) l.runs) _ _
      (λ _ j. any-running-keep (running_row id) (with_activity now u) j l.runs (λ r h. refl) ∙ m j)
      (λ _. m)

event-Mirrors :
    (now : ℕ) (id json : String) (l : Ledger) (active : List Entry)
    → Mirrors l active
    → Mirrors (append_agent_run_event now id json l).0 active
unfolding append_agent_run_event
event-Mirrors now id json l active m =
    if_elim (λ (x : Ledger × Option ℕ). Mirrors x.0 active) (any (running_row id) l.runs) _ _
      (λ _. m) (λ _. m)

turn_step-Mirror :
    (decoded : String → ℕ → String) (now : ℕ) (event : Event) (s : Turns)
    → Mirror s
    → Mirror (turn_step decoded now event s)
unfolding turn_step pump end_turn abort sweep_lost_runs mark_agent_runs_lost stop_turns
turn_step-Mirror decoded now (create i) s m = created-Mirrors now i s.ledger s.active m
turn_step-Mirror decoded now claims s m =
    if_elim Mirror s.stopping _ _ (λ _. m) (λ _. pump_loop-Mirror _ now s m)
turn_step-Mirror decoded now (activity id u) s m = activity-Mirrors now id u s.ledger s.active m
turn_step-Mirror decoded now (stream id json) s m = event-Mirrors now id json s.ledger s.active m
turn_step-Mirror decoded now (end_of id result) s m =
    if_elim Mirror (has_turn id s.active) _ _ (λ _. end_turn-Mirrors now id _ s.ledger s.active m)
      (λ _. m)
turn_step-Mirror decoded now (deadline id) s m = abort-Mirrors _ _ s.ledger s.active m
turn_step-Mirror decoded now (cancellation id) s m = cancel_run-Mirror now id s m
turn_step-Mirror decoded now (sweep grace) s m =
    mark_each_lost-Mirrors now _ s.ledger s.active (idle-keep s.active _) m
turn_step-Mirror decoded now shutdown s m =
    abort-Mirrors (λ e. true) AbortIntent.stop s.ledger s.active m

turns_after-Mirror :
    (decoded : String → ℕ → String) (history : List (ℕ × Event)) (s : Turns)
    → Mirror s
    → Mirror (turns_after decoded history s)
unfolding turns_after
turns_after-Mirror decoded [] s m = m
turns_after-Mirror decoded ((now, event) ∷ rest) s m =
    turns_after-Mirror decoded rest (turn_step decoded now event s)
      (turn_step-Mirror decoded now event s m)

start_turns-Mirror : (now max : ℕ) (l : Ledger) → Mirror (start_turns now max l)
unfolding start_turns mark_running_agent_runs_interrupted
start_turns-Mirror now max l j = rw (append_results-runs now _ _) (
    any-running-end (λ r. is_running r.status) (ended now interrupted _) j l.runs
      (λ r h. ground arith) (λ r. refl))

-- Whatever ledger an earlier daemon left, and whatever happens since the start of this one, in any
-- order, a run has a turn in flight exactly when its row is running.
pub turns_after-live :
    (decoded : String → ℕ → String) (now max : ℕ) (l : Ledger) (history : List (ℕ × Event))
    (id : String)
    → any (running_row id) (turns_after decoded history (start_turns now max l)).ledger.runs
      ≡ has_turn id (turns_after decoded history (start_turns now max l)).active
turns_after-live decoded now max l history =
    turns_after-Mirror decoded history (start_turns now max l) (start_turns-Mirror now max l)
