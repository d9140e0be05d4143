-- ===== src/Executor/Slots.antt =====
-- src/agent-runs/executor.ts: the turns in flight stay within `maxConcurrent`.
use owner_operator.Prelude.{
  ℕ, zero, suc, ◌≤◌, ◌<◌, String, ◌≡◌, refl, Bool, true, not, Option, none, some, List, [], ◌∷◌,
  ◌++◌, arith, if_elim, is_some, leb, length, length-append, length-keep-le, update_where,
}
use owner_operator.AgentRuns.{AgentRun, is_pending}
use owner_operator.Ledger.{Ledger, agent_run_by_id, claim_next_pending_agent_run}
use owner_operator.Executor.Turns.{
  AbortIntent, Entry, Event, Turns, abort, activity, cancel_row, cancel_run, cancellation,
  claim_turn, claimed_turn, claims, create, deadline, end_of, end_turn, entry_of, has_turn, intend,
  pump, pump_loop, set_active, shutdown, start_turns, stop_turns, stream, sweep, sweep_lost_runs,
  turn_step, turns_after,
}

-- As many turns as the executor allows, at most.
abbrev pub Slotted : Turns → Type 0
Slotted s = length s.active ≤ s.max_concurrent

length-update_where :
    (p : Entry → Bool) (f : Entry → Entry) (active : List Entry)
    → length (update_where p f active) ≡ length active
length-update_where p f [] = refl
length-update_where p f (e ∷ es) = ground (arith, length-update_where p f es)

length-set_active :
    (id : String) (active : List Entry) → length (set_active id active) ≤ suc (length active)
unfolding set_active
length-set_active id active =
    if_elim (λ es. length es ≤ suc (length active)) (has_turn id active)
      (update_where (entry_of id) (λ e. record { run_id = id; intent = none }) active)
      (active ++ record { run_id = id; intent = none } ∷ [])
      (λ _. omega (
        arith,
        length-update_where (entry_of id) (λ e. record { run_id = id; intent = none }) active,
      ))
      (λ _. omega (arith, length-append active (record { run_id = id; intent = none } ∷ [])))

claimed_turn-Slotted :
    (s : Turns) (c : Ledger × Option AgentRun)
    → length s.active < s.max_concurrent
    → Slotted (claimed_turn s c)
claimed_turn-Slotted s (l, none) free = omega arith
claimed_turn-Slotted s (l, some run) free = omega (arith, length-set_active run.id s.active)

pump_loop-Slotted : (fuel now : ℕ) (s : Turns) → Slotted s → Slotted (pump_loop fuel now s)
unfolding pump_loop
pump_loop-Slotted zero now s h = h
pump_loop-Slotted (suc fuel) now s h =
    if_elim Slotted (leb s.max_concurrent (length s.active)) _ _ (λ _. h)
      (λ room.
        let free : length s.active < s.max_concurrent = ground arith in
        let next =
          claimed_turn-Slotted s (claim_next_pending_agent_run now s.max_concurrent s.ledger)
            free in
        if_elim Slotted (is_some (claim_next_pending_agent_run now s.max_concurrent s.ledger).1) _ _
          (λ _. pump_loop-Slotted fuel now (claim_turn now s) next) (λ _. next))

cancel_row-Slotted :
    (now : ℕ) (id : String) (found : Option AgentRun) (s : Turns)
    → Slotted s
    → Slotted (cancel_row now id found s)
cancel_row-Slotted now id none s h = h
cancel_row-Slotted now id (some run) s h =
    if_elim Slotted (is_pending run.status) _ _ (λ _. h) (λ _. h)

abort-Slotted :
    (p : Entry → Bool) (f : Entry → Entry) (active : List Entry) (n : ℕ)
    → length active ≤ n
    → length (update_where p f active) ≤ n
abort-Slotted p f active n h = omega (arith, length-update_where p f active)

turn_step-Slotted :
    (decoded : String → ℕ → String) (now : ℕ) (event : Event) (s : Turns)
    → Slotted s
    → Slotted (turn_step decoded now event s)
unfolding turn_step pump end_turn abort cancel_run sweep_lost_runs stop_turns
turn_step-Slotted decoded now (create i) s h = h
turn_step-Slotted decoded now claims s h =
    if_elim Slotted s.stopping _ _ (λ _. h) (λ _. pump_loop-Slotted _ now s h)
turn_step-Slotted decoded now (activity id u) s h = h
turn_step-Slotted decoded now (stream id json) s h = h
turn_step-Slotted decoded now (end_of id result) s h =
    if_elim Slotted (has_turn id s.active) _ _
      (λ _. omega (arith, length-keep-le (λ e. not (entry_of id e)) s.active)) (λ _. h)
turn_step-Slotted decoded now (deadline id) s h =
    abort-Slotted (entry_of id) (intend AbortIntent.timeout) s.active s.max_concurrent h
turn_step-Slotted decoded now (cancellation id) s h =
    if_elim Slotted (not (is_some (agent_run_by_id id s.ledger.runs))) _ _ (λ _. h)
      (λ _.
        if_elim Slotted (has_turn id s.active) _ _
          (λ _. abort-Slotted (entry_of id) (intend AbortIntent.cancel) s.active s.max_concurrent h)
          (λ _. cancel_row-Slotted now id _ s h))
turn_step-Slotted decoded now (sweep grace) s h = h
turn_step-Slotted decoded now shutdown s h =
    abort-Slotted (λ e. true) (intend AbortIntent.stop) s.active s.max_concurrent h

turns_after-Slotted :
    (decoded : String → ℕ → String) (history : List (ℕ × Event)) (s : Turns)
    → Slotted s
    → Slotted (turns_after decoded history s)
unfolding turns_after
turns_after-Slotted decoded [] s h = h
turns_after-Slotted decoded ((now, event) ∷ rest) s h =
    turns_after-Slotted decoded rest (turn_step decoded now event s)
      (turn_step-Slotted decoded now event s h)

-- Whatever happens since a daemon has started, in any order, it has at most as many turns in flight
-- as its executor allows.
pub turns_after-start_turns :
    (decoded : String → ℕ → String) (now max : ℕ) (l : Ledger) (history : List (ℕ × Event))
    → Slotted (turns_after decoded history (start_turns now max l))
unfolding start_turns
turns_after-start_turns decoded now max l history =
    turns_after-Slotted decoded history (start_turns now max l) (omega arith)
