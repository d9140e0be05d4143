-- ===== src/Executor/Pump.antt =====
-- src/agent-runs/executor.ts `pump`: the fuel of its loop is enough.
use owner_operator.Prelude.{
  ℕ, zero, suc, ◌+◌, ◌-◌, ◌≤◌, String, ◌≡◌, refl, subst, sym, ◌∙◌, ◌⊎◌, inl, inr, true, false, not,
  Option, none, some, List, [], ◌∷◌, arith, if_elim, leb, leb→le, any, length, length-append,
  is_some, Option-cases,
}
use owner_operator.AgentRuns.{AgentRun, is_running, is_pending}
use owner_operator.Ledger.{
  Ledger, agent_run_by_id, claim_next_pending_agent_run, oldest_pending, running_count, running_row,
}
use owner_operator.Ledger.Steps.{claim, finish, step}
use owner_operator.Ledger.Steps
use owner_operator.Ledger.Rows.{Distinct, none_passes}
use owner_operator.Ledger.Wf.{WfLedger, step-WfLedger}
use owner_operator.Ledger.Queue.{
  claimed-none, claim_next_pending_agent_run-none_iff, NonePending,
  claim_next_pending_agent_run-Claimed,
}
use owner_operator.Executor.Turns.{
  Entry, Turns, claim_turn, claimed_turn, has_turn, Event, create, claims, activity, stream, end_of,
  deadline, cancellation, sweep, shutdown, active_run_ids, abort, cancel_run, cancel_row, end_turn,
  stop_turns, sweep_lost_runs, start_turns, turn_step, turns_after, pump, pump_loop, set_active,
}
use owner_operator.Executor.Live.{turns_after-live}
use owner_operator.Executor.Live.Claims.{Mirror, claim_turn-Mirror}

-- The loop has no more to do.
abbrev pub Settled : Turns → Type 0
Settled s =
    (s.max_concurrent ≤ length s.active)
    ⊎ ((s.max_concurrent ≤ running_count s.ledger.runs) ⊎ NonePending s.ledger.runs)

set_active-length :
    (id : String) (active : List Entry)
    → has_turn id active ≡ false
    → length (set_active id active) ≡ suc (length active)
unfolding set_active
set_active-length id active fresh = rw fresh (length-append active _ ∙ omega arith)

-- A row that is pending, and alone under its id, does not run.
pending-idle :
    (runs : List AgentRun) (n : AgentRun)
    → Distinct runs
    → agent_run_by_id n.id runs ≡ some n
    → is_pending n.status ≡ true
    → any (running_row n.id) runs ≡ false
pending-idle runs n d found p =
    none_passes n.id (λ r. is_running r.status) runs n d found (ground arith)

claim-none :
    (now m : ℕ) (l : Ledger)
    → WfLedger l
    → (claim_next_pending_agent_run now m l).1 ≡ none
    → (claim_next_pending_agent_run now m l).0 ≡ l
unfolding claim_next_pending_agent_run
claim-none now m l w =
    if_elim (λ (x : Ledger × Option AgentRun). x.1 ≡ none → x.0 ≡ l) (leb m (running_count l.runs))
      _ _ (λ _ _. refl)
      (λ _ h. let e = claimed-none now (oldest_pending l.runs) l w refl h in rw e refl)

claim-grows :
    (now : ℕ) (s : Turns) (run : AgentRun)
    → WfLedger s.ledger
    → Mirror s
    → (claim_next_pending_agent_run now s.max_concurrent s.ledger).1 ≡ some run
    → length (claim_turn now s).active ≡ suc (length s.active)
claim-grows now s run w m e =
    let (free, (n, found, p, first, same, more)) =
      claim_next_pending_agent_run-Claimed now s.max_concurrent s.ledger run w e in
    let its_id : run.id ≡ n.id = rw same in
    let idle : has_turn run.id s.active ≡ false =
      rw its_id (sym (m n.id) ∙ pending-idle s.ledger.runs n w.distinct found p) in
    rw e (set_active-length run.id s.active idle)

claims-grow :
    (now : ℕ) (s : Turns)
    → WfLedger s.ledger
    → Mirror s
    → is_some (claim_next_pending_agent_run now s.max_concurrent s.ledger).1 ≡ true
    → length (claim_turn now s).active ≡ suc (length s.active)
claims-grow now s w m e =
    elim (Option-cases (claim_next_pending_agent_run now s.max_concurrent s.ledger).1) [
      | inl idle ↦ absurd (cc)
      | inr (run, found) ↦ claim-grows now s run w m found
    ]

is_some-none {ℓ} : {A : Type ℓ} (o : Option A) → is_some o ≡ false → o ≡ none
is_some-none none e = refl
is_some-none (some a) e = absurd (ground arith)

claimed_turn-max_concurrent :
    (s : Turns) (c : Ledger × Option AgentRun)
    → (claimed_turn s c).max_concurrent ≡ s.max_concurrent
claimed_turn-max_concurrent s (l, none) = refl
claimed_turn-max_concurrent s (l, some run) = refl

claimed_turn-ledger : (s : Turns) (c : Ledger × Option AgentRun) → (claimed_turn s c).ledger ≡ c.0
claimed_turn-ledger s (l, none) = refl
claimed_turn-ledger s (l, some run) = refl

claim_turn-WfLedger : (now : ℕ) (s : Turns) → WfLedger s.ledger → WfLedger (claim_turn now s).ledger
unfolding step
claim_turn-WfLedger now s w =
    subst WfLedger
      (sym (claimed_turn-ledger s (claim_next_pending_agent_run now s.max_concurrent s.ledger)))
      (step-WfLedger now (claim s.max_concurrent) s.ledger w)

unclaimed-Settled :
    (now : ℕ) (s : Turns)
    → WfLedger s.ledger
    → (claim_next_pending_agent_run now s.max_concurrent s.ledger).1 ≡ none
    → Settled (claim_turn now s)
unclaimed-Settled now s w e =
    let same = claim-none now s.max_concurrent s.ledger w e in
    let here : Settled s =
      inr ((claim_next_pending_agent_run-none_iff now s.max_concurrent s.ledger w).0 e) in
    subst (λ c. Settled (claimed_turn s c)) (λ i. (sym same i, sym e i)) here

pump_loop-Settled :
    (fuel now : ℕ) (s : Turns)
    → s.max_concurrent ≤ length s.active + fuel
    → WfLedger s.ledger
    → Mirror s
    → Settled (pump_loop fuel now s)
unfolding pump_loop
pump_loop-Settled zero now s enough w m = inl (omega arith)
pump_loop-Settled (suc fuel) now s enough w m =
    if_elim Settled (leb s.max_concurrent (length s.active)) _ _ (λ full. inl (leb→le _ _ full))
      (λ _.
        if_elim Settled (is_some (claim_next_pending_agent_run now s.max_concurrent s.ledger).1) _ _
          (λ e.
            pump_loop-Settled fuel now (claim_turn now s)
              (omega (
                arith,
                claims-grow now s w m e,
                claimed_turn-max_concurrent s
                    (claim_next_pending_agent_run now s.max_concurrent s.ledger),
              ))
              (claim_turn-WfLedger now s w) (claim_turn-Mirror now s m))
          (λ e. unclaimed-Settled now s w (is_some-none _ e)))

pump_loop-WfLedger :
    (fuel now : ℕ) (s : Turns) → WfLedger s.ledger → WfLedger (pump_loop fuel now s).ledger
unfolding pump_loop
pump_loop-WfLedger zero now s w = w
pump_loop-WfLedger (suc fuel) now s w =
    if_elim (λ (x : Turns). WfLedger x.ledger) (leb s.max_concurrent (length s.active)) _ _ (λ _. w)
      (λ _.
        if_elim (λ (x : Turns). WfLedger x.ledger)
          (is_some (claim_next_pending_agent_run now s.max_concurrent s.ledger).1) _ _
          (λ _. pump_loop-WfLedger fuel now (claim_turn now s) (claim_turn-WfLedger now s w))
          (λ _. claim_turn-WfLedger now s w))

cancel_row-WfLedger :
    (now : ℕ) (id : String) (found : Option AgentRun) (s : Turns)
    → WfLedger s.ledger
    → WfLedger (cancel_row now id found s).ledger
unfolding step
cancel_row-WfLedger now id none s w = w
cancel_row-WfLedger now id (some run) s w =
    if_elim (λ (x : Turns). WfLedger x.ledger) (is_pending run.status) _ _
      (λ _. step-WfLedger now (finish id _) s.ledger w) (λ _. w)

turn_step-WfLedger :
    (decoded : String → ℕ → String) (now : ℕ) (event : Event) (s : Turns)
    → WfLedger s.ledger
    → WfLedger (turn_step decoded now event s).ledger
unfolding turn_step step pump end_turn abort cancel_run sweep_lost_runs stop_turns
turn_step-WfLedger decoded now (create i) s w = step-WfLedger now (Steps.create i) s.ledger w
turn_step-WfLedger decoded now claims s w =
    if_elim (λ (x : Turns). WfLedger x.ledger) s.stopping _ _ (λ _. w)
      (λ _. pump_loop-WfLedger _ now s w)
turn_step-WfLedger decoded now (activity id u) s w =
    step-WfLedger now (Steps.activity id u) s.ledger w
turn_step-WfLedger decoded now (stream id json) s w =
    step-WfLedger now (Steps.event id json) s.ledger w
turn_step-WfLedger decoded now (end_of id result) s w =
    if_elim (λ (x : Turns). WfLedger x.ledger) (has_turn id s.active) _ _
      (λ _. step-WfLedger now (finish id _) s.ledger w) (λ _. w)
turn_step-WfLedger decoded now (deadline id) s w = w
turn_step-WfLedger decoded now (cancellation id) s w =
    if_elim (λ (x : Turns). WfLedger x.ledger) (not (is_some (agent_run_by_id id s.ledger.runs))) _
      _ (λ _. w)
      (λ _.
        if_elim (λ (x : Turns). WfLedger x.ledger) (has_turn id s.active) _ _ (λ _. w)
          (λ _. cancel_row-WfLedger now id _ s w))
turn_step-WfLedger decoded now (sweep grace) s w =
    step-WfLedger now (Steps.lose (active_run_ids s.active) (now - grace)) s.ledger w
turn_step-WfLedger decoded now shutdown s w = w

pub turns_after-WfLedger :
    (decoded : String → ℕ → String) (history : List (ℕ × Event)) (s : Turns)
    → WfLedger s.ledger
    → WfLedger (turns_after decoded history s).ledger
unfolding turns_after
turns_after-WfLedger decoded [] s w = w
turns_after-WfLedger decoded ((now, event) ∷ rest) s w =
    turns_after-WfLedger decoded rest (turn_step decoded now event s)
      (turn_step-WfLedger decoded now event s w)

pub start_turns-WfLedger :
    (now max : ℕ) (l : Ledger) → WfLedger l → WfLedger (start_turns now max l).ledger
unfolding start_turns step
start_turns-WfLedger now max l w = step-WfLedger now (Steps.interrupt _) l w

-- Whatever happens since a daemon has started on a well-formed ledger, `pump` returns, and unless
-- the daemon is stopping it leaves no slot free that a pending run could take: as many turns are
-- in flight, or as many rows run, as the executor allows, or no row is pending.
pub pump-Settled :
    (decoded : String → ℕ → String) (now max later : ℕ) (l : Ledger) (history : List (ℕ × Event))
    → WfLedger l
    → ((turns_after decoded history (start_turns now max l)).stopping ≡ true)
      ⊎ Settled (pump later (turns_after decoded history (start_turns now max l)))
unfolding pump
pump-Settled decoded now max later l history w =
    let s = turns_after decoded history (start_turns now max l) in
    let w' = turns_after-WfLedger decoded history _ (start_turns-WfLedger now max l w) in
    if_elim (λ x. (s.stopping ≡ true) ⊎ Settled x) s.stopping _ _ (λ stopped. inl stopped)
      (λ _.
        inr (
          pump_loop-Settled _ later s (omega arith) w'
            (turns_after-live decoded now max l history)))
