-- ===== src/Executor/Live/Claims.antt =====
-- src/agent-runs/executor.ts `pump`: a claimed row has a turn.
use owner_operator.Prelude.{
  ℕ, zero, suc, String, ◌≡◌, refl, ◌∙◌, inl, inr, true, Option, none, some, List, [], ◌∷◌, ◌==◌,
  arith, if_elim, leb, any, find, length, update_where, eq_iff, eq_refl, Bool-cases, Option-cases,
  is_some, any-find-none, find-passes,
}
use owner_operator.AgentRuns.{AgentRun}
use owner_operator.Ledger.{
  Ledger, has_id, started, running_row, start_run, claim_next_pending_agent_run, claimed,
  oldest_pending, running_count,
}
use owner_operator.Ledger.Rows.{oldest_pending-cons}
use owner_operator.Executor.Turns.{
  Entry, Turns, has_turn, set_active, claimed_turn, claim_turn, pump_loop,
}
use owner_operator.Executor.Live.Rows.{
  Mirrors, any-running-keep, any-running-started, any-started, has_turn-set_active,
}

abbrev pub Mirror : Turns → Type 0
Mirror s = Mirrors s.ledger s.active

pub oldest_pending-stands :
    (runs : List AgentRun) (n : AgentRun)
    → oldest_pending runs ≡ some n
    → any (has_id n.id) runs ≡ true
oldest_pending-stands [] n e = unfold oldest_pending in ground arith
oldest_pending-stands (r ∷ rs) n e = elim (oldest_pending-cons r rs n e) [
  | inl same ↦ rw (same, eq_refl n.id)
  | inr below ↦ rw (oldest_pending-stands rs n below) (ground arith)
]

-- The claimed row gets a turn as it starts to run.
pub start-Mirrors :
    (now : ℕ) (id : String) (runs : List AgentRun) (run : AgentRun) (active : List Entry)
    → ((j : String) → any (running_row j) runs ≡ has_turn j active)
    → any (has_id id) runs ≡ true
    → find (has_id id) (update_where (has_id id) (started now) runs) ≡ some run
    → (j : String)
    → any (running_row j) (update_where (has_id id) (started now) runs)
      ≡ has_turn j (set_active run.id active)
start-Mirrors now id runs run active same stands found j =
    let its_id : run.id ≡ id = (eq_iff run.id id).0 (find-passes (has_id id) _ run found) in
    rw (its_id, has_turn-set_active id j active)
      (elim (Bool-cases (id == j)) [
        | inl here ↦
            rw (← (eq_iff id j).0 here, eq_refl id)
              (any-running-started now id runs stands ∙ ground arith)
        | inr other ↦ rw other (
            any-running-keep (has_id id) (started now) j runs
              (λ r h. ground (arith, eq_iff r.id id, eq_iff r.id j))
            ∙ same j
            ∙ ground arith)
      ])

pub claimed-Mirror :
    (now : ℕ) (next : Option AgentRun) (s : Turns)
    → oldest_pending s.ledger.runs ≡ next
    → Mirror s
    → Mirror (claimed_turn s (claimed now next s.ledger))
unfolding start_run
claimed-Mirror now none s e m = m
claimed-Mirror now (some n) s e m =
    elim (Option-cases
      (find (has_id n.id) (update_where (has_id n.id) (started now) s.ledger.runs))) [
        | inl missing ↦ absurd (
            let found =
              any-started now n.id s.ledger.runs (oldest_pending-stands s.ledger.runs n e) in
            let lost = any-find-none (has_id n.id) _ missing in cc)
        | inr (run, found) ↦ rw found (
            start-Mirrors now n.id s.ledger.runs run s.active m
              (oldest_pending-stands s.ledger.runs n e) found)
      ]

pub claim_turn-Mirror : (now : ℕ) (s : Turns) → Mirror s → Mirror (claim_turn now s)
unfolding claim_next_pending_agent_run
claim_turn-Mirror now s m =
    if_elim (λ (x : Ledger × Option AgentRun). Mirror (claimed_turn s x))
      (leb s.max_concurrent (running_count s.ledger.runs)) _ _ (λ _. m)
      (λ _. claimed-Mirror now (oldest_pending s.ledger.runs) s refl m)

pub pump_loop-Mirror : (fuel now : ℕ) (s : Turns) → Mirror s → Mirror (pump_loop fuel now s)
unfolding pump_loop
pump_loop-Mirror zero now s m = m
pump_loop-Mirror (suc fuel) now s m =
    if_elim Mirror (leb s.max_concurrent (length s.active)) _ _ (λ _. m)
      (λ _.
        if_elim Mirror (is_some (claim_next_pending_agent_run now s.max_concurrent s.ledger).1) _ _
          (λ _. pump_loop-Mirror fuel now (claim_turn now s) (claim_turn-Mirror now s m))
          (λ _. claim_turn-Mirror now s m))
