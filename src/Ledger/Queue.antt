-- ===== src/Ledger/Queue.antt =====
-- src/state/database.ts `claimNextPendingAgentRun`: the row that a claim starts.
use owner_operator.Prelude.{
  ℕ, suc, ◌≤◌, ◌<◌, String, ◌≡◌, refl, sym, ◌∙◌, true, false, Option, none, some, List, [], ◌∷◌,
  arith, if_elim, update_where, update_where-none, leb, leb→le, ◌==◌, eq_iff, eq_refl, Bool-cases,
  inl, inr, All, find-update_where, ◌⊎◌, ◌↔◌, Option-cases,
}
use owner_operator.AgentRuns.{AgentRun, is_pending, is_running, final_status, AgentRunFinalStatus}
use owner_operator.Ledger.{
  Ledger, agent_run_by_id, has_id, started, running_count, oldest_pending, start_run, claimed,
  claim_next_pending_agent_run,
}
use owner_operator.Ledger.Rows.{Distinct, oldest_pending-status, oldest_pending-found}
use owner_operator.Ledger.Wf.{WfLedger}

-- Starting the row with this id adds one to the running rows.
pub running_count-start :
    (now : ℕ) (runs : List AgentRun) (id : String) (n : AgentRun)
    → Distinct runs
    → agent_run_by_id id runs ≡ some n
    → is_pending n.status ≡ true
    → running_count (update_where (has_id id) (started now) runs) ≡ suc (running_count runs)
running_count-start now [] id n d e p = ground arith
running_count-start now (r ∷ rs) id n (new, d) e p = elim (Bool-cases (r.id == id)) [
  | inl same ↦
      let here : r ≡ n = ground arith in
      let rest =
        update_where-none (has_id id) (started now) rs (rw (← (eq_iff r.id id).0 same) new) in
      rw (same, rest) (ground arith)
  | inr other ↦
      let rest = running_count-start now rs id n d (ground arith) p in rw other (ground arith)
]

pub final_status-not_running : (s : AgentRunFinalStatus) → is_running (final_status s) ≡ false
final_status-not_running s = ground arith

-- No pending row is older.
abbrev pub IsFirst : AgentRun → List AgentRun → Type 0
IsFirst n runs = All (λ r. is_pending r.status ≡ true → n.created_at ≤ r.created_at) runs

abbrev pub NonePending : List AgentRun → Type 0
NonePending runs = All (λ r. is_pending r.status ≡ false) runs

pub oldest_pending-none : (runs : List AgentRun) → oldest_pending runs ≡ none → NonePending runs
unfolding oldest_pending
oldest_pending-none [] e = tt
oldest_pending-none (r ∷ rs) e = (ground arith, oldest_pending-none rs (ground arith))

pub IsFirst-of_none : (n : AgentRun) (runs : List AgentRun) → NonePending runs → IsFirst n runs
IsFirst-of_none n [] h = tt
IsFirst-of_none n (r ∷ rs) (out, h) = (λ p. absurd (ground arith), IsFirst-of_none n rs h)

pub IsFirst-older :
    (n s : AgentRun) (runs : List AgentRun)
    → n.created_at ≤ s.created_at
    → IsFirst s runs
    → IsFirst n runs
IsFirst-older n s [] le h = tt
IsFirst-older n s (r ∷ rs) le (here, h) =
    (λ p. let below = here p in omega arith, IsFirst-older n s rs le h)

pub oldest_pending-IsFirst :
    (runs : List AgentRun) (n : AgentRun) → oldest_pending runs ≡ some n → IsFirst n runs
oldest_pending-IsFirst [] n e = tt
oldest_pending-IsFirst (r ∷ rs) n e = elim (Option-cases (oldest_pending rs)) [
  | inl none_below ↦
      (λ p. alone none_below p, IsFirst-of_none n rs (oldest_pending-none rs none_below))
  | inr (s, below) ↦ (
    λ p. among s below p,
    IsFirst-older n s rs (older s below) (oldest_pending-IsFirst rs s below),
  )
]
  where
    alone : oldest_pending rs ≡ none → is_pending r.status ≡ true → n.created_at ≤ r.created_at
    alone none_below p = unfold oldest_pending in ground arith

    among :
        (s : AgentRun)
        → oldest_pending rs ≡ some s
        → is_pending r.status ≡ true
        → n.created_at ≤ r.created_at
    among s below p = unfold oldest_pending in ground arith

    older : (s : AgentRun) → oldest_pending rs ≡ some s → n.created_at ≤ s.created_at
    older s below = unfold oldest_pending in ground arith

-- What a claim that starts a row has done.
abbrev pub Claimed : ℕ → Ledger → Ledger → AgentRun → Type 0
Claimed now l l' run =
    (n : AgentRun) × (agent_run_by_id n.id l.runs ≡ some n)
    × (is_pending n.status ≡ true)
    × IsFirst n l.runs
    × (run ≡ started now n)
    × (running_count l'.runs ≡ suc (running_count l.runs))

pub started-found :
    (now : ℕ) (n : AgentRun) (runs : List AgentRun)
    → agent_run_by_id n.id runs ≡ some n
    → agent_run_by_id n.id (update_where (has_id n.id) (started now) runs) ≡ some (started now n)
started-found now n runs found = ground (
  arith,
  eq_refl n.id,
  find-update_where (has_id n.id) (has_id n.id) (started now) runs n (λ r. refl) found,
)

pub claimed-Claimed :
    (now : ℕ) (next : Option AgentRun) (l : Ledger) (run : AgentRun)
    → WfLedger l
    → oldest_pending l.runs ≡ next
    → (claimed now next l).1 ≡ some run
    → Claimed now l (claimed now next l).0 run
unfolding start_run
claimed-Claimed now none l run w e h = absurd (ground arith)
claimed-Claimed now (some n) l run w e h =
    let found = oldest_pending-found l.runs n w.distinct e in
    let p = oldest_pending-status l.runs n e in
    (
      n,
      found,
      p,
      oldest_pending-IsFirst l.runs n e,
      (let same : some run ≡ some (started now n) = sym h ∙ started-found now n l.runs found in cc),
      running_count-start now l.runs n.id n w.distinct found p,
    )

-- In a well-formed ledger a claim that returns a run has started a pending row that no pending
-- row is older than, under a cap that was not reached, and filled one place under it.
pub claim_next_pending_agent_run-Claimed :
    (now max_running : ℕ) (l : Ledger) (run : AgentRun)
    → WfLedger l
    → (claim_next_pending_agent_run now max_running l).1 ≡ some run
    → (running_count l.runs < max_running)
      × Claimed now l (claim_next_pending_agent_run now max_running l).0 run
unfolding claim_next_pending_agent_run
claim_next_pending_agent_run-Claimed now m l run w =
    if_elim
      (λ (x : Ledger × Option AgentRun).
        x.1 ≡ some run → (running_count l.runs < m) × Claimed now l x.0 run)
      (leb m (running_count l.runs)) _ _ (λ _ h. absurd (ground arith))
      (λ free h. (ground arith, claimed-Claimed now (oldest_pending l.runs) l run w refl h))

pub oldest_pending-of_none : (runs : List AgentRun) → NonePending runs → oldest_pending runs ≡ none
unfolding oldest_pending
oldest_pending-of_none [] h = refl
oldest_pending-of_none (r ∷ rs) (out, h) = ground (arith, oldest_pending-of_none rs h)

pub claimed-none :
    (now : ℕ) (next : Option AgentRun) (l : Ledger)
    → WfLedger l
    → oldest_pending l.runs ≡ next
    → (claimed now next l).1 ≡ none
    → next ≡ none
unfolding start_run
claimed-none now none l w e h = refl
claimed-none now (some n) l w e h =
    let there = started-found now n l.runs (oldest_pending-found l.runs n w.distinct e) in cc

-- In a well-formed ledger a claim returns nothing exactly when the cap is reached or no row is
-- pending.
pub claim_next_pending_agent_run-none_iff :
    (now max_running : ℕ) (l : Ledger)
    → WfLedger l
    → ((claim_next_pending_agent_run now max_running l).1 ≡ none)
      ↔ ((max_running ≤ running_count l.runs) ⊎ NonePending l.runs)
unfolding claim_next_pending_agent_run
claim_next_pending_agent_run-none_iff now m l w =
    if_elim
      (λ (x : Ledger × Option AgentRun).
        (x.1 ≡ none) ↔ ((m ≤ running_count l.runs) ⊎ NonePending l.runs))
      (leb m (running_count l.runs)) _ _ (λ full. (λ _. inl (leb→le _ _ full), λ _. refl))
      (λ free. (
        λ h. inr (oldest_pending-none l.runs (claimed-none now (oldest_pending l.runs) l w refl h)),
        (λ c. elim c [
          | inl full ↦ absurd (ground arith)
          | inr waiting ↦ rw (oldest_pending-of_none l.runs waiting)
        ]),
      ))
