-- ===== src/RunLog/Budget.antt =====
-- src/state/database.ts `enforceEventLogBudget`: the eviction against its specification.
use owner_operator.Prelude.{
  ℕ, ◌-◌, ◌≤◌, ◌≡◌, refl, sym, inl, inr, false, some, List, [], ◌∷◌, arith, ltb, leb, keep, get_or,
  if◌then◌else◌, Bool-cases, if_elim, leb→le, ap, ◌∙◌, subst,
}
use owner_operator.RunLog.{LogRow, RunLog, sum_bytes, evict, enforce_event_log_budget}
use owner_operator.RunLog.Order.{Between, issued, WfLog, keep-above}

-- The newest rows that fit the budget: the oldest row goes while the sum is above it.
pub newest_within : ℕ → List LogRow → List LogRow
newest_within budget [] = []
newest_within budget (r ∷ rs) =
    if leb (sum_bytes (r ∷ rs)) budget then r ∷ rs else newest_within budget rs

pub sum_bytes-newest_within :
    (budget : ℕ) (rs : List LogRow) → sum_bytes (newest_within budget rs) ≤ budget
unfolding newest_within
sum_bytes-newest_within budget [] = omega arith
sum_bytes-newest_within budget (r ∷ rs) = ground (arith, sum_bytes-newest_within budget rs)

pub newest_within-all :
    (budget : ℕ) (rs : List LogRow) → sum_bytes rs ≤ budget → newest_within budget rs ≡ rs
unfolding newest_within
newest_within-all budget [] h = refl
newest_within-all budget (r ∷ rs) h = ground arith

newest_within-Between :
    (budget lo hi : ℕ) (rs : List LogRow)
    → Between lo hi rs
    → Between lo hi (newest_within budget rs)
unfolding newest_within
newest_within-Between budget lo hi [] b = tt
newest_within-Between budget lo hi (r ∷ rs) (above, below, b) =
    elim (Bool-cases (leb (sum_bytes (r ∷ rs)) budget)) [
      | inl fits ↦ rw fits (above, below, b)
      | inr over ↦ rw over (
          Between-lower lo r.seq hi (newest_within budget rs) (omega arith)
            (newest_within-Between budget r.seq hi rs b))
    ]
  where
    Between-lower :
        (lo mid hi : ℕ) (rs : List LogRow) → lo ≤ mid → Between mid hi rs → Between lo hi rs
    Between-lower lo mid hi [] h b = tt
    Between-lower lo mid hi (r ∷ rs) h (above, below, b) = (omega arith, below, b)

keep-head :
    (after : ℕ) (r : LogRow) (rs : List LogRow)
    → r.seq ≤ after
    → keep (λ x. ltb after x.seq) (r ∷ rs) ≡ keep (λ x. ltb after x.seq) rs
keep-head after r rs h = ground arith

sub-bytes : (r : LogRow) (rs : List LogRow) → sum_bytes (r ∷ rs) - r.bytes ≡ sum_bytes rs
sub-bytes r rs = omega arith

abbrev Evicts : ℕ → List LogRow → ℕ → ℕ × ℕ → Type 0
Evicts budget rs through e =
    (through ≤ e.0)
    × (keep (λ r. ltb e.0 r.seq) rs ≡ newest_within budget rs)
    × (e.1 ≡ sum_bytes (newest_within budget rs))

evict-cons :
    (budget : ℕ) (r : LogRow) (rs : List LogRow) (through : ℕ) (e : ℕ × ℕ)
    → leb (sum_bytes (r ∷ rs)) budget ≡ false
    → through ≤ r.seq
    → Evicts budget rs r.seq e
    → Evicts budget (r ∷ rs) through e
unfolding newest_within
evict-cons budget r rs through e over below (past, kept, left) =
    (omega arith, rw (keep-head e.0 r rs past, over) kept, rw over left)

-- What one run of the loop computes.
evict-Evicts :
    (budget through hi : ℕ) (rs : List LogRow)
    → Between through hi rs
    → Evicts budget rs through (evict budget rs through (sum_bytes rs))
unfolding evict newest_within
evict-Evicts budget through hi [] b = (omega arith, refl, refl)
evict-Evicts budget through hi (r ∷ rs) (above, below, b) =
    if_elim (Evicts budget (r ∷ rs) through) (leb (sum_bytes (r ∷ rs)) budget) _ _
      (λ fits. (
        omega arith,
        rw (newest_within-all budget (r ∷ rs) (leb→le _ _ fits))
            (keep-above through through hi (r ∷ rs) (above, below, b) (omega arith)),
        rw (newest_within-all budget (r ∷ rs) (leb→le _ _ fits)),
      ))
      (λ over. evict-cons budget r rs through _ over (omega arith) (
        subst (λ t. Evicts budget rs r.seq (evict budget rs r.seq t)) (sym (sub-bytes r rs))
          (evict-Evicts budget r.seq hi rs b)))

known-sum :
    (log : RunLog) → WfLog log → get_or log.known_bytes (sum_bytes log.rows) ≡ sum_bytes log.rows
known-sum log w = ground arith

abbrev Trimmed : ℕ → RunLog → RunLog → Type 0
Trimmed budget log log' =
    (log'.rows ≡ newest_within budget log.rows)
    × (log'.known_bytes ≡ some (sum_bytes log'.rows))
    × (log'.last_seq ≡ log.last_seq)

enforce_event_log_budget-Trimmed :
    (budget : ℕ) (log : RunLog)
    → WfLog log
    → Trimmed budget log (enforce_event_log_budget budget log)
unfolding enforce_event_log_budget
enforce_event_log_budget-Trimmed budget log w = rw (known-sum log w) (
    if_elim (Trimmed budget log) (leb (sum_bytes log.rows) budget) _ _
      (λ fits. (sym (newest_within-all budget log.rows (leb→le _ _ fits)), refl, refl))
      (λ over.
        let (_, kept, left) = evict-Evicts budget 0 (issued log) log.rows w.ordered in
        (kept, ap some (left ∙ ap sum_bytes (sym kept)), refl)))

pub enforce_event_log_budget-WfLog :
    (budget : ℕ) (log : RunLog) → WfLog log → WfLog (enforce_event_log_budget budget log)
enforce_event_log_budget-WfLog budget log w =
    let (rows, known, seq) = enforce_event_log_budget-Trimmed budget log w in
    record {
      ordered = rw (rows, seq) (newest_within-Between budget 0 (issued log) log.rows w.ordered);
      counted = inr known;
    }

-- For a well-formed log the budget leaves the newest rows that fit, and nothing of an older row;
-- their bytes are within the budget, the count in memory is exact, and no number is given back.
pub enforce_event_log_budget-newest_within :
    (budget : ℕ) (log : RunLog)
    → WfLog log
    → let log' = enforce_event_log_budget budget log in
      (log'.rows ≡ newest_within budget log.rows)
      × (sum_bytes log'.rows ≤ budget)
      × (log'.known_bytes ≡ some (sum_bytes log'.rows))
      × (log'.last_seq ≡ log.last_seq)
enforce_event_log_budget-newest_within budget log w =
    let (rows, known, seq) = enforce_event_log_budget-Trimmed budget log w in
    (rows, rw rows (sum_bytes-newest_within budget log.rows), known, seq)
