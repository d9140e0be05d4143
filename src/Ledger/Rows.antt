-- ===== src/Ledger/Rows.antt =====
-- Queries on the runs after each statement of src/state/database.ts.
use owner_operator.Prelude.{
  ℕ, String, ◌≡◌, refl, ap, ◌∙◌, ◌⊎◌, any-find-some, Bool, true, false, ◌&&◌, none, some, List, [],
  ◌∷◌, ◌++◌, arith, any, update_where, ◌==◌, eq_iff, eq_refl, inl, inr, if◌then◌else◌, Bool-cases,
  any-update_where, any-append,
}
use owner_operator.AgentRuns.{AgentRun, is_pending}
use owner_operator.Ledger.{
  Ledger, agent_run_by_id, has_id, append_result_record, append_results, mark_lost, mark_each_lost,
  oldest_pending,
}

pub append_result_record-runs :
    (now : ℕ) (id : String) (l : Ledger) → (append_result_record now id l).runs ≡ l.runs
unfolding append_result_record
append_result_record-runs now id l = ground arith

pub append_results-runs :
    (now : ℕ) (ids : List String) (l : Ledger) → (append_results now ids l).runs ≡ l.runs
unfolding append_results
append_results-runs now [] l = refl
append_results-runs now (id ∷ ids) l =
    append_results-runs now ids (append_result_record now id l) ∙ append_result_record-runs now id l

-- What holds of a ledger's runs holds after each run of the sweep, if each run keeps it.
pub mark_each_lost-keeps {ℓ} :
    (P : Ledger → Type ℓ) (now : ℕ)
    → ((id : String) (l : Ledger) → P l → P (mark_lost now id l))
    → (ids : List String) (l : Ledger) → P l
    → P (mark_each_lost now ids l)
unfolding mark_each_lost
mark_each_lost-keeps P now keeps [] l h = h
mark_each_lost-keeps P now keeps (id ∷ ids) l h =
    mark_each_lost-keeps P now keeps ids (mark_lost now id l) (keeps id l h)

-- No id stands twice.
abbrev pub Distinct : List AgentRun → Type 0
Distinct [] = Unit {0}
Distinct (r ∷ rs) = (any (has_id r.id) rs ≡ false) × Distinct rs

updated-id : (b : Bool) (x y : AgentRun) → x.id ≡ y.id → (if b then x else y).id ≡ y.id
updated-id true x y e = e
updated-id false x y e = refl

pub Distinct-update_where :
    (p : AgentRun → Bool) (f : AgentRun → AgentRun) (runs : List AgentRun)
    → ((r : AgentRun) → (f r).id ≡ r.id)
    → Distinct runs
    → Distinct (update_where p f runs)
Distinct-update_where p f [] same d = tt
Distinct-update_where p f (r ∷ rs) same (new, d) = (
  rw (updated-id (p r) (f r) r (same r))
      (any-update_where (has_id r.id) p f rs (λ s. ap (λ i. i == r.id) (same s)) ∙ new),
  Distinct-update_where p f rs same d,
)

pub Distinct-append :
    (runs : List AgentRun) (r : AgentRun)
    → Distinct runs
    → agent_run_by_id r.id runs ≡ none
    → Distinct (runs ++ r ∷ [])
Distinct-append [] r d e = (refl, tt)
Distinct-append (s ∷ runs) r (new, d) e = (
  any-append (has_id s.id) runs (r ∷ []) new (ground (arith, eq_iff s.id r.id, eq_iff r.id s.id)),
  Distinct-append runs r d (ground arith),
)

-- A row found below another has another id.
pub found_below :
    (r : AgentRun) (runs : List AgentRun) (id : String) (n : AgentRun)
    → any (has_id r.id) runs ≡ false
    → agent_run_by_id id runs ≡ some n
    → (r.id == id) ≡ false
found_below r runs id n new e = elim (Bool-cases (r.id == id)) [
  | inl same ↦
      let again : any (has_id r.id) runs ≡ true =
        rw ((eq_iff r.id id).0 same) (any-find-some (has_id id) runs n e) in
      cc
  | inr other ↦ other
]

pub oldest_pending-status :
    (runs : List AgentRun) (n : AgentRun)
    → oldest_pending runs ≡ some n
    → is_pending n.status ≡ true
unfolding oldest_pending
oldest_pending-status [] n e = ground arith
oldest_pending-status (r ∷ rs) n e = ground (arith, oldest_pending-status rs n)

-- What the query gives is the head or what it gives of the tail.
pub oldest_pending-cons :
    (r : AgentRun) (rs : List AgentRun) (n : AgentRun)
    → oldest_pending (r ∷ rs) ≡ some n
    → (r ≡ n) ⊎ (oldest_pending rs ≡ some n)
unfolding oldest_pending
oldest_pending-cons r rs n e = ground arith

pub oldest_pending-found :
    (runs : List AgentRun) (n : AgentRun)
    → Distinct runs
    → oldest_pending runs ≡ some n
    → agent_run_by_id n.id runs ≡ some n
oldest_pending-found [] n d e = unfold oldest_pending in ground arith
oldest_pending-found (r ∷ rs) n (new, d) e = elim (oldest_pending-cons r rs n e) [
  | inl same ↦ rw (← same, eq_refl r.id)
  | inr below ↦
      let found = oldest_pending-found rs n d below in rw (found_below r rs n.id n new found) found
]

pub any-and_left :
    (q p : AgentRun → Bool) (runs : List AgentRun)
    → any q runs ≡ false
    → any (λ r. q r && p r) runs ≡ false
any-and_left q p [] h = refl
any-and_left q p (r ∷ rs) h = ground (arith, any-and_left q p rs)

-- No row of this id passes a test that its row fails.
pub none_passes :
    (id : String) (p : AgentRun → Bool) (runs : List AgentRun) (run : AgentRun)
    → Distinct runs
    → agent_run_by_id id runs ≡ some run
    → p run ≡ false
    → any (λ r. has_id id r && p r) runs ≡ false
none_passes id p [] run d e out = refl
none_passes id p (r ∷ rs) run (new, d) e out = elim (Bool-cases (r.id == id)) [
  | inl same ↦
      let below = any-and_left (has_id id) p rs (rw (← (eq_iff r.id id).0 same) new) in ground arith
  | inr other ↦ ground (arith, none_passes id p rs run d)
]
