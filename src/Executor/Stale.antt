-- ===== src/Executor/Stale.antt =====
-- src/state/database.ts `markAgentRunsLost`: the runs that a sweep finds when one running row has lost
-- its turn.
use owner_operator.Prelude.{
  ℕ, String, ◌≡◌, refl, ◌∙◌, Bool, true, false, not, ◌&&◌, some, List, [], ◌∷◌, arith, any, find,
  keep, sort_by, any-sort_by, any-keep, eq_iff, eq_refl, ltb, ◌==◌,
}
use owner_operator.AgentRuns.{AgentRun, is_running}
use owner_operator.Ledger.{
  agent_run_by_id, created_before, has_id, ids, last_seen, running_row, stale_run_ids,
}
use owner_operator.Executor.Turns.{Entry, active_run_ids, delete_active, has_turn}
use owner_operator.Executor.Live.{has_turn-active_run_ids}
use owner_operator.Ledger.Rows.{Distinct}
use owner_operator.Ledger.Logs.{any-stale}

-- Tests on the ids that a sweep finds, as tests on the rows.
any-keep_both :
    (q p : AgentRun → Bool) (runs : List AgentRun)
    → any q (keep p runs) ≡ any (λ r. p r && q r) runs
any-keep_both q p [] = refl
any-keep_both q p (r ∷ runs) = ground (arith, any-keep_both q p runs)

any-keep-ids :
    (q p : String → Bool) (runs : List AgentRun)
    → any q (keep p (ids runs)) ≡ any (λ r. p r.id && q r.id) runs
any-keep-ids q p [] = refl
any-keep-ids q p (r ∷ runs) = ground (arith, any-keep-ids q p runs)

abbrev pub is_stale : (cutoff : ℕ) → AgentRun → Bool
is_stale cutoff r = is_running r.status && ltb (last_seen r) cutoff

abbrev pub idle : List String → String → Bool
idle live id = not (any (λ i. i == id) live)

pub any-stale_run_ids :
    (q : String → Bool) (live : List String) (cutoff : ℕ) (runs : List AgentRun)
    → any q (stale_run_ids live cutoff runs)
      ≡ any (λ r. is_stale cutoff r && (idle live r.id && q r.id)) runs
any-stale_run_ids q live cutoff runs =
    any-keep-ids q (idle live) (sort_by created_before (keep (is_stale cutoff) runs))
    ∙ any-sort_by (λ r. idle live r.id && q r.id) created_before (keep (is_stale cutoff) runs)
    ∙ any-keep_both (λ r. idle live r.id && q r.id) (is_stale cutoff) runs

has_turn-delete :
    (id other : String) (active : List Entry)
    → (other == id) ≡ false
    → has_turn other (delete_active id active) ≡ has_turn other active
has_turn-delete id other [] ne = refl
has_turn-delete id other (e ∷ es) ne = ground (
  arith,
  eq_iff e.run_id id,
  eq_iff e.run_id other,
  eq_iff other id,
  has_turn-delete id other es ne,
)

has_turn-deleted :
    (id : String) (active : List Entry) → has_turn id (delete_active id active) ≡ false
has_turn-deleted id [] = refl
has_turn-deleted id (e ∷ es) = ground (arith, has_turn-deleted id es)

module _ (id : String) (cutoff : ℕ) (active : List Entry) where
  abbrev pub left : List String
  left = active_run_ids (delete_active id active)

  pub others_live :
      (runs : List AgentRun)
      → ((j : String) → any (running_row j) runs ≡ true → has_turn j active ≡ true)
      → any (λ r. is_stale cutoff r && (idle left r.id && not (r.id == id))) runs ≡ false
  others_live [] live = refl
  others_live (r ∷ runs) live =
      let below = others_live runs (λ j e. live j (ground (arith, e))) in
      ground (
        arith,
        live r.id,
        eq_refl r.id,
        has_turn-active_run_ids r.id (delete_active id active),
        has_turn-delete id r.id active,
        below,
      )

  pub this_stale :
      (runs : List AgentRun) (r : AgentRun)
      → find (has_id id) runs ≡ some r
      → is_stale cutoff r ≡ true
      → any (λ q. is_stale cutoff q && (idle left q.id && (q.id == id))) runs ≡ true
  this_stale [] r found old = ground (arith, found)
  this_stale (s ∷ runs) r found old = ground (
    arith,
    eq_iff s.id id,
    has_turn-active_run_ids id (delete_active id active),
    has_turn-deleted id active,
    this_stale runs r,
  )

  -- Where its row is too new, the sweep finds no id.
  pub none_stale :
      (runs : List AgentRun) (r : AgentRun)
      → Distinct runs
      → agent_run_by_id id runs ≡ some r
      → is_stale cutoff r ≡ false
      → any (λ i. i == id) (stale_run_ids left cutoff runs) ≡ false
  none_stale runs r d found new =
      any-keep (λ i. i == id) (idle left) _ (any-stale id (is_stale cutoff) runs r d found new)

pub nothing_else :
    (id : String) (ks : List String)
    → any (λ i. not (i == id)) ks ≡ false
    → any (λ i. i == id) ks ≡ false
    → ks ≡ []
nothing_else id [] same none_id = refl
nothing_else id (k ∷ ks) same none_id = ground (arith, same, none_id)
