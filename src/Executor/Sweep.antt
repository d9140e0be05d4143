-- ===== src/Executor/Sweep.antt =====
-- src/agent-runs/executor.ts `sweepLostRuns`: what becomes of a run whose end could not be written.
use owner_operator.Prelude.{
  ℕ, String, ◌≡◌, refl, sym, ap, ◌∙◌, true, false, not, ◌-◌, ◌<◌, some, List, [], ◌∷◌, arith, any,
  update_where, update_where-none, eq_iff, ltb, ◌==◌, Option, ◌≤◌, ◌⊎◌, inl, inr, Bool-cases,
  ltb→lt,
}
use owner_operator.AgentRuns.{AgentRun, is_running, lost}
use owner_operator.Ledger.{
  Ledger, agent_run_by_id, ended, last_seen, lost_error, mark_agent_runs_lost, mark_each_lost,
  mark_lost, running_row, stale_run_ids,
}
use owner_operator.Ledger.Rows.{append_result_record-runs}
use owner_operator.Executor.Turns.{
  Event, end_turn_unrecorded, start_turns, sweep_lost_runs, turns_after,
}
use owner_operator.Executor.Live.{turns_after-live}
use owner_operator.Ledger.Wf.{WfLedger}
use owner_operator.Executor.Stale.{
  left, any-stale_run_ids, others_live, this_stale, none_stale, nothing_else,
}
use owner_operator.Executor.Pump.{turns_after-WfLedger, start_turns-WfLedger}

none_running :
    (now : ℕ) (id : String) (runs : List AgentRun)
    → any (running_row id) (update_where (running_row id) (ended now lost lost_error) runs) ≡ false
none_running now id [] = refl
none_running now id (r ∷ runs) = ground (arith, none_running now id runs)

marked_runs :
    (now : ℕ) (id : String) (l : Ledger)
    → (mark_lost now id l).runs ≡ update_where (running_row id) (ended now lost lost_error) l.runs
unfolding mark_lost
marked_runs now id l = append_result_record-runs now id _

-- A sweep whose ids are all the same marks that run.
each_marked :
    (now : ℕ) (id : String) (ks : List String) (l : Ledger)
    → any (λ i. not (i == id)) ks ≡ false
    → any (λ i. i == id) ks ≡ true
    → (mark_each_lost now ks l).runs
      ≡ update_where (running_row id) (ended now lost lost_error) l.runs
unfolding mark_each_lost
each_marked now id [] l same some_id = ground (arith, some_id)
each_marked now id (k ∷ []) l same some_id =
    let this : k ≡ id = (eq_iff k id).0 (ground (arith, same)) in
    ap (λ i. (mark_lost now i l).runs) this ∙ marked_runs now id l
each_marked now id (k ∷ j ∷ ks) l same some_id =
    let this : k ≡ id = (eq_iff k id).0 (ground (arith, same)) in
    each_marked now id (j ∷ ks) (mark_lost now k l) (ground (arith, same)) (ground (arith, same))
    ∙ ap (λ i. update_where (running_row id) (ended now lost lost_error) (mark_lost now i l).runs)
        this
    ∙ ap (update_where (running_row id) (ended now lost lost_error)) (marked_runs now id l)
    ∙ update_where-none (running_row id) (ended now lost lost_error) _ (none_running now id l.runs)

find-other :
    (now : ℕ) (id other : String) (runs : List AgentRun)
    → (other == id) ≡ false
    → agent_run_by_id other (update_where (running_row id) (ended now lost lost_error) runs)
      ≡ agent_run_by_id other runs
find-other now id other [] ne = refl
find-other now id other (r ∷ runs) ne =
    ground
      (arith, eq_iff r.id id, eq_iff r.id other, eq_iff other id, find-other now id other runs ne)

find-this :
    (now : ℕ) (id : String) (runs : List AgentRun) (r : AgentRun)
    → agent_run_by_id id runs ≡ some r
    → is_running r.status ≡ true
    → agent_run_by_id id (update_where (running_row id) (ended now lost lost_error) runs)
      ≡ some (ended now lost lost_error r)
find-this now id [] r found runs_on = ground (arith, found)
find-this now id (q ∷ runs) r found runs_on =
    ground (arith, eq_iff q.id id, find-this now id runs r)

-- A running row after a sweep with this cutoff: lost where it was last seen before it, else untouched.
abbrev pub IsSwept : (now cutoff : ℕ) → AgentRun → Option AgentRun → Type 0
IsSwept now cutoff r after =
    ((last_seen r < cutoff)
      × (after
          ≡ some (record r { status = lost; finished_at = some now; error = some lost_error })))
    ⊎ ((cutoff ≤ last_seen r) × (after ≡ some r))

-- A daemon has started on a well-formed ledger, and whatever has happened since, a run's row is
-- running, and its turn ends while the database throws. The sweep that comes next marks the run lost,
-- at that instant and with the reason, if its last sign of life is older than the grace by then,
-- and leaves its row as it is if not; it leaves every other run as it was.
pub sweep_lost_runs-unrecorded :
    (decoded : String → ℕ → String) (now max later lost_grace_ms : ℕ) (l : Ledger)
    (history : List (ℕ × Event)) (id other : String) (r : AgentRun)
    → WfLedger l
    → agent_run_by_id id (turns_after decoded history (start_turns now max l)).ledger.runs ≡ some r
    → is_running r.status ≡ true
    → (other == id) ≡ false
    → IsSwept later (later - lost_grace_ms) r (
        agent_run_by_id id
          (sweep_lost_runs later lost_grace_ms (
            end_turn_unrecorded id
              (turns_after decoded history (start_turns now max l)))).ledger.runs)
      × (agent_run_by_id other
            (sweep_lost_runs later lost_grace_ms (
              end_turn_unrecorded id
                (turns_after decoded history (start_turns now max l)))).ledger.runs
          ≡ agent_run_by_id other (turns_after decoded history (start_turns now max l)).ledger.runs)
unfolding sweep_lost_runs mark_agent_runs_lost mark_each_lost
sweep_lost_runs-unrecorded decoded now max later grace l history id other r w found runs ne =
    let s = turns_after decoded history (start_turns now max l) in
    let live = turns_after-live decoded now max l history in
    let wf : WfLedger s.ledger =
      turns_after-WfLedger decoded history _ (start_turns-WfLedger now max l w) in
    let cutoff = later - grace in
    let stale = stale_run_ids (left id cutoff s.active) cutoff s.ledger.runs in
    let no_other =
      any-stale_run_ids (λ i. not (i == id)) (left id cutoff s.active) cutoff s.ledger.runs
      ∙ others_live id cutoff s.active s.ledger.runs (λ j e. sym (live j) ∙ e) in
    elim (Bool-cases (ltb (last_seen r) cutoff)) [
      | inl old ↦
          let marked = each_marked later id stale s.ledger no_other (
            any-stale_run_ids (λ i. i == id) (left id cutoff s.active) cutoff s.ledger.runs
            ∙ this_stale id cutoff s.active s.ledger.runs r found (ground (arith, runs, old))) in
          (
            inl (
              ltb→lt (last_seen r) cutoff old,
              ap (agent_run_by_id id) marked ∙ find-this later id s.ledger.runs r found runs,
            ),
            ap (agent_run_by_id other) marked ∙ find-other later id other s.ledger.runs ne,
          )
      | inr new ↦
          let nothing = nothing_else id stale no_other (
            none_stale id cutoff s.active s.ledger.runs r wf.distinct found
              (ground (arith, runs, new))) in
          let unmarked = ap (λ ks. (mark_each_lost later ks s.ledger).runs) nothing in
          (
            inr (ground (arith, new), ap (agent_run_by_id id) unmarked ∙ found),
            ap (agent_run_by_id other) unmarked,
          )
    ]
