-- ===== src/Ledger/Logs.antt =====
-- src/state/database.ts: the event log of a run that has ended stays as it is.
use owner_operator.Prelude.{
  ℕ, String, ◌≡◌, refl, ap, ◌∙◌, Bool, true, false, ◌&&◌, ◌||◌, Option, none, some, List, [], ◌∷◌,
  arith, if_elim, any, leb, ◌==◌, eq_iff, Bool-cases, inl, inr, find-passes, any-sort_by, any-keep,
  keep, sort_by, Option-cases, update_ne, not,
}
use owner_operator.AgentRuns.{AgentRun, is_terminal, is_pending, is_running}
use owner_operator.Ledger.{
  Ledger, agent_run_by_id, has_id, ids, create_agent_run, admits, running_count, oldest_pending,
  start_run, claimed, claim_next_pending_agent_run, record_agent_run_activity, running_row,
  active_row, append_result_record, append_results, finish_agent_run,
  mark_running_agent_runs_interrupted, mark_lost, mark_each_lost, mark_agent_runs_lost,
  append_agent_run_event, created_before, stale_run_ids,
}
use owner_operator.Ledger.Rows.{none_passes, Distinct}
use owner_operator.Ledger.Steps.{
  Operation, created, create, claim, activity, finish, interrupt, lose, event, step, replay,
}
use owner_operator.Ledger.Wf.{WfLedger, step-WfLedger}
use owner_operator.Ledger.Terminal.{step-keeps}

pub any-ids :
    (id : String) (runs : List AgentRun) → any (λ i. i == id) (ids runs) ≡ any (has_id id) runs
any-ids id [] = refl
any-ids id (r ∷ rs) = ground (arith, any-ids id rs)

-- The id of a row that the condition leaves out is not among the ids it keeps.
pub any-keep_out :
    (id : String) (p : AgentRun → Bool) (runs : List AgentRun) (run : AgentRun)
    → Distinct runs
    → agent_run_by_id id runs ≡ some run
    → p run ≡ false
    → any (has_id id) (keep p runs) ≡ false
any-keep_out id p [] run d e out = refl
any-keep_out id p (r ∷ rs) run (new, d) e out = elim (Bool-cases (r.id == id)) [
  | inl same ↦
      let below = any-keep (has_id id) p rs (rw (← (eq_iff r.id id).0 same) new) in ground arith
  | inr other ↦ ground (arith, any-keep_out id p rs run d)
]

pub any-stale :
    (id : String) (p : AgentRun → Bool) (runs : List AgentRun) (run : AgentRun)
    → Distinct runs
    → agent_run_by_id id runs ≡ some run
    → p run ≡ false
    → any (λ i. i == id) (ids (sort_by created_before (keep p runs))) ≡ false
any-stale id p runs run d e out =
    any-ids id _
    ∙ any-sort_by (has_id id) created_before (keep p runs)
    ∙ any-keep_out id p runs run d e out

pub append_result_record-other :
    (now : ℕ) (k id : String) (l : Ledger)
    → (k == id) ≡ false
    → (append_result_record now k l).logs id ≡ l.logs id
unfolding append_result_record
append_result_record-other now k id l other = elim (Option-cases (agent_run_by_id k l.runs)) [
  | inl missing ↦ rw (missing, append_result_record)
  | inr (run, found) ↦
      let same = (eq_iff run.id k).0 (find-passes (has_id k) l.runs run found) in
      rw (found, append_result_record) (ground (arith, ap (λ i. i == id) same))
]

pub append_results-other :
    (now : ℕ) (ks : List String) (id : String) (l : Ledger)
    → any (λ i. i == id) ks ≡ false
    → (append_results now ks l).logs id ≡ l.logs id
unfolding append_results
append_results-other now [] id l h = refl
append_results-other now (k ∷ ks) id l h =
    append_results-other now ks id (append_result_record now k l) (ground arith)
    ∙ append_result_record-other now k id l (ground arith)

pub mark_lost-other :
    (now : ℕ) (k id : String) (l : Ledger)
    → (k == id) ≡ false
    → (mark_lost now k l).logs id ≡ l.logs id
unfolding mark_lost
mark_lost-other now k id l other = append_result_record-other now k id _ other

pub mark_each_lost-other :
    (now : ℕ) (ks : List String) (id : String) (l : Ledger)
    → any (λ i. i == id) ks ≡ false
    → (mark_each_lost now ks l).logs id ≡ l.logs id
unfolding mark_each_lost
mark_each_lost-other now [] id l h = refl
mark_each_lost-other now (k ∷ ks) id l h =
    mark_each_lost-other now ks id (mark_lost now k l) (ground arith)
    ∙ mark_lost-other now k id l (ground arith)

-- So a statement that wrote a row wrote one of another id.
pub wrote_other :
    (id k : String) (p : AgentRun → Bool) (runs : List AgentRun) (run : AgentRun)
    → Distinct runs
    → agent_run_by_id id runs ≡ some run
    → p run ≡ false
    → any (λ r. has_id k r && p r) runs ≡ true
    → (k == id) ≡ false
wrote_other id k p runs run d e out h = elim (Bool-cases (k == id)) [
  | inl same ↦
      let mine : any (λ r. has_id k r && p r) runs ≡ false =
        rw ((eq_iff k id).0 same) (none_passes id p runs run d e out) in
      cc
  | inr other ↦ other
]

pub claimed-logs :
    (now : ℕ) (next : Option AgentRun) (l : Ledger) → (claimed now next l).0.logs ≡ l.logs
unfolding start_run
claimed-logs now none l = refl
claimed-logs now (some n) l = refl

module _ (id : String) (run : AgentRun) (over : is_terminal run.status ≡ true) where
  pub not_running : is_running run.status ≡ false
  not_running = ground arith

  pub not_active : is_pending run.status || is_running run.status ≡ false
  not_active = ground arith

  pub stale_excludes :
      (live : List String) (cutoff : ℕ) (runs : List AgentRun)
      → Distinct runs
      → agent_run_by_id id runs ≡ some run
      → any (λ i. i == id) (stale_run_ids live cutoff runs) ≡ false
  stale_excludes live cutoff runs d e =
      any-keep (λ i. i == id) (λ i. not (any (λ j. j == i) live)) _
        (any-stale id _ runs run d e (rw not_running))

  pub step-keeps_log :
      (now : ℕ) (op : Operation) (l : Ledger)
      → WfLedger l
      → agent_run_by_id id l.runs ≡ some run
      → (step now op l).logs id ≡ l.logs id
  unfolding step create_agent_run claim_next_pending_agent_run record_agent_run_activity
      finish_agent_run mark_running_agent_runs_interrupted mark_agent_runs_lost
      append_agent_run_event start_run
  step-keeps_log now (create i) l w e =
      if_elim (λ x. (created x l).logs id ≡ l.logs id) (admits i l.runs) _ _ (λ _. refl) (λ _. refl)
  step-keeps_log now (claim m) l w e =
      if_elim (λ (x : Ledger × Option AgentRun). x.0.logs id ≡ l.logs id)
        (leb m (running_count l.runs)) _ _ (λ _. refl)
        (λ _. ap (λ logs. logs id) (claimed-logs now (oldest_pending l.runs) l))
  step-keeps_log now (activity k u) l w e =
      if_elim (λ (x : Ledger × Option AgentRun). x.0.logs id ≡ l.logs id)
        (any (running_row k) l.runs) _ _ (λ _. refl) (λ _. refl)
  step-keeps_log now (finish k o) l w e =
      if_elim (λ (x : Ledger × Option AgentRun). x.0.logs id ≡ l.logs id)
        (any (active_row k) l.runs) _ _
        (λ wrote. append_result_record-other now k id _ (
          wrote_other id k (λ r. is_pending r.status || is_running r.status) l.runs run w.distinct e
            not_active wrote))
        (λ _. refl)
  step-keeps_log now (interrupt reason) l w e =
      append_results-other now _ id _
        (any-stale id (λ r. is_running r.status) l.runs run w.distinct e not_running)
  step-keeps_log now (lose live cutoff) l w e =
      mark_each_lost-other now _ id l (stale_excludes live cutoff l.runs w.distinct e)
  step-keeps_log now (event k json) l w e =
      if_elim (λ (x : Ledger × Option ℕ). x.0.logs id ≡ l.logs id) (any (running_row k) l.runs) _ _
        (λ wrote. update_ne l.logs k id _ (λ same.
          let other =
            wrote_other id k (λ r. is_running r.status) l.runs run w.distinct e not_running wrote in
          let same' = (eq_iff k id).1 same in cc))
        (λ _. refl)

  -- No history writes to the event log of a run that has ended.
  pub replay-keeps_log :
      (history : List (ℕ × Operation)) (l : Ledger)
      → WfLedger l
      → agent_run_by_id id l.runs ≡ some run
      → (replay history l).logs id ≡ l.logs id
  unfolding replay
  replay-keeps_log [] l w e = refl
  replay-keeps_log ((now, op) ∷ rest) l w e =
      replay-keeps_log rest (step now op l) (step-WfLedger now op l w)
        (step-keeps id run over now op l w e)
      ∙ step-keeps_log now op l w e

-- The terminal record of a row.
