-- ===== src/Ledger/Wf.antt =====
-- The ledger of src/state/database.ts stays well formed: run ids are distinct, and every run's
-- event log is.
use owner_operator.Prelude.{
  ℕ, String, ◌≡◌, refl, Bool, true, Option, none, some, List, [], ◌∷◌, arith, update, ◌==◌, if_elim,
  update_where, Option-cases, inl, inr, any, leb,
}
use owner_operator.AgentRuns.{AgentRun}
use owner_operator.RunLog.{RunLog}
use owner_operator.RunLog.Json.{stream}
use owner_operator.RunLog.Order.{WfLog, insert_log_record-WfLog}
use owner_operator.RunLog.Budget.{enforce_event_log_budget-WfLog}
use owner_operator.Ledger.{
  AgentRunInsert, Ledger, agent_run_by_id, create_agent_run, admits, inserted, running_count,
  oldest_pending, start_run, claimed, claim_next_pending_agent_run, record_agent_run_activity,
  running_row, active_row, append_result_record, append_results, finish_agent_run,
  mark_running_agent_runs_interrupted, mark_lost, mark_agent_runs_lost, append_agent_run_event,
}
use owner_operator.Ledger.Rows.{
  Distinct, Distinct-update_where, Distinct-append, mark_each_lost-keeps,
}
use owner_operator.Ledger.Steps.{
  Operation, created, create, claim, activity, finish, interrupt, lose, event, step, replay,
}

pub record WfLedger (l : Ledger) : Type 0 where
  pub distinct : Distinct l.runs
  pub logs : (id : String) → WfLog (l.logs id)

update-WfLog :
    (logs : String → RunLog) (k : String) (log : RunLog)
    → ((id : String) → WfLog (logs id))
    → WfLog log
    → (id : String) → WfLog (update logs k log id)
update-WfLog logs k log h w id = if_elim WfLog (k == id) log (logs id) (λ _. w) (λ _. h id)

-- Rewriting rows without touching their ids.
with_rows :
    (l : Ledger) (p : AgentRun → Bool) (f : AgentRun → AgentRun)
    → ((r : AgentRun) → (f r).id ≡ r.id)
    → WfLedger l
    → WfLedger (record l { runs = update_where p f l.runs })
with_rows l p f same w = record {
  distinct = Distinct-update_where p f l.runs same w.distinct;
  logs = w.logs;
}

pub append_result_record-WfLedger :
    (now : ℕ) (id : String) (l : Ledger) → WfLedger l → WfLedger (append_result_record now id l)
unfolding append_result_record
append_result_record-WfLedger now id l w = elim (Option-cases (agent_run_by_id id l.runs)) [
  | inl missing ↦ rw (missing, append_result_record) w
  | inr (run, found) ↦
      rw (found, append_result_record)
        (record {
          distinct = w.distinct;
          logs =
              update-WfLog l.logs run.id _ w.logs
                (insert_log_record-WfLog now _ (l.logs run.id) (w.logs run.id));
        })
]

append_results-WfLedger :
    (now : ℕ) (ids : List String) (l : Ledger) → WfLedger l → WfLedger (append_results now ids l)
unfolding append_results
append_results-WfLedger now [] l w = w
append_results-WfLedger now (id ∷ ids) l w =
    append_results-WfLedger now ids _ (append_result_record-WfLedger now id l w)

mark_lost-WfLedger :
    (now : ℕ) (id : String) (l : Ledger) → WfLedger l → WfLedger (mark_lost now id l)
unfolding mark_lost
mark_lost-WfLedger now id l w =
    append_result_record-WfLedger now id _ (with_rows l _ _ (λ r. refl) w)

claim-WfLedger :
    (now : ℕ) (next : Option AgentRun) (l : Ledger) → WfLedger l → WfLedger (claimed now next l).0
claim-WfLedger now none l w = w
claim-WfLedger now (some next) l w = unfold start_run in with_rows l _ _ (λ r. refl) w

pub admits-new :
    (i : AgentRunInsert) (runs : List AgentRun)
    → admits i runs ≡ true
    → agent_run_by_id i.id runs ≡ none
admits-new i runs h = ground arith

create-WfLedger :
    (now : ℕ) (i : AgentRunInsert) (l : Ledger)
    → WfLedger l
    → WfLedger (created (create_agent_run now i l) l)
unfolding create_agent_run
create-WfLedger now i l w =
    if_elim (λ x. WfLedger (created x l)) (admits i l.runs) _ _
      (λ new. record {
        distinct = Distinct-append l.runs (inserted now i) w.distinct (admits-new i l.runs new);
        logs = w.logs;
      })
      (λ _. w)

-- Every operation keeps the run ids distinct and every event log well formed.
pub step-WfLedger : (now : ℕ) (op : Operation) (l : Ledger) → WfLedger l → WfLedger (step now op l)
unfolding step claim_next_pending_agent_run record_agent_run_activity finish_agent_run
    mark_running_agent_runs_interrupted mark_agent_runs_lost append_agent_run_event
step-WfLedger now (create i) l w = create-WfLedger now i l w
step-WfLedger now (claim m) l w =
    if_elim (λ (x : Ledger × Option AgentRun). WfLedger x.0) (leb m (running_count l.runs)) _ _
      (λ _. w) (λ _. claim-WfLedger now (oldest_pending l.runs) l w)
step-WfLedger now (activity id u) l w =
    if_elim (λ (x : Ledger × Option AgentRun). WfLedger x.0) (any (running_row id) l.runs) _ _
      (λ _. with_rows l _ _ (λ r. refl) w) (λ _. w)
step-WfLedger now (finish id o) l w =
    if_elim (λ (x : Ledger × Option AgentRun). WfLedger x.0) (any (active_row id) l.runs) _ _
      (λ _. append_result_record-WfLedger now id _ (with_rows l _ _ (λ r. refl) w)) (λ _. w)
step-WfLedger now (interrupt reason) l w =
    append_results-WfLedger now _ _ (with_rows l _ _ (λ r. refl) w)
step-WfLedger now (lose live cutoff) l w =
    mark_each_lost-keeps WfLedger now (mark_lost-WfLedger now) _ l w
step-WfLedger now (event id json) l w =
    if_elim (λ (x : Ledger × Option ℕ). WfLedger x.0) (any (running_row id) l.runs) _ _
      (λ _. record {
        distinct = w.distinct;
        logs = update-WfLog l.logs id _ w.logs (
            enforce_event_log_budget-WfLog l.event_log_max_bytes _
              (insert_log_record-WfLog now (stream json) (l.logs id) (w.logs id)));
      })
      (λ _. w)

pub replay-WfLedger :
    (history : List (ℕ × Operation)) (l : Ledger) → WfLedger l → WfLedger (replay history l)
unfolding replay
replay-WfLedger [] l w = w
replay-WfLedger ((now, op) ∷ rest) l w =
    replay-WfLedger rest (step now op l) (step-WfLedger now op l w)
