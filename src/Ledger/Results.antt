-- ===== src/Ledger/Results.antt =====
-- src/state/database.ts: the terminal record closes a run's event log.
use owner_operator.Prelude.{
  ℕ, String, ◌≡◌, refl, sym, ap, ◌∙◌, Bool, true, false, ◌||◌, Option, none, some, List, [], ◌∷◌,
  ◌++◌, arith, if_elim, update_where, any, eq_iff, Bool-cases, inl, inr, find-passes, update,
  Option-cases, update_self, truthy, if◌then◌else◌, find-update_where, find-update_where-none,
}
use owner_operator.AgentRuns.{AgentRun, is_terminal, is_pending, is_running, AgentRunOutcome}
use owner_operator.RunLog.{insert_log_record}
use owner_operator.RunLog.Json.{LogRecord, result}
use owner_operator.RunLog.Order.{new_row, insert_log_record-rows}
use owner_operator.Ledger.{
  Ledger, agent_run_by_id, has_id, active_row, finished, append_result_record, finish_agent_run,
}
use owner_operator.Ledger.Rows.{
  none_passes, Distinct, Distinct-update_where, append_result_record-runs,
}
use owner_operator.Ledger.Steps.{Operation, finish, step, replay}
use owner_operator.Ledger.Wf.{WfLedger, step-WfLedger}
use owner_operator.Ledger.Terminal.{replay-keeps_terminal}
use owner_operator.Ledger.Logs.{replay-keeps_log}

abbrev pub result_of : AgentRun → LogRecord
result_of run = result run.id run.status (if truthy run.error then run.error else none)

append_result_record-found :
    (now : ℕ) (id : String) (run : AgentRun) (l : Ledger)
    → WfLedger l
    → agent_run_by_id id l.runs ≡ some run
    → ((append_result_record now id l).logs id).rows
      ≡ (l.logs id).rows ++ new_row now (result_of run) (l.logs id) ∷ []
unfolding append_result_record
append_result_record-found now id run l w e =
    let same = (eq_iff run.id id).0 (find-passes (has_id id) l.runs run e) in
    rw (e, append_result_record)
      (ap (λ log. log.rows)
          (ap (λ i. update l.logs i (insert_log_record now (result_of run) (l.logs i)) id) same
            ∙ update_self l.logs id (insert_log_record now (result_of run) (l.logs id)))
        ∙ insert_log_record-rows now (result_of run) (l.logs id) (w.logs id))

chosen : (b : Bool) (x y run : AgentRun) → b ≡ true → some run ≡ some (if b then x else y) → run ≡ x
chosen true x y run h e = cc
chosen false x y run h e = absurd (ground arith)

-- The row that a statement which wrote an active row leaves is the finished one.
finished-found :
    (now : ℕ) (id : String) (o : AgentRunOutcome) (runs : List AgentRun) (run : AgentRun)
    → Distinct runs
    → any (active_row id) runs ≡ true
    → agent_run_by_id id (update_where (active_row id) (finished now o) runs) ≡ some run
    → (r : AgentRun) × (agent_run_by_id id runs ≡ some r) × (run ≡ finished now o r)
finished-found now id o runs run d wrote e = elim (Option-cases (agent_run_by_id id runs)) [
  | inl missing ↦
      let gone =
        find-update_where-none (has_id id) (active_row id) (finished now o) runs (λ r. refl)
          missing in
      absurd (ground arith)
  | inr (r, found) ↦
      let there =
        find-update_where (has_id id) (active_row id) (finished now o) runs r (λ r. refl) found in
      (
        r,
        found,
        elim (Bool-cases (active_row id r)) [
          | inl active ↦ chosen _ (finished now o r) r run active (sym e ∙ there)
          | inr passive ↦
              let here = find-passes (has_id id) runs r found in
              let none_wrote =
                none_passes id (λ s. is_pending s.status || is_running s.status) runs r d found
                  (ground arith) in
              absurd (ground arith)
        ],
      )
]

-- What a finish that returns a row has done, for its id in the ledger after it.
abbrev pub Finishes : ℕ → String → AgentRunOutcome → Ledger → Ledger → AgentRun → Type 0
Finishes now id o l l' run =
    ((r : AgentRun) × (agent_run_by_id id l.runs ≡ some r) × (run ≡ finished now o r))
    × (agent_run_by_id id l'.runs ≡ some run)
    × ((l'.logs id).rows ≡ (l.logs id).rows ++ new_row now (result_of run) (l.logs id) ∷ [])

finish_agent_run-Finishes :
    (now : ℕ) (id : String) (o : AgentRunOutcome) (l : Ledger) (run : AgentRun)
    → WfLedger l
    → (finish_agent_run now id o l).1 ≡ some run
    → Finishes now id o l (finish_agent_run now id o l).0 run
unfolding finish_agent_run
finish_agent_run-Finishes now id o l run w =
    if_elim (λ (x : Ledger × Option AgentRun). x.1 ≡ some run → Finishes now id o l x.0 run)
      (any (active_row id) l.runs) _ _
      (λ wrote e.
        let l' : Ledger = record l {
          runs = update_where (active_row id) (finished now o) l.runs;
        } in
        (
          finished-found now id o l.runs run w.distinct wrote e,
          rw (append_result_record-runs now id l') e,
          append_result_record-found now id run l'
              (record {
                distinct =
                    Distinct-update_where (active_row id) (finished now o) l.runs (λ r. refl)
                      w.distinct;
                logs = w.logs;
              })
              e,
        ))
      (λ _ e. absurd (ground arith))

finished-is_terminal :
    (now : ℕ) (o : AgentRunOutcome) (r : AgentRun) → is_terminal (finished now o r).status ≡ true
finished-is_terminal now o r = ground arith

-- In a well-formed ledger, when a finish returns a row: it is the row that stood under the id with
-- the outcome written into it; whatever happens afterwards, the row stays so, and the event log of
-- the run stays what it was before with the run's terminal record as its last row.
pub finish_agent_run-replay :
    (now : ℕ) (id : String) (o : AgentRunOutcome) (l : Ledger) (run : AgentRun)
    (history : List (ℕ × Operation))
    → WfLedger l
    → (finish_agent_run now id o l).1 ≡ some run
    → Finishes now id o l (replay history (finish_agent_run now id o l).0) run
finish_agent_run-replay now id o l run history w e =
    let (written, there, logged) = finish_agent_run-Finishes now id o l run w e in
    let over : is_terminal run.status ≡ true =
      rw (written.2) (finished-is_terminal now o written.0) in
    let w' : WfLedger (finish_agent_run now id o l).0 =
      unfold step in step-WfLedger now (finish id o) l w in
    (
      written,
      replay-keeps_terminal id run over history _ w' there,
      ap (λ log. log.rows) (replay-keeps_log id run over history _ w' there) ∙ logged,
    )
