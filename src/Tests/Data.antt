-- ===== src/Tests/Data.antt =====
-- Test data: the runs of packages/core/src/agent-runs.ts in a ledger of src/state/database.ts.
use owner_operator.Prelude.{ℕ, suc, String, refl, none, some, List, [], ◌∷◌}
use owner_operator.AgentRuns.{AgentRun, AgentRunFinalStatus, AgentRunOutcome, Status, codex}
use owner_operator.RunLog.{empty_log}
use owner_operator.RunLog.Order.{empty_log-WfLog}
use owner_operator.Ledger.{AgentRunInsert, Ledger, inserted, started}
use owner_operator.Ledger.Wf.{WfLedger}

abbrev pub insert_of : String → AgentRunInsert
insert_of id = record {
  id = id;
  harness = codex;
  task = "review";
  cwd = "/work";
  parent_thread_id = none;
  model = some "model";
  effort = none;
  depth = 1;
  timeout_seconds = 60;
  retry_of_run_id = none;
  resume_of_run_id = none;
  completion_run_ids = [];
  child_session_id = none;
  acpx_record_id = none;
}

abbrev pub pending_run : String → ℕ → AgentRun
pending_run id now = inserted now (insert_of id)

abbrev pub running_run : String → ℕ → AgentRun
running_run id now = started (suc now) (pending_run id now)

abbrev pub failed_run : String → ℕ → AgentRun
failed_run id now = record (running_run id now) {
  status = Status.failed;
  finished_at = some 9;
  error = some "exit 1";
  child_session_id = some "session";
  acpx_record_id = some "record";
}

abbrev pub ledger_of : List AgentRun → Ledger
ledger_of runs = record { runs = runs; logs = λ id. empty_log; event_log_max_bytes = 1000 }

-- Two runs wait.
abbrev pub two_pending : Ledger
two_pending = ledger_of (pending_run "a" 1 ∷ pending_run "b" 2 ∷ [])

-- One run is in flight and one waits.
abbrev pub one_running : Ledger
one_running = ledger_of (running_run "a" 1 ∷ pending_run "b" 2 ∷ [])

-- One run has failed and one waits.
abbrev pub one_failed : Ledger
one_failed = ledger_of (failed_run "a" 1 ∷ pending_run "b" 2 ∷ [])

pub two_pending-WfLedger : WfLedger two_pending
two_pending-WfLedger = record { distinct = (refl, (refl, tt)); logs = λ id. empty_log-WfLog }

pub one_running-WfLedger : WfLedger one_running
one_running-WfLedger = record { distinct = (refl, (refl, tt)); logs = λ id. empty_log-WfLog }

pub one_failed-WfLedger : WfLedger one_failed
one_failed-WfLedger = record { distinct = (refl, (refl, tt)); logs = λ id. empty_log-WfLog }

abbrev pub completed_outcome : AgentRunOutcome
completed_outcome = record {
  child_session_id = some "session";
  acpx_record_id = none;
  status = AgentRunFinalStatus.completed;
  result_tail = some "done";
  error = none;
}
