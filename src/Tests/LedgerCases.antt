-- ===== src/Tests/LedgerCases.antt =====
-- The ledger of src/state/database.ts at concrete runs.
use owner_operator.Prelude.{◌+◌, ◌≤◌, ◌<◌, ◌≡◌, refl, ◌⊎◌, inl, ◌↔◌, none, some, [], ◌∷◌, arith}
use owner_operator.Prelude.{false, map, is_blank}
use owner_operator.AgentRuns.{
  AgentRun, AgentRunActivityUpdate, Effort, HarnessIdentityObservation, agent_run_effort,
  effort_text, observed_both, observed_effort, observed_model, unobserved,
}
use owner_operator.AgentRuns.Identity.{read_identity, written_identity}
use owner_operator.Ledger.{record_agent_run_activity}
use owner_operator.Ledger.Reported.{IsReported, record_agent_run_activity-IsReported}
use owner_operator.RunLog.{
  empty_log, RunLog, agent_run_events, enforce_event_log_budget, insert_log_record, sum_bytes,
}
use owner_operator.RunLog.Json.{stream}
use owner_operator.RunLog.Order.{empty_log-WfLog, follower-insert_log_record, issued, new_row}
use owner_operator.RunLog.Budget.{enforce_event_log_budget-newest_within, newest_within}
use owner_operator.Ledger.{
  agent_run_by_id, claim_next_pending_agent_run, finish_agent_run, running_count, started, finished,
}
use owner_operator.Ledger.Steps.{claim, create, finish, event, interrupt, lose, replay, step}
use owner_operator.Ledger.Wf.{WfLedger, step-WfLedger}
use owner_operator.Ledger.Terminal.{replay-keeps_terminal}
use owner_operator.Ledger.Queue.{
  Claimed, NonePending, claim_next_pending_agent_run-Claimed, claim_next_pending_agent_run-none_iff,
}
use owner_operator.Ledger.Lifecycle.{Lifecycle, replay-Lifecycle, status_of}
use owner_operator.Ledger.Capacity.{replay-running_count-le}
use owner_operator.Ledger.Results.{Finishes, finish_agent_run-replay}
use owner_operator.Tests.Data.{
  completed_outcome, failed_run, insert_of, one_failed, one_failed-WfLedger, one_running,
  one_running-WfLedger, pending_run, running_run, two_pending, two_pending-WfLedger,
}

replay-keeps_terminal_example :
    agent_run_by_id "a"
      (replay
        ((10, claim 3) ∷ (11, finish "a" completed_outcome) ∷ (12, interrupt "restart") ∷ [])
        one_failed).runs
    ≡ some (failed_run "a" 1)
replay-keeps_terminal_example =
    replay-keeps_terminal "a" (failed_run "a" 1) refl
      ((10, claim 3) ∷ (11, finish "a" completed_outcome) ∷ (12, interrupt "restart") ∷ [])
      one_failed one_failed-WfLedger refl

replay-Lifecycle_example : Lifecycle (status_of "c" two_pending.runs) (
    status_of "c"
      (replay
        ((10, create (insert_of "c"))
          ∷ (11, claim 9)
          ∷ (11, claim 9)
          ∷ (11, claim 9)
          ∷ (12, interrupt "restart")
          ∷ (13, lose [] 20)
          ∷ [])
        two_pending).runs)
replay-Lifecycle_example =
    replay-Lifecycle "c"
      ((10, create (insert_of "c"))
        ∷ (11, claim 9)
        ∷ (11, claim 9)
        ∷ (11, claim 9)
        ∷ (12, interrupt "restart")
        ∷ (13, lose [] 20)
        ∷ [])
      two_pending two_pending-WfLedger

replay-running_count-le_example :
    running_count
      (replay ((10, create (insert_of "c")) ∷ (11, claim 1) ∷ (12, claim 1) ∷ []) two_pending).runs
    ≤ 1
replay-running_count-le_example =
    replay-running_count-le 1 ((10, create (insert_of "c")) ∷ (11, claim 1) ∷ (12, claim 1) ∷ [])
      two_pending (refl, (refl, tt)) two_pending-WfLedger (omega arith)

claim_next_pending_agent_run-Claimed_example :
    (running_count two_pending.runs < 2)
    × Claimed 5 two_pending
        (claim_next_pending_agent_run 5 2 two_pending).0
        (started 5 (pending_run "a" 1))
unfolding claim_next_pending_agent_run
claim_next_pending_agent_run-Claimed_example =
    claim_next_pending_agent_run-Claimed 5 2 two_pending (started 5 (pending_run "a" 1))
      two_pending-WfLedger refl

claim_next_pending_agent_run-none_iff_example :
    ((claim_next_pending_agent_run 5 1 one_running).1 ≡ none)
    ↔ ((1 ≤ running_count one_running.runs) ⊎ NonePending one_running.runs)
claim_next_pending_agent_run-none_iff_example =
    claim_next_pending_agent_run-none_iff 5 1 one_running one_running-WfLedger

finish_agent_run-replay_example :
    Finishes 7 "a" completed_outcome one_running
      (replay
        ((8, claim 2) ∷ (9, event "a" "{}") ∷ [])
        (finish_agent_run 7 "a" completed_outcome one_running).0)
      (finished 7 completed_outcome (running_run "a" 1))
unfolding finish_agent_run
finish_agent_run-replay_example =
    finish_agent_run-replay 7 "a" completed_outcome one_running
      (finished 7 completed_outcome (running_run "a" 1)) ((8, claim 2) ∷ (9, event "a" "{}") ∷ [])
      one_running-WfLedger refl

follower-insert_log_record_example :
    (agent_run_events (insert_log_record 4 (stream "{}") empty_log) (issued empty_log)
      ≡ new_row 4 (stream "{}") empty_log ∷ [])
    × (agent_run_events empty_log (issued empty_log) ≡ [])
    × (issued (insert_log_record 4 (stream "{}") empty_log) ≡ issued empty_log + 1)
follower-insert_log_record_example =
    follower-insert_log_record 4 (stream "{}") empty_log empty_log-WfLog

-- A log of two records.
abbrev two_records : RunLog
two_records = record {
  last_seq = some 2;
  rows =
      record { seq = 1; at = 3; entry = stream "{}"; bytes = 2 }
      ∷ record { seq = 2; at = 4; entry = stream "[1]"; bytes = 3 }
      ∷ [];
  known_bytes = none;
}

enforce_event_log_budget-newest_within_example :
    let log' = enforce_event_log_budget 4 two_records in
    (log'.rows ≡ newest_within 4 two_records.rows)
    × (sum_bytes log'.rows ≤ 4)
    × (log'.known_bytes ≡ some (sum_bytes log'.rows))
    × (log'.last_seq ≡ two_records.last_seq)
enforce_event_log_budget-newest_within_example =
    enforce_event_log_budget-newest_within 4 two_records (record {
      ordered = (omega arith, omega arith, (omega arith, omega arith, tt));
      counted = inl refl;
    })

step-WfLedger_example : WfLedger (step 10 (lose [] 5) one_running)
step-WfLedger_example = step-WfLedger 10 (lose [] 5) one_running one_running-WfLedger

-- A model of white space is dropped, and the effort kept.
abbrev blank_model : AgentRunActivityUpdate
blank_model = record {
  child_session_id = none;
  acpx_record_id = none;
  prompt_submitted = false;
  activity = none;
  effort_applied = none;
  harness_identity = some (observed_both " " Effort.high);
}

record_agent_run_activity-IsReported_example :
    (r' : AgentRun) × (agent_run_by_id "a"
        (record_agent_run_activity 9 "a" blank_model one_running).0.runs
      ≡ some r')
    × IsReported blank_model.harness_identity
        (running_run "a" 1).harness_identity
        r'.harness_identity
record_agent_run_activity-IsReported_example =
    record_agent_run_activity-IsReported 9 "a" blank_model one_running (running_run "a" 1) refl refl

abbrev identity_read : HarnessIdentityObservation → HarnessIdentityObservation
identity_read o = read_identity (written_identity o)

identities_read :
    map identity_read (
      observed_both " " Effort.high
      ∷ observed_both "m" Effort.low
      ∷ observed_model "\n"
      ∷ unobserved
      ∷ [])
    ≡ observed_effort Effort.high ∷ observed_both "m" Effort.low ∷ unobserved ∷ unobserved ∷ []
unfolding read_identity written_identity is_blank effort_text agent_run_effort
identities_read = refl
