-- ===== src/AgentRuns/Eligibility.antt =====
-- packages/core/src/agent-runs.ts `agentRunRetryError` and `agentRunResumeError`. An error names
-- the message that the source returns; `none` is its `null`.
use owner_operator.Prelude.{String, not, ◌&&◌, Option, none, some, truthy, if◌then◌else◌, get_or}
use owner_operator.AgentRuns.{AgentRun, is_retryable, is_resumable, loads_session}

pub data ContinuationError : Type 0 where
  not_retryable not_resumable load_unsupported no_child_session no_acpx_record : ContinuationError
  already_retried already_resumed session_active : (run_id : String) → ContinuationError

-- `AgentRunRetryContext` and `AgentRunResumeContext`; an omitted field is `none`.
pub record ContinuationContext : Type 0 where
  pub existing_retry_run_id : Option String
  pub existing_resume_run_id : Option String
  pub active_run_id : Option String

unfoldable pub agent_run_retry_error : AgentRun → ContinuationContext → Option ContinuationError
agent_run_retry_error run context =
    if not (is_retryable run.status)
    then some not_retryable
    else if truthy run.child_session_id && not (loads_session run.harness)
    then some load_unsupported
    else if truthy context.existing_retry_run_id
    then some (already_retried (get_or context.existing_retry_run_id ""))
    else if truthy context.existing_resume_run_id
    then some (already_resumed (get_or context.existing_resume_run_id ""))
    else if truthy context.active_run_id
    then some (session_active (get_or context.active_run_id ""))
    else none

unfoldable pub agent_run_resume_error : AgentRun → ContinuationContext → Option ContinuationError
agent_run_resume_error run context =
    if not (is_resumable run.status)
    then some not_resumable
    else if not (loads_session run.harness)
    then some load_unsupported
    else if not (truthy run.child_session_id)
    then some no_child_session
    else if not (truthy run.acpx_record_id)
    then some no_acpx_record
    else if truthy context.existing_resume_run_id
    then some (already_resumed (get_or context.existing_resume_run_id ""))
    else if truthy context.existing_retry_run_id
    then some (already_retried (get_or context.existing_retry_run_id ""))
    else if truthy context.active_run_id
    then some (session_active (get_or context.active_run_id ""))
    else none
