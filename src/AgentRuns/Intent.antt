-- ===== src/AgentRuns/Intent.antt =====
-- packages/core/src/agent-runs.ts `agentRunTurnIntent`. An error names the message that the source
-- throws.
use owner_operator.Prelude.{
  String, Bool, not, ◌&&◌, ◌||◌, Option, none, some, truthy, same_text, get_or, if◌then◌else◌,
}
use owner_operator.AgentRuns.{AgentRun, is_retryable, is_resumable}

pub data AgentRunTurnIntent : Type 0 where
  fresh : AgentRunTurnIntent
  retry : (child_session_id : String) (acpx_record_id : Option String) → AgentRunTurnIntent
  resume : (child_session_id acpx_record_id : String) → AgentRunTurnIntent

pub data IntentError : Type 0 where
  both_relations missing_run identity_mismatch child_mismatch record_mismatch wrong_status
        record_without_child :
      IntentError

pub data IntentResult : Type 0 where
  ok : AgentRunTurnIntent → IntentResult
  err : IntentError → IntentResult

abbrev pub present : Option String → Option String
present o = if truthy o then o else none

abbrev pub retry_turn : (child_session_id acpx_record_id : Option String) → IntentResult
retry_turn child acpx =
    if not (truthy child)
    then (if truthy acpx then err record_without_child else ok fresh)
    else ok (retry (get_or child "") (present acpx))

unfoldable pub retry_intent : AgentRun → Option AgentRun → IntentResult
retry_intent run none = err missing_run
retry_intent run (some retried) =
    if not (same_text (some retried.id) run.retry_of_run_id)
    then err identity_mismatch
    else if truthy retried.child_session_id
        && not (same_text run.child_session_id retried.child_session_id)
    then err child_mismatch
    else if truthy retried.acpx_record_id
        && not (same_text run.acpx_record_id retried.acpx_record_id)
    then err record_mismatch
    else if not (is_retryable retried.status)
    then err wrong_status
    else retry_turn run.child_session_id run.acpx_record_id

abbrev pub differs : Option String → Option String → Bool
differs mine theirs = not (truthy mine) || (truthy theirs && not (same_text mine theirs))

unfoldable pub resume_intent : AgentRun → Option AgentRun → IntentResult
resume_intent run none = err missing_run
resume_intent run (some resumed) =
    if not (same_text (some resumed.id) run.resume_of_run_id)
    then err identity_mismatch
    else if not (is_resumable resumed.status)
    then err wrong_status
    else if differs run.child_session_id resumed.child_session_id
    then err child_mismatch
    else if differs run.acpx_record_id resumed.acpx_record_id
    then err record_mismatch
    else ok (resume (get_or run.child_session_id "") (get_or run.acpx_record_id ""))

unfoldable pub agent_run_turn_intent :
    AgentRun → (retried_run resumed_run : Option AgentRun) → IntentResult
unfolding retry_intent resume_intent
agent_run_turn_intent run retried resumed =
    if truthy run.retry_of_run_id && truthy run.resume_of_run_id
    then err both_relations
    else if not (truthy run.retry_of_run_id) && not (truthy run.resume_of_run_id)
    then ok fresh
    else if truthy run.retry_of_run_id
    then retry_intent run retried
    else resume_intent run resumed
