-- ===== src/AgentRuns.antt =====
-- packages/core/src/agent-runs.ts: the vocabulary of delegated runs. An `AgentRun` is one row of
-- the ledger. Instants are milliseconds since the epoch: `toISOString` prints them at a fixed
-- width, so that the order of the texts is the order of the numbers.
pub mod Identity
pub mod Eligibility
pub mod Intent
pub mod SavedSession
use owner_operator.Prelude.{
  ℕ, String, Bool, true, false, Option, none, some, List, [], ◌∷◌, is_blank, ◌==◌, if◌then◌else◌,
}

-- The enum is not checked where JSON enters: `unknown` is a text that is neither a harness nor the name
-- of a property that every object has.
pub data Harness : Type 0 where
  claude_code codex cursor open_code : Harness
  unknown : String → Harness

pub data Status : Type 0 where
  pending running completed failed cancelled interrupted lost : Status

pub data Effort : Type 0 where
  minimal low medium high xhigh max ultra : Effort

unfoldable pub effort_text : Effort → String
effort_text minimal = "minimal"
effort_text low = "low"
effort_text medium = "medium"
effort_text high = "high"
effort_text xhigh = "xhigh"
effort_text max = "max"
effort_text ultra = "ultra"

-- `isAgentRunEffort`, with the effort that the text names.
unfoldable pub agent_run_effort : String → Option Effort
agent_run_effort s =
    if s == "minimal"
    then some minimal
    else if s == "low"
    then some low
    else if s == "medium"
    then some medium
    else if s == "high"
    then some high
    else if s == "xhigh"
    then some xhigh
    else if s == "max"
    then some max
    else if s == "ultra"
    then some ultra
    else none

pub data HarnessIdentityObservation : Type 0 where
  unobserved : HarnessIdentityObservation
  observed_both : (model : String) (effort : Effort) → HarnessIdentityObservation
  observed_model : (model : String) → HarnessIdentityObservation
  observed_effort : (effort : Effort) → HarnessIdentityObservation

-- `AGENT_RUN_TERMINAL_STATUSES.includes`.
abbrev pub is_terminal : Status → Bool
is_terminal pending = false
is_terminal running = false
is_terminal completed = true
is_terminal failed = true
is_terminal cancelled = true
is_terminal interrupted = true
is_terminal lost = true

-- `AGENT_RUN_RETRYABLE_STATUSES.includes`.
abbrev pub is_retryable : Status → Bool
is_retryable pending = false
is_retryable running = false
is_retryable completed = false
is_retryable failed = true
is_retryable cancelled = false
is_retryable interrupted = true
is_retryable lost = true

-- `AGENT_RUN_RESUMABLE_STATUSES.includes`.
abbrev pub is_resumable : Status → Bool
is_resumable s = is_terminal s

abbrev pub is_pending : Status → Bool
is_pending pending = true
is_pending _ = false

abbrev pub is_running : Status → Bool
is_running running = true
is_running _ = false

-- `null` is an owner's task that holds no text.
unfoldable pub validate_agent_run_resume_task : Option String → Option String
unfolding is_blank
validate_agent_run_resume_task none = none
validate_agent_run_resume_task (some task) = if is_blank task then none else some task

pub record AgentRunCapabilityRecord : Type 0 where
  pub acp_agent : String
  pub steer_mid_run : Bool
  pub asks_to_parent : Bool
  pub load_session : Bool

abbrev capability : String → AgentRunCapabilityRecord
capability agent = record {
  acp_agent = agent;
  steer_mid_run = false;
  asks_to_parent = false;
  load_session = true;
}

-- `AGENT_RUN_CAPABILITIES[harness]`.
unfoldable pub agent_run_capabilities : Harness → Option AgentRunCapabilityRecord
agent_run_capabilities claude_code = some (capability "claude")
agent_run_capabilities codex = some (capability "codex")
agent_run_capabilities cursor = some (capability "cursor")
agent_run_capabilities open_code = some (capability "opencode")
agent_run_capabilities (unknown s) = none

-- `AGENT_RUN_CAPABILITIES[harness]?.loadSession`.
unfoldable pub loads_session : Harness → Bool
unfolding agent_run_capabilities
loads_session h = elim (agent_run_capabilities h) [ none ↦ false | some c ↦ c.load_session ]

abbrev pub agent_run_max_depth : ℕ
agent_run_max_depth = 5

abbrev pub agent_run_max_concurrent : ℕ
agent_run_max_concurrent = 50

abbrev pub default_agent_run_timeout_seconds : ℕ
default_agent_run_timeout_seconds = 3600

abbrev pub max_agent_run_timeout_seconds : ℕ
max_agent_run_timeout_seconds = 86400

pub record AgentRun : Type 0 where
  pub id : String
  pub harness : Harness
  pub task : String
  pub cwd : String
  pub parent_thread_id : Option String
  pub model : Option String
  pub effort : Option Effort
  pub effort_applied : Bool
  pub harness_identity : HarnessIdentityObservation
  pub depth : ℕ
  pub status : Status
  pub prompt_submitted : Bool
  pub created_at : ℕ
  pub started_at : Option ℕ
  pub finished_at : Option ℕ
  pub activity : Option String
  pub last_activity_at : Option ℕ
  pub child_session_id : Option String
  pub acpx_record_id : Option String
  pub result_tail : Option String
  pub error : Option String
  pub retry_of_run_id : Option String
  pub resume_of_run_id : Option String
  pub completion_run_ids : List String
  pub timeout_seconds : ℕ

pub record ChildIdentity : Type 0 where
  pub child_session_id : Option String
  pub acpx_record_id : Option String

-- An omitted field is `none`.
pub record AgentRunActivityUpdate : Type 0 where
  pub child_session_id : Option String
  pub acpx_record_id : Option String
  pub prompt_submitted : Bool
  pub activity : Option String
  pub effort_applied : Option Bool
  pub harness_identity : Option HarnessIdentityObservation

pub data AgentRunFinalStatus : Type 0 where
  completed failed cancelled interrupted : AgentRunFinalStatus

abbrev pub final_status : AgentRunFinalStatus → Status
final_status AgentRunFinalStatus.completed = Status.completed
final_status AgentRunFinalStatus.failed = Status.failed
final_status AgentRunFinalStatus.cancelled = Status.cancelled
final_status AgentRunFinalStatus.interrupted = Status.interrupted

pub record AgentRunOutcome : Type 0 where
  pub child_session_id : Option String
  pub acpx_record_id : Option String
  pub status : AgentRunFinalStatus
  pub result_tail : Option String
  pub error : Option String
