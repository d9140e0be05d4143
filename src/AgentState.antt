-- ===== src/AgentState.antt =====
-- packages/core/src/agent-state.ts: what an owner sees of delegated runs. `text_before a b` is
-- `b.localeCompare(a) <= 0`.
pub mod Bounded
pub mod Attention
use Prim.Native.String
use owner_operator.Prelude.{
  ℕ, ◌-◌, String, Bool, true, false, not, ◌&&◌, ◌||◌, Option, none, some, List, [], ◌∷◌, ◌==◌, map,
  take, if◌then◌else◌, ltb, nat_eq, any, count, coalesce, get_or, is_some, same_text, sort_by,
  truthy,
}
use owner_operator.AgentRuns.{
  AgentRun, Effort, Harness, Status, pending, running, completed, cancelled, interrupted, lost,
  claude_code, codex, cursor, open_code, unknown, effort_text, is_pending, is_running, is_terminal,
}
use owner_operator.AgentRuns
use owner_operator.AgentRuns.Eligibility.{
  ContinuationContext, agent_run_resume_error, agent_run_retry_error,
}
use Bounded.{bounded}

abbrev pub agent_state_task_max_length : ℕ
agent_state_task_max_length = 80

abbrev agent_state_activity_max_length : ℕ
agent_state_activity_max_length = 160

abbrev agent_state_result_max_length : ℕ
agent_state_result_max_length = 1200

abbrev pub agent_state_recent_limit : ℕ
agent_state_recent_limit = 20

abbrev agent_state_artifact_limit : ℕ
agent_state_artifact_limit = 20

pub data AgentRunViewCategory : Type 0 where
  attention active recent : AgentRunViewCategory

pub record AgentRunStatusView : Type 0 where
  pub glyph : String
  pub text : String

pub record AgentRunView : Type 0 where
  pub id : String
  pub harness : Harness
  pub model : Option String
  pub effort : Option Effort
  pub effort_applied : Bool
  pub task : String
  pub status : AgentRunStatusView
  pub category : AgentRunViewCategory
  pub elapsed_ms : ℕ
  pub latest_activity : String
  pub retry_of_run_id : Option String
  pub resume_of_run_id : Option String
  pub can_cancel : Bool
  pub can_retry : Bool
  pub can_resume : Bool

pub record Counts : Type 0 where
  pub queued : ℕ
  pub running : ℕ
  pub attention : ℕ

pub record ParentAgentStateView : Type 0 where
  pub counts : Counts
  pub runs : List AgentRunView

abbrev harness_name : Harness → String
unfolding bounded
harness_name claude_code = "Claude Code"
harness_name codex = "Codex"
harness_name cursor = "Cursor"
harness_name open_code = "OpenCode"
harness_name (unknown text) = bounded (some text) agent_state_task_max_length

-- `[a, …].filter(Boolean).join(" · ")`.
abbrev joined : List String → String
joined [] = ""
joined (text ∷ rest) =
    let after = joined rest in
    if text == ""
    then after
    else if after == ""
    then text
    else String.◌++◌ text (String.◌++◌ " · " after)

abbrev text_of : Option Effort → Option String
text_of none = none
text_of (some e) = some (effort_text e)

unfoldable pub format_agent_run_identity :
    Harness → (model : Option String) → (effort : Option Effort) → String
unfolding bounded effort_text
format_agent_run_identity harness model effort = joined (
    harness_name harness
    ∷ bounded model agent_state_task_max_length
    ∷ bounded (text_of effort) agent_state_task_max_length
    ∷ [])

unfoldable pub status_view : Status → AgentRunViewCategory → AgentRunStatusView
status_view status attention = record { glyph = "!"; text = "attention" }
status_view pending category = record { glyph = "◦"; text = "queued" }
status_view running category = record { glyph = "●"; text = "running" }
status_view completed category = record { glyph = "✓"; text = "completed" }
status_view AgentRuns.failed category = record { glyph = "!"; text = "failed" }
status_view cancelled category = record { glyph = "■"; text = "cancelled" }
status_view interrupted category = record { glyph = "!"; text = "interrupted" }
status_view lost category = record { glyph = "!"; text = "lost" }

-- `ATTENTION_STATUSES.has`.
abbrev pub needs_attention : Status → Bool
needs_attention AgentRuns.failed = true
needs_attention interrupted = true
needs_attention lost = true
needs_attention pending = false
needs_attention running = false
needs_attention completed = false
needs_attention cancelled = false

-- A map from the relation of a run to its id; the last entry of a key stays.
abbrev pub last_by : (AgentRun → Option String) → Option String → List AgentRun → Option String
last_by relation key [] = none
last_by relation key (r ∷ rs) =
    let rest = last_by relation key rs in
    coalesce rest (if is_some (relation r) && same_text (relation r) key then some r.id else none)

abbrev retry_run_id : String → List AgentRun → Option String
retry_run_id id runs = last_by (λ r. r.retry_of_run_id) (some id) runs

abbrev resume_run_id : String → List AgentRun → Option String
resume_run_id id runs = last_by (λ r. r.resume_of_run_id) (some id) runs

abbrev active_child : AgentRun → Option String
active_child r = if is_pending r.status || is_running r.status then r.child_session_id else none

unfoldable pub category_for : AgentRun → (runs : List AgentRun) → AgentRunViewCategory
category_for run runs =
    if needs_attention run.status && not (is_some (retry_run_id run.id runs))
    then attention
    else if is_terminal run.status
    then recent
    else active

abbrev pub is_attention : AgentRunViewCategory → Bool
is_attention attention = true
is_attention active = false
is_attention recent = false

abbrev pub rank : AgentRunViewCategory → ℕ
rank attention = 0
rank active = 1
rank recent = 2

-- `-` stops at zero, as the source's `Math.max` does.
abbrev elapsed : AgentRun → (now : ℕ) → ℕ
elapsed run now = get_or run.finished_at now - get_or run.started_at run.created_at

abbrev pub sort_time : AgentRun → ℕ
sort_time run =
    get_or (coalesce run.finished_at (coalesce run.last_activity_at run.started_at)) run.created_at

-- The order of two runs in a view; a run that stood before another stays there if they are equal.
abbrev pub view_before :
    (text_before : String → String → Bool) → (runs : List AgentRun) → AgentRun → AgentRun → Bool
view_before text_before runs left right =
    let a = rank (category_for left runs) in
    let b = rank (category_for right runs) in
    ltb a b
    || nat_eq a b
      && (ltb (sort_time right) (sort_time left)
          || nat_eq (sort_time right) (sort_time left) && text_before left.id right.id)

unfoldable pub derive_run_view :
    (environment_eligible : AgentRun → Bool)
    → (now : ℕ) → (runs : List AgentRun) → AgentRun
    → AgentRunView
unfolding category_for status_view bounded
derive_run_view environment_eligible now runs run =
    let context : ContinuationContext = record {
      existing_retry_run_id = retry_run_id run.id runs;
      existing_resume_run_id = resume_run_id run.id runs;
      active_run_id =
          if truthy run.child_session_id
          then last_by active_child run.child_session_id runs
          else none;
    } in
    record {
      id = run.id;
      harness = run.harness;
      model = run.model;
      effort = run.effort;
      effort_applied = run.effort_applied;
      task = bounded (some run.task) agent_state_task_max_length;
      status = status_view run.status (category_for run runs);
      category = category_for run runs;
      elapsed_ms = elapsed run now;
      latest_activity = bounded run.activity agent_state_activity_max_length;
      retry_of_run_id = run.retry_of_run_id;
      resume_of_run_id = run.resume_of_run_id;
      can_cancel = is_pending run.status || is_running run.status;
      can_retry = not (is_some (agent_run_retry_error run context));
      can_resume = not (is_some (agent_run_resume_error run context)) && environment_eligible run;
    }

-- `recent_limit` is `options.recentLimit`, if it is given and not negative.
unfoldable pub derive_parent_agent_state :
    (text_before : String → String → Bool)
    → (environment_eligible : AgentRun → Bool) → (now : ℕ) → (recent_limit : Option ℕ)
    → List AgentRun
    → ParentAgentStateView
unfolding category_for derive_run_view
derive_parent_agent_state text_before environment_eligible now recent_limit runs =
    let ordered = sort_by (view_before text_before runs) runs in
    record {
      counts = record {
        queued = count (λ r. is_pending r.status) runs;
        running = count (λ r. is_running r.status) runs;
        attention = count (λ r. is_attention (category_for r runs)) runs;
      };
      runs =
          map (derive_run_view environment_eligible now runs)
            (take (get_or recent_limit agent_state_recent_limit) ordered);
    }

pub record AgentRunArtifactReference : Type 0 where
  pub label : String
  pub reference : String

-- `version`, the trust of the evidence and the instruction to the parent are constants.
pub record AgentRunCompletionEnvelope : Type 0 where
  pub event_id : String
  pub parent_thread_id : Option String
  pub run_id : String
  pub child_session_id : Option String
  pub harness : Harness
  pub model : Option String
  pub effort : Option Effort
  pub effort_applied : Bool
  pub task : String
  pub outcome : Status
  pub completed_at : ℕ
  pub elapsed_ms : ℕ
  pub result : String
  pub error : Option String
  pub artifacts : List AgentRunArtifactReference

abbrev bounded_artifact : AgentRunArtifactReference → AgentRunArtifactReference
unfolding bounded
bounded_artifact a = record {
  label = bounded (some a.label) agent_state_task_max_length;
  reference = bounded (some a.reference) 512;
}

-- `none` is the throw on a run that has not ended.
unfoldable pub create_agent_run_completion_envelope :
    AgentRun → List AgentRunArtifactReference → Option AgentRunCompletionEnvelope
unfolding bounded
create_agent_run_completion_envelope run artifacts = elim run.finished_at [
  | none ↦ none
  | some finished ↦
      if not (is_terminal run.status)
      then none
      else some (record {
        event_id = String.◌++◌ "agent-run-completion:" run.id;
        parent_thread_id = run.parent_thread_id;
        run_id = run.id;
        child_session_id = run.child_session_id;
        harness = run.harness;
        model = run.model;
        effort = run.effort;
        effort_applied = run.effort_applied;
        task = bounded (some run.task) agent_state_task_max_length;
        outcome = run.status;
        completed_at = finished;
        elapsed_ms = elapsed run finished;
        result = bounded run.result_tail agent_state_result_max_length;
        error =
            if truthy run.error
            then some (bounded run.error agent_state_activity_max_length)
            else none;
        artifacts = map bounded_artifact (take agent_state_artifact_limit artifacts);
      })
]
