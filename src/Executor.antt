-- ===== src/Executor.antt =====
-- src/agent-runs/executor.ts: the requests on the ledger that `AgentRunExecutor` serves. A throw is
-- an error, and leaves the ledger as it was. `new_id` is what `randomUUID` returns. The turns that
-- the executor runs are in `Executor/Turns`.
pub mod Turns
pub mod Identity
pub mod Retry
pub mod Resume
pub mod Launch
pub mod Live
pub mod Stale
pub mod Sweep
pub mod Pump
pub mod Intents
pub mod Nested
pub mod Slots
pub mod Task
use owner_operator.Prelude.{
  ℕ, ◌+◌, String, Bool, true, false, not, ◌&&◌, ◌||◌, Option, none, some, List, [], ◌∷◌, ltb, find,
  Number, whole, other, if◌then◌else◌, get_or, truthy, same_text, is_blank, is_absolute, is_some,
}
use owner_operator.AgentRuns.{
  Harness, Status, Effort, AgentRun, is_terminal, agent_run_capabilities, agent_run_effort,
  agent_run_max_depth, default_agent_run_timeout_seconds, max_agent_run_timeout_seconds,
  validate_agent_run_resume_task,
}
use owner_operator.AgentRuns.Eligibility.{
  ContinuationError, ContinuationContext, agent_run_retry_error, agent_run_resume_error,
}
use owner_operator.AgentRuns.SavedSession.{
  Environment, Recovery, nothing, failed, recovered, recover_saved_session_identity, with_identity,
  SessionError, open_code_continuation_error,
}
use owner_operator.LaunchConfig.{
  Pin, omitted, null, value, DelegatedBaseline, ResolvedAgentRunLaunch, LaunchConfigResult,
  null_model, no_baseline, resolve_agent_run_launch,
}
use owner_operator.LaunchConfig
use owner_operator.Ledger.{AgentRunInsert, Ledger, agent_run_by_id, create_agent_run}
use owner_operator.Ledger.Queries.{
  everything, list_agent_runs, agent_run_by_child_session, nonterminal_agent_run_by_child_session,
}

pub data ExecutorError : Type 0 where
  stopped unknown_harness task_required cwd_not_absolute unknown_effort bad_timeout too_deep
        null_model_pin no_approved_baseline no_such_run recovery_failed cwd_unavailable constraint :
      ExecutorError
  not_continuable : ContinuationError → ExecutorError
  session_refused : SessionError → ExecutorError

pub data RunResult : Type 0 where
  ok : Ledger → AgentRun → RunResult
  err : ExecutorError → RunResult

pub record AgentRunCreateInput : Type 0 where
  pub harness : Harness
  pub task : String
  pub cwd : String
  pub parent_thread_id : Option String
  pub model : Pin String
  pub effort : Pin String
  pub timeout_seconds : Option Number
  pub harness_choice : Bool

abbrev recorded : Option (Ledger × AgentRun) → RunResult
recorded none = err constraint
recorded (some (l, run)) = ok l run

-- `depthFor`.
unfoldable pub depth_for : Option String → List AgentRun → ℕ
depth_for parent runs =
    if truthy parent
    then elim (agent_run_by_child_session (get_or parent "") runs) [
      | none ↦ 1
      | some run ↦ run.depth + 1
    ]
    else 1

-- `none` is an effort that the run contract does not know.
abbrev known_effort : Pin String → Option (Pin Effort)
known_effort omitted = some omitted
known_effort null = some null
known_effort (value text) = elim (agent_run_effort text) [ none ↦ none | some e ↦ some (value e) ]

-- `none` is a value outside the bounds.
abbrev timeout_of : Option Number → Option ℕ
timeout_of none = some default_agent_run_timeout_seconds
timeout_of (some other) = none
timeout_of (some (whole n)) =
    if ltb n 1 || ltb max_agent_run_timeout_seconds n then none else some n

launch_insert :
    String → AgentRunCreateInput → (timeout depth : ℕ) → ResolvedAgentRunLaunch → AgentRunInsert
launch_insert new_id input timeout depth launch = record {
  id = new_id;
  harness = input.harness;
  task = input.task;
  cwd = input.cwd;
  parent_thread_id = input.parent_thread_id;
  model = launch.model;
  effort = launch.effort;
  depth = depth;
  timeout_seconds = timeout;
  retry_of_run_id = none;
  resume_of_run_id = none;
  completion_run_ids = [];
  child_session_id = none;
  acpx_record_id = none;
}

launch_resolved :
    (now : ℕ)
    → (new_id : String) → AgentRunCreateInput
    → (timeout depth : ℕ) → LaunchConfigResult
    → Ledger
    → RunResult
unfolding launch_insert
launch_resolved now new_id input timeout depth null_model l = err null_model_pin
launch_resolved now new_id input timeout depth no_baseline l = err no_approved_baseline
launch_resolved now new_id input timeout depth (LaunchConfig.ok launch) l =
    recorded (create_agent_run now (launch_insert new_id input timeout depth launch) l)

launch_checked :
    (baseline : Option DelegatedBaseline)
    → (now : ℕ) → (new_id : String) → AgentRunCreateInput
    → Option (Pin Effort)
    → Option ℕ
    → Ledger
    → RunResult
unfolding launch_resolved
launch_checked baseline now new_id input none timeout l = err unknown_effort
launch_checked baseline now new_id input (some effort) none l = err bad_timeout
launch_checked baseline now new_id input (some effort) (some timeout) l =
    let depth = depth_for input.parent_thread_id l.runs in
    if ltb agent_run_max_depth depth
    then err too_deep
    else launch_resolved now new_id input timeout depth
        (resolve_agent_run_launch baseline
          (record { model = input.model; effort = effort; harness_choice = input.harness_choice }))
        l

-- The row that `launch` records before the pump runs.
unfoldable pub launch :
    (baseline : Option DelegatedBaseline)
    → (now : ℕ) → (new_id : String) → (stopping : Bool) → AgentRunCreateInput
    → Ledger
    → RunResult
unfolding launch_checked
launch baseline now new_id stopping input l =
    if stopping
    then err stopped
    else if not (is_some (agent_run_capabilities input.harness))
    then err unknown_harness
    else if is_blank input.task
    then err task_required
    else if not (is_absolute input.cwd)
    then err cwd_not_absolute
    else launch_checked baseline now new_id input (known_effort input.effort)
        (timeout_of input.timeout_seconds) l

abbrev pub retries : String → AgentRun → Bool
retries id r = same_text r.retry_of_run_id (some id)

abbrev pub resumes : String → AgentRun → Bool
resumes id r = same_text r.resume_of_run_id (some id)

abbrev pub existing_retry : String → List AgentRun → Option AgentRun
existing_retry id runs = find (retries id) (list_agent_runs everything runs)

abbrev pub existing_resume : String → List AgentRun → Option AgentRun
existing_resume id runs = find (resumes id) (list_agent_runs everything runs)

abbrev id_of : Option AgentRun → Option String
id_of none = none
id_of (some r) = some r.id

abbrev inflight : Option String → List AgentRun → Option AgentRun
inflight child runs =
    if truthy child then nonterminal_agent_run_by_child_session (get_or child "") runs else none

abbrev pub context_of : AgentRun → List AgentRun → ContinuationContext
context_of run runs = record {
  existing_retry_run_id = id_of (existing_retry run.id runs);
  existing_resume_run_id = id_of (existing_resume run.id runs);
  active_run_id = id_of (inflight run.child_session_id runs);
}

-- The row that continues `run`, whose identity may have been recovered.
abbrev continuation :
    (new_id : String)
    → AgentRun
    → (task : String) → (retry_of resume_of : Option String) → (completions : List String)
    → AgentRunInsert
continuation new_id run task retry_of resume_of completions = record {
  id = new_id;
  harness = run.harness;
  task = task;
  cwd = run.cwd;
  parent_thread_id = run.parent_thread_id;
  model = run.model;
  effort = run.effort;
  depth = run.depth;
  timeout_seconds = run.timeout_seconds;
  retry_of_run_id = retry_of;
  resume_of_run_id = resume_of;
  completion_run_ids = completions;
  child_session_id = run.child_session_id;
  acpx_record_id = run.acpx_record_id;
}

abbrev refused : Option SessionError → RunResult → RunResult
refused none r = r
refused (some e) r = err (session_refused e)

abbrev ineligible : Option ContinuationError → RunResult → RunResult
ineligible none r = r
ineligible (some e) r = err (not_continuable e)

abbrev is_recovered : Recovery → Bool
is_recovered (recovered child acpx) = true
is_recovered nothing = false
is_recovered failed = false

retry_recovered :
    Environment → (now : ℕ) → (new_id : String) → AgentRun → Recovery → Ledger → RunResult
retry_recovered env now new_id run failed l = err recovery_failed
retry_recovered env now new_id run recovery l =
    let run' = with_identity run recovery in
    ineligible (agent_run_retry_error run' (context_of run' l.runs)) (
      refused
        (if truthy run.child_session_id || is_recovered recovery
          then open_code_continuation_error env run'
          else none)
        (recorded (
          create_agent_run now
            (continuation new_id run' run.task (some run.id) none run.completion_run_ids) l)))

-- A retry that has not ended is returned in place of another one.
retry_of :
    Environment → (now : ℕ) → (new_id : String) → AgentRun → Option AgentRun → Ledger → RunResult
unfolding retry_recovered
retry_of env now new_id run none l =
    retry_recovered env now new_id run (recover_saved_session_identity env run) l
retry_of env now new_id run (some existing) l =
    if not (is_terminal existing.status)
    then ok l existing
    else retry_recovered env now new_id run (recover_saved_session_identity env run) l

unfoldable pub retry :
    Environment
    → (now : ℕ) → (new_id : String) → (stopping : Bool) → (id : String) → Ledger
    → RunResult
unfolding retry_of
retry env now new_id stopping id l =
    if stopping then err stopped else elim (agent_run_by_id id l.runs) [
      | none ↦ err no_such_run
      | some run ↦ retry_of env now new_id run (existing_retry run.id l.runs) l
    ]

resume_recovered :
    Environment
    → (now : ℕ) → (new_id : String) → AgentRun
    → (task : String) → List String
    → Recovery
    → Ledger
    → RunResult
resume_recovered env now new_id run task completions failed l = err recovery_failed
resume_recovered env now new_id run task completions recovery l =
    let run' = with_identity run recovery in
    ineligible (agent_run_resume_error run' (context_of run' l.runs)) (
      if not (env.directory run.cwd)
      then err cwd_unavailable
      else refused (open_code_continuation_error env run') (
          recorded (
            create_agent_run now (continuation new_id run' task none (some run.id) completions) l)))

abbrev resume_task :
    Environment
    → (now : ℕ) → (new_id : String) → AgentRun
    → Option String
    → List String
    → Ledger
    → RunResult
resume_task env now new_id run none completions l = err task_required
resume_task env now new_id run (some task) completions l =
    resume_recovered env now new_id run task completions (recover_saved_session_identity env run) l

unfoldable pub resume_with_completions :
    Environment
    → (now : ℕ) → (new_id : String) → (stopping : Bool) → (id : String) → (task : Option String)
    → (completion_run_ids : List String) → Ledger
    → RunResult
unfolding resume_recovered
resume_with_completions env now new_id stopping id task completions l =
    if stopping then err stopped else elim (agent_run_by_id id l.runs) [
      | none ↦ err no_such_run
      | some run ↦
          resume_task env now new_id run (validate_agent_run_resume_task task) completions l
    ]
