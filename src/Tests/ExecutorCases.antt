-- ===== src/Tests/ExecutorCases.antt =====
-- The requests and turns of src/agent-runs/executor.ts at concrete runs.
use owner_operator.Prelude.{
  ◌-◌, All, map, ℕ, String, ◌≡◌, refl, ◌⊎◌, true, false, Option, none, some, List, [], ◌∷◌, any,
  is_blank, is_absolute, is_some, sort_by,
}
use owner_operator.AgentRuns.{
  completed, AgentRun, AgentRunFinalStatus, agent_run_capabilities, loads_session,
  validate_agent_run_resume_task, codex, final_status, is_terminal,
}
use owner_operator.AgentRuns.SavedSession.{
  Environment, missing, recover_saved_session_identity, with_identity, open_code_continuation_error,
}
use owner_operator.AgentRuns.Eligibility.{agent_run_retry_error, agent_run_resume_error}
use owner_operator.Ledger.Queries.{
  list_agent_runs, nonterminal_agent_run_by_child_session, agent_run_by_child_session,
}
use owner_operator.LaunchConfig.{DelegatedBaseline, omitted, resolve_agent_run_launch}
use owner_operator.Ledger.{
  Ledger, create_agent_run, agent_run_by_id, running_row, mark_agent_runs_lost,
}
use owner_operator.Executor.{
  AgentRunCreateInput, existing_retry, depth_for, RunResult, err, launch, ok,
  resume_with_completions, retry,
}
use owner_operator.Executor.Launch.{IsLaunched, launch-IsLaunched}
use owner_operator.Executor.Retry.{IsRetryOf, retry-IsRetryOf}
use owner_operator.Executor.Resume.{IsResumeOf, resume_with_completions-IsResumeOf}
use owner_operator.Executor.Task.{comes_first, decimal, nested_completion_task}
use owner_operator.Executor.Task.Within.{IsBounded, nested_completion_task-IsBounded}
use owner_operator.Executor.Turns.{
  Event, TurnEnd, Turns, cancel, claims, create, end_of, end_turn, error_for_intent, has_turn, pump,
  resolved, start_turns, status_for_intent, sweep, timeout, turns_after,
}
use owner_operator.Executor.Intents.{abort_each, end_turn-first_intent}
use owner_operator.Executor.Live.{turns_after-live}
use owner_operator.Executor.Pump.{Settled, pump-Settled}
use owner_operator.Executor.Slots.{Slotted, turns_after-start_turns}
use owner_operator.Executor.Turns.{end_turn_unrecorded, sweep_lost_runs, turn_step, set_active}
use owner_operator.Ledger.{
  claim_next_pending_agent_run, mark_running_agent_runs_interrupted, append_results,
  append_result_record, mark_each_lost, finish_agent_run, started, inserted, agent_run_by_id,
  mark_lost,
}
use owner_operator.Executor.Sweep.{IsSwept, sweep_lost_runs-unrecorded}
use owner_operator.Executor.Nested.{Continuation, continuations, delivered, undelivered}
use owner_operator.Executor.Nested.Once.{IsReady, SessionsOnce, continuations_lem}
use owner_operator.Tests.Data.{
  failed_run, insert_of, one_failed, one_running, one_running-WfLedger, running_run, two_pending,
}

-- No session is saved, and every directory can be read.
abbrev no_sessions : Environment
no_sessions = record { session_file = λ id. missing; directory = λ path. true }

abbrev ledger_in : RunResult → Ledger
ledger_in (ok l run) = l
ledger_in (err e) = two_pending

abbrev row_in : RunResult → AgentRun
row_in (ok l run) = run
row_in (err e) = failed_run "none" 0

abbrev retried : RunResult
retried = retry no_sessions 20 "c" false "a" one_failed

retry-IsRetryOf_example :
    (run : AgentRun) × (agent_run_by_id "a" one_failed.runs ≡ some run)
    × (((ledger_in retried ≡ one_failed)
          × (existing_retry "a" one_failed.runs ≡ some (row_in retried))
          × (is_terminal (row_in retried).status ≡ false))
        ⊎ IsRetryOf one_failed (ledger_in retried) run (row_in retried))
unfolding retry list_agent_runs sort_by recover_saved_session_identity agent_run_retry_error
    with_identity loads_session nonterminal_agent_run_by_child_session open_code_continuation_error
    create_agent_run
retry-IsRetryOf_example =
    retry-IsRetryOf no_sessions 20 "c" false "a" one_failed (ledger_in retried) (row_in retried)
      refl refl

abbrev resumed : RunResult
resumed = resume_with_completions no_sessions 20 "c" false "a" (some "go on") [] one_failed

resume_with_completions-IsResumeOf_example :
    (run : AgentRun) × (agent_run_by_id "a" one_failed.runs ≡ some run)
    × IsResumeOf one_failed (ledger_in resumed) run (some "go on") (row_in resumed)
unfolding resume_with_completions validate_agent_run_resume_task recover_saved_session_identity
    agent_run_resume_error with_identity loads_session list_agent_runs sort_by
    nonterminal_agent_run_by_child_session open_code_continuation_error create_agent_run
resume_with_completions-IsResumeOf_example =
    resume_with_completions-IsResumeOf no_sessions 20 "c" false "a" (some "go on") [] one_failed
      (ledger_in resumed) (row_in resumed) refl refl

abbrev request : AgentRunCreateInput
request = record {
  harness = codex;
  task = "review";
  cwd = "/work";
  parent_thread_id = some "session";
  model = omitted;
  effort = omitted;
  timeout_seconds = none;
  harness_choice = false;
}

abbrev baseline : Option DelegatedBaseline
baseline = some (record { model = "model"; effort = none })

abbrev launched : RunResult
launched = launch baseline 20 "c" false request one_failed

launch-IsLaunched_example :
    (false ≡ false)
    × (is_some (agent_run_capabilities codex) ≡ true)
    × (is_blank "review" ≡ false)
    × (is_absolute "/work" ≡ true)
    × IsLaunched request one_failed (ledger_in launched) (row_in launched)
unfolding launch agent_run_capabilities is_blank is_absolute depth_for agent_run_by_child_session
    sort_by resolve_agent_run_launch create_agent_run
launch-IsLaunched_example =
    launch-IsLaunched baseline 20 "c" false request one_failed (ledger_in launched)
      (row_in launched) refl

-- The text that Node decodes is not looked at.
abbrev undecoded : String → ℕ → String
undecoded text bytes = text

abbrev completed_turn : TurnEnd
completed_turn = resolved AgentRunFinalStatus.completed (some "done") none none none

abbrev day : List (ℕ × Event)
day =
    (10, claims)
    ∷ (11, create (insert_of "c"))
    ∷ (12, end_of "b" completed_turn)
    ∷ (13, sweep 5)
    ∷ (14, claims)
    ∷ []

turns_after-live_example :
    any (running_row "c") (turns_after undecoded day (start_turns 5 1 one_running)).ledger.runs
    ≡ has_turn "c" (turns_after undecoded day (start_turns 5 1 one_running)).active
turns_after-live_example = turns_after-live undecoded 5 1 one_running day "c"

turns_after-start_turns_example : Slotted (turns_after undecoded day (start_turns 5 1 one_running))
turns_after-start_turns_example = turns_after-start_turns undecoded 5 1 one_running day

pump-Settled_example :
    ((turns_after undecoded day (start_turns 5 1 one_running)).stopping ≡ true)
    ⊎ Settled (pump 20 (turns_after undecoded day (start_turns 5 1 one_running)))
pump-Settled_example = pump-Settled undecoded 5 1 20 one_running day one_running-WfLedger

-- "c" is in its turn at the end of that day, and was last seen at 14.
abbrev unrecorded : Turns
unrecorded = end_turn_unrecorded "c" (turns_after undecoded day (start_turns 5 1 one_running))

sweep_lost_runs-unrecorded_example :
    IsSwept 30
      (30 - 5)
      (started 14 (inserted 11 (insert_of "c")))
      (agent_run_by_id "c" (sweep_lost_runs 30 5 unrecorded).ledger.runs)
    × (agent_run_by_id "b" (sweep_lost_runs 30 5 unrecorded).ledger.runs
        ≡ agent_run_by_id "b" (turns_after undecoded day (start_turns 5 1 one_running)).ledger.runs)
unfolding turns_after turn_step pump start_turns claim_next_pending_agent_run
    mark_running_agent_runs_interrupted append_results sort_by append_result_record set_active
    end_turn finish_agent_run create_agent_run sweep_lost_runs mark_agent_runs_lost mark_each_lost
sweep_lost_runs-unrecorded_example =
    sweep_lost_runs-unrecorded undecoded 5 1 30 5 one_running day "c" "b"
      (started 14 (inserted 11 (insert_of "c"))) one_running-WfLedger refl refl refl

-- The row of "c" at the edge of the grace: its last sign of life is at 14.
unrecorded_swept :
    map
      (λ grace. any (running_row "c") (sweep_lost_runs 30 grace unrecorded).ledger.runs)
      (15 ∷ 16 ∷ [])
    ≡ false ∷ true ∷ []
unfolding turns_after turn_step pump sweep_lost_runs start_turns claim_next_pending_agent_run
    mark_running_agent_runs_interrupted append_results sort_by append_result_record set_active
    end_turn mark_agent_runs_lost mark_each_lost finish_agent_run create_agent_run mark_lost
unrecorded_swept = refl

abbrev in_flight : Turns
in_flight = record {
  ledger = one_running;
  active = record { run_id = "a"; intent = none } ∷ [];
  stopping = false;
  max_concurrent = 3;
}

end_turn-first_intent_example :
    (run : AgentRun) × (agent_run_by_id "a"
        (end_turn undecoded 30 "a" completed_turn
          (abort_each (timeout ∷ cancel ∷ []) "a" in_flight)).ledger.runs
      ≡ some run)
    × (run.status ≡ final_status (status_for_intent timeout))
    × (run.error ≡ some (error_for_intent timeout))
end_turn-first_intent_example =
    end_turn-first_intent undecoded 30 "a" timeout (cancel ∷ []) completed_turn in_flight
      (running_run "a" 1) (record { run_id = "a"; intent = none }) refl refl refl refl

-- A parent that has completed, with a child that has failed in a session of its own.
abbrev family : List AgentRun
family =
    record (failed_run "b" 2) { parent_thread_id = some "parent" }
    ∷ record (failed_run "a" 1) {
      status = completed;
      child_session_id = some "parent";
      prompt_submitted = true;
    }
    ∷ []

continuations_lem_example :
    SessionsOnce (continuations family family [] [])
    × All (IsReady family) (continuations family family [] [])
continuations_lem_example = continuations_lem family

-- The parent is continued.
continued_family :
    map (λ (c : Continuation). c.session) (continuations family family [] []) ≡ "parent" ∷ []
unfolding continuations undelivered delivered
continued_family = refl

-- Two children that have ended.
abbrev ended_children : List AgentRun
ended_children = failed_run "b" 2 ∷ failed_run "c" 3 ∷ []

nested_completion_task-IsBounded_example :
    IsBounded
      (failed_run "a" 1)
      ended_children
      (nested_completion_task (failed_run "a" 1) ended_children)
nested_completion_task-IsBounded_example =
    nested_completion_task-IsBounded (failed_run "a" 1) ended_children
      ((refl, refl), ((refl, refl), tt))

-- The numbers of the text are written in decimal.
numbers_in_text : map (λ n. decimal n n) (0 ∷ 9 ∷ 10 ∷ 207 ∷ []) ≡ "0" ∷ "9" ∷ "10" ∷ "207" ∷ []
unfolding decimal
numbers_in_text = refl

-- Failures come before the children that have completed.
failures_first : map (λ (r : AgentRun). r.id) (sort_by comes_first family) ≡ "b" ∷ "a" ∷ []
unfolding sort_by
failures_first = refl
