-- ===== src/Executor/Resume.antt =====
-- src/agent-runs/executor.ts `resumeWithCompletions` against the intent that
-- packages/core/src/agent-runs.ts derives of the row that it records.
use owner_operator.Prelude.{
  ℕ, String, ◌≡◌, ◌≢◌, refl, sym, subst, ◌∙◌, inl, inr, Bool, true, false, not, Option, none, some,
  List, [], ◌∷◌, ◌++◌, arith, if◌then◌else◌, ◌==◌, eq_iff, Option-cases, truthy, get_or,
  find-append, find-passes,
}
use owner_operator.AgentRuns.{AgentRun, is_terminal, validate_agent_run_resume_task}
use owner_operator.AgentRuns.Eligibility.{ContinuationContext, agent_run_resume_error}
use owner_operator.AgentRuns.SavedSession.{
  Environment, Recovery, nothing, failed, recovered, with_identity, SessionError,
}
use owner_operator.AgentRuns.Intent.{
  AgentRunTurnIntent, fresh, retry as retrying, resume as resuming, agent_run_turn_intent,
  retry_intent, resume_intent, present, retry_turn, differs,
}
use owner_operator.AgentRuns.Intent as Intent
use owner_operator.Ledger.{Ledger, agent_run_by_id, has_id, create_agent_run}
use owner_operator.Executor.{
  RunResult, ok, err, recorded, refused, ineligible, continuation, context_of, resume_recovered,
  resume_task, resume_with_completions, no_such_run, cwd_unavailable,
}
use owner_operator.Executor.Identity.{
  Consistent, recover-Consistent, same_text-of_eq, agrees, recorded-ok, ineligible-ok, refused-ok,
}

-- What a recorded resume of `run` is.
abbrev pub IsResumeOf : Ledger → Ledger → AgentRun → Option String → AgentRun → Type 0
IsResumeOf l l' run task new =
    (l'.runs ≡ l.runs ++ new ∷ [])
    × (new.resume_of_run_id ≡ some run.id)
    × (is_terminal run.status ≡ true)
    × (validate_agent_run_resume_task task ≡ some new.task)
    × (new.depth ≡ run.depth)
    × (agent_run_turn_intent new none (agent_run_by_id run.id l'.runs)
        ≡ Intent.ok (resuming (get_or new.child_session_id "") (get_or new.acpx_record_id "")))

resume_error-facts :
    (run : AgentRun) (context : ContinuationContext)
    → agent_run_resume_error run context ≡ none
    → (is_terminal run.status ≡ true)
      × (truthy run.child_session_id ≡ true)
      × (truthy run.acpx_record_id ≡ true)
unfolding agent_run_resume_error
resume_error-facts run context e = (ground arith, ground arith, ground arith)

agrees_held :
    (mine theirs : Option String)
    → truthy mine ≡ true
    → (truthy theirs ≡ true → mine ≡ theirs)
    → differs mine theirs ≡ false
agrees_held mine theirs held h = rw (held, agrees mine theirs h)

resume-intent_of :
    (run run' new : AgentRun)
    → Consistent run run'
    → is_terminal run.status ≡ true
    → truthy new.child_session_id ≡ true
    → truthy new.acpx_record_id ≡ true
    → new.child_session_id ≡ run'.child_session_id
    → new.acpx_record_id ≡ run'.acpx_record_id
    → new.resume_of_run_id ≡ some run.id
    → resume_intent new (some run)
      ≡ Intent.ok (resuming (get_or new.child_session_id "") (get_or new.acpx_record_id ""))
unfolding resume_intent
resume-intent_of run run' new c over has_child has_record child acpx relation =
    rw (same_text-of_eq (some run.id) new.resume_of_run_id (sym relation)) (
      rw over (
        rw
          (agrees_held new.child_session_id run.child_session_id has_child
            (λ t. child ∙ c.known_child t))
          (rw (
            agrees_held new.acpx_record_id run.acpx_record_id has_record
              (λ t. acpx ∙ c.known_record t)))))

turn_intent-resume :
    (run new : AgentRun)
    → (run.id == "") ≡ false
    → new.resume_of_run_id ≡ some run.id
    → new.retry_of_run_id ≡ none
    → agent_run_turn_intent new none (some run) ≡ resume_intent new (some run)
unfolding agent_run_turn_intent
turn_intent-resume run new nonempty e f = rw (e, f, nonempty)

available :
    (b : Bool) (r : RunResult) (l' : Ledger) (new : AgentRun)
    → (if not b then err cwd_unavailable else r) ≡ ok l' new
    → r ≡ ok l' new
available true r l' new e = e
available false r l' new e = absurd (ground arith)

recorded_resume-IsResumeOf :
    (now : ℕ) (new_id : String) (run run' : AgentRun) (task : String) (completions : List String)
    (directory : Bool) (refusal : Option SessionError) (l l' : Ledger) (new : AgentRun)
    → Consistent run run'
    → (run.id == "") ≡ false
    → agent_run_by_id run.id l.runs ≡ some run
    → run'.depth ≡ run.depth
    → ineligible (agent_run_resume_error run' (context_of run' l.runs)) (
        if not directory
        then err cwd_unavailable
        else refused refusal (
            recorded (
              create_agent_run now
                (continuation new_id run' task none (some run.id) completions)
                l)))
      ≡ ok l' new
    → (validated : Option String) → validate_agent_run_resume_task validated ≡ some task
    → IsResumeOf l l' run validated new
recorded_resume-IsResumeOf now new_id run run' task completions directory refusal l l' new c
      nonempty found depth e validated valid =
    let (eligible, e₁) = ineligible-ok _ _ l' new e in
    let e₂ = refused-ok refusal _ l' new (available directory _ l' new e₁) in
    let (admitted, runs, same) = recorded-ok now _ l l' new e₂ in
    let (over, has_child, has_record) = resume_error-facts run' _ eligible in
    let child : new.child_session_id ≡ run'.child_session_id = rw same in
    let acpx : new.acpx_record_id ≡ run'.acpx_record_id = rw same in
    let relation : new.resume_of_run_id ≡ some run.id = rw same in
    let ended : is_terminal run.status ≡ true = rw (← c.same_status) over in
    let later : agent_run_by_id run.id l'.runs ≡ some run =
      rw runs (find-append (has_id run.id) l.runs _ run found) in
    (
      rw (runs, same),
      relation,
      ended,
      valid ∙ rw same,
      rw same depth,
      rw later (
          turn_intent-resume run new nonempty relation (rw same)
          ∙ resume-intent_of run run' new c ended (rw child has_child) (rw acpx has_record) child
              acpx relation),
    )

resume_recovered-IsResumeOf :
    (env : Environment) (now : ℕ) (new_id : String) (run : AgentRun) (task : String)
    (completions : List String) (r : Recovery) (l l' : Ledger) (new : AgentRun)
    → (r ≢ failed → Consistent run (with_identity run r))
    → (run.id == "") ≡ false
    → agent_run_by_id run.id l.runs ≡ some run
    → resume_recovered env now new_id run task completions r l ≡ ok l' new
    → (validated : Option String) → validate_agent_run_resume_task validated ≡ some task
    → IsResumeOf l l' run validated new
unfolding resume_recovered with_identity
resume_recovered-IsResumeOf env now new_id run task completions failed l l' new c nonempty found e =
    absurd (ground arith)
resume_recovered-IsResumeOf env now new_id run task completions nothing l l' new c nonempty found
      e =
    recorded_resume-IsResumeOf now new_id run _ task completions _ _ l l' new (c (λ x. cc)) nonempty
      found refl e
resume_recovered-IsResumeOf env now new_id run task completions (recovered child acpx) l l' new c
      nonempty found e =
    recorded_resume-IsResumeOf now new_id run _ task completions _ _ l l' new (c (λ x. cc)) nonempty
      found refl e

resume_task-IsResumeOf :
    (env : Environment) (now : ℕ) (new_id : String) (run : AgentRun) (task given : Option String)
    (completions : List String) (l l' : Ledger) (new : AgentRun)
    → (run.id == "") ≡ false
    → agent_run_by_id run.id l.runs ≡ some run
    → validate_agent_run_resume_task given ≡ task
    → resume_task env now new_id run task completions l ≡ ok l' new
    → IsResumeOf l l' run given new
resume_task-IsResumeOf env now new_id run none given completions l l' new nonempty found v e =
    absurd (ground arith)
resume_task-IsResumeOf env now new_id run (some t) given completions l l' new nonempty found v e =
    resume_recovered-IsResumeOf env now new_id run t completions _ l l' new
      (recover-Consistent env run) nonempty found e given v

-- A resume that succeeds follows a run that has ended and records one row with the run's depth and
-- the task that was given, which is not blank; the turn that this row is then given, from the
-- ledger after it, continues the row's child session and its saved record, and is never an error.
-- The run's id is not the empty text.
pub resume_with_completions-IsResumeOf :
    (env : Environment) (now : ℕ) (new_id : String) (stopping : Bool) (id : String)
    (task : Option String) (completions : List String) (l l' : Ledger) (new : AgentRun)
    → (id == "") ≡ false
    → resume_with_completions env now new_id stopping id task completions l ≡ ok l' new
    → (run : AgentRun) × (agent_run_by_id id l.runs ≡ some run) × IsResumeOf l l' run task new
unfolding resume_with_completions
resume_with_completions-IsResumeOf env now new_id true id task completions l l' new nonempty e =
    absurd (ground arith)
resume_with_completions-IsResumeOf env now new_id false id task completions l l' new nonempty e =
    elim (Option-cases (agent_run_by_id id l.runs)) [
      | inl gone ↦ let bad : err no_such_run ≡ ok l' new = rw gone at e in absurd (ground arith)
      | inr (run, found) ↦
          let same = (eq_iff run.id id).0 (find-passes (has_id id) l.runs run found) in
          let e' : resume_task env now new_id run (validate_agent_run_resume_task task) completions
                l
              ≡ ok l' new =
            rw found at e in
          (
            run,
            found,
            resume_task-IsResumeOf env now new_id run _ task completions l l' new (rw same nonempty)
                (subst (λ i. agent_run_by_id i l.runs ≡ some run) (sym same) found) refl e',
          )
    ]
