-- ===== src/Executor/Retry.antt =====
-- src/agent-runs/executor.ts `retry` against the intent that packages/core/src/agent-runs.ts
-- derives of the row that it records.
use owner_operator.Prelude.{
  ℕ, String, ◌≡◌, ◌≢◌, refl, sym, subst, ◌∙◌, ◌⊎◌, inl, inr, Bool, true, false, not, Option, none,
  some, [], ◌∷◌, ◌++◌, arith, if_elim, if◌then◌else◌, ◌==◌, eq_iff, Bool-cases, Option-cases,
  truthy, get_or, find-append, find-passes,
}
use owner_operator.AgentRuns.{AgentRun, is_terminal, is_retryable}
use owner_operator.AgentRuns.Eligibility.{ContinuationContext, agent_run_retry_error}
use owner_operator.AgentRuns.SavedSession.{
  Environment, Recovery, nothing, failed, recovered, with_identity, SessionError,
}
use owner_operator.AgentRuns.Intent.{
  AgentRunTurnIntent, fresh, retry as retrying, resume as resuming, agent_run_turn_intent,
  retry_intent, resume_intent, present, retry_turn, differs,
}
use owner_operator.AgentRuns.Intent as Intent
use owner_operator.Ledger.{Ledger, agent_run_by_id, has_id, create_agent_run}
use owner_operator.Executor.{
  ok, err, recorded, refused, ineligible, continuation, context_of, existing_retry, retry_recovered,
  retry_of, retry, no_such_run,
}
use owner_operator.Executor.Identity.{
  Consistent, recover-Consistent, same_text-of_eq, agrees, recorded-ok, ineligible-ok, refused-ok,
}

retry_turn-ok :
    (child acpx : Option String)
    → (truthy child ≡ false → truthy acpx ≡ false)
    → retry_turn child acpx
      ≡ Intent.ok (if truthy child then retrying (get_or child "") (present acpx) else fresh)
retry_turn-ok child acpx h = elim (Bool-cases (truthy child)) [
  | inl held ↦ rw held
  | inr gone ↦ rw (gone, h gone)
]

-- The intent of a row that carries an identity consistent with the retried run's.
abbrev pub retry_turn_of : AgentRun → AgentRunTurnIntent
retry_turn_of new =
    if truthy new.child_session_id
    then retrying (get_or new.child_session_id "") (present new.acpx_record_id)
    else fresh

retry-intent_of :
    (run run' new : AgentRun)
    → Consistent run run'
    → is_retryable run'.status ≡ true
    → new.child_session_id ≡ run'.child_session_id
    → new.acpx_record_id ≡ run'.acpx_record_id
    → new.retry_of_run_id ≡ some run.id
    → retry_intent new (some run) ≡ Intent.ok (retry_turn_of new)
unfolding retry_intent
retry-intent_of run run' new c retryable child acpx relation =
    rw (same_text-of_eq (some run.id) new.retry_of_run_id (sym relation)) (
      rw (agrees new.child_session_id run.child_session_id (λ t. child ∙ c.known_child t)) (
        rw (agrees new.acpx_record_id run.acpx_record_id (λ t. acpx ∙ c.known_record t)) (
          rw (let s : is_retryable run.status ≡ true = rw (← c.same_status) retryable in s) (
            retry_turn-ok new.child_session_id new.acpx_record_id
              (λ t. rw acpx (c.no_record (rw child at t)))))))

-- What a recorded retry of `run` is.
abbrev pub IsRetryOf : Ledger → Ledger → AgentRun → AgentRun → Type 0
IsRetryOf l l' run new =
    (l'.runs ≡ l.runs ++ new ∷ [])
    × (new.retry_of_run_id ≡ some run.id)
    × (new.task ≡ run.task)
    × (new.depth ≡ run.depth)
    × (agent_run_turn_intent new (agent_run_by_id run.id l'.runs) none
        ≡ Intent.ok (retry_turn_of new))

retry_error-retryable :
    (run : AgentRun) (context : ContinuationContext)
    → agent_run_retry_error run context ≡ none
    → is_retryable run.status ≡ true
unfolding agent_run_retry_error
retry_error-retryable run context e = ground arith

turn_intent-retry :
    (run new : AgentRun)
    → (run.id == "") ≡ false
    → new.retry_of_run_id ≡ some run.id
    → new.resume_of_run_id ≡ none
    → agent_run_turn_intent new (some run) none ≡ retry_intent new (some run)
unfolding agent_run_turn_intent
turn_intent-retry run new nonempty e f = rw (e, f, nonempty)

recorded_retry-IsRetryOf :
    (now : ℕ) (new_id : String) (run run' : AgentRun) (refusal : Option SessionError)
    (l l' : Ledger) (new : AgentRun)
    → Consistent run run'
    → (run.id == "") ≡ false
    → agent_run_by_id run.id l.runs ≡ some run
    → run'.depth ≡ run.depth
    → ineligible (agent_run_retry_error run' (context_of run' l.runs)) (
        refused refusal (
          recorded (
            create_agent_run now
              (continuation new_id run' run.task (some run.id) none run.completion_run_ids)
              l)))
      ≡ ok l' new
    → IsRetryOf l l' run new
recorded_retry-IsRetryOf now new_id run run' refusal l l' new c nonempty found depth e =
    let (eligible, e₁) = ineligible-ok _ _ l' new e in
    let e₂ = refused-ok refusal _ l' new e₁ in
    let (admitted, runs, same) = recorded-ok now _ l l' new e₂ in
    let retryable = retry_error-retryable run' _ eligible in
    let child : new.child_session_id ≡ run'.child_session_id = rw same in
    let acpx : new.acpx_record_id ≡ run'.acpx_record_id = rw same in
    let relation : new.retry_of_run_id ≡ some run.id = rw same in
    let later : agent_run_by_id run.id l'.runs ≡ some run =
      rw runs (find-append (has_id run.id) l.runs _ run found) in
    (
      rw (runs, same),
      relation,
      rw same,
      rw same depth,
      rw later (
          turn_intent-retry run new nonempty relation (rw same)
          ∙ retry-intent_of run run' new c retryable child acpx relation),
    )

retry_recovered-IsRetryOf :
    (env : Environment) (now : ℕ) (new_id : String) (run : AgentRun) (r : Recovery) (l l' : Ledger)
    (new : AgentRun)
    → (r ≢ failed → Consistent run (with_identity run r))
    → (run.id == "") ≡ false
    → agent_run_by_id run.id l.runs ≡ some run
    → retry_recovered env now new_id run r l ≡ ok l' new
    → IsRetryOf l l' run new
unfolding retry_recovered with_identity
retry_recovered-IsRetryOf env now new_id run failed l l' new c nonempty found e =
    absurd (ground arith)
retry_recovered-IsRetryOf env now new_id run nothing l l' new c nonempty found e =
    recorded_retry-IsRetryOf now new_id run _ _ l l' new (c (λ x. cc)) nonempty found refl e
retry_recovered-IsRetryOf env now new_id run (recovered child acpx) l l' new c nonempty found e =
    recorded_retry-IsRetryOf now new_id run _ _ l l' new (c (λ x. cc)) nonempty found refl e

retry_of-IsRetryOf :
    (env : Environment) (now : ℕ) (new_id : String) (run : AgentRun) (existing : Option AgentRun)
    (l l' : Ledger) (new : AgentRun)
    → (run.id == "") ≡ false
    → agent_run_by_id run.id l.runs ≡ some run
    → retry_of env now new_id run existing l ≡ ok l' new
    → ((l' ≡ l) × (existing ≡ some new) × (is_terminal new.status ≡ false)) ⊎ IsRetryOf l l' run new
unfolding retry_of
retry_of-IsRetryOf env now new_id run none l l' new nonempty found e = inr (
    retry_recovered-IsRetryOf env now new_id run _ l l' new (recover-Consistent env run) nonempty
      found e)
retry_of-IsRetryOf env now new_id run (some r) l l' new nonempty found e₀ =
    if_elim
      (λ x.
        x ≡ ok l' new
        → ((l' ≡ l) × (some r ≡ some new) × (is_terminal new.status ≡ false))
          ⊎ IsRetryOf l l' run new)
      (not (is_terminal r.status)) _ _ (λ live e. inl (ground arith))
      (λ _ e. inr (
        retry_recovered-IsRetryOf env now new_id run _ l l' new (recover-Consistent env run)
          nonempty found e))
      e₀

-- A retry that succeeds gives a retry of the run that has not ended yet, and changes nothing; or
-- it records one row with the run's task and depth, and the turn that this row is then given, from
-- the ledger after it, is a same-task turn in the row's child session, or a fresh one if it has
-- none; never an error. The run's id is not the empty text.
pub retry-IsRetryOf :
    (env : Environment) (now : ℕ) (new_id : String) (stopping : Bool) (id : String) (l l' : Ledger)
    (new : AgentRun)
    → (id == "") ≡ false
    → retry env now new_id stopping id l ≡ ok l' new
    → (run : AgentRun) × (agent_run_by_id id l.runs ≡ some run)
      × (((l' ≡ l) × (existing_retry id l.runs ≡ some new) × (is_terminal new.status ≡ false))
          ⊎ IsRetryOf l l' run new)
unfolding retry
retry-IsRetryOf env now new_id true id l l' new nonempty e = absurd (ground arith)
retry-IsRetryOf env now new_id false id l l' new nonempty e =
    elim (Option-cases (agent_run_by_id id l.runs)) [
      | inl gone ↦ let bad : err no_such_run ≡ ok l' new = rw gone at e in absurd (ground arith)
      | inr (run, found) ↦
          let same = (eq_iff run.id id).0 (find-passes (has_id id) l.runs run found) in
          let e' : retry_of env now new_id run (existing_retry run.id l.runs) l ≡ ok l' new =
            rw found at e in
          (
            run,
            found,
            rw (← same) (
                retry_of-IsRetryOf env now new_id run (existing_retry run.id l.runs) l l' new
                  (rw same nonempty)
                  (subst (λ i. agent_run_by_id i l.runs ≡ some run) (sym same) found) e'),
          )
    ]
