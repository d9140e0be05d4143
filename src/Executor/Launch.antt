-- ===== src/Executor/Launch.antt =====
-- src/agent-runs/executor.ts `launch`: what a launch that succeeds has recorded.
use owner_operator.Prelude.{
  ℕ, ◌≤◌, String, ◌≡◌, refl, ◌⊎◌, Bool, true, false, not, Option, none, some, [], ◌∷◌, ◌++◌, arith,
  Number, if_elim, if◌then◌else◌, ltb, truthy, is_blank, is_absolute, is_some,
}
use owner_operator.AgentRuns.{AgentRun, Effort, pending, agent_run_capabilities}
use owner_operator.LaunchConfig.{
  DelegatedBaseline, LaunchConfigResult, Pin, AgentRunLaunchPins, ResolvedAgentRunLaunch,
  resolve_agent_run_launch, omitted, null, value, null_model, no_baseline,
}
use owner_operator.LaunchConfig
use owner_operator.LaunchConfig.Models.{resolve_agent_run_launch-names}
use owner_operator.Ledger.{Ledger}
use owner_operator.Executor.{
  AgentRunCreateInput, ExecutorError, RunResult, ok, err, depth_for, known_effort, launch,
  launch_checked, launch_insert, launch_resolved, timeout_of,
}
use owner_operator.Executor.Identity.{recorded-ok}

-- A row that a launch under these bounds may record.
abbrev pub IsLaunched : AgentRunCreateInput → Ledger → Ledger → AgentRun → Type 0
IsLaunched input l l' new =
    (l'.runs ≡ l.runs ++ new ∷ [])
    × (new.status ≡ pending)
    × (new.task ≡ input.task)
    × (new.depth ≡ depth_for input.parent_thread_id l.runs)
    × (new.depth ≤ 5)
    × ((1 ≤ new.timeout_seconds) × (new.timeout_seconds ≤ 86400))
    × ((truthy new.model ≡ true) ⊎ (input.harness_choice ≡ true))

-- A guard that was passed.
guarded :
    (b : Bool) (x : ExecutorError) (r : RunResult) (l' : Ledger) (new : AgentRun)
    → (if b then err x else r) ≡ ok l' new
    → (b ≡ false) × (r ≡ ok l' new)
guarded true x r l' new e = absurd (ground arith)
guarded false x r l' new e = (refl, e)

not-false : (b : Bool) → not b ≡ false → b ≡ true
not-false true e = refl
not-false false e = absurd (ground arith)

timeout_of-bounds :
    (input : Option Number) (n : ℕ) → timeout_of input ≡ some n → (1 ≤ n) × (n ≤ 86400)
timeout_of-bounds input n e = ground arith

launch_resolved-IsLaunched :
    (now : ℕ) (new_id : String) (input : AgentRunCreateInput) (timeout : ℕ) (r : LaunchConfigResult)
    (l l' : Ledger) (new : AgentRun)
    → depth_for input.parent_thread_id l.runs ≤ 5
    → (1 ≤ timeout) × (timeout ≤ 86400)
    → ((launch : ResolvedAgentRunLaunch)
        → r ≡ LaunchConfig.ok launch
        → (truthy launch.model ≡ true) ⊎ (input.harness_choice ≡ true))
    → launch_resolved now new_id input timeout (depth_for input.parent_thread_id l.runs) r l
      ≡ ok l' new
    → IsLaunched input l l' new
unfolding launch_resolved launch_insert
launch_resolved-IsLaunched now new_id input timeout null_model l l' new d t m e =
    absurd (ground arith)
launch_resolved-IsLaunched now new_id input timeout no_baseline l l' new d t m e =
    absurd (ground arith)
launch_resolved-IsLaunched now new_id input timeout (LaunchConfig.ok launch) l l' new d t m e =
    let (admitted, runs, same) = recorded-ok now _ l l' new e in
    (rw (runs, same), rw same, rw same, rw same, rw same d, rw same t, rw same (m launch refl))

launch_checked-IsLaunched :
    (baseline : Option DelegatedBaseline) (now : ℕ) (new_id : String) (input : AgentRunCreateInput)
    (effort : Option (Pin Effort)) (timeout : Option ℕ) (l l' : Ledger) (new : AgentRun)
    → ((n : ℕ) → timeout ≡ some n → (1 ≤ n) × (n ≤ 86400))
    → launch_checked baseline now new_id input effort timeout l ≡ ok l' new
    → IsLaunched input l l' new
unfolding launch_checked
launch_checked-IsLaunched baseline now new_id input none timeout l l' new b e =
    absurd (ground arith)
launch_checked-IsLaunched baseline now new_id input (some effort) none l l' new b e =
    absurd (ground arith)
launch_checked-IsLaunched baseline now new_id input (some effort) (some timeout) l l' new b e₀ =
    let depth = depth_for input.parent_thread_id l.runs in
    let pins : AgentRunLaunchPins = record {
      model = input.model;
      effort = effort;
      harness_choice = input.harness_choice;
    } in
    if_elim (λ x. x ≡ ok l' new → IsLaunched input l l' new) (ltb 5 depth) _ _
      (λ deep e. absurd (ground arith))
      (λ shallow e.
        launch_resolved-IsLaunched now new_id input timeout (resolve_agent_run_launch baseline pins)
          l l' new (ground arith) (b timeout refl) (resolve_agent_run_launch-names baseline pins) e)
      e₀

-- A launch that succeeds was asked of a daemon that is not stopping, for a harness that can be
-- delegated to, with a task that is not blank and an absolute cwd. It records one pending row,
-- with that task, at the depth that its parent gives it, which is at most 5, with a timeout of one
-- second to one day, and with a model unless the choice is left to the harness.
pub launch-IsLaunched :
    (baseline : Option DelegatedBaseline) (now : ℕ) (new_id : String) (stopping : Bool)
    (input : AgentRunCreateInput) (l l' : Ledger) (new : AgentRun)
    → launch baseline now new_id stopping input l ≡ ok l' new
    → (stopping ≡ false)
      × (is_some (agent_run_capabilities input.harness) ≡ true)
      × (is_blank input.task ≡ false)
      × (is_absolute input.cwd ≡ true)
      × IsLaunched input l l' new
unfolding launch
launch-IsLaunched baseline now new_id stopping input l l' new e =
    let (running, e₁) = guarded _ _ _ l' new e in
    let (known, e₂) = guarded _ _ _ l' new e₁ in
    let (task, e₃) = guarded _ _ _ l' new e₂ in
    let (cwd, passed) = guarded _ _ _ l' new e₃ in
    (
      running,
      not-false _ known,
      task,
      not-false _ cwd,
      launch_checked-IsLaunched baseline now new_id input (known_effort input.effort)
          (timeout_of input.timeout_seconds) l l' new (timeout_of-bounds input.timeout_seconds)
          passed,
    )
