-- ===== src/LaunchConfig.antt =====
-- src/agent-runs/launch-config.ts `resolveAgentRunLaunch`: the model and effort that a delegated
-- run is launched with. The approved baseline of the harness, which `loadDelegatedBaseline` reads
-- from its file, is an argument.
pub mod Models
use owner_operator.Prelude.{
  String, Bool, true, false, not, ◌&&◌, Option, none, some, truthy, if◌then◌else◌,
}
use owner_operator.AgentRuns.{Effort}

-- A field that may be left out, be null, or hold a value.
pub data Pin {ℓ} (A : Type ℓ) : Type ℓ where
  omitted null : Pin A
  value : A → Pin A

pub record DelegatedBaseline : Type 0 where
  pub model : String
  pub effort : Option Effort

pub record AgentRunLaunchPins : Type 0 where
  pub model : Pin String
  pub effort : Pin Effort
  pub harness_choice : Bool

pub record ResolvedAgentRunLaunch : Type 0 where
  pub model : Option String
  pub effort : Option Effort

pub data LaunchConfigResult : Type 0 where
  ok : ResolvedAgentRunLaunch → LaunchConfigResult
  null_model no_baseline : LaunchConfigResult

abbrev pinned {ℓ} : {A : Type ℓ} → Pin A → Option A → Option A
pinned omitted d = d
pinned null d = none
pinned (value a) d = some a

abbrev baseline_model : Option DelegatedBaseline → Option String
baseline_model none = none
baseline_model (some b) = some b.model

abbrev baseline_effort : Option DelegatedBaseline → Option Effort
baseline_effort none = none
baseline_effort (some b) = b.effort

resolve_model : Option DelegatedBaseline → AgentRunLaunchPins → Option String → LaunchConfigResult
resolve_model baseline pins model =
    if not (truthy model) && pins.harness_choice
    then ok (record { model = none; effort = pinned pins.effort none })
    else if not (truthy model)
    then no_baseline
    else ok (record { model = model; effort = pinned pins.effort (baseline_effort baseline) })

abbrev resolve_pin : Option DelegatedBaseline → AgentRunLaunchPins → Pin String → LaunchConfigResult
resolve_pin baseline pins null = null_model
resolve_pin baseline pins omitted = resolve_model baseline pins (baseline_model baseline)
resolve_pin baseline pins (value m) = resolve_model baseline pins (some m)

unfoldable pub resolve_agent_run_launch :
    Option DelegatedBaseline → AgentRunLaunchPins → LaunchConfigResult
unfolding resolve_model
resolve_agent_run_launch baseline pins = resolve_pin baseline pins pins.model
