-- ===== src/LaunchConfig/Models.antt =====
-- src/agent-runs/launch-config.ts `resolveAgentRunLaunch`: the model of a launch that resolves.
use owner_operator.Prelude.{
  String, ◌≡◌, ◌⊎◌, inl, inr, true, not, ◌&&◌, Option, some, arith, if_elim, truthy,
}
use owner_operator.LaunchConfig.{
  AgentRunLaunchPins, DelegatedBaseline, Pin, ResolvedAgentRunLaunch, null, omitted, ok,
  resolve_agent_run_launch, resolve_model, resolve_pin, value, baseline_model,
}

resolve_model-names :
    (baseline : Option DelegatedBaseline) (pins : AgentRunLaunchPins) (model : Option String)
    (launch : ResolvedAgentRunLaunch)
    → resolve_model baseline pins model ≡ ok launch
    → (truthy launch.model ≡ true) ⊎ (pins.harness_choice ≡ true)
unfolding resolve_model
resolve_model-names baseline pins model launch =
    if_elim (λ x. x ≡ ok launch → (truthy launch.model ≡ true) ⊎ (pins.harness_choice ≡ true))
      (not (truthy model) && pins.harness_choice) _ _ (λ chosen e. inr (ground arith))
      (λ _.
        if_elim (λ x. x ≡ ok launch → (truthy launch.model ≡ true) ⊎ (pins.harness_choice ≡ true))
          (not (truthy model)) _ _ (λ _ e. absurd (ground arith)) (λ named e. inl (ground arith)))

resolve_pin-names :
    (baseline : Option DelegatedBaseline) (pins : AgentRunLaunchPins) (pin : Pin String)
    (launch : ResolvedAgentRunLaunch)
    → resolve_pin baseline pins pin ≡ ok launch
    → (truthy launch.model ≡ true) ⊎ (pins.harness_choice ≡ true)
resolve_pin-names baseline pins null launch e = absurd (ground arith)
resolve_pin-names baseline pins omitted launch e =
    resolve_model-names baseline pins (baseline_model baseline) launch e
resolve_pin-names baseline pins (value m) launch e =
    resolve_model-names baseline pins (some m) launch e

-- A launch configuration that resolves names a model, or leaves the choice to the harness.
pub resolve_agent_run_launch-names :
    (baseline : Option DelegatedBaseline) (pins : AgentRunLaunchPins)
    (launch : ResolvedAgentRunLaunch)
    → resolve_agent_run_launch baseline pins ≡ ok launch
    → (truthy launch.model ≡ true) ⊎ (pins.harness_choice ≡ true)
unfolding resolve_agent_run_launch
resolve_agent_run_launch-names baseline pins launch e =
    resolve_pin-names baseline pins pins.model launch e
