-- ===== src/AcpSelection/Confirm.antt =====
-- src/agent-runs/acp-session-selection.ts `applyAndConfirmAcpSelection` and what it requires of each
-- snapshot of the session.
use owner_operator.Prelude.{
  String, Bool, false, Option, none, some, List, [], ◌∷◌, if◌then◌else◌, any, ◌==◌,
}
use owner_operator.AgentRuns.{Effort, effort_text}
use owner_operator.AcpSelection.{
  AcpRuntime, AcpRuntimeStatus, AcpSelectionConfirmationError, Attempt, Call, Fields, Raised,
  RequestedAcpSelection, Thrown, adapter, config_options_invalid, confirmation, invalid_code, ok,
  property, pure, raised, thrown, thrown_message, ◌>>=◌, ◌>>◌,
}
use owner_operator.AcpSelection.Options.{
  advertised_select_values, config_options_from_status, string_of,
}
use owner_operator.AcpSelection.Selector.{
  ThoughtLevelSelectorResolution, ambiguous, found, missing, resolve_thought_level_selector,
}
use owner_operator.Executor.Task.{concat}
use owner_operator.RunLog.Json.{quoted}

pub record ConfirmedAcpSelection : Type 0 where
  pub model : String
  pub effort : Option Effort
  pub config_options : List Fields

abbrev pub failure :
    String → RequestedAcpSelection → String → Option Thrown → AcpSelectionConfirmationError
failure code requested detail cause = record {
  code = code;
  requested = requested;
  detail = detail;
  cause = cause;
}

abbrev model_text : Option String → String
model_text none = "missing"
model_text (some m) = quoted m

abbrev pub is_model : String → Option String → Bool
is_model m none = false
is_model m (some n) = n == m

module _ (requested : RequestedAcpSelection) where
  abbrev pub refuse : {A : Type 0} → String → String → Attempt Raised A
  refuse code detail = raised (confirmation (failure code requested detail none))

  -- Goes on with a result, or stops; a snapshot is read without a change of the session.
  unfoldable pub now_has : {S A : Type 0} → Attempt Raised A → Call S Raised A
  now_has r s = (s, r)

  unfoldable pub guard : {S : Type 0} → Bool → String → String → Call S Raised (Unit {0})
  guard holds code detail s = (s, if holds then ok tt else refuse code detail)

  unfoldable pub method : {S A : Type 0} → Option A → String → String → Call S Raised A
  unfolding now_has
  method none code detail = now_has (refuse code detail)
  method (some a) code detail = pure a

  -- A throw of acpx goes on to the surrounding catch.
  unfoldable pub adapted : {S A : Type 0} → S × Attempt String A → S × Attempt Raised A
  adapted (s, ok a) = (s, ok a)
  adapted (s, raised e) = (s, raised (thrown (adapter e)))

  unfoldable pub await : {S A : Type 0} → Call S String A → Call S Raised A
  unfolding adapted
  await call s = adapted (call s)

  abbrev pub require_exact_model :
      {S : Type 0} → AcpRuntimeStatus → String → Call S Raised (Unit {0})
  require_exact_model status phase =
      guard (is_model requested.model status.current_model_id) "ACP_SELECTION_MODEL_MISMATCH"
        (concat (phase ∷ " model was " ∷ model_text status.current_model_id ∷ []))

  abbrev pub options_of :
      Attempt Thrown (Option (List Fields)) → String → Attempt Raised (List Fields)
  options_of (ok (some options)) phase = ok options
  options_of (ok none) phase =
      refuse "ACP_SELECTION_CONFIG_OPTIONS_MISSING"
        (concat (phase ∷ " configOptions were missing" ∷ []))
  options_of (raised e) phase = raised (thrown e)

  abbrev pub require_config_options :
      {S : Type 0} → AcpRuntimeStatus → String → Call S Raised (List Fields)
  require_config_options status phase =
      now_has (options_of (config_options_from_status status) phase)

  abbrev pub selector_of : ThoughtLevelSelectorResolution → String → Attempt Raised Fields
  selector_of (found selector) phase = ok selector
  selector_of (ambiguous detail) phase =
      refuse "ACP_SELECTION_SELECTOR_AMBIGUOUS" (concat (phase ∷ " " ∷ detail ∷ []))
  selector_of missing phase =
      refuse "ACP_SELECTION_SELECTOR_MISSING"
        (concat (phase ∷ " status advertised no thought-level selector" ∷ []))

  abbrev pub require_thought_level_selector :
      {S : Type 0} → List Fields → String → Call S Raised Fields
  require_thought_level_selector options phase =
      now_has (selector_of (resolve_thought_level_selector options) phase)

  abbrev pub id_of : Fields → String
  id_of option = string_of (property "id" option)

  abbrev pub current_value : Fields → String
  current_value option = string_of (property "currentValue" option)

  abbrev pub advertises : Effort → Fields → Bool
  advertises effort option = any (λ v. v == effort_text effort) (advertised_select_values option)

  module _ {S H : Type 0} (runtime : AcpRuntime S H) (handle : H) where
    -- The part of a requested effort, after the first snapshot.
    unfoldable pub confirm_effort :
        (H → Call S String AcpRuntimeStatus)
        → List Fields
        → Effort
        → Call S Raised ConfirmedAcpSelection
    confirm_effort get_status initial_options effort = do
      selector ← require_thought_level_selector initial_options "initial"
      guard (advertises effort selector) "ACP_SELECTION_EFFORT_UNAVAILABLE" (
          concat
            ("option " ∷ quoted (id_of selector) ∷ " does not advertise requested effort" ∷ []))
      set_config_option ←
          method runtime.set_config_option "ACP_SELECTION_SET_UNAVAILABLE"
            "runtime does not expose config-option setting"
      await (set_config_option handle (id_of selector) (effort_text effort))
      status ← await (get_status handle)
      require_exact_model status "confirmed"
      options ← require_config_options status "confirmed"
      confirmed ← require_thought_level_selector options "confirmed"
      guard (id_of confirmed == id_of selector) "ACP_SELECTION_SELECTOR_CHANGED" (
          concat (
            "thought-level option changed from "
            ∷ quoted (id_of selector)
            ∷ " to "
            ∷ quoted (id_of confirmed)
            ∷ []))
      guard (advertises effort confirmed) "ACP_SELECTION_EFFORT_UNAVAILABLE" (
          concat (
            "confirmed option "
            ∷ quoted (id_of confirmed)
            ∷ " no longer advertises requested effort"
            ∷ []))
      guard (current_value confirmed == effort_text effort) "ACP_SELECTION_EFFORT_MISMATCH"
          (concat ("confirmed effort was " ∷ quoted (current_value confirmed) ∷ []))
      pure (record { model = requested.model; effort = some effort; config_options = options })

    abbrev pub confirm :
        (H → Call S String AcpRuntimeStatus)
        → List Fields
        → Option Effort
        → Call S Raised ConfirmedAcpSelection
    confirm get_status options none =
        pure (record { model = requested.model; effort = none; config_options = options })
    confirm get_status options (some effort) = confirm_effort get_status options effort

    -- The body of the `try`.
    unfoldable pub try_selection : Call S Raised ConfirmedAcpSelection
    try_selection = do
      get_status ←
          method runtime.get_status "ACP_SELECTION_STATUS_UNAVAILABLE"
            "runtime does not expose session status"
      status ← await (get_status handle)
      require_exact_model status "initial"
      options ← require_config_options status "initial"
      confirm get_status options requested.effort

  -- The `catch`: every throw becomes an error of the confirmation.
  unfoldable pub caught : Raised → AcpSelectionConfirmationError
  unfolding thrown_message
  caught (confirmation e) = e
  caught (thrown (config_options_invalid detail)) =
      let error = config_options_invalid detail in
      failure invalid_code requested (thrown_message error) (some error)
  caught (thrown (adapter detail)) =
      let error = adapter detail in
      failure "ACP_SELECTION_CONFIRMATION_FAILED" requested (thrown_message error) (some error)

  abbrev pub settled :
      {S : Type 0}
      → S × Attempt Raised ConfirmedAcpSelection
      → S × Attempt AcpSelectionConfirmationError ConfirmedAcpSelection
  settled (s, ok selection) = (s, ok selection)
  settled (s, raised e) = (s, raised (caught e))

  unfoldable pub apply_and_confirm_acp_selection :
      {S H : Type 0}
      → AcpRuntime S H
      → H
      → Call S AcpSelectionConfirmationError ConfirmedAcpSelection
  unfolding try_selection
  apply_and_confirm_acp_selection runtime handle s = settled (try_selection runtime handle s)
