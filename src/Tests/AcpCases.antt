-- ===== src/Tests/AcpCases.antt =====
-- src/agent-runs/acp-session-selection.ts at a session whose state is its effort.
use owner_operator.Prelude.{ℕ, ◌≡◌, refl, ◌⊎◌, ◌↔◌, String, none, some, [], ◌∷◌, is_blank}
use owner_operator.AgentRuns.{Effort, effort_text}
use owner_operator.AcpSelection.{
  AcpRuntime, AcpRuntimeStatus, Fields, RequestedAcpSelection, Value, array, cons, end, entry, nil,
  null, number, object, ok, raised, text, ◌>>=◌, ◌>>◌, confirmation_message, config_options_invalid,
  has_own, property, items, thrown_message,
}
use owner_operator.AcpSelection.Options.{
  config_options_from_status, advertised_select_values, invalid,
}
use owner_operator.AcpSelection.Selector.{found, resolve_thought_level_selector, select_options}
use owner_operator.AcpSelection.Confirm.{
  ConfirmedAcpSelection, adapted, apply_and_confirm_acp_selection, await, caught, confirm_effort,
  guard, method, now_has,
}
use owner_operator.RunLog.Json.{quoted}
use owner_operator.AcpSelection.Accepted.{Decodes, config_options_from_status-Decodes}
use owner_operator.AcpSelection.Unique.{IsThoughtLevel, resolve_thought_level_selector-found_iff}
use owner_operator.AcpSelection.Confirmed.{Confirms, apply_and_confirm_acp_selection-Confirms}
use owner_operator.AcpSelection.Guarded.{OnlyRead, Ready, apply_and_confirm_acp_selection-Ready}

abbrev choice_of : String → Value
choice_of s = object (entry "value" (text s) end)

-- A group holds the choice "high".
abbrev choices : Value
choices = array (
    cons (choice_of "low")
      (cons (object (entry "options" (array (cons (choice_of "high") nil)) end)) nil))

abbrev option_of : String → String → Fields
option_of id current = entry "type" (text "select") (
    entry "id" (text id)
      (entry "category" null (entry "currentValue" (text current) (entry "options" choices end))))

abbrev status_of : String → AcpRuntimeStatus
status_of current = record {
  current_model_id = some "sonnet";
  details = some (
      entry "configOptions"
        (array (
          cons (object (entry "type" (text "boolean") end))
            (cons (object (option_of "reasoning_effort" current)) nil)))
        end);
}

abbrev runtime : AcpRuntime String ℕ
runtime = record {
  get_status = some (λ handle effort. (effort, ok (status_of effort)));
  set_config_option = some (λ handle key value effort. (value, ok tt));
}

abbrev high_effort : RequestedAcpSelection
high_effort = record { model = "sonnet"; effort = some Effort.high }

abbrev high_confirmed : ConfirmedAcpSelection
high_confirmed = record {
  model = "sonnet";
  effort = some Effort.high;
  config_options = entry "type" (text "boolean") end ∷ option_of "reasoning_effort" "high" ∷ [];
}

live_confirmation :
    apply_and_confirm_acp_selection high_effort runtime 0 "low" ≡ ("high", ok high_confirmed)
unfolding apply_and_confirm_acp_selection ◌>>=◌ ◌>>◌ now_has guard method await adapted
    config_options_from_status resolve_thought_level_selector advertised_select_values has_own
    property items is_blank confirm_effort effort_text
live_confirmation = refl

-- A setter that answers and changes nothing is no evidence.
abbrev idle_runtime : AcpRuntime String ℕ
idle_runtime = record runtime {
  set_config_option = some (λ handle key value effort. (effort, ok tt));
}

unset_effort_raises :
    (apply_and_confirm_acp_selection high_effort idle_runtime 0 "low").1
    ≡ raised (record {
      code = "ACP_SELECTION_EFFORT_MISMATCH";
      requested = high_effort;
      detail = "confirmed effort was \"low\"";
      cause = none;
    })
unfolding apply_and_confirm_acp_selection ◌>>=◌ ◌>>◌ now_has guard method await adapted
    config_options_from_status resolve_thought_level_selector advertised_select_values has_own
    property items is_blank confirm_effort effort_text caught quoted
unset_effort_raises = refl

-- An option that is no object, after one that is.
abbrev bad_status : AcpRuntimeStatus
bad_status = record {
  current_model_id = none;
  details = some (entry "configOptions" (array (cons (object end) (cons number nil))) end);
}

bad_status_raises :
    config_options_from_status bad_status
    ≡ raised (config_options_invalid "config option 1 must be an object")
unfolding config_options_from_status has_own property items invalid
bad_status_raises = refl

message_of_invalid :
    thrown_message (config_options_invalid "config option 1 must be an object")
    ≡ "ACP_CONFIG_OPTIONS_INVALID: config option 1 must be an object"
unfolding thrown_message
message_of_invalid = refl

message_of_confirmation :
    confirmation_message
      (record { code = "CODE"; requested = high_effort; detail = "detail"; cause = none })
    ≡ "CODE: ACP selection confirmation failed for model=\"sonnet\" effort=\"high\": detail"
unfolding confirmation_message quoted
message_of_confirmation = refl

config_options_from_status-Decodes_example :
    Decodes bad_status.details (config_options_from_status bad_status)
config_options_from_status-Decodes_example = config_options_from_status-Decodes bad_status

resolve_thought_level_selector-found_iff_example :
    (resolve_thought_level_selector high_confirmed.config_options
      ≡ found (option_of "reasoning_effort" "high"))
    ↔ IsThoughtLevel
        (select_options high_confirmed.config_options)
        (option_of "reasoning_effort" "high")
resolve_thought_level_selector-found_iff_example =
    resolve_thought_level_selector-found_iff high_confirmed.config_options
      (option_of "reasoning_effort" "high")

apply_and_confirm_acp_selection-Confirms_example :
    (apply_and_confirm_acp_selection high_effort runtime 0 "low" ≡ ("high", ok high_confirmed))
    ↔ Confirms high_effort runtime 0 "low" "high" high_confirmed
apply_and_confirm_acp_selection-Confirms_example =
    apply_and_confirm_acp_selection-Confirms high_effort runtime 0 "low" "high" high_confirmed

apply_and_confirm_acp_selection-Ready_example :
    OnlyRead high_effort runtime 0 "low"
      (apply_and_confirm_acp_selection high_effort runtime 0 "low").0
    ⊎ Ready high_effort runtime 0 "low"
apply_and_confirm_acp_selection-Ready_example =
    apply_and_confirm_acp_selection-Ready high_effort runtime 0 "low"
