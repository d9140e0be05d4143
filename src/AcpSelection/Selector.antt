-- ===== src/AcpSelection/Selector.antt =====
-- src/agent-runs/acp-session-selection.ts `resolveThoughtLevelSelector`.
use owner_operator.Prelude.{String, Bool, List, [], ◌∷◌, keep}
use owner_operator.AcpSelection.{Fields, is_text, property}
use owner_operator.AcpSelection.Options.{is_select}
use owner_operator.Executor.Task.{concat}
use owner_operator.RunLog.Json.{quoted}

pub data ThoughtLevelSelectorResolution : Type 0 where
  found : (selector : Fields) → ThoughtLevelSelectorResolution
  missing : ThoughtLevelSelectorResolution
  ambiguous : (detail : String) → ThoughtLevelSelectorResolution

abbrev pub thought_level_fallback_ids : List String
thought_level_fallback_ids = "thought_level" ∷ "reasoning_effort" ∷ []

abbrev pub is_categorized : Fields → Bool
is_categorized option = is_text "thought_level" (property "category" option)

abbrev pub has_option_id : String → Fields → Bool
has_option_id id option = is_text id (property "id" option)

abbrev pub select_options : List Fields → List Fields
select_options options = keep is_select options

-- One match is the selector, more are ambiguous, and none leaves the rest of the policy.
abbrev pub only :
    List Fields → String → ThoughtLevelSelectorResolution → ThoughtLevelSelectorResolution
only [] detail rest = rest
only (o ∷ []) detail rest = found o
only (o ∷ p ∷ os) detail rest = ambiguous detail

unfoldable pub fallback : List String → List Fields → ThoughtLevelSelectorResolution
fallback [] options = missing
fallback (id ∷ ids) options =
    only (keep (has_option_id id) options)
      (concat ("fallback option " ∷ quoted id ∷ " matched multiple selectors" ∷ []))
      (fallback ids options)

unfoldable pub resolve_thought_level_selector : List Fields → ThoughtLevelSelectorResolution
unfolding fallback
resolve_thought_level_selector options =
    only (keep is_categorized (select_options options))
      "thought-level category matched multiple options"
      (fallback thought_level_fallback_ids (select_options options))
