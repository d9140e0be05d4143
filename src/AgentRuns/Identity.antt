-- ===== src/AgentRuns/Identity.antt =====
-- packages/core/src/agent-runs.ts `harnessIdentityObservation`, and the columns of
-- src/state/database.ts that store an observation.
use owner_operator.Prelude.{
  Bool, true, false, String, ◌≡◌, refl, Option, none, some, is_blank, if◌then◌else◌,
}
use owner_operator.AgentRuns.{
  Effort, minimal, low, medium, high, xhigh, max, ultra, effort_text, agent_run_effort,
  HarnessIdentityObservation, unobserved, observed_both, observed_model, observed_effort,
}

abbrev usable_model : Option String → Option String
usable_model none = none
usable_model (some m) = if is_blank m then none else some m

abbrev usable_effort : Option String → Option Effort
usable_effort none = none
usable_effort (some e) = agent_run_effort e

abbrev observed : Option String → Option Effort → HarnessIdentityObservation
observed (some m) (some e) = observed_both m e
observed (some m) none = observed_model m
observed none (some e) = observed_effort e
observed none none = unobserved

-- An input that is no text is `none`.
unfoldable pub harness_identity_observation :
    (model effort : Option String) → HarnessIdentityObservation
harness_identity_observation model effort = observed (usable_model model) (usable_effort effort)

-- The model and the text of the effort of an observation, if it is observed.
unfoldable pub model_column : HarnessIdentityObservation → Option String
model_column unobserved = none
model_column (observed_both m e) = some m
model_column (observed_model m) = some m
model_column (observed_effort e) = none

unfoldable pub effort_column : HarnessIdentityObservation → Option String
unfolding effort_text
effort_column unobserved = none
effort_column (observed_both m e) = some (effort_text e)
effort_column (observed_model m) = none
effort_column (observed_effort e) = some (effort_text e)

-- The columns of a row that hold its observation.
pub record IdentityColumns : Type 0 where
  pub harness_model : Option String
  pub harness_effort : Option String
  pub harness_identity_observed : Bool

abbrev is_observed : HarnessIdentityObservation → Bool
is_observed unobserved = false
is_observed (observed_both m e) = true
is_observed (observed_model m) = true
is_observed (observed_effort e) = true

abbrev columns_of : HarnessIdentityObservation → IdentityColumns
columns_of o = record {
  harness_model = model_column o;
  harness_effort = effort_column o;
  harness_identity_observed = is_observed o;
}

-- What an update that reports an identity writes.
unfoldable pub written_identity : HarnessIdentityObservation → IdentityColumns
unfolding harness_identity_observation model_column effort_column
written_identity reported =
    columns_of (harness_identity_observation (model_column reported) (effort_column reported))

-- What `toAgentRun` makes of the columns; `harnessIdentityObserved` is not looked at.
unfoldable pub read_identity : IdentityColumns → HarnessIdentityObservation
unfolding harness_identity_observation
read_identity c = harness_identity_observation c.harness_model c.harness_effort

pub effort-round_trip : (e : Effort) → agent_run_effort (effort_text e) ≡ some e
unfolding agent_run_effort effort_text
effort-round_trip minimal = refl
effort-round_trip low = refl
effort-round_trip medium = refl
effort-round_trip high = refl
effort-round_trip xhigh = refl
effort-round_trip max = refl
effort-round_trip ultra = refl
