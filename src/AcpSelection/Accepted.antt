-- ===== src/AcpSelection/Accepted.antt =====
-- src/agent-runs/acp-session-selection.ts `configOptionsFromStatus`: what the options of a status are
-- checked for, as a property of their values, and which option is complained of.
use owner_operator.Prelude.{
  ℕ, ◌+◌, ◌≡◌, refl, ap, ◌∙◌, ◌⊎◌, inl, inr, String, Bool, true, false, Option, none, some, List,
  [], ◌∷◌, ◌++◌, if◌then◌else◌, arith, All, length, map,
}
use owner_operator.AcpSelection.{
  AcpRuntimeStatus, Attempt, Fields, Thrown, Value, has_own, ok, property, raised,
}
use owner_operator.AcpSelection.Options.{
  accept, array_of, config_options_from_status, details_options, invalid, payload_options,
  record_of, some_options, validate_config_option, validate_config_options,
}
use owner_operator.AcpSelection.Judged.{
  IsConfigOption, Judged, validate_config_option-IsConfigOption,
}

-- The first option that is not one: those before it are, and the error names its index.
abbrev pub FirstBad : ℕ → List Value → Thrown → Type 0
FirstBad index vs e =
    (before : List Value) × (bad : Value) × (after : List Value) × (detail : String) × (vs
      ≡ before ++ bad ∷ after)
    × All (λ v. IsConfigOption (record_of v)) before
    × (¬ IsConfigOption (record_of bad))
    × (e ≡ invalid (index + length before) detail)

abbrev Loop : ℕ → List Value → Attempt Thrown (List Fields) → Type 0
Loop index vs (ok options) =
    (map record_of vs ≡ map some options) × All (λ v. IsConfigOption (record_of v)) vs
Loop index vs (raised e) = FirstBad index vs e

first_later :
    (index : ℕ) (v : Value) (vs : List Value) (e : Thrown)
    → IsConfigOption (record_of v)
    → FirstBad (index + 1) vs e
    → FirstBad index (v ∷ vs) e
first_later index v vs e good (before, bad, after, detail, split, ahead, wrong, named) = (
  v ∷ before,
  bad,
  after,
  detail,
  ap (λ ws. v ∷ ws) split,
  (good, ahead),
  wrong,
  named ∙ ap (λ k. invalid k detail) (omega arith),
)

accept_some-Loop :
    (index : ℕ) (v : Value) (vs : List Value) (options : List Fields) (o : Option Fields)
    → record_of v ≡ o
    → IsConfigOption o
    → IsConfigOption (record_of v)
    → Loop (index + 1) vs (ok options)
    → Loop index (v ∷ vs) (accept index o none (ok options))
accept_some-Loop index v vs options none e impossible good later = elim impossible [ ]
accept_some-Loop index v vs options (some fs) e same good later =
    (rw (e, later.0) refl, (good, later.1))

accept-Loop :
    (index : ℕ) (v : Value) (vs : List Value) (complaint : Option String)
    (rest : Attempt Thrown (List Fields))
    → Judged complaint (IsConfigOption (record_of v))
    → Loop (index + 1) vs rest
    → Loop index (v ∷ vs) (accept index (record_of v) complaint rest)
accept-Loop index v vs (some detail) rest wrong later =
    ([], v, vs, detail, refl, tt, wrong, ap (λ k. invalid k detail) (omega arith))
accept-Loop index v vs none (raised e) good later = first_later index v vs e good later
accept-Loop index v vs none (ok options) good later =
    accept_some-Loop index v vs options (record_of v) refl good good later

validate_config_options-Loop :
    (index : ℕ) (vs : List Value) → Loop index vs (validate_config_options index vs)
unfolding validate_config_options
validate_config_options-Loop index [] = (refl, tt)
validate_config_options-Loop index (v ∷ vs) =
    accept-Loop index v vs (validate_config_option (record_of v))
      (validate_config_options (index + 1) vs) (validate_config_option-IsConfigOption (record_of v))
      (validate_config_options-Loop (index + 1) vs)

-- How a status details_options-Decodes.
abbrev pub Payload : Value → Attempt Thrown (Option (List Fields)) → Type 0
Payload payload (ok none) = ⊥
Payload payload (ok (some options)) =
    (vs : List Value) × (array_of payload ≡ some vs)
    × (map record_of vs ≡ map some options)
    × All (λ v. IsConfigOption (record_of v)) vs
Payload payload (raised e) =
    (array_of payload ≡ none) ⊎ ((vs : List Value) × (array_of payload ≡ some vs) × FirstBad 0 vs e)

abbrev pub Decodes : Option Fields → Attempt Thrown (Option (List Fields)) → Type 0
Decodes none r = r ≡ ok none
Decodes (some details) r =
    if has_own "configOptions" details
    then Payload (property "configOptions" details) r
    else (r ≡ ok none)

some_options-Payload :
    (payload : Value) (vs : List Value)
    → array_of payload ≡ some vs
    → (r : Attempt Thrown (List Fields)) → Loop 0 vs r
    → Payload payload (some_options r)
some_options-Payload payload vs e (ok options) (same, good) = (vs, e, same, good)
some_options-Payload payload vs e (raised error) bad = inr (vs, e, bad)

payload_options-Payload :
    (payload : Value) (o : Option (List Value))
    → array_of payload ≡ o
    → Payload payload (some_options (payload_options o))
unfolding payload_options
payload_options-Payload payload none e = inl e
payload_options-Payload payload (some vs) e =
    some_options-Payload payload vs e (validate_config_options 0 vs)
      (validate_config_options-Loop 0 vs)

if-Decodes :
    (payload : Value) (c : Bool) (r : Attempt Thrown (Option (List Fields)))
    → Payload payload r
    → let shown = if c then r else ok none in if c then Payload payload shown else (shown ≡ ok none)
if-Decodes payload true r p = p
if-Decodes payload false r p = refl

details_options-Decodes : (o : Option Fields) → Decodes o (details_options o)
unfolding details_options
details_options-Decodes none = refl
details_options-Decodes (some details) =
    if-Decodes (property "configOptions" details) (has_own "configOptions" details) _ (
      payload_options-Payload (property "configOptions" details)
        (array_of (property "configOptions" details)) refl)

-- A status without configOptions details_options-Decodes to null. One that has them details_options-Decodes to its options exactly
-- as they stand where they are an array in which each is an object, and each select option has
-- a non-empty id, a category that is a text or nothing, a current value and choices that are texts or
-- groups of texts; otherwise they are no array, or the error names the first that is not such.
pub config_options_from_status-Decodes :
    (status : AcpRuntimeStatus) → Decodes status.details (config_options_from_status status)
unfolding config_options_from_status
config_options_from_status-Decodes status = details_options-Decodes status.details
