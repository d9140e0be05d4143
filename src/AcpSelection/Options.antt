-- ===== src/AcpSelection/Options.antt =====
-- src/agent-runs/acp-session-selection.ts: validateConfigOption, configOptionsFromStatus and
-- advertisedSelectValues. A validated option keeps all its fields.
use owner_operator.Prelude.{
  ℕ, ◌+◌, String, Bool, true, false, Option, none, some, List, [], ◌∷◌, ◌++◌, if◌then◌else◌,
  is_blank,
}
use owner_operator.AcpSelection.{
  AcpRuntimeStatus, Attempt, Fields, Thrown, Value, array, config_options_invalid, has_own, is_text,
  items, null, object, ok, property, raised, text, undefined,
}
use owner_operator.Executor.Task.{concat, decimal}

-- `record`: the fields of a value that is an object.
abbrev pub record_of : Value → Option Fields
record_of (object fs) = some fs
record_of v = none

abbrev pub array_of : Value → Option (List Value)
array_of (array vs) = some (items vs)
array_of v = none

abbrev pub is_string : Value → Bool
is_string (text s) = true
is_string v = false

abbrev pub is_named : Value → Bool
is_named (text s) = if is_blank s then false else true
is_named v = false

abbrev pub is_nullable_string : Value → Bool
is_nullable_string undefined = true
is_nullable_string null = true
is_nullable_string v = is_string v

-- The first complaint of a list of checks in order; `none` is a check that passes.
infixr 20 ◌then_check◌
abbrev pub ◌then_check◌ : Option String → Option String → Option String
none then_check rest = rest
some detail then_check rest = some detail

abbrev pub unless : Bool → String → Option String
unless true detail = none
unless false detail = some detail

unfoldable pub in_text : String → ℕ → String → String
unfolding decimal
in_text before n after = concat (before ∷ decimal n n ∷ after ∷ [])

abbrev pub grouped_is_valid : Option Fields → Bool
grouped_is_valid none = false
grouped_is_valid (some fs) = is_string (property "value" fs)

unfoldable pub check_grouped : ℕ → ℕ → List Value → Option String
unfolding in_text
check_grouped choice i [] = none
check_grouped choice i (v ∷ vs) =
    unless (grouped_is_valid (record_of v))
      (concat (in_text "group " choice "" ∷ in_text " choice " i " value must be a string" ∷ []))
    then_check check_grouped choice (i + 1) vs

unfoldable pub check_group : ℕ → Option (List Value) → Option String
unfolding check_grouped in_text
check_group i none = some (in_text "group " i " options must be an array")
check_group i (some vs) = check_grouped i 0 vs

unfoldable pub check_choice : ℕ → Option Fields → Option String
unfolding check_group in_text
check_choice i none = some (in_text "choice " i " must be an object")
check_choice i (some fs) =
    if has_own "value" fs
    then unless (is_string (property "value" fs)) (in_text "choice " i " value must be a string")
    else check_group i (array_of (property "options" fs))

unfoldable pub check_choices : ℕ → List Value → Option String
unfolding check_choice
check_choices i [] = none
check_choices i (v ∷ vs) = check_choice i (record_of v) then_check check_choices (i + 1) vs

unfoldable pub check_options : Option (List Value) → Option String
unfolding check_choices
check_options none = some "select options must be an array"
check_options (some vs) = check_choices 0 vs

abbrev pub is_select : Fields → Bool
is_select fs = is_text "select" (property "type" fs)

unfoldable pub check_select : Fields → Option String
unfolding check_options
check_select option =
    unless (is_named (property "id" option)) "select id must be a non-empty string"
    then_check unless (is_nullable_string (property "category" option))
        "select category must be a string or null"
    then_check unless (is_string (property "currentValue" option))
        "select currentValue must be a string"
    then_check check_options (array_of (property "options" option))

-- `validateConfigOption`: its complaint, if any.
unfoldable pub validate_config_option : Option Fields → Option String
unfolding check_select
validate_config_option none = some "must be an object"
validate_config_option (some option) = if is_select option then check_select option else none

unfoldable pub invalid : ℕ → String → Thrown
unfolding in_text
invalid index detail =
    config_options_invalid (concat (in_text "config option " index " " ∷ detail ∷ []))

-- The loop over the options, which are returned unchanged.
abbrev pub accept :
    ℕ → Option Fields → Option String → Attempt Thrown (List Fields) → Attempt Thrown (List Fields)
accept index option (some detail) rest = raised (invalid index detail)
accept index option none (raised e) = raised e
accept index none none (ok options) = ok options
accept index (some option) none (ok options) = ok (option ∷ options)

unfoldable pub validate_config_options : ℕ → List Value → Attempt Thrown (List Fields)
unfolding validate_config_option
validate_config_options index [] = ok []
validate_config_options index (v ∷ vs) =
    accept index (record_of v) (validate_config_option (record_of v))
      (validate_config_options (index + 1) vs)

unfoldable pub payload_options : Option (List Value) → Attempt Thrown (List Fields)
unfolding validate_config_options
payload_options none =
    raised (config_options_invalid "status.details.configOptions must be an array when present")
payload_options (some vs) = validate_config_options 0 vs

abbrev pub some_options : Attempt Thrown (List Fields) → Attempt Thrown (Option (List Fields))
some_options (ok options) = ok (some options)
some_options (raised e) = raised e

unfoldable pub details_options : Option Fields → Attempt Thrown (Option (List Fields))
unfolding payload_options
details_options none = ok none
details_options (some details) =
    if has_own "configOptions" details
    then some_options (payload_options (array_of (property "configOptions" details)))
    else ok none

unfoldable pub config_options_from_status : AcpRuntimeStatus → Attempt Thrown (Option (List Fields))
unfolding details_options
config_options_from_status status = details_options status.details

-- The list under a field that the type of the option makes an array, and the text under one that
-- it makes a text; the validation refuses a select option without.
abbrev list_of : Option (List Value) → List Value
list_of none = []
list_of (some vs) = vs

abbrev list_field : String → Option Fields → List Value
list_field name none = []
list_field name (some fs) = list_of (array_of (property name fs))

abbrev pub string_of : Value → String
string_of (text s) = s
string_of v = ""

abbrev grouped_value : Option Fields → String
grouped_value none = ""
grouped_value (some fs) = string_of (property "value" fs)

unfoldable grouped_values : List Value → List String
grouped_values [] = []
grouped_values (v ∷ vs) = grouped_value (record_of v) ∷ grouped_values vs

unfoldable choice_values : Option Fields → List String
unfolding grouped_values
choice_values none = []
choice_values (some fs) =
    if has_own "value" fs
    then string_of (property "value" fs) ∷ []
    else grouped_values (list_field "options" (some fs))

unfoldable flat_values : List Value → List String
unfolding choice_values
flat_values [] = []
flat_values (v ∷ vs) = choice_values (record_of v) ++ flat_values vs

unfoldable pub advertised_select_values : Fields → List String
unfolding flat_values
advertised_select_values option =
    if is_select option then flat_values (list_field "options" (some option)) else []
