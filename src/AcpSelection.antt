-- ===== src/AcpSelection.antt =====
-- src/agent-runs/acp-session-selection.ts: the model and the effort of a live ACP session, set and
-- confirmed before a turn may start. This file holds the values that come over the protocol, the
-- errors, and calls that pass on the state of the session; what acpx does is an argument.
pub mod Options
pub mod Selector
pub mod Confirm
pub mod Judged
pub mod Accepted
pub mod Unique
pub mod Calls
pub mod Confirmed
pub mod Guarded
use owner_operator.Prelude.{
  String, Bool, true, false, Option, none, some, List, [], ◌∷◌, ◌==◌, if◌then◌else◌,
}
use owner_operator.AgentRuns.{Effort, effort_text}
use owner_operator.Executor.Task.{concat}
use owner_operator.RunLog.Json.{quoted}

-- A value of type `unknown`, as JavaScript tells them apart.
mutual
  pub data Value : Type 0 where
    undefined null : Value
    boolean : Bool → Value
    number : Value
    text : String → Value
    array : Values → Value
    object : Fields → Value

  pub data Values : Type 0 where
    nil : Values
    cons : Value → Values → Values

  pub data Fields : Type 0 where
    end : Fields
    entry : String → Value → Fields → Fields

unfoldable pub items : Values → List Value
items nil = []
items (cons v vs) = v ∷ items vs

-- The value of a property, and whether an object has it.
unfoldable pub property : String → Fields → Value
property name end = undefined
property name (entry key v fs) = if key == name then v else property name fs

unfoldable pub has_own : String → Fields → Bool
has_own name end = false
has_own name (entry key v fs) = if key == name then true else has_own name fs

abbrev pub is_text : String → Value → Bool
is_text s (text t) = t == s
is_text s v = false

-- `AcpRuntimeStatus` of acpx, as far as it is read: `models?.currentModelId` and `details`.
pub record AcpRuntimeStatus : Type 0 where
  pub current_model_id : Option String
  pub details : Option Fields

pub record RequestedAcpSelection : Type 0 where
  pub model : String
  pub effort : Option Effort

-- What a call returns or throws.
pub data Attempt (E A : Type 0) : Type 0 where
  ok : A → Attempt E A
  raised : E → Attempt E A

-- What is thrown below the confirmation: an invalid option, with its detail, or what acpx throws.
pub data Thrown : Type 0 where
  config_options_invalid : (detail : String) → Thrown
  adapter : (detail : String) → Thrown

pub record AcpSelectionConfirmationError : Type 0 where
  pub code : String
  pub requested : RequestedAcpSelection
  pub detail : String
  pub cause : Option Thrown

pub data Raised : Type 0 where
  confirmation : AcpSelectionConfirmationError → Raised
  thrown : Thrown → Raised

abbrev pub invalid_code : String
invalid_code = "ACP_CONFIG_OPTIONS_INVALID"

-- The `message` of each error.
unfoldable pub thrown_message : Thrown → String
thrown_message (config_options_invalid detail) = concat (invalid_code ∷ ": " ∷ detail ∷ [])
thrown_message (adapter detail) = detail

requested_effort : Option Effort → String
unfolding effort_text
requested_effort none = "null"
requested_effort (some e) = quoted (effort_text e)

unfoldable pub confirmation_message : AcpSelectionConfirmationError → String
unfolding requested_effort
confirmation_message e = concat (
    e.code
    ∷ ": ACP selection confirmation failed for model="
    ∷ quoted e.requested.model
    ∷ " effort="
    ∷ requested_effort e.requested.effort
    ∷ ": "
    ∷ e.detail
    ∷ [])

-- A call on the live session, whose state is `S`: what it changed stays changed after a throw.
abbrev pub Call : Type 0 → Type 0 → Type 0 → Type 0
Call S E A = S → S × Attempt E A

module _ {S : Type 0} where
  abbrev pub pure : {E A : Type 0} → A → Call S E A
  pure a s = (s, ok a)

  abbrev pub raise : {E A : Type 0} → E → Call S E A
  raise e s = (s, raised e)

infixl 5 ◌>>=◌ ◌>>◌
unfoldable pub ◌>>=◌ : {S E A B : Type 0} → Call S E A → (A → Call S E B) → Call S E B
◌>>=◌ m f s = let (s', r) = m s in elim r [ ok a ↦ f a s' | raised e ↦ (s', raised e) ]

unfoldable pub ◌>>◌ : {S E A B : Type 0} → Call S E A → Call S E B → Call S E B
unfolding ◌>>=◌
m >> k = m >>= λ _. k

-- `AcpRuntime` of acpx on a handle of type `H`, as far as it is used; both methods may be missing.
pub record AcpRuntime (S H : Type 0) : Type 0 where
  pub get_status : Option (H → Call S String AcpRuntimeStatus)
  pub set_config_option : Option (H → String → String → Call S String (Unit {0}))
