-- ===== src/Prelude/Maps.antt =====
-- Options as SQL's COALESCE reads them, and maps from texts with a default.
use Prim.Native.String.{String}
use mathlib.Core.Path.{◌≡◌}
use mathlib.Core.Logic.{◌≢◌}
use mathlib.Core.Bool.{Bool, true, false}
use mathlib.Core.Option.{Option, none, some}
use native.Mathlib.Omega.{arith}
use text.Mathlib.Text.{◌==◌}
use text.Mathlib.TextEquality.{eq_iff}
use owner_operator.Prelude.Tests.{if◌then◌else◌}

-- `COALESCE(a, b)`, and `a ?? b`.
abbrev pub coalesce {ℓ} : {A : Type ℓ} → Option A → Option A → Option A
coalesce (some a) o = some a
coalesce none o = o

abbrev pub get_or {ℓ} : {A : Type ℓ} → Option A → A → A
get_or (some a) d = a
get_or none d = d

abbrev pub is_some {ℓ} : {A : Type ℓ} → Option A → Bool
is_some (some a) = true
is_some none = false

-- Two nullable texts compare equal.
abbrev pub same_text : Option String → Option String → Bool
same_text none none = true
same_text (some a) (some b) = a == b
same_text (some a) none = false
same_text none (some b) = false

abbrev pub update {ℓ} : {A : Type ℓ} → (String → A) → String → A → String → A
update f k v j = if k == j then v else f j

pub update_self {ℓ} : {A : Type ℓ} (f : String → A) (k : String) (v : A) → update f k v k ≡ v
update_self f k v = ground (arith, eq_iff k k)

pub update_ne {ℓ} :
    {A : Type ℓ} (f : String → A) (k j : String) (v : A) → k ≢ j → update f k v j ≡ f j
update_ne f k j v h = ground (arith, eq_iff k j)
