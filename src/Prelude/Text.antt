-- ===== src/Prelude/Text.antt =====
-- What the program asks of a text: JavaScript's `trim` of it is empty, it is truthy, it is an
-- absolute POSIX path.
use Prim.Native.Nat.{ℕ, Ordering}
use Prim.Native.Char.{code}
use Prim.Native.String
use Prim.Native.String.{String, [], ◌∷◌}
use mathlib.Core.Bool.{Bool, true, false, not, ◌&&◌, ◌||◌}
use mathlib.Core.Option.{Option, none, some}
use text.Mathlib.Text.{◌==◌}
use owner_operator.Prelude.Tests.{leb, nat_eq, if◌then◌else◌}

-- White space and line terminators of ECMAScript.
unfoldable pub is_space : ℕ → Bool
is_space c =
    (leb 9 c && leb c 13)
    || nat_eq c 32
    || nat_eq c 160
    || nat_eq c 0x1680
    || (leb 0x2000 c && leb c 0x200a)
    || nat_eq c 0x2028
    || nat_eq c 0x2029
    || nat_eq c 0x202f
    || nat_eq c 0x205f
    || nat_eq c 0x3000
    || nat_eq c 0xfeff

-- `!text.trim()`.
unfoldable pub is_blank : String → Bool
unfolding is_space
is_blank [] = true
is_blank (c ∷ s) = is_space (code c) && is_blank s

-- `isAbsolute` of node:path on POSIX.
unfoldable pub is_absolute : String → Bool
is_absolute [] = false
is_absolute (c ∷ s) = nat_eq (code c) b'/'

-- A nullable text as a condition: null and the empty text are falsy.
abbrev pub truthy : Option String → Bool
truthy none = false
truthy (some s) = not (s == "")

trim_start : String → String
unfolding is_space
trim_start [] = []
trim_start (c ∷ s) = if is_space (code c) then trim_start s else c ∷ s

trim_end : String → String
unfolding is_space
trim_end [] = []
trim_end (c ∷ s) =
    let rest = trim_end s in if is_space (code c) && (rest == "") then [] else c ∷ rest

-- `text.trim()`.
unfoldable pub trim : String → String
unfolding trim_start trim_end
trim s = trim_end (trim_start s)

-- SQLite orders texts by their bytes.
abbrev pub text_before : String → String → Bool
text_before a b = elim (String.compare a b) [ Ordering.gt ↦ false | _ ↦ true ]
