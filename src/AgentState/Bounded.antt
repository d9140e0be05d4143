-- ===== src/AgentState/Bounded.antt =====
-- packages/core/src/agent-state.ts `bounded`: a text made fit for one line of a view. Lengths count
-- code points.
use Prim.Native.Char.{code}
use Prim.Native.String
use Prim.Native.String.{String, [], ◌∷◌}
use Prim.Native.String.append
use owner_operator.Prelude.{
  ℕ, zero, suc, ◌-◌, ◌≤◌, ◌<◌, ◌≡◌, ap, ◌∙◌, ◌+◌, Bool, true, false, ◌&&◌, ◌||◌, Option, arith,
  if_elim, if◌then◌else◌, leb, ltb, nat_eq, is_space, trim, get_or,
}

abbrev within : ℕ → ℕ → ℕ → Bool
within lo hi c = leb lo c && leb c hi

-- The general categories Cc and Cf of Unicode.
unfoldable pub is_control : ℕ → Bool
is_control c =
    leb c 31
    || within 127 159 c
    || nat_eq c 0xad
    || within 0x600 0x605 c
    || nat_eq c 0x61c
    || nat_eq c 0x6dd
    || nat_eq c 0x70f
    || within 0x890 0x891 c
    || nat_eq c 0x8e2
    || nat_eq c 0x180e
    || within 0x200b 0x200f c
    || within 0x202a 0x202e c
    || within 0x2060 0x2064 c
    || within 0x2066 0x206f c
    || nat_eq c 0xfeff
    || within 0xfff9 0xfffb c
    || nat_eq c 0x110bd
    || nat_eq c 0x110cd
    || within 0x13430 0x1343f c
    || within 0x1bca0 0x1bca3 c
    || within 0x1d173 0x1d17a c
    || nat_eq c 0xe0001
    || within 0xe0020 0xe007f c

-- Control characters, and runs of white space, become one space; `spaced` tells that the character
-- before was one.
unfoldable pub compacted : (spaced : Bool) → String → String
unfolding is_control is_space
compacted spaced [] = []
compacted spaced (c ∷ s) =
    let blank = is_control (code c) || is_space (code c) in
    let within_run = compacted true s in
    let after = compacted false s in
    if blank then (if spaced then within_run else String.◌++◌ " " within_run) else c ∷ after

unfoldable pub code_points : String → ℕ
code_points [] = 0
code_points (c ∷ s) = suc (code_points s)

unfoldable pub take_points : ℕ → String → String
take_points zero s = []
take_points (suc n) [] = []
take_points (suc n) (c ∷ s) = c ∷ take_points n s

unfoldable pub bounded : Option String → (max_length : ℕ) → String
unfolding compacted trim code_points take_points
bounded value max_length =
    let compact = trim (compacted false (get_or value "")) in
    if nat_eq max_length 0
    then ""
    else if ltb max_length (code_points compact)
    then String.◌++◌ (take_points (max_length - 1) compact) "…"
    else compact

code_points-append : (s t : String) → code_points (String.◌++◌ s t) ≡ code_points s + code_points t
unfolding code_points
code_points-append [] t = ap code_points (append.nil t) ∙ omega arith
code_points-append (c ∷ s) t =
    ap code_points (append.cons c s t) ∙ omega (arith, code_points-append s t)

code_points-take_points : (n : ℕ) (s : String) → code_points (take_points n s) ≤ n
unfolding code_points take_points
code_points-take_points zero s = omega arith
code_points-take_points (suc n) [] = omega arith
code_points-take_points (suc n) (c ∷ s) = omega (arith, code_points-take_points n s)

within_length :
    (n : ℕ) (s : String)
    → 0 < n
    → n < code_points s
    → code_points (String.◌++◌ (take_points (n - 1) s) "…") ≤ n
unfolding code_points
within_length n s room long =
    omega (arith, code_points-append (take_points (n - 1) s) "…", code_points-take_points (n - 1) s)

-- A bounded text has at most as many code points as it may.
pub code_points-bounded :
    (value : Option String) (max_length : ℕ) → code_points (bounded value max_length) ≤ max_length
unfolding bounded
code_points-bounded value max_length =
    let compact = trim (compacted false (get_or value "")) in
    if_elim (λ t. code_points t ≤ max_length) (nat_eq max_length 0) _ _ (λ none_left. omega arith)
      (λ room.
        if_elim (λ t. code_points t ≤ max_length) (ltb max_length (code_points compact)) _ _
          (λ long. within_length max_length compact (ground arith) (ground arith))
          (λ short. ground arith))
