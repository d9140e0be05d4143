-- ===== src/SessionState/Ids.antt =====
-- packages/core/src/session-state.ts `byId`: the order of ids, as the order of their UTF-16 units.
use owner_operator.Prelude.{
  ℕ, ◌<◌, ◌≡◌, refl, ◌⊎◌, inl, inr, String, true, false, List, [], ◌∷◌, arith, Bool-cases, ltb,
  ltb→lt,
}
use owner_operator.SessionState.{id_before, or_by_id, stays_above, units, units_before}
use Prim.Native.Nat.{Ordering}

-- A list of units is no later than another: it ends first, or is less where they first differ.
abbrev pub NoLater : List ℕ → List ℕ → Type 0
NoLater [] vs = Unit
NoLater (u ∷ us) [] = ⊥
NoLater (u ∷ us) (v ∷ vs) = (u < v) ⊎ ((u ≡ v) × NoLater us vs)

before-NoLater : (us vs : List ℕ) → units_before us vs ≡ false → NoLater vs us
unfolding units_before
before-NoLater us [] h = tt
before-NoLater [] (v ∷ vs) h = absurd (ground (arith, h))
before-NoLater (u ∷ us) (v ∷ vs) h = elim (Bool-cases (ltb v u)) [
  | inl less ↦ inl (ltb→lt v u less)
  | inr more ↦ inr (ground (arith, h, more), before-NoLater us vs (ground (arith, h, more)))
]

units_asym : (us vs : List ℕ) → units_before us vs ≡ true → units_before vs us ≡ false
unfolding units_before
units_asym us [] h = ground (arith, h)
units_asym [] (v ∷ vs) h = refl
units_asym (u ∷ us) (v ∷ vs) h = ground (arith, h, units_asym us vs)

id_asym : (i j : String) → id_before i j ≡ true → id_before j i ≡ false
unfolding id_before
id_asym i j h = units_asym (units i) (units j) h

pub by_id :
    (i j : String) → stays_above (or_by_id Ordering.eq i j) ≡ true → NoLater (units i) (units j)
unfolding id_before
by_id i j h = before-NoLater (units j) (units i) (ground (arith, h, id_asym i j))
