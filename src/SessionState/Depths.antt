-- ===== src/SessionState/Depths.antt =====
-- packages/core/src/session-state.ts: a chain of parents is shorter than the input, so that `emit`
-- on as much fuel as there are rows comes to its end.
use owner_operator.Prelude.{
  ℕ, suc, ◌≤◌, ◌<◌, ◌≡◌, refl, subst, ◌∙◌, inl, inr, String, true, false, not, List, [], ◌∷◌, ◌==◌,
  eq_iff, arith, any, keep, length, length-keep-le, All, Bool-cases,
}
use owner_operator.SessionState.{SessionFacts, SessionSection, is_row}
use owner_operator.SessionState.Chains.{
  Chain, DistinctIds, any_here, chained, child, one_depth, root, same_row,
}

abbrev NoRepeat : List String → Type 0
NoRepeat [] = Unit
NoRepeat (i ∷ ids) = (any (λ j. j == i) ids ≡ false) × NoRepeat ids

abbrev without : String → List SessionFacts → List SessionFacts
without i rows = keep (λ r. not (is_row i r)) rows

without-shorter :
    (i : String) (rows : List SessionFacts)
    → any (is_row i) rows ≡ true
    → length (without i rows) < length rows
without-shorter i [] h = ground (arith, h)
without-shorter i (r ∷ rows) h =
    ground (arith, length-keep-le (λ s. not (is_row i s)) rows, without-shorter i rows)

without-keeps :
    (i j : String) (rows : List SessionFacts)
    → (j == i) ≡ false
    → any (is_row j) rows ≡ true
    → any (is_row j) (without i rows) ≡ true
without-keeps i j [] other h = h
without-keeps i j (r ∷ rows) other h =
    ground (arith, eq_iff r.id i, eq_iff r.id j, eq_iff j i, without-keeps i j rows other)

without-All :
    (i : String) (rows : List SessionFacts) (ids : List String)
    → any (λ j. j == i) ids ≡ false
    → All (λ j. any (is_row j) rows ≡ true) ids
    → All (λ j. any (is_row j) (without i rows) ≡ true) ids
without-All i rows [] other h = tt
without-All i rows (j ∷ ids) other (here, later) = (
  without-keeps i j rows (ground (arith, other)) here,
  without-All i rows ids (ground (arith, other)) later,
)

no_more_ids :
    (ids : List String) (rows : List SessionFacts)
    → NoRepeat ids
    → All (λ i. any (is_row i) rows ≡ true) ids
    → length ids ≤ length rows
no_more_ids [] rows once h = omega arith
no_more_ids (i ∷ ids) rows (fresh, once) (here, later) = omega (
  arith,
  without-shorter i rows here,
  no_more_ids ids (without i rows) once (without-All i rows ids fresh later),
)

module _ (rows : List SessionFacts) (distinct : DistinctIds rows) where
  -- The id of a row that stands no deeper.
  abbrev Above : ℕ → String → Type 0
  Above d i =
      (x : SessionFacts) × (s : SessionSection) × (e : ℕ) × Chain rows x s e × (x.id ≡ i) × (e ≤ d)

  no_deeper :
      (d : ℕ) (r : SessionFacts) (s : SessionSection) (i : String)
      → Chain rows r s (suc d)
      → Above d i
      → (i == r.id) ≡ false
  no_deeper d r s i c (x, t, e, above, named, low) = elim (Bool-cases (i == r.id)) [
    | inl same ↦
        let depths : e ≡ suc d = one_depth rows distinct above c (
          same_row rows x r distinct (chained rows above) (chained rows c)
            (named ∙ (eq_iff i r.id).0 same)) in
        absurd (omega (arith, depths, low))
    | inr other ↦ other
  ]

  none_repeats :
      (d : ℕ) (r : SessionFacts) (s : SessionSection) (ids : List String)
      → Chain rows r s (suc d)
      → All (Above d) ids
      → any (λ j. j == r.id) ids ≡ false
  none_repeats d r s [] c h = refl
  none_repeats d r s (i ∷ ids) c (here, later) =
      ground (arith, no_deeper d r s i c here, none_repeats d r s ids c later)

  lower : (d : ℕ) (ids : List String) → All (Above d) ids → All (Above (suc d)) ids
  lower d [] h = tt
  lower d (i ∷ ids) ((x, s, e, c, named, low), later) =
      ((x, s, e, c, named, omega (arith, low)), lower d ids later)

  ids_up :
      {r : SessionFacts} {s : SessionSection} {d : ℕ}
      → Chain rows r s d
      → (ids : List String) × (length ids ≡ suc d) × NoRepeat ids × All (Above d) ids
  ids_up {r = r} {s = s} (root h e) =
      (r.id ∷ [], refl, (refl, tt), ((r, s, 0, root h e, refl, omega arith), tt))
  ids_up {r = r} {s = s} (child {d = d} c h e) =
      let (ids, long, once, above) = ids_up c in
      (
        r.id ∷ ids,
        omega (arith, long),
        (none_repeats d r s ids (child c h e) above, once),
        ((r, s, suc d, child c h e, refl, omega arith), lower d ids above),
      )

  known :
      (d : ℕ) (ids : List String) → All (Above d) ids → All (λ i. any (is_row i) rows ≡ true) ids
  known d [] h = tt
  known d (i ∷ ids) ((x, s, e, c, named, low), later) = (
    subst (λ k. any (is_row k) rows ≡ true) named (any_here rows x (chained rows c)),
    known d ids later,
  )

  pub depth-lt-length :
      {r : SessionFacts} {s : SessionSection} {d : ℕ} → Chain rows r s d → d < length rows
  depth-lt-length {d = d} c =
      let (ids, long, once, above) = ids_up c in
      omega (arith, long, no_more_ids ids rows once (known d ids above))
