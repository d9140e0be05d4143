-- ===== src/SessionState/Members.antt =====
-- packages/core/src/session-state.ts: which entries the loops, the sorts and the filters of the
-- arrangement pass on.
use owner_operator.Prelude.{
  ℕ, ◌≡◌, refl, sym, ap, subst, ◌∙◌, ◌⊎◌, inl, inr, Bool, true, false, Option, List, [], ◌∷◌, ◌++◌,
  arith, if◌then◌else◌, keep, sort_by, insert_by,
}
use owner_operator.SessionState.{SessionFacts, each, sorted, stays_above, by_key}

abbrev pub In : {A : Type 0} → A → List A → Type 0
In x [] = ⊥
In x (y ∷ ys) = (x ≡ y) ⊎ In x ys

module _ {A : Type 0} (x : A) where
  pub In-append_of : (xs ys : List A) → In x (xs ++ ys) → In x xs ⊎ In x ys
  In-append_of [] ys h = inr h
  In-append_of (z ∷ xs) ys (inl e) = inl (inl e)
  In-append_of (z ∷ xs) ys (inr h) = elim (In-append_of xs ys h) [
    | inl l ↦ inl (inr l)
    | inr r ↦ inr r
  ]

  pub In-append_from : (xs ys : List A) → In x xs ⊎ In x ys → In x (xs ++ ys)
  In-append_from [] ys (inr h) = h
  In-append_from [] ys (inl h) = elim h [ ]
  In-append_from (z ∷ xs) ys (inl (inl e)) = inl e
  In-append_from (z ∷ xs) ys (inl (inr h)) = inr (In-append_from xs ys (inl h))
  In-append_from (z ∷ xs) ys (inr h) = inr (In-append_from xs ys (inr h))

  -- An entry that a test, a sort or a loop lets through at the head, or behind it.
  head_of :
      (b : Bool) (y : A) (ys : List A)
      → In x (if b then y ∷ ys else ys)
      → ((x ≡ y) × (b ≡ true)) ⊎ In x ys
  head_of true y ys (inl e) = inl (e, refl)
  head_of true y ys (inr h) = inr h
  head_of false y ys h = inr h

  head_from :
      (b : Bool) (y : A) (ys : List A)
      → ((x ≡ y) × (b ≡ true)) ⊎ In x ys
      → In x (if b then y ∷ ys else ys)
  head_from true y ys (inl (e, _)) = inl e
  head_from true y ys (inr h) = inr h
  head_from false y ys (inl (_, e)) = ground (arith, e)
  head_from false y ys (inr h) = h

  pub In-keep_of : (p : A → Bool) (xs : List A) → In x (keep p xs) → In x xs × (p x ≡ true)
  In-keep_of p [] h = elim h [ ]
  In-keep_of p (y ∷ xs) h = elim (head_of (p y) y (keep p xs) h) [
    | inl (e, passes) ↦ (inl e, ap p e ∙ passes)
    | inr later ↦ let (among, passes) = In-keep_of p xs later in (inr among, passes)
  ]

  pub In-keep_from : (p : A → Bool) (xs : List A) → In x xs → p x ≡ true → In x (keep p xs)
  In-keep_from p [] h passes = elim h [ ]
  In-keep_from p (y ∷ xs) (inl e) passes =
      head_from (p y) y (keep p xs) (inl (e, ap p (sym e) ∙ passes))
  In-keep_from p (y ∷ xs) (inr h) passes =
      head_from (p y) y (keep p xs) (inr (In-keep_from p xs h passes))

  swapped :
      (b : Bool) (y z : A) (ys inserted : List A)
      → (In x inserted → In x (y ∷ ys))
      → In x (if b then y ∷ z ∷ ys else z ∷ inserted)
      → In x (y ∷ z ∷ ys)
  swapped true y z ys inserted back h = h
  swapped false y z ys inserted back (inl e) = inr (inl e)
  swapped false y z ys inserted back (inr h) = elim (back h) [ inl e ↦ inl e | inr l ↦ inr (inr l) ]

  unswapped :
      (b : Bool) (y z : A) (ys inserted : List A)
      → (In x (y ∷ ys) → In x inserted)
      → In x (y ∷ z ∷ ys)
      → In x (if b then y ∷ z ∷ ys else z ∷ inserted)
  unswapped true y z ys inserted on h = h
  unswapped false y z ys inserted on (inl e) = inr (on (inl e))
  unswapped false y z ys inserted on (inr (inl e)) = inl e
  unswapped false y z ys inserted on (inr (inr h)) = inr (on (inr h))

  pub In-insert_of :
      (before : A → A → Bool) (y : A) (ys : List A) → In x (insert_by before y ys) → In x (y ∷ ys)
  unfolding insert_by
  In-insert_of before y [] h = h
  In-insert_of before y (z ∷ ys) h =
      swapped (before y z) y z ys (insert_by before y ys) (In-insert_of before y ys) h

  pub In-insert_from :
      (before : A → A → Bool) (y : A) (ys : List A) → In x (y ∷ ys) → In x (insert_by before y ys)
  unfolding insert_by
  In-insert_from before y [] h = h
  In-insert_from before y (z ∷ ys) h =
      unswapped (before y z) y z ys (insert_by before y ys) (In-insert_from before y ys) h

  pub In-sort_of : (before : A → A → Bool) (xs : List A) → In x (sort_by before xs) → In x xs
  unfolding sort_by
  In-sort_of before [] h = h
  In-sort_of before (y ∷ xs) h = elim (In-insert_of before y (sort_by before xs) h) [
    | inl e ↦ inl e
    | inr later ↦ inr (In-sort_of before xs later)
  ]

  pub In-sort_from : (before : A → A → Bool) (xs : List A) → In x xs → In x (sort_by before xs)
  unfolding sort_by
  In-sort_from before [] h = h
  In-sort_from before (y ∷ xs) (inl e) = In-insert_from before y (sort_by before xs) (inl e)
  In-sort_from before (y ∷ xs) (inr h) =
      In-insert_from before y (sort_by before xs) (inr (In-sort_from before xs h))

module _ {A B : Type 0} (f : A → List B) (x : B) where
  pub In-each_of : (ys : List A) → In x (each f ys) → (y : A) × In y ys × In x (f y)
  unfolding each
  In-each_of [] h = elim h [ ]
  In-each_of (y ∷ ys) h = elim (In-append_of x (f y) (each f ys) h) [
    | inl here ↦ (y, inl refl, here)
    | inr later ↦ let (z, among, found) = In-each_of ys later in (z, inr among, found)
  ]

  pub In-each_from : (ys : List A) (y : A) → In y ys → In x (f y) → In x (each f ys)
  unfolding each
  In-each_from [] y among h = elim among [ ]
  In-each_from (z ∷ ys) y (inl e) h =
      In-append_from x (f z) (each f ys) (inl (subst (λ w. In x (f w)) e h))
  In-each_from (z ∷ ys) y (inr among) h =
      In-append_from x (f z) (each f ys) (inr (In-each_from ys y among h))

module _ (key : SessionFacts → Option ℕ) (x : SessionFacts) (xs : List SessionFacts) where
  pub In-sorted_of : In x (sorted key xs) → In x xs
  unfolding sorted
  In-sorted_of h = In-sort_of x (λ a b. stays_above (by_key key a b)) xs h

  pub In-sorted_from : In x xs → In x (sorted key xs)
  unfolding sorted
  In-sorted_from h = In-sort_from x (λ a b. stays_above (by_key key a b)) xs h
