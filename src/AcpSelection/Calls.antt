-- ===== src/AcpSelection/Calls.antt =====
-- src/agent-runs/acp-session-selection.ts `applyAndConfirmAcpSelection`: each step of a chain of
-- calls that returns has gone through, and a chain of steps that go through returns.
use owner_operator.Prelude.{
  subst, ◌≡◌, refl, sym, ap, String, Bool, true, false, Option, none, some, List, eq_iff, arith,
}
use owner_operator.AcpSelection.{
  Attempt, Call, Fields, Raised, RequestedAcpSelection, Thrown, pure, ok, raised, ◌>>=◌, ◌>>◌,
}
use owner_operator.AcpSelection.Selector.{ThoughtLevelSelectorResolution, missing, ambiguous, found}
use owner_operator.AcpSelection.Confirm.{
  is_model, now_has, method, await, guard, adapted, options_of, selector_of,
}

-- What holds of a result holds of the result that a call is said to return.
pub returned :
    {S B : Type 0} (P : S → B → Type 0) (s s' : S) (a b : B)
    → pure {E = Raised} a s ≡ (s', ok b)
    → P s a
    → P s' b
returned P s s' a b e holds =
    let state : s ≡ s' = ap (λ x. x.0) e in
    let same : a ≡ b = ground arith in subst (λ x. P s' x) same (subst (λ t. P t a) state holds)

module _ (requested : RequestedAcpSelection) where
  module _ {S A B : Type 0} (s s' : S) (b : B) where
    pub now_of :
        (r : Attempt Raised A) (f : A → Call S Raised B)
        → (now_has requested r >>= f) s ≡ (s', ok b)
        → (a : A) × (r ≡ ok a) × (f a s ≡ (s', ok b))
    unfolding ◌>>=◌ now_has
    now_of (ok a) f e = (a, refl, e)
    now_of (raised x) f e = ground arith

    pub method_of :
        (o : Option A) (code detail : String) (f : A → Call S Raised B)
        → (method requested o code detail >>= f) s ≡ (s', ok b)
        → (a : A) × (o ≡ some a) × (f a s ≡ (s', ok b))
    unfolding ◌>>=◌ method
    method_of none code detail f e = ground arith
    method_of (some a) code detail f e = (a, refl, e)

    adapted_of :
        (x : S × Attempt String A) (f : A → Call S Raised B)
        → ((λ u. adapted requested x) >>= f) s ≡ (s', ok b)
        → (a : A) × (t : S) × (x ≡ (t, ok a)) × (f a t ≡ (s', ok b))
    unfolding ◌>>=◌ adapted
    adapted_of (t, ok a) f e = (a, t, refl, e)
    adapted_of (t, raised x) f e = ground arith

    pub await_of :
        (call : Call S String A) (f : A → Call S Raised B)
        → (await requested call >>= f) s ≡ (s', ok b)
        → (a : A) × (t : S) × (call s ≡ (t, ok a)) × (f a t ≡ (s', ok b))
    unfolding ◌>>=◌ await
    await_of call f e = adapted_of (call s) f e

  pub await_unit_of :
      {S B : Type 0} (s s' : S) (b : B) (call : Call S String (Unit {0})) (k : Call S Raised B)
      → (await requested call >> k) s ≡ (s', ok b)
      → (t : S) × (call s ≡ (t, ok tt)) × (k t ≡ (s', ok b))
  unfolding ◌>>◌
  await_unit_of s s' b call k e =
      let (done, t, called, next) = await_of s s' b call (λ _. k) e in (t, called, next)

  pub guard_of :
      {S B : Type 0} (s s' : S) (b : B) (h : Bool) (code detail : String) (k : Call S Raised B)
      → (guard requested h code detail >> k) s ≡ (s', ok b)
      → (h ≡ true) × (k s ≡ (s', ok b))
  unfolding ◌>>◌ guard
  guard_of s s' b true code detail k e = (refl, e)
  guard_of s s' b false code detail k e = ground arith

  pub options_shown :
      (r : Attempt Thrown (Option (List Fields))) (phase : String) (options : List Fields)
      → options_of requested r phase ≡ ok options
      → r ≡ ok (some options)
  options_shown (ok (some os)) phase options e = ground arith
  options_shown (ok none) phase options e = ground arith
  options_shown (raised x) phase options e = ground arith

  pub selector_found :
      (r : ThoughtLevelSelectorResolution) (phase : String) (selector : Fields)
      → selector_of requested r phase ≡ ok selector
      → r ≡ found selector
  selector_found (found s) phase selector e = ground arith
  selector_found missing phase selector e = ground arith
  selector_found (ambiguous d) phase selector e = ground arith

  pub model_exact : (m : String) (o : Option String) → is_model m o ≡ true → o ≡ some m
  model_exact m none e = ground arith
  model_exact m (some n) e = ap some ((eq_iff n m).0 e)

  module _ {S A B : Type 0} (s : S) (x : S × Attempt Raised B) where
    pub now_from :
        (r : Attempt Raised A) (f : A → Call S Raised B) (a : A)
        → r ≡ ok a
        → f a s ≡ x
        → (now_has requested r >>= f) s ≡ x
    unfolding ◌>>=◌ now_has
    now_from r f a e h = rw e h

    pub method_from :
        (o : Option A) (code detail : String) (f : A → Call S Raised B) (a : A)
        → o ≡ some a
        → f a s ≡ x
        → (method requested o code detail >>= f) s ≡ x
    unfolding ◌>>=◌ method
    method_from o code detail f a e h = rw e h

    ready :
        (f : A → Call S Raised B) (a : A) (t : S)
        → f a t ≡ x
        → ((λ u. adapted requested (t, ok a)) >>= f) s ≡ x
    unfolding ◌>>=◌ adapted
    ready f a t h = h

    pub await_from :
        (call : Call S String A) (f : A → Call S Raised B) (a : A) (t : S)
        → call s ≡ (t, ok a)
        → f a t ≡ x
        → (await requested call >>= f) s ≡ x
    unfolding ◌>>=◌ await
    await_from call f a t e h =
        subst (λ y. ((λ u. adapted requested y) >>= f) s ≡ x) (sym e) (ready f a t h)

  module _ {S B : Type 0} (s : S) (x : S × Attempt Raised B) where
    pub await_unit_from :
        (call : Call S String (Unit {0})) (k : Call S Raised B) (t : S)
        → call s ≡ (t, ok tt)
        → k t ≡ x
        → (await requested call >> k) s ≡ x
    unfolding ◌>>◌
    await_unit_from call k t e h = await_from s x call (λ _. k) tt t e h

    pub guard_from :
        (b : Bool) (code detail : String) (k : Call S Raised B)
        → b ≡ true
        → k s ≡ x
        → (guard requested b code detail >> k) s ≡ x
    unfolding ◌>>◌ guard
    guard_from b code detail k e h = rw e h

  pub exact_model : (m : String) (o : Option String) → o ≡ some m → is_model m o ≡ true
  exact_model m o e = rw e ((eq_iff m m).1 refl)
