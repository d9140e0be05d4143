-- ===== src/AcpSelection/Unique.antt =====
-- src/agent-runs/acp-session-selection.ts `resolveThoughtLevelSelector`, against what it means for an
-- option to be the selector of the thought level.
use owner_operator.Prelude.{
  keep-append, ◌≡◌, refl, sym, ap, ◌∙◌, ◌⊎◌, inl, inr, ◌↔◌, String, Bool, true, false, List, [],
  ◌∷◌, ◌++◌, keep, All, arith, Bool-cases,
}
use owner_operator.AcpSelection.{Fields}
use owner_operator.AcpSelection.Selector.{
  ThoughtLevelSelectorResolution, fallback, found, has_option_id, is_categorized, only,
  resolve_thought_level_selector, select_options,
}

module _ {A : Type 0} (p : A → Bool) where
  -- No entry passes a test, and exactly one does.
  abbrev pub NonePasses : List A → Type 0
  NonePasses xs = All (λ y. p y ≡ false) xs

  abbrev pub SolePasses : List A → A → Type 0
  SolePasses xs x =
      (before : List A) × (after : List A) × (xs ≡ before ++ x ∷ after)
      × NonePasses before
      × (p x ≡ true)
      × NonePasses after

  none_of : (xs : List A) → keep p xs ≡ [] → NonePasses xs
  none_of [] e = tt
  none_of (x ∷ xs) e = elim (Bool-cases (p x)) [
    | inl passes ↦ ground arith
    | inr fails ↦ (fails, none_of xs (ground arith))
  ]

  none_from : (xs : List A) → NonePasses xs → keep p xs ≡ []
  none_from [] h = refl
  none_from (x ∷ xs) (fails, h) = rw (fails, none_from xs h) refl

  sole_of : (xs : List A) (x : A) → keep p xs ≡ x ∷ [] → SolePasses xs x
  sole_of [] x e = ground arith
  sole_of (y ∷ xs) x e = elim (Bool-cases (p y)) [
    | inl passes ↦
        let same : y ≡ x = ground arith in
        ([], xs, ap (λ z. z ∷ xs) same, tt, ap p (sym same) ∙ passes, none_of xs (ground arith))
    | inr fails ↦
        let (before, after, split, ahead, passes, behind) = sole_of xs x (ground arith) in
        (y ∷ before, after, ap (λ zs. y ∷ zs) split, (fails, ahead), passes, behind)
  ]

  sole_from : (xs : List A) (x : A) → SolePasses xs x → keep p xs ≡ x ∷ []
  sole_from xs x (before, after, split, ahead, passes, behind) =
      rw
        (
          split,
          keep-append p before (x ∷ after),
          none_from before ahead,
          passes,
          none_from after behind,
        )
        refl

module _ (detail : String) (s : Fields) where
  only_of :
      (os : List Fields) (rest : ThoughtLevelSelectorResolution)
      → only os detail rest ≡ found s
      → (os ≡ s ∷ []) ⊎ ((os ≡ []) × (rest ≡ found s))
  only_of [] rest e = inr (refl, e)
  only_of (o ∷ []) rest e = inl (ground arith)
  only_of (o ∷ p ∷ os) rest e = ground arith

  only_from :
      (os : List Fields) (rest : ThoughtLevelSelectorResolution)
      → (os ≡ s ∷ []) ⊎ ((os ≡ []) × (rest ≡ found s))
      → only os detail rest ≡ found s
  only_from os rest (inl e) = rw e refl
  only_from os rest (inr (e, r)) = rw (e, r) refl

-- The thought level belongs to the one select option of that category, or, if there is none, to
-- the one that is called thought_level, or, if there is none, to the one called reasoning_effort.
abbrev pub IsNamedSole : List Fields → Fields → Type 0
IsNamedSole os s =
    SolePasses (has_option_id "thought_level") os s
    ⊎ (NonePasses (has_option_id "thought_level") os
        × SolePasses (has_option_id "reasoning_effort") os s)

abbrev pub IsThoughtLevel : List Fields → Fields → Type 0
IsThoughtLevel os s =
    SolePasses is_categorized os s ⊎ (NonePasses is_categorized os × IsNamedSole os s)

fallback_of :
    (os : List Fields) (s : Fields)
    → fallback ("thought_level" ∷ "reasoning_effort" ∷ []) os ≡ found s
    → IsNamedSole os s
unfolding fallback
fallback_of os s e = elim (only_of _ s _ _ e) [
  | inl one ↦ inl (sole_of _ os s one)
  | inr (nothing, rest) ↦ elim (only_of _ s _ _ rest) [
    | inl one ↦ inr (none_of _ os nothing, sole_of _ os s one)
    | inr (_, gone) ↦ ground arith
  ]
]

fallback_from :
    (os : List Fields) (s : Fields)
    → IsNamedSole os s
    → fallback ("thought_level" ∷ "reasoning_effort" ∷ []) os ≡ found s
unfolding fallback
fallback_from os s (inl one) = only_from _ s _ _ (inl (sole_from _ os s one))
fallback_from os s (inr (nothing, one)) =
    only_from _ s _ _ (inr (none_from _ os nothing, only_from _ s _ _ (inl (sole_from _ os s one))))

-- The selector is found exactly where one select option has the category of a thought level; or
-- none has it and one is called thought_level; or neither, and one is called reasoning_effort.
pub resolve_thought_level_selector-found_iff :
    (options : List Fields) (s : Fields)
    → (resolve_thought_level_selector options ≡ found s) ↔ IsThoughtLevel (select_options options) s
unfolding resolve_thought_level_selector
resolve_thought_level_selector-found_iff options s = (
  λ e. elim (only_of _ s _ _ e) [
    | inl one ↦ inl (sole_of is_categorized _ s one)
    | inr (nothing, rest) ↦ inr (none_of is_categorized _ nothing, fallback_of _ s rest)
  ],
  λ h. elim h [
    | inl one ↦ only_from _ s _ _ (inl (sole_from is_categorized _ s one))
    | inr (nothing, rest) ↦
        only_from _ s _ _ (inr (none_from is_categorized _ nothing, fallback_from _ s rest))
  ],
)
