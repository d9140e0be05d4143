-- ===== src/AcpSelection/Judged.antt =====
-- src/agent-runs/acp-session-selection.ts `validateConfigOption`: what an option is checked for, as a property
-- of its values.
use owner_operator.Prelude.{
  ℕ, ◌+◌, ◌≡◌, refl, ap, ◌∙◌, ◌⊎◌, inl, inr, String, Bool, true, false, Option, none, some, List,
  [], ◌∷◌, if◌then◌else◌, is_blank, arith, All,
}
use owner_operator.AcpSelection.{
  Fields, Value, array, has_own, null, object, property, text, undefined, boolean, number,
}
use owner_operator.AcpSelection.Options.{
  ◌then_check◌, array_of, check_choice, check_choices, check_group, check_grouped, check_options,
  check_select, grouped_is_valid, is_named, is_nullable_string, is_select, is_string, record_of,
  unless, validate_config_option,
}

abbrev pub IsText : Value → Type 0
IsText v = (s : String) × (v ≡ text s)

abbrev pub IsNamed : Value → Type 0
IsNamed v = (s : String) × (v ≡ text s) × (is_blank s ≡ false)

abbrev pub IsNullableText : Value → Type 0
IsNullableText v = (v ≡ undefined) ⊎ (v ≡ null) ⊎ IsText v

abbrev pub IsGrouped : Option Fields → Type 0
IsGrouped none = ⊥
IsGrouped (some fs) = IsText (property "value" fs)

abbrev pub IsGroup : Option (List Value) → Type 0
IsGroup none = ⊥
IsGroup (some vs) = All (λ v. IsGrouped (record_of v)) vs

-- A choice has a text as its value, or it is a group of such choices.
abbrev pub IsChoice : Option Fields → Type 0
IsChoice none = ⊥
IsChoice (some fs) =
    if has_own "value" fs
    then IsText (property "value" fs)
    else IsGroup (array_of (property "options" fs))

abbrev pub IsChoices : Option (List Value) → Type 0
IsChoices none = ⊥
IsChoices (some vs) = All (λ v. IsChoice (record_of v)) vs

abbrev pub IsSelect : (id category current : Value) → Option (List Value) → Type 0
IsSelect id category current choices =
    IsNamed id × (IsNullableText category × (IsText current × IsChoices choices))

abbrev pub IsConfigOption : Option Fields → Type 0
IsConfigOption none = ⊥
IsConfigOption (some fs) =
    if is_select fs
    then IsSelect (property "id" fs) (property "category" fs) (property "currentValue" fs)
        (array_of (property "options" fs))
    else Unit

-- A complaint judges a property: there is none exactly where it holds.
abbrev pub Judged : Option String → Type 0 → Type 0
Judged none P = P
Judged (some detail) P = ¬ P

module _ (P Q : Type 0) where
  judged_unless : (b : Bool) (d : String) → (b ≡ true → P) → (P → b ≡ true) → Judged (unless b d) P
  judged_unless true d f g = f refl
  judged_unless false d f g = λ p. let e = g p in cc

  judged_both : (a b : Option String) → Judged a P → Judged b Q → Judged (a then_check b) (P × Q)
  judged_both none none p q = (p, q)
  judged_both none (some d) p q = λ pq. q pq.1
  judged_both (some d) b p q = λ pq. p pq.0

  judged_if :
      (c : Bool) (a b : Option String)
      → Judged a P
      → Judged b Q
      → Judged (if c then a else b) (if c then P else Q)
  judged_if true a b p q = p
  judged_if false a b p q = q

is_string_of : (v : Value) → is_string v ≡ true → IsText v
is_string_of (text s) h = (s, refl)
is_string_of undefined h = cc
is_string_of null h = cc
is_string_of (boolean b) h = cc
is_string_of number h = cc
is_string_of (array vs) h = cc
is_string_of (object fs) h = cc

is_string_from : (v : Value) → IsText v → is_string v ≡ true
is_string_from v (s, e) = ap is_string e

is_string-IsText : (v : Value) (d : String) → Judged (unless (is_string v) d) (IsText v)
is_string-IsText v d =
    judged_unless (IsText v) Unit (is_string v) d (is_string_of v) (is_string_from v)

is_named_of : (v : Value) → is_named v ≡ true → IsNamed v
is_named_of (text s) h = (s, refl, ground (arith, h))
is_named_of undefined h = cc
is_named_of null h = cc
is_named_of (boolean b) h = cc
is_named_of number h = cc
is_named_of (array vs) h = cc
is_named_of (object fs) h = cc

is_named_from : (v : Value) → IsNamed v → is_named v ≡ true
is_named_from v (s, e, h) = ap is_named e ∙ ground (arith, h)

is_nullable_of : (v : Value) → is_nullable_string v ≡ true → IsNullableText v
is_nullable_of undefined h = inl refl
is_nullable_of null h = inr (inl refl)
is_nullable_of (text s) h = inr (inr (s, refl))
is_nullable_of (boolean b) h = cc
is_nullable_of number h = cc
is_nullable_of (array vs) h = cc
is_nullable_of (object fs) h = cc

is_nullable_from : (v : Value) → IsNullableText v → is_nullable_string v ≡ true
is_nullable_from v (inl e) = ap is_nullable_string e
is_nullable_from v (inr (inl e)) = ap is_nullable_string e
is_nullable_from v (inr (inr (s, e))) = ap is_nullable_string e

grouped_is_valid-IsGrouped :
    (o : Option Fields) (d : String) → Judged (unless (grouped_is_valid o) d) (IsGrouped o)
grouped_is_valid-IsGrouped none d = λ impossible. impossible
grouped_is_valid-IsGrouped (some fs) d = is_string-IsText (property "value" fs) d

check_grouped-IsGrouped :
    (k i : ℕ) (vs : List Value)
    → Judged (check_grouped k i vs) (All (λ v. IsGrouped (record_of v)) vs)
unfolding check_grouped
check_grouped-IsGrouped k i [] = tt
check_grouped-IsGrouped k i (v ∷ vs) =
    judged_both (IsGrouped (record_of v)) (All (λ w. IsGrouped (record_of w)) vs) _ _
      (grouped_is_valid-IsGrouped (record_of v) _) (check_grouped-IsGrouped k (i + 1) vs)

check_group-IsGroup : (i : ℕ) (o : Option (List Value)) → Judged (check_group i o) (IsGroup o)
unfolding check_group
check_group-IsGroup i none = λ impossible. impossible
check_group-IsGroup i (some vs) = check_grouped-IsGrouped i 0 vs

check_choice-IsChoice : (i : ℕ) (o : Option Fields) → Judged (check_choice i o) (IsChoice o)
unfolding check_choice
check_choice-IsChoice i none = λ impossible. impossible
check_choice-IsChoice i (some fs) =
    judged_if (IsText (property "value" fs)) (IsGroup (array_of (property "options" fs)))
      (has_own "value" fs) _ _ (is_string-IsText (property "value" fs) _)
      (check_group-IsGroup i (array_of (property "options" fs)))

check_choices-IsChoices :
    (i : ℕ) (vs : List Value) → Judged (check_choices i vs) (All (λ v. IsChoice (record_of v)) vs)
unfolding check_choices
check_choices-IsChoices i [] = tt
check_choices-IsChoices i (v ∷ vs) =
    judged_both (IsChoice (record_of v)) (All (λ w. IsChoice (record_of w)) vs) _ _
      (check_choice-IsChoice i (record_of v)) (check_choices-IsChoices (i + 1) vs)

check_options-IsChoices : (o : Option (List Value)) → Judged (check_options o) (IsChoices o)
unfolding check_options
check_options-IsChoices none = λ impossible. impossible
check_options-IsChoices (some vs) = check_choices-IsChoices 0 vs

module _ (id category current : Value) (choices : Option (List Value)) where
  judged_rest :
      (d : String)
      → Judged
          (unless (is_string current) d then_check check_options choices)
          (IsText current × IsChoices choices)
  judged_rest d =
      judged_both (IsText current) (IsChoices choices) (unless (is_string current) d)
        (check_options choices) (is_string-IsText current d) (check_options-IsChoices choices)

  judged_category :
      (c d : String)
      → Judged
          (unless (is_nullable_string category) c
            then_check unless (is_string current) d
            then_check check_options choices)
          (IsNullableText category × (IsText current × IsChoices choices))
  judged_category c d =
      judged_both (IsNullableText category) (IsText current × IsChoices choices)
        (unless (is_nullable_string category) c)
        (unless (is_string current) d then_check check_options choices)
        (judged_unless (IsNullableText category) Unit (is_nullable_string category) c
          (is_nullable_of category) (is_nullable_from category))
        (judged_rest d)

  judged_fields :
      (b c d : String)
      → Judged
          (unless (is_named id) b
            then_check unless (is_nullable_string category) c
            then_check unless (is_string current) d
            then_check check_options choices)
          (IsNamed id × (IsNullableText category × (IsText current × IsChoices choices)))
  judged_fields b c d =
      judged_both (IsNamed id) (IsNullableText category × (IsText current × IsChoices choices))
        (unless (is_named id) b)
        (unless (is_nullable_string category) c
          then_check unless (is_string current) d
          then_check check_options choices)
        (judged_unless (IsNamed id) Unit (is_named id) b (is_named_of id) (is_named_from id))
        (judged_category c d)

pub validate_config_option-IsConfigOption :
    (o : Option Fields) → Judged (validate_config_option o) (IsConfigOption o)
unfolding validate_config_option
validate_config_option-IsConfigOption none = λ impossible. impossible
validate_config_option-IsConfigOption (some fs) =
    judged_if
      (IsSelect (property "id" fs) (property "category" fs) (property "currentValue" fs)
        (array_of (property "options" fs)))
      Unit (is_select fs) (check_select fs) none
      (judged_fields (property "id" fs) (property "category" fs) (property "currentValue" fs)
        (array_of (property "options" fs)) _ _ _)
      tt
