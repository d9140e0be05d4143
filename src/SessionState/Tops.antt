-- ===== src/SessionState/Tops.antt =====
-- packages/core/src/session-state.ts `arrangeSessionState`: what it shows at its top, and that each section
-- is sorted.
use Prim.Native.Nat.{Ordering}
use owner_operator.Prelude.{
  ℕ, zero, suc, ◌≡◌, refl, ap, ◌∙◌, String, Bool, true, false, Option, List, [], ◌∷◌, ◌++◌, arith,
  if_elim, keep, keep-append, nat_eq, length, sort_by, insert_by,
}
use owner_operator.SessionState.{
  Arranged, SessionFacts, SessionSection, by_key, each, emit, emit_section, newest_first, or_by_id,
  roots_of, section_key, sorted, stays_above,
}

-- A row may stand above the first of a list, and each row above the next one.
abbrev LeadsTo : (SessionFacts → Option ℕ) → SessionFacts → List SessionFacts → Type 0
LeadsTo key r [] = Unit
LeadsTo key r (s ∷ rows) = stays_above (by_key key r s) ≡ true

abbrev pub Ascending : (SessionFacts → Option ℕ) → List SessionFacts → Type 0
Ascending key [] = Unit
Ascending key (r ∷ rows) = LeadsTo key r rows × Ascending key rows

id_total :
    (o o' : Ordering) (i j : String)
    → (o ≡ Ordering.gt → o' ≡ Ordering.lt)
    → (o ≡ Ordering.eq → o' ≡ Ordering.eq)
    → stays_above (or_by_id o i j) ≡ false
    → stays_above (or_by_id o' j i) ≡ true
id_total Ordering.lt o' i j flips stays h = ground (arith, h)
id_total Ordering.gt o' i j flips stays h = rw (flips refl) refl
id_total Ordering.eq o' i j flips stays h = rw (stays refl) (ground (arith, h))

newest_flips : (a b : Option ℕ) → newest_first a b ≡ Ordering.gt → newest_first b a ≡ Ordering.lt
newest_flips a b h = ground (arith, h)

newest_stays : (a b : Option ℕ) → newest_first a b ≡ Ordering.eq → newest_first b a ≡ Ordering.eq
newest_stays a b h = ground (arith, h)

module _ (key : SessionFacts → Option ℕ) where
  by_key_total :
      (r s : SessionFacts)
      → stays_above (by_key key r s) ≡ false
      → stays_above (by_key key s r) ≡ true
  by_key_total r s h =
      id_total (newest_first (key r) (key s)) (newest_first (key s) (key r)) r.id s.id
        (newest_flips (key r) (key s)) (newest_stays (key r) (key s)) h

  abbrev before : SessionFacts → SessionFacts → Bool
  before r s = stays_above (by_key key r s)

  insert-LeadsTo :
      (r s : SessionFacts) (rows : List SessionFacts)
      → before r s ≡ true
      → LeadsTo key r rows
      → LeadsTo key r (insert_by before s rows)
  unfolding insert_by
  insert-LeadsTo r s [] above leads = above
  insert-LeadsTo r s (t ∷ rows) above leads =
      if_elim (LeadsTo key r) (before s t) (s ∷ t ∷ rows) (t ∷ insert_by before s rows) (λ _. above)
        (λ _. leads)

  insert-Ascending :
      (r : SessionFacts) (rows : List SessionFacts)
      → Ascending key rows
      → Ascending key (insert_by before r rows)
  unfolding insert_by
  insert-Ascending r [] h = (tt, tt)
  insert-Ascending r (s ∷ rows) (leads, later) =
      if_elim (Ascending key) (before r s) (r ∷ s ∷ rows) (s ∷ insert_by before r rows)
        (λ above. (above, (leads, later)))
        (λ under.
          (insert-LeadsTo s r rows (by_key_total r s under) leads, insert-Ascending r rows later))

  sort-Ascending : (rows : List SessionFacts) → Ascending key (sort_by before rows)
  unfolding sort_by
  sort-Ascending [] = tt
  sort-Ascending (r ∷ rows) = insert-Ascending r (sort_by before rows) (sort-Ascending rows)

  pub sorted-Ascending : (rows : List SessionFacts) → Ascending key (sorted key rows)
  unfolding sorted
  sorted-Ascending rows = sort-Ascending rows

abbrev pub is_top : Arranged → Bool
is_top a = nat_eq a.depth 0

pub keep-each :
    {A : Type 0} (p : Arranged → Bool) (f : A → List Arranged) (xs : List A)
    → keep p (each f xs) ≡ each (λ x. keep p (f x)) xs
unfolding each
keep-each p f [] = refl
keep-each p f (x ∷ xs) =
    keep-append p (f x) (each f xs) ∙ ap (λ ys. keep p (f x) ++ ys) (keep-each p f xs)

pub each_same :
    {A : Type 0} (f g : A → List Arranged) (xs : List A)
    → ((x : A) → f x ≡ g x)
    → each f xs ≡ each g xs
unfolding each
each_same f g [] same = refl
each_same f g (x ∷ xs) same = rw (same x, each_same f g xs same) refl

all_dropped :
    (f : SessionFacts → List Arranged) (xs : List SessionFacts)
    → ((x : SessionFacts) → keep is_top (f x) ≡ [])
    → keep is_top (each f xs) ≡ []
unfolding each
all_dropped f [] none_top = refl
all_dropped f (x ∷ xs) none_top =
    rw (keep-append is_top (f x) (each f xs), none_top x, all_dropped f xs none_top) refl

suc_is_no_zero : (d : ℕ) → nat_eq (suc d) 0 ≡ false
suc_is_no_zero d = ground arith

module _ (rows : List SessionFacts) where
  no_top :
      (fuel : ℕ) (section : SessionSection) (depth : ℕ) (row : SessionFacts)
      → keep is_top (emit rows fuel section (suc depth) row) ≡ []
  unfolding emit
  no_top zero section depth row = refl
  no_top (suc fuel) section depth row =
      rw (suc_is_no_zero depth)
        (all_dropped (emit rows fuel section (suc (suc depth))) _ (no_top fuel section (suc depth)))

  first_top :
      (fuel : ℕ) (section : SessionSection) (row : SessionFacts)
      → keep is_top (emit rows (suc fuel) section 0 row)
        ≡ record { row = row; section = section; depth = 0 } ∷ []
  unfolding emit
  first_top fuel section row =
      ap (λ below. record { row = row; section = section; depth = 0 } ∷ below)
        (all_dropped (emit rows fuel section 1) _ (no_top fuel section 0))

abbrev pub top_of : SessionSection → SessionFacts → List Arranged
top_of section row = record { row = row; section = section; depth = 0 } ∷ []

pub section_tops :
    (rows : List SessionFacts) (section : SessionSection)
    → keep is_top (emit_section rows section)
      ≡ each (top_of section) (sorted (section_key section) (roots_of rows section))
unfolding emit_section sorted sort_by each
section_tops [] section = refl
section_tops (r ∷ rows) section =
    keep-each is_top (emit (r ∷ rows) (length (r ∷ rows)) section 0) _
    ∙ each_same _ (top_of section) _ (first_top (r ∷ rows) (length rows) section)
