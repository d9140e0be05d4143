-- ===== src/Prelude/Updates.antt =====
-- What `UPDATE … WHERE` and `ORDER BY` do to the queries on a table.
use Prim.Native.Nat.{◌≤◌}
use mathlib.Core.Path.{◌≡◌, refl}
use mathlib.Core.Bool.{Bool, true, false}
use mathlib.Core.Option.{none, some}
use mathlib.Core.List.{List, [], ◌∷◌, ◌++◌}
use native.Mathlib.Omega.{arith}
use owner_operator.Prelude.Tests.{if◌then◌else◌}
use owner_operator.Prelude.Lists.{any, find, count, keep, update_where, insert_by, sort_by}

module _ {ℓ} {A : Type ℓ} where
  pub find-update_where :
      (q p : A → Bool) (f : A → A) (xs : List A) (x : A)
      → ((y : A) → q (f y) ≡ q y)
      → find q xs ≡ some x
      → find q (update_where p f xs) ≡ some (if p x then f x else x)
  find-update_where q p f [] x same e = ground arith
  find-update_where q p f (y ∷ ys) x same e =
      ground (arith, same y, find-update_where q p f ys x same)

  pub find-update_where-none :
      (q p : A → Bool) (f : A → A) (xs : List A)
      → ((y : A) → q (f y) ≡ q y)
      → find q xs ≡ none
      → find q (update_where p f xs) ≡ none
  find-update_where-none q p f [] same e = refl
  find-update_where-none q p f (y ∷ ys) same e =
      ground (arith, same y, find-update_where-none q p f ys same)

  -- A row that the condition leaves out stays what the query finds.
  pub find-update_where_keep :
      (q p : A → Bool) (f : A → A) (xs : List A) (x : A)
      → ((y : A) → q (f y) ≡ q y)
      → p x ≡ false
      → find q xs ≡ some x
      → find q (update_where p f xs) ≡ some x
  find-update_where_keep q p f xs x same out e = ground (arith, find-update_where q p f xs x same e)

  pub update_where-none :
      (p : A → Bool) (f : A → A) (xs : List A) → any p xs ≡ false → update_where p f xs ≡ xs
  update_where-none p f [] h = refl
  update_where-none p f (x ∷ xs) h = ground (arith, update_where-none p f xs)

  pub count-update_where-le :
      (q p : A → Bool) (f : A → A) (xs : List A)
      → ((y : A) → p y ≡ true → q (f y) ≡ true → q y ≡ true)
      → count q (update_where p f xs) ≤ count q xs
  count-update_where-le q p f [] keeps = omega arith
  count-update_where-le q p f (x ∷ xs) keeps =
      ground (arith, keeps x, count-update_where-le q p f xs keeps)

  pub find-append :
      (q : A → Bool) (xs ys : List A) (x : A) → find q xs ≡ some x → find q (xs ++ ys) ≡ some x
  find-append q [] ys x e = ground arith
  find-append q (z ∷ xs) ys x e = ground (arith, find-append q xs ys x)

  pub find-append_none :
      (q : A → Bool) (xs ys : List A) → find q xs ≡ none → find q (xs ++ ys) ≡ find q ys
  find-append_none q [] ys e = refl
  find-append_none q (z ∷ xs) ys e = ground (arith, find-append_none q xs ys)

  pub any-find-none : (q : A → Bool) (xs : List A) → find q xs ≡ none → any q xs ≡ false
  any-find-none q [] e = refl
  any-find-none q (x ∷ xs) e = ground (arith, any-find-none q xs)

  pub any-find-some : (q : A → Bool) (xs : List A) (x : A) → find q xs ≡ some x → any q xs ≡ true
  any-find-some q [] x e = ground arith
  any-find-some q (y ∷ xs) x e = ground (arith, any-find-some q xs x)

  pub any-append :
      (q : A → Bool) (xs ys : List A)
      → any q xs ≡ false
      → any q ys ≡ false
      → any q (xs ++ ys) ≡ false
  any-append q [] ys h k = k
  any-append q (x ∷ xs) ys h k = ground (arith, any-append q xs ys)

  pub any-update_where :
      (q p : A → Bool) (f : A → A) (xs : List A)
      → ((y : A) → q (f y) ≡ q y)
      → any q (update_where p f xs) ≡ any q xs
  any-update_where q p f [] same = refl
  any-update_where q p f (x ∷ xs) same = ground (arith, same x, any-update_where q p f xs same)

  any-insert_by :
      (q : A → Bool) (before : A → A → Bool) (x : A) (xs : List A)
      → any q (insert_by before x xs) ≡ any q (x ∷ xs)
  unfolding insert_by
  any-insert_by q before x [] = refl
  any-insert_by q before x (y ∷ ys) = ground (arith, any-insert_by q before x ys)

  pub any-sort_by :
      (q : A → Bool) (before : A → A → Bool) (xs : List A) → any q (sort_by before xs) ≡ any q xs
  unfolding sort_by
  any-sort_by q before [] = refl
  any-sort_by q before (x ∷ xs) =
      ground (arith, any-insert_by q before x (sort_by before xs), any-sort_by q before xs)

  pub any-keep : (q p : A → Bool) (xs : List A) → any q xs ≡ false → any q (keep p xs) ≡ false
  any-keep q p [] h = refl
  any-keep q p (x ∷ xs) h = ground (arith, any-keep q p xs)
