-- ===== src/SessionState/Chains.antt =====
-- packages/core/src/session-state.ts: the chains of parents that end at a root, and that `emit` is
-- never deeper than there are rows.
use owner_operator.Prelude.{
  ℕ, suc, ◌≡◌, refl, sym, ap, subst, ◌∙◌, inl, inr, String, true, false, Option, none, some, List,
  [], ◌∷◌, ◌==◌, eq_iff, arith, any,
}
use owner_operator.SessionState.{
  SessionFacts, SessionSection, has_parent, is_child_of, is_row, parent_is, root_section,
}
use owner_operator.SessionState.Members.{In}

abbrev pub DistinctIds : List SessionFacts → Type 0
DistinctIds [] = Unit
DistinctIds (r ∷ rows) = (any (is_row r.id) rows ≡ false) × DistinctIds rows

pub any_here :
    (rows : List SessionFacts) (r : SessionFacts) → In r rows → any (is_row r.id) rows ≡ true
any_here [] r h = elim h [ ]
any_here (s ∷ rows) r (inl e) = ground (arith, eq_iff s.id r.id, ap (λ x. x.id) e)
any_here (s ∷ rows) r (inr h) = ground (arith, any_here rows r h)

pub same_row :
    (rows : List SessionFacts) (r s : SessionFacts)
    → DistinctIds rows
    → In r rows
    → In s rows
    → r.id ≡ s.id
    → r ≡ s
same_row [] r s distinct h k e = elim h [ ]
same_row (t ∷ rows) r s distinct (inl a) (inl b) e = a ∙ sym b
same_row (t ∷ rows) r s distinct (inl a) (inr k) e =
    let twice : any (is_row t.id) rows ≡ true =
      subst (λ i. any (is_row i) rows ≡ true) (sym e ∙ ap (λ x. x.id) a) (any_here rows s k) in
    ground (arith, twice, distinct.0)
same_row (t ∷ rows) r s distinct (inr h) (inl b) e =
    let twice : any (is_row t.id) rows ≡ true =
      subst (λ i. any (is_row i) rows ≡ true) (e ∙ ap (λ x. x.id) b) (any_here rows r h) in
    ground (arith, twice, distinct.0)
same_row (t ∷ rows) r s distinct (inr h) (inr k) e = same_row rows r s distinct.1 h k e

module _ (rows : List SessionFacts) where
  -- The parents of a row, followed up, end at a root of a section after a number of steps.
  pub data Chain : SessionFacts → SessionSection → ℕ → Type 0 where
    root : {r : SessionFacts} → In r rows → has_parent rows r ≡ false → Chain r (root_section r) 0
    child :
        {p r : SessionFacts} {s : SessionSection} {d : ℕ}
        → Chain p s d
        → In r rows
        → is_child_of rows p.id r ≡ true
        → Chain r s (suc d)

  pub chained : {r : SessionFacts} {s : SessionSection} {d : ℕ} → Chain r s d → In r rows
  chained (root h e) = h
  chained (child c h e) = h

  parent_id :
      (o : Option String) (i j : String)
      → parent_is (λ p. p == i) o ≡ true
      → parent_is (λ p. p == j) o ≡ true
      → i ≡ j
  parent_id none i j a b = ground (arith, a)
  parent_id (some p) i j a b = sym ((eq_iff p i).0 a) ∙ (eq_iff p j).0 b

  one_parent :
      (r : SessionFacts) (i j : String)
      → is_child_of rows i r ≡ true
      → is_child_of rows j r ≡ true
      → i ≡ j
  one_parent r i j a b = parent_id r.parent_thread_id i j (ground (arith, a)) (ground (arith, b))

  root_or_child :
      (r : SessionFacts) (i : String) → has_parent rows r ≡ false → is_child_of rows i r ≡ true → ⊥
  root_or_child r i a b = ground (arith, a, b)

  module _ (distinct : DistinctIds rows) where
    -- A row stands at one depth.
    pub one_depth :
        {r r' : SessionFacts} {s s' : SessionSection} {d d' : ℕ}
        → Chain r s d
        → Chain r' s' d'
        → r ≡ r'
        → d ≡ d'
    one_depth (root h e) (root h' e') same = refl
    one_depth {r = r} (root h e) (child {p = p} c h' e') same =
        elim (root_or_child r p.id e
          (subst (λ x. is_child_of rows p.id x ≡ true) (sym same) e')) [ ]
    one_depth {r' = r'} (child {p = p} c h e) (root h' e') same =
        elim (root_or_child r' p.id e' (subst (λ x. is_child_of rows p.id x ≡ true) same e)) [ ]
    one_depth {r' = r'} (child {p = p} c h e) (child {p = q} c' h' e') same = ap suc (
        one_depth c c' (
          same_row rows p q distinct (chained c) (chained c')
            (one_parent r' p.id q.id (subst (λ x. is_child_of rows p.id x ≡ true) same e) e')))
