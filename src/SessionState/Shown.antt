-- ===== src/SessionState/Shown.antt =====
-- packages/core/src/session-state.ts `arrangeSessionState`: which rows it shows, in which section and
-- how deep.
use owner_operator.Prelude.{
  ℕ, zero, suc, ◌+◌, ◌<◌, ◌≡◌, refl, sym, ap, subst, inl, inr, ◌↔◌, true, List, arith, length,
}
use owner_operator.SessionState.{
  Arranged, SessionFacts, SessionSection, arrange_session_state, emit, emit_section, is_child_of,
  is_root_of, root_section, roots_of, same_section, section_key, session_sections, sorted,
}
use owner_operator.SessionState.Members.{
  In, In-each_from, In-each_of, In-keep_from, In-keep_of, In-sorted_from, In-sorted_of,
}
use owner_operator.SessionState.Chains.{Chain, DistinctIds, child, root}
use owner_operator.SessionState.Depths.{depth-lt-length}

same_section_of : (s t : SessionSection) → same_section s t ≡ true → s ≡ t
same_section_of s t h = ground (arith, h)

pub same_section_refl : (s : SessionSection) → same_section s s ≡ true
same_section_refl s = ground arith

pub every_section : (s : SessionSection) → In s session_sections
every_section SessionSection.needs_you = inl refl
every_section SessionSection.working = inr (inl refl)
every_section SessionSection.idle = inr (inr (inl refl))
every_section SessionSection.snoozed = inr (inr (inr (inl refl)))

abbrev entry : SessionFacts → SessionSection → ℕ → Arranged
entry r s d = record { row = r; section = s; depth = d }

module _ (rows : List SessionFacts) where
  abbrev Placed : Arranged → Type 0
  Placed a = Chain rows a.row a.section a.depth

  emit-Placed :
      (fuel : ℕ) (section : SessionSection) (depth : ℕ) (row : SessionFacts) (a : Arranged)
      → Chain rows row section depth
      → In a (emit rows fuel section depth row)
      → Placed a
  unfolding emit
  emit-Placed zero section depth row a c h = elim h [ ]
  emit-Placed (suc fuel) section depth row a c (inl e) = subst Placed (sym e) c
  emit-Placed (suc fuel) section depth row a c (inr h) =
      let (y, among, found) = In-each_of (emit rows fuel section (suc depth)) a _ h in
      let (there, is_child) =
        In-keep_of y (is_child_of rows row.id) rows (In-sorted_of (λ r. r.created_at) y _ among) in
      emit-Placed fuel section (suc depth) y a (child c there is_child) found

  -- Where a row is emitted, a child of it is, on enough fuel.
  emit-child :
      (fuel : ℕ) (section : SessionSection) (depth : ℕ) (row p r : SessionFacts) (d : ℕ)
      → In (entry p section d) (emit rows fuel section depth row)
      → suc d < fuel + depth
      → In r rows
      → is_child_of rows p.id r ≡ true
      → In (entry r section (suc d)) (emit rows fuel section depth row)
  unfolding emit
  emit-child zero section depth row p r d h room there is_child = elim h [ ]
  emit-child (suc zero) section depth row p r d (inl e) room there is_child =
      absurd (omega (arith, ap (λ (x : Arranged). x.depth) e))
  emit-child (suc (suc fuel)) section depth row p r d (inl e) room there is_child =
      let same : p ≡ row = ap (λ (x : Arranged). x.row) e in
      let deep : d ≡ depth = ap (λ (x : Arranged). x.depth) e in
      inr (
        In-each_from (emit rows (suc fuel) section (suc depth)) (entry r section (suc d)) _ r
          (In-sorted_from (λ q. q.created_at) r _
            (In-keep_from r (is_child_of rows row.id) rows there
              (subst (λ q. is_child_of rows q.id r ≡ true) same is_child)))
          (inl (ap (λ k. entry r section (suc k)) deep)))
  emit-child (suc fuel) section depth row p r d (inr h) room there is_child =
      let (y, among, found) =
        In-each_of (emit rows fuel section (suc depth)) (entry p section d) _ h in
      inr (
        In-each_from (emit rows fuel section (suc depth)) (entry r section (suc d)) _ y among
          (emit-child fuel section (suc depth) y p r d found (omega (arith, room)) there is_child))

  roots : SessionSection → List SessionFacts
  roots section = sorted (section_key section) (roots_of rows section)

  section-Placed :
      (section : SessionSection) (a : Arranged) → In a (emit_section rows section) → Placed a
  unfolding emit_section
  section-Placed section a h =
      let (q, among, found) = In-each_of (emit rows (length rows) section 0) a _ h in
      let (there, is_root) =
        In-keep_of q (is_root_of rows section) rows
          (In-sorted_of (section_key section) q _ among) in
      emit-Placed (length rows) section 0 q a
        (subst (λ s. Chain rows q s 0)
          (same_section_of (root_section q) section (ground (arith, is_root)))
          (root there (ground (arith, is_root))))
        found

  emit-first :
      (fuel : ℕ) (section : SessionSection) (depth : ℕ) (row : SessionFacts)
      → 0 < fuel
      → In (entry row section depth) (emit rows fuel section depth row)
  unfolding emit
  emit-first zero section depth row some_fuel = absurd (omega (arith, some_fuel))
  emit-first (suc fuel) section depth row some_fuel = inl refl

  Chain-shown :
      DistinctIds rows
      → {r : SessionFacts} {s : SessionSection} {d : ℕ} → Chain rows r s d
      → In (entry r s d) (emit_section rows s)
  unfolding emit_section
  Chain-shown distinct {r = r} (root h e) =
      In-each_from (emit rows (length rows) (root_section r) 0) (entry r (root_section r) 0) _ r
        (In-sorted_from (section_key (root_section r)) r _ (
          In-keep_from r (is_root_of rows (root_section r)) rows h
            (ground (arith, e, same_section_refl (root_section r)))))
        (emit-first (length rows) (root_section r) 0 r (depth-lt-length rows distinct (root h e)))
  Chain-shown distinct {r = r} {s = s} (child {p = p} {d = d} c h e) =
      let (q, among, found) =
        In-each_of (emit rows (length rows) s 0) (entry p s d) _ (Chain-shown distinct c) in
      In-each_from (emit rows (length rows) s 0) (entry r s (suc d)) _ q among (
        emit-child (length rows) s 0 q p r d found
          (omega (arith, depth-lt-length rows distinct (child c h e))) h e)

  -- Where ids are distinct, the arrangement shows a row in a section at a depth exactly where its
  -- parents, followed up within the input that many times, end at a row without one there, which
  -- is in that section by its snooze or its state.
  pub arrange_session_state-Chain :
      DistinctIds rows
      → (a : Arranged) → In a (arrange_session_state rows) ↔ Chain rows a.row a.section a.depth
  unfolding arrange_session_state
  arrange_session_state-Chain distinct a = (
    λ h.
        let (section, among, found) = In-each_of (emit_section rows) a session_sections h in
        section-Placed section a found,
    λ c.
        In-each_from (emit_section rows) a session_sections a.section (every_section a.section)
          (Chain-shown distinct c),
  )
