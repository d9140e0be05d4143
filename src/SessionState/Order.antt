-- ===== src/SessionState/Order.antt =====
-- packages/core/src/session-state.ts `arrangeSessionState`: the order of the roots. What the order is
-- stands here by itself: newer instants first, a missing one last, and then the ids.
use Prim.Native.Nat.{Ordering}
use owner_operator.Prelude.{
  ℕ, ◌<◌, ◌⊎◌, inl, inr, sym, subst, none, some, ◌≡◌, refl, ap, ◌∙◌, String, Bool, true, false,
  Option, List, [], ◌∷◌, ◌++◌, arith, keep, All, nat_eq, ltb, ltb→lt, if◌then◌else◌, Bool-cases,
}
use owner_operator.SessionState.{
  Arranged, SessionFacts, SessionSection, arrange_session_state, by_key, each, emit_section, units,
  newest_first, or_by_id, roots_of, has_parent, root_section, is_root_of, section_key,
  session_sections, sorted, stays_above,
}
use owner_operator.SessionState.Ids.{NoLater, by_id}
use owner_operator.SessionState.Shown.{every_section, same_section_refl}
use owner_operator.SessionState.Members.{In, In-each_from, In-keep_from, In-sorted_from}
use owner_operator.SessionState.Tops.{
  sorted-Ascending, Ascending, is_top, keep-each, each_same, top_of, section_tops,
}

-- What a section orders its roots by.
abbrev pub instant : SessionSection → SessionFacts → Option ℕ
instant SessionSection.needs_you r = r.last_message_at
instant SessionSection.working r = r.created_at
instant SessionSection.idle r = r.last_message_at
instant SessionSection.snoozed r = r.last_message_at

abbrev pub rank : SessionSection → ℕ
rank SessionSection.needs_you = 0
rank SessionSection.working = 1
rank SessionSection.idle = 2
rank SessionSection.snoozed = 3

-- The first instant is later than the second, or the second is missing.
abbrev pub Newer : Option ℕ → Option ℕ → Type 0
Newer none b = ⊥
Newer (some a) none = Unit
Newer (some a) (some b) = b < a

-- One root stands above another.
abbrev pub Above : Arranged → Arranged → Type 0
Above a b =
    (rank a.section < rank b.section)
    ⊎ ((a.section ≡ b.section)
        × (Newer (instant a.section a.row) (instant a.section b.row)
            ⊎ ((instant a.section a.row ≡ instant a.section b.row)
                × NoLater (units a.row.id) (units b.row.id))))

abbrev pub StandsOn : Arranged → List Arranged → Type 0
StandsOn a [] = Unit
StandsOn a (b ∷ bs) = Above a b

-- Each entry stands above the next one.
abbrev pub Ordered : List Arranged → Type 0
Ordered [] = Unit
Ordered (a ∷ rest) = StandsOn a rest × Ordered rest

instant_of : (s : SessionSection) (r : SessionFacts) → section_key s r ≡ instant s r
instant_of SessionSection.needs_you r = refl
instant_of SessionSection.working r = refl
instant_of SessionSection.idle r = refl
instant_of SessionSection.snoozed r = refl

same_sort :
    (a b : ℕ) (i j : String)
    → nat_eq a b ≡ true
    → stays_above (or_by_id (newest_first (some a) (some b)) i j) ≡ true
    → stays_above (or_by_id Ordering.eq i j) ≡ true
same_sort a b i j same h =
    subst
      (λ (t : Bool).
        stays_above
          (or_by_id (if t then Ordering.eq else if ltb b a then Ordering.lt else Ordering.gt) i j)
        ≡ true)
      same h

by_id-Newer :
    (a b : Option ℕ) (i j : String)
    → stays_above (or_by_id (newest_first a b) i j) ≡ true
    → Newer a b ⊎ ((a ≡ b) × NoLater (units i) (units j))
by_id-Newer none none i j h = inr (refl, by_id i j h)
by_id-Newer none (some b) i j h = ground (arith, h)
by_id-Newer (some a) none i j h = inl tt
by_id-Newer (some a) (some b) i j h = elim (Bool-cases (nat_eq a b)) [
  | inl same ↦
      let equal : a ≡ b = ground (arith, same) in
      inr (ap some equal, by_id i j (same_sort a b i j same h))
  | inr other ↦ elim (Bool-cases (ltb b a)) [
    | inl later ↦ inl (ltb→lt b a later)
    | inr earlier ↦ absurd (ground (arith, h, other, earlier))
  ]
]

module _ (s : SessionSection) where
  above_in :
      (r q : SessionFacts)
      → stays_above (by_key (section_key s) r q) ≡ true
      → Newer (instant s r) (instant s q)
        ⊎ ((instant s r ≡ instant s q) × NoLater (units r.id) (units q.id))
  above_in r q h = by_id-Newer (instant s r) (instant s q) r.id q.id (
      ap (λ a. stays_above (or_by_id (newest_first a (instant s q)) r.id q.id))
        (sym (instant_of s r))
      ∙ ap (λ b. stays_above (or_by_id (newest_first (section_key s r) b) r.id q.id))
          (sym (instant_of s q))
      ∙ h)

  tops-Ordered :
      (rows : List SessionFacts)
      → Ascending (section_key s) rows
      → (rest : List Arranged) → Ordered rest
      → All (λ b. rank s < rank b.section) rest
      → Ordered (each (top_of s) rows ++ rest)
  unfolding each
  tops-Ordered [] asc rest ordered higher = ordered
  tops-Ordered (r ∷ []) asc [] ordered higher = (tt, tt)
  tops-Ordered (r ∷ []) asc (b ∷ rest) ordered (higher, _) = (inl higher, ordered)
  tops-Ordered (r ∷ q ∷ rows) (above, asc) rest ordered higher =
      (inr (refl, above_in r q above), tops-Ordered (q ∷ rows) asc rest ordered higher)

  tops_higher :
      (t : SessionSection) (rows : List SessionFacts) (rest : List Arranged)
      → rank t < rank s
      → All (λ b. rank t < rank b.section) rest
      → All (λ b. rank t < rank b.section) (each (top_of s) rows ++ rest)
  unfolding each
  tops_higher t [] rest lower higher = higher
  tops_higher t (r ∷ rows) rest lower higher = (lower, tops_higher t rows rest lower higher)

module _ (rows : List SessionFacts) where
  abbrev section_roots : SessionSection → List Arranged
  section_roots s = each (top_of s) (sorted (section_key s) (roots_of rows s))

  abbrev from_snoozed : List Arranged
  from_snoozed = section_roots SessionSection.snoozed ++ []

  abbrev from_idle : List Arranged
  from_idle = section_roots SessionSection.idle ++ from_snoozed

  abbrev from_working : List Arranged
  from_working = section_roots SessionSection.working ++ from_idle

  section-Ordered :
      (s : SessionSection) (rest : List Arranged)
      → Ordered rest
      → All (λ b. rank s < rank b.section) rest
      → Ordered (section_roots s ++ rest)
  section-Ordered s rest ordered higher =
      tops-Ordered s (sorted (section_key s) (roots_of rows s))
        (sorted-Ascending (section_key s) (roots_of rows s)) rest ordered higher

  from_higher :
      (s t : SessionSection) (rest : List Arranged)
      → rank t < rank s
      → All (λ b. rank t < rank b.section) rest
      → All (λ b. rank t < rank b.section) (section_roots s ++ rest)
  from_higher s t rest lower higher =
      tops_higher s t (sorted (section_key s) (roots_of rows s)) rest lower higher

  snoozed_after :
      (t : SessionSection) → rank t < 3 → All (λ b. rank t < rank b.section) from_snoozed
  snoozed_after t low = from_higher SessionSection.snoozed t [] low tt

  idle_after : (t : SessionSection) → rank t < 2 → All (λ b. rank t < rank b.section) from_idle
  idle_after t low =
      from_higher SessionSection.idle t from_snoozed low (snoozed_after t (omega (arith, low)))

  working_after :
      (t : SessionSection) → rank t < 1 → All (λ b. rank t < rank b.section) from_working
  working_after t low =
      from_higher SessionSection.working t from_idle low (idle_after t (omega (arith, low)))

  sections-Ordered : Ordered (each section_roots session_sections)
  unfolding each
  sections-Ordered =
      section-Ordered SessionSection.needs_you from_working
        (section-Ordered SessionSection.working from_idle
          (section-Ordered SessionSection.idle from_snoozed
            (section-Ordered SessionSection.snoozed [] tt tt)
            (snoozed_after SessionSection.idle (omega arith)))
          (idle_after SessionSection.working (omega arith)))
        (working_after SessionSection.needs_you (omega arith))

  all_tops : keep is_top (arrange_session_state rows) ≡ each section_roots session_sections
  unfolding arrange_session_state
  all_tops =
      keep-each is_top (emit_section rows) session_sections
      ∙ each_same _ _ session_sections (section_tops rows)

  root_shown :
      (r : SessionFacts)
      → In r rows
      → has_parent rows r ≡ false
      → In
          (record { row = r; section = root_section r; depth = 0 })
          (each section_roots session_sections)
  root_shown r there root =
      In-each_from section_roots _ session_sections (root_section r)
        (every_section (root_section r))
        (In-each_from (top_of (root_section r)) _
          (sorted (section_key (root_section r)) (roots_of rows (root_section r))) r
          (In-sorted_from (section_key (root_section r)) r _ (
            In-keep_from r (is_root_of rows (root_section r)) rows there
              (ground (arith, root, same_section_refl (root_section r)))))
          (inl refl))

-- At its top the arrangement shows each row without a parent in the input, in its section, and
-- there each row stands above the next one: by the sections, needs-you, working, idle and
-- snoozed, and within one the newer first, by creation where it is working and by the latest message
-- elsewhere, a missing instant last, and rows of the same instant by the UTF-16 units of their ids.
pub arrange_session_state-Ordered :
    (rows : List SessionFacts) (r : SessionFacts)
    → In r rows
    → has_parent rows r ≡ false
    → In
        (record { row = r; section = root_section r; depth = 0 })
        (keep is_top (arrange_session_state rows))
      × Ordered (keep is_top (arrange_session_state rows))
arrange_session_state-Ordered rows r there root = (
  subst (In (record { row = r; section = root_section r; depth = 0 })) (sym (all_tops rows))
      (root_shown rows r there root),
  subst Ordered (sym (all_tops rows)) (sections-Ordered rows),
)
