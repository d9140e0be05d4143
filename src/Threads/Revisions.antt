-- ===== src/Threads/Revisions.antt =====
-- src/state/database.ts `appendDetailsInTx`: the revisions of a thread stay numbered from one without
-- a gap, and each differs in meaning from the one before it.
use owner_operator.Prelude.{
  ℕ, suc, ◌≡◌, refl, sym, ap, subst, String, Bool, true, false, ◌||◌, Option, none, some, List, [],
  ◌∷◌, ◌==◌, arith, if_elim, if◌then◌else◌, keep, length, eq_iff, Bool-cases, inl, inr,
}
use owner_operator.Threads.{
  DetailsPatch, DetailsRow, Writer, append_details, Edge, details_of, edge_of, keeps_meaning,
  latest_details, merged, newer, same_meaning,
}

abbrev pub revisions : (id : String) → List DetailsRow → List DetailsRow
revisions id ds = keep (details_of id) ds

abbrev pub Changed : DetailsRow → List DetailsRow → Type 0
Changed d [] = Unit
Changed d (e ∷ es) = same_meaning e d ≡ false

-- Newest first: numbered down to one, each with another meaning than the next.
abbrev pub Numbered : List DetailsRow → Type 0
Numbered [] = Unit
Numbered (d ∷ ds) = (d.version ≡ suc (length ds)) × Changed d ds × Numbered ds

abbrev pub head : List DetailsRow → Option DetailsRow
head [] = none
head (d ∷ ds) = some d

abbrev pub non_empty : List DetailsRow → Bool
non_empty [] = false
non_empty (d ∷ ds) = true

newer-head :
    (d : DetailsRow) (ds : List DetailsRow) → Numbered (d ∷ ds) → newer d (head ds) ≡ some d
newer-head d [] h = refl
newer-head d (e ∷ es) h = ground arith

head_step :
    (b : Bool) (d : DetailsRow) (rest : List DetailsRow) (latest : Option DetailsRow)
    → Numbered (if b then d ∷ rest else rest)
    → (Numbered rest → latest ≡ head rest)
    → (if b then newer d latest else latest) ≡ head (if b then d ∷ rest else rest)
head_step true d rest latest h ih = rw (ih h.2) (newer-head d rest h)
head_step false d rest latest h ih = ih h

-- The latest details are the first revision.
pub latest_details-head :
    (id : String) (ds : List DetailsRow)
    → Numbered (revisions id ds)
    → latest_details id ds ≡ head (revisions id ds)
unfolding latest_details
latest_details-head id [] h = refl
latest_details-head id (d ∷ ds) h =
    head_step (details_of id d) d (revisions id ds) (latest_details id ds) h
      (latest_details-head id ds)

merged-Numbered :
    (now : ℕ) (id : String) (patch : DetailsPatch) (w : Writer) (rs : List DetailsRow)
    → Numbered rs
    → keeps_meaning (head rs) (merged now id patch w (head rs)) ≡ false
    → Numbered (merged now id patch w (head rs) ∷ rs)
merged-Numbered now id patch w [] h new = (refl, tt, tt)
merged-Numbered now id patch w (r ∷ rs) h new = (ap suc h.0, new, h)

kept-non_empty :
    (latest : Option DetailsRow) (row : DetailsRow) (rs : List DetailsRow)
    → latest ≡ head rs
    → keeps_meaning latest row ≡ true
    → non_empty rs ≡ true
kept-non_empty latest row (r ∷ rs) first same = refl
kept-non_empty none row [] first same = cc
kept-non_empty (some d) row [] first same = cc

same_or_other :
    (id j : String) (ds : List DetailsRow)
    → non_empty (revisions id ds) ≡ true
    → non_empty (revisions j ds) ≡ ((id == j) || non_empty (revisions j ds))
same_or_other id j ds h = elim (Bool-cases (id == j)) [
  | inl same ↦ rw same (subst (λ i. non_empty (revisions i ds) ≡ true) ((eq_iff id j).0 same) h)
  | inr other ↦ rw other
]

module _ (now : ℕ) (id : String) (patch : DetailsPatch) (w : Writer) (ds : List DetailsRow) where
  appended-Numbered :
      (j : String) (latest : Option DetailsRow)
      → latest ≡ head (revisions id ds)
      → Numbered (revisions id ds)
      → Numbered (revisions j ds)
      → keeps_meaning latest (merged now id patch w latest) ≡ false
      → Numbered (revisions j (merged now id patch w latest ∷ ds))
  appended-Numbered j latest first h k new =
      if_elim Numbered (id == j) (merged now id patch w latest ∷ revisions j ds) (revisions j ds)
        (λ same.
          subst (λ i. Numbered (merged now id patch w latest ∷ revisions i ds))
            ((eq_iff id j).0 same)
            (subst (λ o. Numbered (merged now id patch w o ∷ revisions id ds)) (sym first)
              (merged-Numbered now id patch w (revisions id ds) h
                (subst (λ o. keeps_meaning o (merged now id patch w o) ≡ false) first new))))
        (λ other. k)

  pub append_details-Numbered :
      (j : String)
      → Numbered (revisions id ds)
      → Numbered (revisions j ds)
      → Numbered (revisions j (append_details now id patch w ds).0)
  unfolding append_details
  append_details-Numbered j h k =
      let latest = latest_details id ds in
      let row = merged now id patch w latest in
      if_elim (λ (r : List DetailsRow × Option Edge). Numbered (revisions j r.0))
        (keeps_meaning latest row) (ds, none) (row ∷ ds, some (edge_of latest row)) (λ same. k)
        (λ new. appended-Numbered j latest (latest_details-head id ds h) h k new)

  -- Afterwards the thread has details, and the other threads have those they had.
  pub append_details-non_empty :
      (j : String)
      → Numbered (revisions id ds)
      → non_empty (revisions j (append_details now id patch w ds).0)
        ≡ ((id == j) || non_empty (revisions j ds))
  unfolding append_details
  append_details-non_empty j h =
      let latest = latest_details id ds in
      let row = merged now id patch w latest in
      if_elim
        (λ (r : List DetailsRow × Option Edge).
          non_empty (revisions j r.0) ≡ ((id == j) || non_empty (revisions j ds)))
        (keeps_meaning latest row) (ds, none) (row ∷ ds, some (edge_of latest row))
        (λ same.
          same_or_other id j ds
            (kept-non_empty latest row (revisions id ds) (latest_details-head id ds h) same))
        (λ new. ground arith)
