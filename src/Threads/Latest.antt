-- ===== src/Threads/Latest.antt =====
-- src/state/database.ts: the state of a thread after details are appended, and its last message after
-- the rows are updated.
use owner_operator.Prelude.{
  ℕ, ◌≡◌, refl, sym, ap, subst, ◌∙◌, String, Bool, true, false, not, Option, none, some, List, [],
  ◌∷◌, ◌==◌, arith, if_elim, any, eq_iff, eq_refl, Bool-cases, inl, inr, update_where, get_or, keep,
  find-update_where, any-find-some,
}
use owner_operator.Threads.{
  DetailsPatch, DetailsRow, Edge, Thread, ThreadState, Writer, append_details, done, edge_of, idle,
  is_thread, keeps_meaning, latest_details, merged, needs_you, same_state, thread_by_id, working,
}

-- The latest details of the thread have this state.
abbrev pub HasState : String → ThreadState → List DetailsRow → Type 0
HasState id s ds = (d : DetailsRow) × (latest_details id ds ≡ some d) × (d.state ≡ s)

-- The thread stands, and this holds of its last message.
abbrev pub HasMessage : String → (Option ℕ → Type 0) → List Thread → Type 0
HasMessage id Q threads = (t : Thread) × (thread_by_id id threads ≡ some t) × Q t.last_message_at

pub same_state-eq : (s t : ThreadState) → same_state s t ≡ true → s ≡ t
same_state-eq needs_you needs_you h = refl
same_state-eq working working h = refl
same_state-eq idle idle h = refl
same_state-eq done done h = refl
same_state-eq needs_you working h = cc
same_state-eq needs_you idle h = cc
same_state-eq needs_you done h = cc
same_state-eq working needs_you h = cc
same_state-eq working idle h = cc
same_state-eq working done h = cc
same_state-eq idle needs_you h = cc
same_state-eq idle working h = cc
same_state-eq idle done h = cc
same_state-eq done needs_you h = cc
same_state-eq done working h = cc
same_state-eq done idle h = cc

module _ (now : ℕ) (id : String) (patch : DetailsPatch) (w : Writer) (ds : List DetailsRow) where
  -- The row that is appended is the latest.
  latest_details-merged :
      (latest : Option DetailsRow)
      → latest_details id ds ≡ latest
      → latest_details id (merged now id patch w latest ∷ ds) ≡ some (merged now id patch w latest)
  unfolding latest_details
  latest_details-merged none h = ground (arith, h, eq_refl id)
  latest_details-merged (some d) h = ground (arith, h, eq_refl id)

  pub latest_details-append_ne :
      (j : String)
      → (id == j) ≡ false
      → latest_details j (append_details now id patch w ds).0 ≡ latest_details j ds
  unfolding append_details latest_details
  latest_details-append_ne j other = ground arith

  kept_state :
      (d : DetailsRow)
      → keeps_meaning (some d) (merged now id patch w (some d)) ≡ true
      → d.state ≡ get_or patch.state d.state
  kept_state d same = same_state-eq d.state (get_or patch.state d.state) (ground (arith, same))

  pub append_found :
      (d : DetailsRow)
      → latest_details id ds ≡ some d
      → HasState id (get_or patch.state d.state) (append_details now id patch w ds).0
  unfolding append_details
  append_found d here =
      let row = merged now id patch w (some d) in
      rw here (
        if_elim
          (λ (r : List DetailsRow × Option Edge). HasState id (get_or patch.state d.state) r.0)
          (keeps_meaning (some d) row) (ds, none) (row ∷ ds, some (edge_of (some d) row))
          (λ same. (d, here, kept_state d same))
          (λ new. (row, latest_details-merged (some d) here, refl)))

  -- A thread keeps its state where the patch of it names none or the same.
  pub append_details-HasState :
      (j : String) (s : ThreadState)
      → ((id == j) ≡ true → get_or patch.state s ≡ s)
      → HasState j s ds
      → HasState j s (append_details now id patch w ds).0
  append_details-HasState j s keeps (d, here, is) = elim (Bool-cases (id == j)) [
    | inl own ↦
        let (e, there, state) =
          append_found d
            (subst (λ i. latest_details i ds ≡ some d) (sym ((eq_iff id j).0 own)) here) in
        (
          e,
          subst (λ i. latest_details i (append_details now id patch w ds).0 ≡ some e)
              ((eq_iff id j).0 own) there,
          state ∙ ap (get_or patch.state) is ∙ keeps own,
        )
    | inr other ↦ (d, latest_details-append_ne j other ∙ here, is)
  ]

-- An update of the rows keeps what holds of the last message, if it does for the row that is found.
pub update_where-HasMessage :
    (Q : Option ℕ → Type 0) (j : String) (p : Thread → Bool) (f : Thread → Thread)
    (threads : List Thread)
    → ((t : Thread) → (f t).id ≡ t.id)
    → ((t : Thread)
        → thread_by_id j threads ≡ some t
        → p t ≡ true
        → Q t.last_message_at
        → Q (f t).last_message_at)
    → HasMessage j Q threads
    → HasMessage j Q (update_where p f threads)
update_where-HasMessage Q j p f threads same keeps (t, found, q) =
    let after =
      find-update_where (is_thread j) p f threads t (λ y. ap (λ i. i == j) (same y)) found in
    elim (Bool-cases (p t)) [
      | inl hit ↦ (f t, after ∙ ground (arith, hit), keeps t found hit q)
      | inr miss ↦ (t, after ∙ ground (arith, miss), q)
    ]

-- So does a row that is put in front under another id.
pub consed-HasMessage :
    (Q : Option ℕ → Type 0) (j : String) (new : Thread) (threads : List Thread)
    → any (is_thread new.id) threads ≡ false
    → HasMessage j Q threads
    → HasMessage j Q (new ∷ threads)
consed-HasMessage Q j new threads out (t, found, q) = elim (Bool-cases (is_thread j new)) [
  | inl own ↦ absurd (
      ground (
        arith,
        own,
        any-find-some (is_thread j) threads t found,
        subst (λ i. any (is_thread i) threads ≡ false) ((eq_iff new.id j).0 own) out,
      ))
  | inr other ↦ (t, ground (arith, other, found), q)
]

-- Details that go with other threads do not change the latest of this one.
pub latest_details-keep :
    (gone : String → Bool) (j : String) (ds : List DetailsRow)
    → gone j ≡ false
    → latest_details j (keep (λ (d : DetailsRow). not (gone d.thread_id)) ds) ≡ latest_details j ds
unfolding latest_details
latest_details-keep gone j [] stays = refl
latest_details-keep gone j (d ∷ ds) stays = elim (Bool-cases (d.thread_id == j)) [
  | inl own ↦
      let here : gone d.thread_id ≡ false = ap gone ((eq_iff d.thread_id j).0 own) ∙ stays in
      ground (arith, here, own, latest_details-keep gone j ds stays)
  | inr other ↦ ground (arith, other, latest_details-keep gone j ds stays)
]
