-- ===== src/Threads/Given.antt =====
-- src/state/database.ts `claimNeedsYouScheduleRun`: a schedule is given each message of a thread once.
pub mod Watermarks
pub mod Claims
pub mod Kept
pub mod Once
use owner_operator.Prelude.{
  ℕ, ◌≤◌, ◌≡◌, refl, sym, ap, subst, ◌∙◌, String, Bool, true, false, not, ◌&&◌, ◌||◌, Option, none,
  some, List, [], ◌∷◌, ◌==◌, arith, if_elim, if◌then◌else◌, any, count, eq_iff, eq_refl, Bool-cases,
  Option-cases, inl, inr, find, keep, nat_eq, update_where, find-passes, find-update_where,
  find-update_where-none, find-update_where_keep, any-find-none,
}
use owner_operator.AgentRuns.{AgentRun}
use owner_operator.Threads.{
  DetailsRow, Thread, ThreadState, Threads, Watermark, at_most, is_thread, latest_details,
  same_instant, thread_by_id,
}
use owner_operator.Threads.Latest.{HasMessage, HasState}
use owner_operator.Threads.NeedsYou.{
  Board, Change, fresh, given_to, is_eligible, is_given, names, waits, watermark_of,
  write_watermark, write_watermarks,
}
use owner_operator.Threads.Revisions.{latest_details-head, non_empty, head, revisions}
use owner_operator.Threads.Wf.{WfThreads, any-none}

abbrev pub is_change : (thread_id : String) → (last_message_at : ℕ) → Change → Bool
is_change t m c = (c.thread_id == t) && nat_eq c.last_message_at m

module _ (s t : String) (m : ℕ) where
  abbrev pub message : Change
  message = record { thread_id = t; last_message_at = m }

  -- The message is the thread's last one only if the schedule has been given it.
  abbrev pub Given : List Watermark → Option ℕ → Type 0
  Given ws l = (at_most (some m) l ≡ true) × (l ≡ some m → is_given s ws message ≡ true)

  -- Each change of the thread is that message.
  abbrev pub Agree : List Change → Type 0
  Agree [] = Unit
  Agree (c ∷ cs) = ((c.thread_id == t) ≡ true → c.last_message_at ≡ m) × Agree cs

  -- A watermark of another pair is of no account.
  same_pair : (s' : String) (c : Change) → Bool
  same_pair s' c = (s' == s) && (c.thread_id == t)

  other_pair :
      (s' : String) (c : Change) (w : Watermark)
      → (watermark_of s' c.thread_id w && watermark_of s t w)
        ≡ (watermark_of s t w && same_pair s' c)
  unfolding same_pair
  other_pair s' c w = ground (
    arith,
    eq_iff w.schedule_id s,
    eq_iff w.schedule_id s',
    eq_iff s' s,
    eq_iff w.thread_id t,
    eq_iff w.thread_id c.thread_id,
    eq_iff c.thread_id t,
  )

  abbrev marked : Change → Watermark → Watermark
  marked c w = record w { last_message_at = c.last_message_at }

  same_mark : (c : Change) (w : Watermark) → watermark_of s t (marked c w) ≡ watermark_of s t w
  same_mark c w = refl

  -- The watermark of another pair leaves this one.
  is_given-update_ne :
      (s' : String) (c : Change) (ws : List Watermark)
      → same_pair s' c ≡ false
      → is_given s (update_where (watermark_of s' c.thread_id) (marked c) ws) message
        ≡ is_given s ws message
  is_given-update_ne s' c ws other = elim (Option-cases (find (watermark_of s t) ws)) [
    | inl missing ↦ ap (given_to message) (
        find-update_where-none (watermark_of s t) (watermark_of s' c.thread_id) (marked c) ws
          (same_mark c) missing
        ∙ sym missing)
    | inr (w, found) ↦
        let miss : watermark_of s' c.thread_id w ≡ false =
          ground (arith, other_pair s' c w, other, find-passes (watermark_of s t) ws w found) in
        ap (given_to message) (
          find-update_where_keep (watermark_of s t) (watermark_of s' c.thread_id) (marked c) ws w
            (same_mark c) miss found
          ∙ sym found)
  ]

  is_given-update_self :
      (c : Change) (ws : List Watermark)
      → any (watermark_of s t) ws ≡ true
      → is_given s (update_where (watermark_of s t) (marked c) ws) message
        ≡ nat_eq c.last_message_at m
  is_given-update_self c ws here = elim (Option-cases (find (watermark_of s t) ws)) [
    | inl missing ↦ absurd (ground (arith, here, any-find-none (watermark_of s t) ws missing))
    | inr (w, found) ↦
        ap (given_to message) (
          find-update_where (watermark_of s t) (watermark_of s t) (marked c) ws w (same_mark c)
            found)
        ∙ ground (arith, find-passes (watermark_of s t) ws w found)
  ]

  is_given-write_ne :
      (s' : String) (c : Change) (ws : List Watermark)
      → same_pair s' c ≡ false
      → is_given s (write_watermark s' c ws) message ≡ is_given s ws message
  unfolding write_watermark same_pair
  is_given-write_ne s' c ws other =
      if_elim (λ us. is_given s us message ≡ is_given s ws message)
        (any (watermark_of s' c.thread_id) ws) _ _ (λ here. is_given-update_ne s' c ws other)
        (λ out. ap (given_to message) (ground (arith, other)))

  is_given-write_self :
      (s' : String) (c : Change) (ws : List Watermark)
      → same_pair s' c ≡ true
      → is_given s (write_watermark s' c ws) message ≡ nat_eq c.last_message_at m
  unfolding write_watermark same_pair
  is_given-write_self s' c ws own =
      let schedule : s' ≡ s = (eq_iff s' s).0 (ground (arith, own)) in
      let thread : c.thread_id ≡ t = (eq_iff c.thread_id t).0 (ground (arith, own)) in
      let pair : watermark_of s' c.thread_id ≡ watermark_of s t =
        ap (λ i. watermark_of i c.thread_id) schedule ∙ ap (watermark_of s) thread in
      if_elim (λ us. is_given s us message ≡ nat_eq c.last_message_at m)
        (any (watermark_of s' c.thread_id) ws) _ _
        (λ here.
          subst
            (λ (q : Watermark → Bool).
              is_given s (update_where q (marked c) ws) message ≡ nat_eq c.last_message_at m)
            (sym pair)
            (is_given-update_self c ws
              (subst (λ (q : Watermark → Bool). any q ws ≡ true) pair here)))
        (λ out. ground (arith, own))

  is_given-write :
      (s' : String) (c : Change) (ws : List Watermark)
      → ((c.thread_id == t) ≡ true → c.last_message_at ≡ m)
      → is_given s ws message ≡ true
      → is_given s (write_watermark s' c ws) message ≡ true
  unfolding same_pair
  is_given-write s' c ws agrees given = elim (Bool-cases (same_pair s' c)) [
    | inl own ↦
        is_given-write_self s' c ws own
        ∙ (let same : c.last_message_at ≡ m = agrees (ground (arith, own)) in ground (arith, same))
    | inr other ↦ is_given-write_ne s' c ws other ∙ given
  ]

  pub is_given-writes :
      (s' : String) (cs : List Change) (ws : List Watermark)
      → Agree cs
      → is_given s ws message ≡ true
      → is_given s (write_watermarks s' cs ws) message ≡ true
  unfolding write_watermarks
  is_given-writes s' [] ws agree given = given
  is_given-writes s' (c ∷ cs) ws (here, rest) given =
      is_given-writes s' cs (write_watermark s' c ws) rest (is_given-write s' c ws here given)

  -- What a claim has taken, its schedule has been given.
  pub is_given-taken :
      (cs : List Change) (ws : List Watermark)
      → Agree cs
      → any (is_change t m) cs ≡ true
      → is_given s (write_watermarks s cs ws) message ≡ true
  unfolding write_watermarks same_pair
  is_given-taken [] ws agree here = cc
  is_given-taken (c ∷ cs) ws (this, rest) here = elim (Bool-cases (is_change t m c)) [
    | inl now ↦
        is_given-writes s cs (write_watermark s c ws) rest
          (is_given-write_self s c ws (ground (arith, now, eq_refl s)) ∙ ground (arith, now))
    | inr later ↦ is_given-taken cs (write_watermark s c ws) rest (ground (arith, here, later))
  ]

  -- Without a row of the thread there is none that a change of it names.
  pub named :
      (p : Thread → Bool) (c : Change) (threads : List Thread)
      → (c.thread_id == t) ≡ true
      → any (is_thread t) threads ≡ false
      → any (λ y. names c y && p y) threads ≡ false
  named p c [] own out = refl
  named p c (y ∷ ys) own out = ground (
    arith,
    own,
    out,
    eq_iff y.id c.thread_id,
    eq_iff c.thread_id t,
    eq_iff y.id t,
    named p c ys own,
  )

  -- A change that is eligible names the last message of its thread.
  pub eligible_last :
      (p : Thread → Bool) (c : Change) (threads : List Thread) (x : Thread)
      → any (λ y. names c y && p y) threads ≡ true
      → count (is_thread t) threads ≤ 1
      → thread_by_id t threads ≡ some x
      → (c.thread_id == t) ≡ true
      → same_instant x.last_message_at (some c.last_message_at) ≡ true
  eligible_last p c [] x here unique found own = cc
  eligible_last p c (y ∷ ys) x here unique found own = elim (Bool-cases (is_thread t y)) [
    | inl first ↦
        let none_left : any (is_thread t) ys ≡ false =
          any-none t ys (ground (arith, unique, first)) in
        let same : y ≡ x = ground (arith, found, first) in
        ground (arith, same, here, named p c ys own none_left)
    | inr later ↦
        eligible_last p c ys x
          (ground
            (arith, here, later, own, eq_iff y.id c.thread_id, eq_iff c.thread_id t, eq_iff y.id t))
          (ground (arith, unique, later)) (ground (arith, found, later)) own
  ]
