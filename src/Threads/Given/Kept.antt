-- ===== src/Threads/Given/Kept.antt =====
-- src/state/database.ts `claimNeedsYouScheduleRun`: what a schedule has been given stays given.
use owner_operator.Prelude.{
  ℕ, ◌≤◌, ◌≡◌, refl, sym, ap, subst, ◌∙◌, String, Bool, true, false, not, ◌&&◌, Option, none, some,
  List, [], ◌∷◌, arith, if_elim, any, count, eq_iff, Bool-cases, Option-cases, inl, inr,
  any-find-some, any-find-none,
}
use owner_operator.AgentRuns.{AgentRun}
use owner_operator.Schedules.{ScheduleDefinition}
use owner_operator.Threads.{Thread, Threads, Watermark, is_thread, thread_by_id}
use owner_operator.Threads.Board.{on_threads, takes}
use owner_operator.Threads.Given.{
  Agree, Given, eligible_last, is_change, is_given-writes, message, named,
}
use owner_operator.Threads.Latest.{HasMessage}
use owner_operator.Threads.Messages.{Allowed, step-HasMessage}
use owner_operator.Threads.NeedsYou.{
  Board, Change, claim_needs_you_schedule_run, fresh, given_to, is_eligible, is_given, names, waits,
  write_watermarks,
}
use owner_operator.Threads.Given.Watermarks.{step-watermarks}
use owner_operator.Threads.Scan.{ScanRow, precedes}
use owner_operator.Threads.Steps.{
  Operation, describe, enrich, mark, observe, purge, rename, request, snooze, step,
}
use owner_operator.Threads.Wf.{WfThreads}
use owner_operator.Threads.Given.Claims.{
  claim_elim, watermarks-WfThreads, last_of, is_last, has_state,
}

module _ (s t : String) (m : ℕ) where
  -- The schedule has been given the message, if it is still the last one of the thread.
  abbrev pub IsGiven : Threads → Type 0
  IsGiven db = HasMessage t (Given s t m db.watermarks) db.threads

  pub fresh-Agree :
      (now : ℕ) (runs : List AgentRun) (s' : String) (db : Threads) (changes : List Change)
      (x : Thread)
      → count (is_thread t) db.threads ≤ 1
      → thread_by_id t db.threads ≡ some x
      → x.last_message_at ≡ some m
      → Agree s t m (fresh now runs s' db changes)
  unfolding fresh
  fresh-Agree now runs s' db [] x unique found last = tt
  fresh-Agree now runs s' db (c ∷ cs) x unique found last =
      let rest = fresh-Agree now runs s' db cs x unique found last in
      if_elim (Agree s t m) (is_eligible now runs db c && not (is_given s' db.watermarks c)) _ _
        (λ taken. (
          λ own. last_of c x last (
              eligible_last s t m (waits now runs db.details) c db.threads x (ground (arith, taken))
                unique found own),
          rest,
        ))
        (λ left. rest)

  step-is_given :
      (fold : String → String) (now : ℕ) (runs : List AgentRun) (op : Operation) (b : Board)
      → takes t (on_threads op) b ≡ false
      → is_given s (step fold now runs op b.threads).watermarks (message s t m)
        ≡ is_given s b.threads.watermarks (message s t m)
  step-is_given fold now runs op b spared =
      ap (given_to (message s t m)) (step-watermarks s t fold now runs op b spared)

  -- A message that is observed is no older than the last one.
  seen_again :
      (ws : List Watermark) (row : ScanRow) (l : Option ℕ)
      → precedes (some row.last_message_at) l ≡ false
      → Given s t m ws l
      → Given s t m ws (some row.last_message_at)
  seen_again ws row none current (below, given) = cc
  seen_again ws row (some n) current (below, given) = (
    ground (arith, current, below),
    λ last. let same : n ≡ m = ground (arith, current, below, last) in given (ap some same),
  )

  allowed :
      (ws : List Watermark) (op : Operation) (b : Board)
      → takes t (on_threads op) b ≡ false
      → Allowed (Given s t m ws) t op b.threads
  allowed ws (observe blacklist row) b spared =
      λ own l current given. seen_again ws row l current given
  allowed ws (purge blacklist) b spared = spared
  allowed ws (describe other topic summary through) b spared = tt
  allowed ws (enrich other details through children) b spared = tt
  allowed ws (request requests) b spared = tt
  allowed ws (mark ids) b spared = tt
  allowed ws (snooze other chosen) b spared = tt
  allowed ws (rename other title) b spared = tt

  pub step-IsGiven :
      (fold : String → String) (now : ℕ) (runs : List AgentRun) (op : Operation) (b : Board)
      → takes t (on_threads op) b ≡ false
      → WfThreads b.threads
      → IsGiven b.threads
      → IsGiven (step fold now runs op b.threads)
  step-IsGiven fold now runs op b spared wf (x, found, given) =
      let (state, has) =
        has_state t b.threads wf (any-find-some (is_thread t) b.threads.threads x found) in
      let (y, found', (below, given')) =
        step-HasMessage (Given s t m b.threads.watermarks) t fold now runs op state b.threads
          (allowed b.threads.watermarks op b spared) has (x, found, given) in
      (y, found', (below, λ last. step-is_given fold now runs op b spared ∙ given' last))

  pub claim-WfThreads :
      (now : ℕ) (runs : List AgentRun) (id : String) (s' : ScheduleDefinition)
      (changes : List Change) (b : Board)
      → WfThreads b.threads
      → WfThreads (claim_needs_you_schedule_run now runs id s' changes b).0.threads
  unfolding claim_needs_you_schedule_run
  claim-WfThreads now runs id s' changes b wf =
      let cs = fresh now runs s'.id b.threads changes in
      claim_elim (λ (b' : Board). WfThreads b'.threads) now id s' cs b wf
        (λ tables.
          watermarks-WfThreads b.threads (write_watermarks s'.id cs b.threads.watermarks) wf)

  pub claim-IsGiven :
      (now : ℕ) (runs : List AgentRun) (id : String) (s' : ScheduleDefinition)
      (changes : List Change) (b : Board)
      → WfThreads b.threads
      → IsGiven b.threads
      → IsGiven (claim_needs_you_schedule_run now runs id s' changes b).0.threads
  unfolding claim_needs_you_schedule_run
  claim-IsGiven now runs id s' changes b wf (x, found, (below, given)) =
      claim_elim (λ (b' : Board). IsGiven b'.threads) now id s'
        (fresh now runs s'.id b.threads changes) b (x, found, (below, given))
        (λ tables. (
          x,
          found,
          (
            below,
            λ last.
                is_given-writes s t m s'.id (fresh now runs s'.id b.threads changes)
                  b.threads.watermarks
                  (fresh-Agree now runs s'.id b.threads changes x (wf.unique t) found last)
                  (given last),
          ),
        ))

  seen_of :
      (c : Change) (db : Threads) (p : Thread → Bool)
      → count (is_thread t) db.threads ≤ 1
      → any (λ y. names c y && p y) db.threads ≡ true
      → is_change t m c ≡ true
      → HasMessage t (λ l. l ≡ some m) db.threads
  seen_of c db p unique here this = elim (Option-cases (thread_by_id t db.threads)) [
    | inl missing ↦ absurd (
        ground (
          arith,
          here,
          named s t m p c db.threads (ground (arith, this))
              (any-find-none (is_thread t) db.threads missing),
        ))
    | inr (x, found) ↦ (
      x,
      found,
      is_last x.last_message_at c.last_message_at m
          (eligible_last s t m p c db.threads x here unique found (ground (arith, this)))
          (ground (arith, this)),
    )
  ]

  -- A change that a claim takes is the last message of its thread.
  pub fresh_seen :
      (now : ℕ) (runs : List AgentRun) (s' : String) (db : Threads) (changes : List Change)
      → count (is_thread t) db.threads ≤ 1
      → any (is_change t m) (fresh now runs s' db changes) ≡ true
      → HasMessage t (λ l. l ≡ some m) db.threads
  unfolding fresh
  fresh_seen now runs s' db [] unique here = cc
  fresh_seen now runs s' db (c ∷ cs) unique here =
      elim (Bool-cases (is_eligible now runs db c && not (is_given s' db.watermarks c))) [
        | inl taken ↦ elim (Bool-cases (is_change t m c)) [
          | inl this ↦ seen_of c db (waits now runs db.details) unique (ground (arith, taken)) this
          | inr later ↦ fresh_seen now runs s' db cs unique (ground (arith, here, taken, later))
        ]
        | inr left ↦ fresh_seen now runs s' db cs unique (ground (arith, here, left))
      ]

  given_again :
      (c : Change) (db : Threads) (p : Thread → Bool)
      → count (is_thread t) db.threads ≤ 1
      → IsGiven db
      → any (λ y. names c y && p y) db.threads ≡ true
      → is_change t m c ≡ true
      → is_given s db.watermarks c ≡ true
  given_again c db p unique (x, found, (below, given)) here this =
      let (y, found', last) = seen_of c db p unique here this in
      let same : x ≡ y = ground (arith, found, found') in
      let whole : c ≡ message s t m = ground (arith, this, eq_iff c.thread_id t) in
      subst (λ z. is_given s db.watermarks z ≡ true) (sym whole)
        (given (ap (λ (z : Thread). z.last_message_at) same ∙ last))

  pub fresh_once :
      (now : ℕ) (runs : List AgentRun) (db : Threads) (changes : List Change)
      → count (is_thread t) db.threads ≤ 1
      → IsGiven db
      → any (is_change t m) (fresh now runs s db changes) ≡ false
  unfolding fresh
  fresh_once now runs db [] unique given = refl
  fresh_once now runs db (c ∷ cs) unique given =
      if_elim (λ ds. any (is_change t m) ds ≡ false)
        (is_eligible now runs db c && not (is_given s db.watermarks c)) _ _
        (λ taken. elim (Bool-cases (is_change t m c)) [
          | inl this ↦ absurd (
              ground (
                arith,
                taken,
                given_again c db (waits now runs db.details) unique given (ground (arith, taken))
                    this,
              ))
          | inr other ↦ ground (arith, other, fresh_once now runs db cs unique given)
        ])
        (λ left. fresh_once now runs db cs unique given)
