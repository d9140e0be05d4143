-- ===== src/Threads/Done.antt =====
-- src/state/database.ts and packages/core/src/resolve.mjs: what the owner has closed stays closed.
use owner_operator.Prelude.{
  ℕ, ◌≡◌, refl, sym, subst, ◌∙◌, String, Bool, true, false, ◌&&◌, Option, none, some, List, [], ◌∷◌,
  ◌==◌, arith, if_elim, if◌then◌else◌, any, eq_iff, ltb,
}
use owner_operator.AgentRuns.{AgentRun}
use owner_operator.Threads.{
  ChildEvidence, ThreadResolutionRow, Threads, append_details, child_evidence, done, is_thread,
  latest_details, model, of_latest, owner, poll, resolution_row,
}
use owner_operator.Threads.Blacklist.{Blacklist, is_blacklisted, purge_blacklisted, purges}
use owner_operator.Threads.Enrichment.{
  ThreadEnrichment, append_model_details, append_model_details_if_fresh, assess, enrichment_patch,
  is_busy, is_rejected, model_patch, request_enrichment, request_one,
}
use owner_operator.Threads.Latest.{
  HasMessage, HasState, append_details-HasState, latest_details-keep,
}
use owner_operator.Threads.Messages.{Allowed, step-HasMessage}
use owner_operator.Threads.Observe.{
  ThreadChanged, is_assessed, observation_of, observed_state, record_observation,
}
use owner_operator.Threads.Owner.{
  SnoozeResult, is_past, mark_done, mark_each, set_owner_title, set_snooze, snooze_thread, unique,
}
use owner_operator.Threads.Scan.{
  RecordScanResult, ScanRow, ThreadObservation, holds_done, is_stale, precedes, record_scan,
  resolve_state, state_patch,
}
use owner_operator.Threads.Steps.{
  Moment, Operation, describe, enrich, mark, observe, purge, rename, replay, request, snooze, step,
}

-- The thread is done, and this was its last message.
abbrev pub IsDone : String → ℕ → Threads → Type 0
IsDone id m db = HasState id done db.details × HasMessage id (λ l. l ≡ some m) db.threads

-- An observation of a message of the thread that is newer, or a purge that takes the thread.
abbrev pub wakes : String → ℕ → Operation → Threads → Bool
wakes id m (observe b row) db = (row.id == id) && ltb m row.last_message_at
wakes id m (purge b) db = purges b db.threads id
wakes id m op db = false

-- Nothing in the history wakes the thread.
abbrev pub Sleeps : (fold : String → String) → String → ℕ → List Moment → Threads → Type 0
Sleeps fold id m [] db = Unit
Sleeps fold id m (x ∷ rest) db =
    (wakes id m x.operation db ≡ false)
    × Sleeps fold id m rest (step fold x.now x.runs x.operation db)

resolve_state-done :
    (previous : ThreadResolutionRow) (row : ScanRow) (m : ℕ)
    → previous.state ≡ done
    → previous.last_message_at ≡ some m
    → ltb m row.last_message_at ≡ false
    → observed_state (some previous) row ≡ done
unfolding observed_state resolve_state holds_done
resolve_state-done previous row m closed last old =
    if_elim (λ s. s ≡ done) (is_assessed previous row) previous.state _ (λ held. closed)
      (λ fresh. ground (arith, closed, last, old))

-- What the store says of a thread that is done.
done_row :
    (id : String) (m : ℕ) (runs : List AgentRun) (db : Threads)
    → IsDone id m db
    → (r : ThreadResolutionRow) × (resolution_row id runs db ≡ some r)
      × (r.state ≡ done)
      × (r.last_message_at ≡ some m)
unfolding resolution_row
done_row id m runs db ((d, latest, closed), (t, found, last)) = (
  record {
    id = t.id;
    state = d.state;
    last_message_at = t.last_message_at;
    enriched_through_message_at = t.enriched_through_message_at;
    enriched_while_working = t.enriched_while_working;
    enriched_children = t.enriched_children;
    enrichment_contract = t.enrichment_contract;
    children_evidence = child_evidence id runs db.threads;
  },
  rw (found, latest),
  closed,
  last,
)

observed_done :
    (id : String) (m : ℕ) (runs : List AgentRun) (row : ScanRow) (db : Threads)
    → IsDone id m db
    → row.id ≡ id
    → ltb m row.last_message_at ≡ false
    → observed_state (resolution_row row.id runs db) row ≡ done
observed_done id m runs row db h own old =
    let (r, found, closed, last) = done_row id m runs db h in
    subst (λ i. observed_state (resolution_row i runs db) row ≡ done) (sym own)
      (rw found (resolve_state-done r row m closed last old))

module _ (id : String) (m : ℕ) where
  record_scan-done :
      (now : ℕ) (runs : List AgentRun) (o : ThreadObservation) (db : Threads)
      → ((o.id == id) ≡ true → o.state ≡ done)
      → HasState id done db.details
      → HasState id done (record_scan now runs o db).0.details
  unfolding record_scan
  record_scan-done now runs o db keeps h =
      if_elim (λ (r : Threads × RecordScanResult). HasState id done r.0.details)
        (is_stale (resolution_row o.id runs db) o) _ _ (λ stale. h)
        (λ current.
          append_details-HasState now o.id (state_patch o.state) poll db.details id done keeps h)

  assess-done :
      (now : ℕ) (other : String) (runs : List AgentRun) (details : ThreadEnrichment) (through : ℕ)
      (children : List ChildEvidence) (found : Option ThreadResolutionRow) (db : Threads)
      → ((current : ThreadResolutionRow)
          → found ≡ some current
          → (other == id) ≡ true
          → current.state ≡ done)
      → HasState id done db.details
      → HasState id done (assess now other runs details through children found db).0.details
  unfolding append_details
  assess-done now other runs details through children none db closed h = h
  assess-done now other runs details through children (some current) db closed h =
      let busy = is_busy other runs current in
      if_elim (λ (r : Threads × Option ℕ). HasState id done r.0.details)
        (is_rejected current busy details through children) _ _ (λ out. h)
        (λ taken.
          append_details-HasState now other
            (enrichment_patch busy details
              (of_latest (λ d. d.topic) none (latest_details other db.details)))
            model db.details id done (λ own. ground (arith, taken, closed current refl own)) h)

  request_enrichment-details :
      (requests : List (String × ℕ)) (db : Threads)
      → (request_enrichment requests db).0.details ≡ db.details
  unfolding request_enrichment
  request_enrichment-details [] db = refl
  request_enrichment-details ((other, last) ∷ rest) db =
      request_enrichment-details rest (request_one other last db).0

  mark_each-done :
      (now : ℕ) (ids : List String) (db : Threads)
      → HasState id done db.details
      → HasState id done (mark_each now ids db).0.details
  unfolding mark_each
  mark_each-done now [] db h = h
  mark_each-done now (other ∷ rest) db h =
      mark_each-done now rest
        (if any (is_thread other) db.threads
          then record db {
            details = (append_details now other (state_patch done) owner db.details).0;
          }
          else db)
        (if_elim (λ (d : Threads). HasState id done d.details) (any (is_thread other) db.threads) _
          db
          (λ here.
            append_details-HasState now other (state_patch done) owner db.details id done
              (λ own. refl) h)
          (λ out. h))

  row_done :
      (runs : List AgentRun) (other : String) (current : ThreadResolutionRow) (db : Threads)
      → resolution_row other runs db ≡ some current
      → (other == id) ≡ true
      → IsDone id m db
      → current.state ≡ done
  row_done runs other current db found own h =
      let (r, there, closed, last) = done_row id m runs db h in
      let here =
        subst (λ i. resolution_row i runs db ≡ some current) ((eq_iff other id).0 own) found in
      ground (arith, there, here, closed)

  step-done :
      (fold : String → String) (now : ℕ) (runs : List AgentRun) (op : Operation) (db : Threads)
      → wakes id m op db ≡ false
      → IsDone id m db
      → HasState id done (step fold now runs op db).details
  unfolding step record_observation append_model_details append_model_details_if_fresh mark_done
      snooze_thread set_snooze set_owner_title purge_blacklisted
  step-done fold now runs (observe b row) db asleep h =
      let state = observed_state (resolution_row row.id runs db) row in
      if_elim (λ (r : Threads × Option ThreadChanged). HasState id done r.0.details)
        (is_blacklisted fold b row.project (some row.repo)) _ _ (λ blocked. h.0)
        (λ seen.
          record_scan-done now runs (observation_of row state) db
            (λ own.
              observed_done id m runs row db h ((eq_iff row.id id).0 own)
                (ground (arith, own, asleep)))
            h.0)
  step-done fold now runs (describe other topic summary through) db asleep h =
      append_details-HasState now other (model_patch topic summary) model db.details id done
        (λ own. refl) h.0
  step-done fold now runs (enrich other details through children) db asleep h =
      assess-done now other runs details through children (resolution_row other runs db) db
        (λ current found own. row_done runs other current db found own h) h.0
  step-done fold now runs (request requests) db asleep h =
      subst (HasState id done) (sym (request_enrichment-details requests db)) h.0
  step-done fold now runs (mark ids) db asleep h = mark_each-done now (unique [] ids) db h.0
  step-done fold now runs (snooze other chosen) db asleep h =
      if_elim (λ (r : Threads × SnoozeResult). HasState id done r.0.details) (is_past now chosen) _
        _ (λ over. h.0)
        (λ ahead.
          if_elim (λ (r : Threads × SnoozeResult). HasState id done r.0.details)
            (any (is_thread other) db.threads) _ _ (λ found. h.0) (λ lost. h.0))
  step-done fold now runs (rename other title) db asleep h = h.0
  step-done fold now runs (purge b) db asleep h =
      let (d, latest, closed) = h.0 in
      (
        d,
        latest_details-keep (λ (i : String). purges b db.threads i) id db.details asleep ∙ latest,
        closed,
      )

  seen_again :
      (b : Blacklist) (row : ScanRow) (l : Option ℕ) (db : Threads)
      → wakes id m (observe b row) db ≡ false
      → (row.id == id) ≡ true
      → precedes (some row.last_message_at) l ≡ false
      → l ≡ some m
      → some row.last_message_at ≡ some m
  seen_again b row (some n) db asleep own current last = ground (arith, asleep, own, current, last)
  seen_again b row none db asleep own current last = cc

  allowed :
      (op : Operation) (db : Threads)
      → wakes id m op db ≡ false
      → Allowed (λ l. l ≡ some m) id op db
  allowed (observe b row) db asleep =
      λ own l current last. seen_again b row l db asleep own current last
  allowed (purge b) db asleep = asleep
  allowed (describe other topic summary through) db asleep = tt
  allowed (enrich other details through children) db asleep = tt
  allowed (request requests) db asleep = tt
  allowed (mark ids) db asleep = tt
  allowed (snooze other chosen) db asleep = tt
  allowed (rename other title) db asleep = tt

  step-IsDone :
      (fold : String → String) (now : ℕ) (runs : List AgentRun) (op : Operation) (db : Threads)
      → wakes id m op db ≡ false
      → IsDone id m db
      → IsDone id m (step fold now runs op db)
  step-IsDone fold now runs op db asleep h = (
    step-done fold now runs op db asleep h,
    step-HasMessage (λ l. l ≡ some m) id fold now runs op done db (allowed op db asleep) h.0 h.1,
  )

-- A thread that is done, with a last message, stays done through any history of polls, assessments and
-- requests of the owner in which nothing observes a newer message of it and no purge takes it.
pub replay-IsDone :
    (fold : String → String) (id : String) (m : ℕ) (history : List Moment) (db : Threads)
    → Sleeps fold id m history db
    → IsDone id m db
    → IsDone id m (replay fold history db)
unfolding replay
replay-IsDone fold id m [] db asleep h = h
replay-IsDone fold id m (x ∷ rest) db (asleep, later) h =
    replay-IsDone fold id m rest (step fold x.now x.runs x.operation db) later
      (step-IsDone id m fold x.now x.runs x.operation db asleep h)
