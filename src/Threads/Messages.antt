-- ===== src/Threads/Messages.antt =====
-- src/state/database.ts: what the operations on the threads do to the last message of one of them.
use owner_operator.Prelude.{
  ℕ, ◌≡◌, refl, sym, ap, subst, ◌∙◌, String, true, false, not, ◌&&◌, Option, none, some, List, [],
  ◌∷◌, ◌==◌, arith, if_elim, any, eq_iff, update_where, coalesce, is_some, keep, find-passes,
}
use owner_operator.AgentRuns.{AgentRun}
use owner_operator.Threads.{
  ChildEvidence, Thread, ThreadResolutionRow, ThreadState, Threads, child_evidence, is_thread,
  append_details, resolution_of, resolution_row, thread_by_id, latest_details,
}
use owner_operator.Threads.Blacklist.{
  Blacklist, is_blacklisted, is_purged, purge_blacklisted, purges,
}
use owner_operator.Threads.Enrichment.{
  ThreadEnrichment, append_model_details, append_model_details_if_fresh, assess, assessed,
  blank_thread, enriched_to, insert_or_ignore, is_busy, is_rejected, request_enrichment,
  request_one, requested,
}
use owner_operator.Threads.Latest.{HasMessage, HasState, consed-HasMessage, update_where-HasMessage}
use owner_operator.Threads.Observe.{
  ThreadChanged, observation_of, observed_state, record_observation,
}
use owner_operator.Threads.Owner.{
  Snooze, SnoozeResult, is_past, mark_done, mark_each, set_owner_title, set_snooze, snooze_thread,
  snoozed, unique,
}
use owner_operator.Threads.Scan.{
  RecordScanResult, ThreadObservation, is_stale, new_thread, observed, precedes, record_scan,
  upsert_thread,
}
use owner_operator.Threads.Wf.Operations.{enriched_to-id, snoozed-id}
use owner_operator.Threads.Steps.{
  Operation, describe, enrich, mark, observe, purge, rename, request, snooze, step,
}

snoozed-last_message_at :
    (s : Option Snooze) (t : Thread) → (snoozed s t).last_message_at ≡ t.last_message_at
snoozed-last_message_at none t = refl
snoozed-last_message_at (some (Snooze.until m)) t = refl
snoozed-last_message_at (some Snooze.next_message) t = refl

enriched_to-last_message_at :
    (through : Option ℕ) (t : Thread) → (enriched_to through t).last_message_at ≡ t.last_message_at
enriched_to-last_message_at none t = refl
enriched_to-last_message_at (some m) t = refl

module _ (Q : Option ℕ → Type 0) (j : String) where
  -- What an observation of the thread may do: it is not stale, and the message that it sees keeps `Q`.
  abbrev pub Keeps : Option ℕ → Type 0
  Keeps seen = (l : Option ℕ) → precedes seen l ≡ false → Q l → Q (coalesce seen l)

  not_stale :
      (runs : List AgentRun) (o : ThreadObservation) (s : ThreadState) (db : Threads) (t : Thread)
      → o.id ≡ j
      → thread_by_id j db.threads ≡ some t
      → HasState j s db.details
      → is_stale (resolution_row o.id runs db) o ≡ false
      → precedes o.last_message_at t.last_message_at ≡ false
  unfolding resolution_row
  not_stale runs o s db t own found (d, latest, state) current =
      rw
        (
          ap
              (λ i.
                is_stale
                  (resolution_of (child_evidence i runs db.threads) (thread_by_id i db.threads)
                    (latest_details i db.details))
                  o)
              own,
          found,
          latest,
        )
        at current

  same_id :
      (o : ThreadObservation) (t : Thread)
      → is_thread j t ≡ true
      → is_thread o.id t ≡ true
      → (o.id == j) ≡ true
  same_id o t own hit = ground (arith, own, hit, eq_iff t.id j, eq_iff t.id o.id, eq_iff o.id j)

  upsert_thread-HasMessage :
      (now : ℕ) (o : ThreadObservation) (threads : List Thread)
      → ((t : Thread)
          → thread_by_id j threads ≡ some t
          → (o.id == j) ≡ true
          → Q t.last_message_at
          → Q (coalesce o.last_message_at t.last_message_at))
      → HasMessage j Q threads
      → HasMessage j Q (upsert_thread now o threads)
  unfolding upsert_thread
  upsert_thread-HasMessage now o threads keeps h =
      if_elim (HasMessage j Q) (any (is_thread o.id) threads)
        (update_where (is_thread o.id) (observed now o) threads) (new_thread now o ∷ threads)
        (λ here.
          update_where-HasMessage Q j (is_thread o.id) (observed now o) threads (λ t. refl)
            (λ t found hit q.
              keeps t found (same_id o t (find-passes (is_thread j) threads t found) hit) q)
            h)
        (λ out. consed-HasMessage Q j (new_thread now o) threads out h)

  pub record_scan-HasMessage :
      (now : ℕ) (runs : List AgentRun) (o : ThreadObservation) (s : ThreadState) (db : Threads)
      → ((o.id == j) ≡ true → Keeps o.last_message_at)
      → HasState j s db.details
      → HasMessage j Q db.threads
      → HasMessage j Q (record_scan now runs o db).0.threads
  unfolding record_scan
  record_scan-HasMessage now runs o s db keeps state h =
      if_elim (λ (r : Threads × RecordScanResult). HasMessage j Q r.0.threads)
        (is_stale (resolution_row o.id runs db) o) _ _ (λ stale. h)
        (λ current.
          upsert_thread-HasMessage now o db.threads
            (λ t found own q.
              keeps own t.last_message_at
                (not_stale runs o s db t ((eq_iff o.id j).0 own) found state current) q)
            h)

  insert_or_ignore-HasMessage :
      (now : ℕ) (id : String) (threads : List Thread)
      → HasMessage j Q threads
      → HasMessage j Q (insert_or_ignore now id threads)
  unfolding insert_or_ignore
  insert_or_ignore-HasMessage now id threads h =
      if_elim (HasMessage j Q) (any (is_thread id) threads) threads (blank_thread now id ∷ threads)
        (λ here. h) (λ out. consed-HasMessage Q j (blank_thread now id) threads out h)

  assess-HasMessage :
      (now : ℕ) (id : String) (runs : List AgentRun) (details : ThreadEnrichment) (through : ℕ)
      (children : List ChildEvidence) (found : Option ThreadResolutionRow) (db : Threads)
      → HasMessage j Q db.threads
      → HasMessage j Q (assess now id runs details through children found db).0.threads
  unfolding append_details
  assess-HasMessage now id runs details through children none db h = h
  assess-HasMessage now id runs details through children (some current) db h =
      if_elim (λ (r : Threads × Option ℕ). HasMessage j Q r.0.threads)
        (is_rejected current (is_busy id runs current) details through children) _ _ (λ out. h)
        (λ taken.
          if_elim (HasMessage j Q) (is_some details.status_summary) _ _
            (λ account.
              update_where-HasMessage Q j (is_thread id)
                (assessed now through (is_busy id runs current) current.children_evidence)
                db.threads (λ t. refl) (λ t found hit q. q) h)
            (λ bare. h))

  request_enrichment-HasMessage :
      (requests : List (String × ℕ)) (db : Threads)
      → HasMessage j Q db.threads
      → HasMessage j Q (request_enrichment requests db).0.threads
  unfolding request_enrichment
  request_enrichment-HasMessage [] db h = h
  request_enrichment-HasMessage ((id, m) ∷ rest) db h =
      request_enrichment-HasMessage rest (request_one id m db).0 (
        update_where-HasMessage Q j (λ t. is_thread id t && requested m db.details t)
          (λ t. record t { enriched_through_message_at = none }) db.threads (λ t. refl)
          (λ t found hit q. q) h)

  mark_each-threads :
      (now : ℕ) (ids : List String) (db : Threads) → (mark_each now ids db).0.threads ≡ db.threads
  unfolding mark_each
  mark_each-threads now [] db = refl
  mark_each-threads now (id ∷ rest) db =
      mark_each-threads now rest _
      ∙ if_elim (λ (d : Threads). d.threads ≡ db.threads) (any (is_thread id) db.threads) _ db
          (λ here. refl) (λ out. refl)

  snooze_thread-HasMessage :
      (now : ℕ) (id : String) (s : Option Snooze) (db : Threads)
      → HasMessage j Q db.threads
      → HasMessage j Q (snooze_thread now id s db).0.threads
  unfolding snooze_thread set_snooze
  snooze_thread-HasMessage now id s db h =
      if_elim (λ (r : Threads × SnoozeResult). HasMessage j Q r.0.threads) (is_past now s) _ _
        (λ over. h)
        (λ ahead.
          if_elim (λ (r : Threads × SnoozeResult). HasMessage j Q r.0.threads)
            (any (is_thread id) db.threads) _ _
            (λ found.
              update_where-HasMessage Q j (is_thread id) (snoozed s) db.threads (snoozed-id s)
                (λ t found hit q. subst Q (sym (snoozed-last_message_at s t)) q) h)
            (λ lost. h))

  find-keep-not-purged :
      (b : Blacklist) (threads : List Thread) (t : Thread)
      → purges b threads j ≡ false
      → thread_by_id j threads ≡ some t
      → thread_by_id j (keep (λ y. not (is_purged b y)) threads) ≡ some t
  find-keep-not-purged b [] t safe found = ground (arith, found)
  find-keep-not-purged b (y ∷ ys) t safe found =
      ground (arith, safe, found, find-keep-not-purged b ys t)

  -- What an operation may do for `Q` to stay true of the last message.
  abbrev pub Allowed : Operation → Threads → Type 0
  Allowed (observe b row) db = (row.id == j) ≡ true → Keeps (some row.last_message_at)
  Allowed (purge b) db = purges b db.threads j ≡ false
  Allowed (describe id topic status_summary through) db = Unit
  Allowed (enrich id details through children) db = Unit
  Allowed (request requests) db = Unit
  Allowed (mark ids) db = Unit
  Allowed (snooze id s) db = Unit
  Allowed (rename id title) db = Unit

  pub step-HasMessage :
      (fold : String → String) (now : ℕ) (runs : List AgentRun) (op : Operation) (s : ThreadState)
      (db : Threads)
      → Allowed op db
      → HasState j s db.details
      → HasMessage j Q db.threads
      → HasMessage j Q (step fold now runs op db).threads
  unfolding step record_observation append_model_details append_model_details_if_fresh mark_done
      set_owner_title purge_blacklisted
  step-HasMessage fold now runs (observe b row) s db allowed state h =
      if_elim (λ (r : Threads × Option ThreadChanged). HasMessage j Q r.0.threads)
        (is_blacklisted fold b row.project (some row.repo)) _ _ (λ blocked. h)
        (λ seen.
          record_scan-HasMessage now runs
            (observation_of row (observed_state (resolution_row row.id runs db) row)) s db allowed
            state h)
  step-HasMessage fold now runs (describe id topic status_summary through) s db allowed state h =
      update_where-HasMessage Q j (is_thread id) (enriched_to through)
        (insert_or_ignore now id db.threads) (enriched_to-id through)
        (λ t found hit q. subst Q (sym (enriched_to-last_message_at through t)) q)
        (insert_or_ignore-HasMessage now id db.threads h)
  step-HasMessage fold now runs (enrich id details through children) s db allowed state h =
      assess-HasMessage now id runs details through children (resolution_row id runs db) db h
  step-HasMessage fold now runs (request requests) s db allowed state h =
      request_enrichment-HasMessage requests db h
  step-HasMessage fold now runs (mark ids) s db allowed state h =
      subst (HasMessage j Q) (sym (mark_each-threads now (unique [] ids) db)) h
  step-HasMessage fold now runs (snooze id chosen) s db allowed state h =
      snooze_thread-HasMessage now id chosen db h
  step-HasMessage fold now runs (rename id title) s db allowed state h =
      update_where-HasMessage Q j (is_thread id) _ db.threads (λ t. refl) (λ t found hit q. q) h
  step-HasMessage fold now runs (purge b) s db allowed state (t, found, q) =
      (t, find-keep-not-purged b db.threads t allowed found, q)
