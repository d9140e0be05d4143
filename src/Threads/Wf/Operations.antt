-- ===== src/Threads/Wf/Operations.antt =====
-- src/state/database.ts: every operation on the threads keeps them well formed.
use owner_operator.Prelude.{
  ℕ, ◌≤◌, ◌≡◌, refl, ◌∙◌, String, Bool, true, ◌&&◌, ◌||◌, Option, none, some, List, [], ◌∷◌, ◌==◌,
  arith, if_elim, if◌then◌else◌, count, any, inl, inr, update_where, is_some, any-update_where,
  count-update_where-le, any-find-some, Option-cases,
}
use owner_operator.AgentRuns.{AgentRun}
use owner_operator.Threads.{
  ChildEvidence, Thread, ThreadResolutionRow, Threads, append_details, is_thread, model, owner,
  poll, resolution_row, thread_by_id, done, of_latest, latest_details,
}
use owner_operator.Threads.Blacklist.{is_blacklisted}
use owner_operator.Threads.Scan.{
  RecordScanResult, ThreadObservation, is_stale, new_thread, observed, record_scan, state_patch,
  upsert_thread,
}
use owner_operator.Threads.Observe.{
  observed_state, observation_of, record_observation, ThreadChanged,
}
use owner_operator.Threads.Enrichment.{
  ThreadEnrichment, append_model_details, append_model_details_if_fresh, assess, insert_or_ignore,
  request_enrichment, take_assessment, assessed, enrichment_patch, is_busy, is_rejected,
  request_one, requested, blank_thread, enriched_to, model_patch,
}
use owner_operator.Threads.Owner.{
  Snooze, mark_done, mark_each, set_owner_title, set_snooze, snooze_thread, unique, snoozed,
  SnoozeResult, is_past,
}
use owner_operator.Threads.Steps.{
  Operation, describe, enrich, mark, observe, purge, rename, request, snooze, step, Moment, replay,
}
use owner_operator.Threads.Wf.{
  WfThreads, append_details-WfThreads, append_details-WfThreads_present, consed_unique, present_or,
  update_where-WfThreads,
}
use owner_operator.Threads.Wf.Purge.{purge_blacklisted-WfThreads}

upsert_thread-any :
    (now : ℕ) (o : ThreadObservation) (threads : List Thread) (j : String)
    → any (is_thread j) (upsert_thread now o threads) ≡ ((o.id == j) || any (is_thread j) threads)
unfolding upsert_thread
upsert_thread-any now o threads j =
    if_elim (λ ts. any (is_thread j) ts ≡ ((o.id == j) || any (is_thread j) threads))
      (any (is_thread o.id) threads) (update_where (is_thread o.id) (observed now o) threads)
      (new_thread now o ∷ threads)
      (λ here.
        any-update_where (is_thread j) (is_thread o.id) (observed now o) threads (λ t. refl)
        ∙ present_or o.id j threads here)
      (λ out. refl)

upsert_thread_unique :
    (now : ℕ) (o : ThreadObservation) (threads : List Thread) (j : String)
    → count (is_thread j) threads ≤ 1
    → count (is_thread j) (upsert_thread now o threads) ≤ 1
unfolding upsert_thread
upsert_thread_unique now o threads j h =
    if_elim (λ ts. count (is_thread j) ts ≤ 1) (any (is_thread o.id) threads)
      (update_where (is_thread o.id) (observed now o) threads) (new_thread now o ∷ threads)
      (λ here. omega (
        arith,
        count-update_where-le (is_thread j) (is_thread o.id) (observed now o) threads
            (λ t passes own. own),
      ))
      (λ out. consed_unique (new_thread now o) j threads out h)

pub record_scan-WfThreads :
    (now : ℕ) (runs : List AgentRun) (o : ThreadObservation) (db : Threads)
    → WfThreads db
    → WfThreads (record_scan now runs o db).0
unfolding record_scan
record_scan-WfThreads now runs o db wf =
    if_elim (λ (r : Threads × RecordScanResult). WfThreads r.0)
      (is_stale (resolution_row o.id runs db) o) _ _ (λ stale. wf)
      (λ current.
        append_details-WfThreads now o.id (state_patch o.state) poll db
          (upsert_thread now o db.threads) wf (upsert_thread-any now o db.threads)
          (λ j. upsert_thread_unique now o db.threads j (wf.unique j)))

insert_or_ignore-any :
    (now : ℕ) (id : String) (threads : List Thread) (j : String)
    → any (is_thread j) (insert_or_ignore now id threads) ≡ ((id == j) || any (is_thread j) threads)
unfolding insert_or_ignore
insert_or_ignore-any now id threads j =
    if_elim (λ ts. any (is_thread j) ts ≡ ((id == j) || any (is_thread j) threads))
      (any (is_thread id) threads) threads _ (λ here. present_or id j threads here) (λ out. refl)

insert_or_ignore_unique :
    (now : ℕ) (id : String) (threads : List Thread) (j : String)
    → count (is_thread j) threads ≤ 1
    → count (is_thread j) (insert_or_ignore now id threads) ≤ 1
unfolding insert_or_ignore
insert_or_ignore_unique now id threads j h =
    if_elim (λ ts. count (is_thread j) ts ≤ 1) (any (is_thread id) threads) threads
      (blank_thread now id ∷ threads) (λ here. h)
      (λ out. consed_unique (blank_thread now id) j threads out h)

pub enriched_to-id : (through : Option ℕ) (t : Thread) → (enriched_to through t).id ≡ t.id
enriched_to-id none t = refl
enriched_to-id (some m) t = refl

pub append_model_details-WfThreads :
    (now : ℕ) (id : String) (topic status_summary : Option String) (through : Option ℕ)
    (db : Threads)
    → WfThreads db
    → WfThreads (append_model_details now id topic status_summary through db).0
unfolding append_model_details
append_model_details-WfThreads now id topic status_summary through db wf =
    update_where-WfThreads
      (record db {
        threads = insert_or_ignore now id db.threads;
        details = (append_details now id (model_patch topic status_summary) model db.details).0;
      })
      (is_thread id) (enriched_to through) (enriched_to-id through)
      (append_details-WfThreads now id (model_patch topic status_summary) model db
        (insert_or_ignore now id db.threads) wf (insert_or_ignore-any now id db.threads)
        (λ j. insert_or_ignore_unique now id db.threads j (wf.unique j)))

-- A thread with a resolution row stands.
resolved_present :
    (id : String) (runs : List AgentRun) (db : Threads) (current : ThreadResolutionRow)
    → resolution_row id runs db ≡ some current
    → any (is_thread id) db.threads ≡ true
unfolding resolution_row
resolved_present id runs db current h = elim (Option-cases (thread_by_id id db.threads)) [
  | inl missing ↦ ground (arith, missing, h)
  | inr (t, found) ↦ any-find-some (is_thread id) db.threads t found
]

take_assessment-WfThreads :
    (now : ℕ) (id : String) (busy : Bool) (details : ThreadEnrichment) (through : ℕ)
    (current : ThreadResolutionRow) (db : Threads)
    → WfThreads db
    → any (is_thread id) db.threads ≡ true
    → WfThreads (take_assessment now id busy details through current db).0
unfolding append_details
take_assessment-WfThreads now id busy details through current db wf here =
    let title = of_latest (λ d. d.topic) none (latest_details id db.details) in
    let patch = enrichment_patch busy details title in
    let grown = append_details-WfThreads_present now id patch model db wf here in
    if_elim
      (λ ts.
        WfThreads
          (record db { threads = ts; details = (append_details now id patch model db.details).0 }))
      (is_some details.status_summary) _ _
      (λ account.
        update_where-WfThreads
          (record db { details = (append_details now id patch model db.details).0 }) (is_thread id)
          (assessed now through busy current.children_evidence) (λ t. refl) grown)
      (λ bare. grown)

assess-WfThreads :
    (now : ℕ) (id : String) (runs : List AgentRun) (details : ThreadEnrichment) (through : ℕ)
    (children : List ChildEvidence) (found : Option ThreadResolutionRow) (db : Threads)
    → WfThreads db
    → ((current : ThreadResolutionRow)
        → found ≡ some current
        → any (is_thread id) db.threads ≡ true)
    → WfThreads (assess now id runs details through children found db).0
unfolding append_details
assess-WfThreads now id runs details through children none db wf here = wf
assess-WfThreads now id runs details through children (some current) db wf here =
    if_elim (λ (r : Threads × Option ℕ). WfThreads r.0)
      (is_rejected current (is_busy id runs current) details through children) _ _ (λ out. wf)
      (λ taken.
        take_assessment-WfThreads now id (is_busy id runs current) details through current db wf
          (here current refl))

pub append_model_details_if_fresh-WfThreads :
    (now : ℕ) (id : String) (runs : List AgentRun) (details : ThreadEnrichment) (through : ℕ)
    (children : List ChildEvidence) (db : Threads)
    → WfThreads db
    → WfThreads (append_model_details_if_fresh now id runs details through children db).0
unfolding append_model_details_if_fresh
append_model_details_if_fresh-WfThreads now id runs details through children db wf =
    assess-WfThreads now id runs details through children (resolution_row id runs db) db wf
      (resolved_present id runs db)

request_enrichment-WfThreads :
    (requests : List (String × ℕ)) (db : Threads)
    → WfThreads db
    → WfThreads (request_enrichment requests db).0
unfolding request_enrichment
request_enrichment-WfThreads [] db wf = wf
request_enrichment-WfThreads ((id, m) ∷ rest) db wf =
    request_enrichment-WfThreads rest (request_one id m db).0 (
      update_where-WfThreads db (λ t. is_thread id t && requested m db.details t)
        (λ t. record t { enriched_through_message_at = none }) (λ t. refl) wf)

mark_each-WfThreads :
    (now : ℕ) (ids : List String) (db : Threads) → WfThreads db → WfThreads (mark_each now ids db).0
unfolding mark_each
mark_each-WfThreads now [] db wf = wf
mark_each-WfThreads now (id ∷ rest) db wf =
    mark_each-WfThreads now rest
      (if any (is_thread id) db.threads
        then record db { details = (append_details now id (state_patch done) owner db.details).0 }
        else db)
      (if_elim WfThreads (any (is_thread id) db.threads) _ db
        (λ here. append_details-WfThreads_present now id (state_patch done) owner db wf here)
        (λ out. wf))

pub snoozed-id : (s : Option Snooze) (t : Thread) → (snoozed s t).id ≡ t.id
snoozed-id none t = refl
snoozed-id (some (Snooze.until m)) t = refl
snoozed-id (some Snooze.next_message) t = refl

snooze_thread-WfThreads :
    (now : ℕ) (id : String) (s : Option Snooze) (db : Threads)
    → WfThreads db
    → WfThreads (snooze_thread now id s db).0
unfolding snooze_thread set_snooze
snooze_thread-WfThreads now id s db wf =
    let set = update_where-WfThreads db (is_thread id) (snoozed s) (snoozed-id s) wf in
    if_elim (λ (r : Threads × SnoozeResult). WfThreads r.0) (is_past now s) _ _ (λ over. wf)
      (λ ahead.
        if_elim (λ (r : Threads × SnoozeResult). WfThreads r.0) (any (is_thread id) db.threads) _ _
          (λ found. set) (λ lost. wf))

pub step-WfThreads :
    (fold : String → String) (now : ℕ) (runs : List AgentRun) (op : Operation) (db : Threads)
    → WfThreads db
    → WfThreads (step fold now runs op db)
unfolding step record_observation mark_done set_owner_title
step-WfThreads fold now runs (observe b row) db wf =
    let state = observed_state (resolution_row row.id runs db) row in
    if_elim (λ (r : Threads × Option ThreadChanged). WfThreads r.0)
      (is_blacklisted fold b row.project (some row.repo)) _ _ (λ blocked. wf)
      (λ seen. record_scan-WfThreads now runs (observation_of row state) db wf)
step-WfThreads fold now runs (describe id topic summary through) db wf =
    append_model_details-WfThreads now id topic summary through db wf
step-WfThreads fold now runs (enrich id details through children) db wf =
    append_model_details_if_fresh-WfThreads now id runs details through children db wf
step-WfThreads fold now runs (request requests) db wf = request_enrichment-WfThreads requests db wf
step-WfThreads fold now runs (mark ids) db wf = mark_each-WfThreads now (unique [] ids) db wf
step-WfThreads fold now runs (snooze id s) db wf = snooze_thread-WfThreads now id s db wf
step-WfThreads fold now runs (rename id title) db wf =
    update_where-WfThreads db (is_thread id) _ (λ t. refl) wf
step-WfThreads fold now runs (purge b) db wf = purge_blacklisted-WfThreads b db wf

-- Through any history of polls, assessments and requests of the owner, thread ids stay unique, each
-- thread has details and no details are left without their thread, and the revisions of a thread are
-- numbered from one without a gap, each with another state, title or summary than the one before it.
pub replay-WfThreads :
    (fold : String → String) (history : List Moment) (db : Threads)
    → WfThreads db
    → WfThreads (replay fold history db)
unfolding replay
replay-WfThreads fold [] db wf = wf
replay-WfThreads fold (m ∷ rest) db wf =
    replay-WfThreads fold rest (step fold m.now m.runs m.operation db)
      (step-WfThreads fold m.now m.runs m.operation db wf)
