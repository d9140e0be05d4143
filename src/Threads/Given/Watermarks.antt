-- ===== src/Threads/Given/Watermarks.antt =====
-- src/state/database.ts: the operations on threads leave the watermarks of the threads that stay.
use owner_operator.Prelude.{
  ℕ, ◌≡◌, refl, ap, ◌∙◌, String, Bool, false, not, Option, none, some, List, [], ◌∷◌, ◌==◌, arith,
  if_elim, any, eq_iff, Bool-cases, inl, inr, find, keep,
}
use owner_operator.AgentRuns.{AgentRun}
use owner_operator.Threads.{
  append_details, ChildEvidence, ThreadResolutionRow, Threads, Watermark, is_thread, resolution_row,
}
use owner_operator.Threads.Blacklist.{is_blacklisted, purge_blacklisted, purges}
use owner_operator.Threads.Board.{on_threads, takes}
use owner_operator.Threads.Enrichment.{
  ThreadEnrichment, append_model_details, append_model_details_if_fresh, assess, is_busy,
  is_rejected, request_enrichment, request_one,
}
use owner_operator.Threads.NeedsYou.{Board, watermark_of}
use owner_operator.Threads.Observe.{
  ThreadChanged, observation_of, observed_state, record_observation,
}
use owner_operator.Threads.Owner.{
  SnoozeResult, is_past, mark_done, mark_each, set_owner_title, set_snooze, snooze_thread, unique,
}
use owner_operator.Threads.Scan.{RecordScanResult, is_stale, record_scan}
use owner_operator.Threads.Steps.{
  Operation, describe, enrich, mark, observe, purge, rename, request, snooze, step,
}

find-keep-watermark :
    (gone : String → Bool) (s t : String) (ws : List Watermark)
    → gone t ≡ false
    → find (watermark_of s t) (keep (λ (w : Watermark). not (gone w.thread_id)) ws)
      ≡ find (watermark_of s t) ws
find-keep-watermark gone s t [] stays = refl
find-keep-watermark gone s t (w ∷ ws) stays = elim (Bool-cases (w.thread_id == t)) [
  | inl own ↦
      let here : gone w.thread_id ≡ false = ap gone ((eq_iff w.thread_id t).0 own) ∙ stays in
      ground (arith, here, find-keep-watermark gone s t ws stays)
  | inr other ↦ ground (arith, other, find-keep-watermark gone s t ws stays)
]

assess-watermarks :
    (now : ℕ) (id : String) (runs : List AgentRun) (details : ThreadEnrichment) (through : ℕ)
    (children : List ChildEvidence) (found : Option ThreadResolutionRow) (db : Threads)
    → (assess now id runs details through children found db).0.watermarks ≡ db.watermarks
unfolding append_details
assess-watermarks now id runs details through children none db = refl
assess-watermarks now id runs details through children (some current) db =
    if_elim (λ (r : Threads × Option ℕ). r.0.watermarks ≡ db.watermarks)
      (is_rejected current (is_busy id runs current) details through children) _ _ (λ out. refl)
      (λ taken. refl)

request_enrichment-watermarks :
    (requests : List (String × ℕ)) (db : Threads)
    → (request_enrichment requests db).0.watermarks ≡ db.watermarks
unfolding request_enrichment
request_enrichment-watermarks [] db = refl
request_enrichment-watermarks ((id, m) ∷ rest) db =
    request_enrichment-watermarks rest (request_one id m db).0

mark_each-watermarks :
    (now : ℕ) (ids : List String) (db : Threads)
    → (mark_each now ids db).0.watermarks ≡ db.watermarks
unfolding mark_each
mark_each-watermarks now [] db = refl
mark_each-watermarks now (id ∷ rest) db =
    mark_each-watermarks now rest _
    ∙ if_elim (λ (d : Threads). d.watermarks ≡ db.watermarks) (any (is_thread id) db.threads) _ db
        (λ here. refl) (λ out. refl)

pub step-watermarks :
    (s t : String) (fold : String → String) (now : ℕ) (runs : List AgentRun) (op : Operation)
    (b : Board)
    → takes t (on_threads op) b ≡ false
    → find (watermark_of s t) (step fold now runs op b.threads).watermarks
      ≡ find (watermark_of s t) b.threads.watermarks
unfolding step record_observation record_scan append_model_details append_model_details_if_fresh
    mark_done snooze_thread set_snooze set_owner_title purge_blacklisted
step-watermarks s t fold now runs (observe blacklist row) b spared = ap (find (watermark_of s t)) (
    if_elim (λ (r : Threads × Option ThreadChanged). r.0.watermarks ≡ b.threads.watermarks)
      (is_blacklisted fold blacklist row.project (some row.repo)) _ _ (λ blocked. refl)
      (λ seen.
        if_elim (λ (r : Threads × RecordScanResult). r.0.watermarks ≡ b.threads.watermarks)
          (is_stale (resolution_row row.id runs b.threads)
            (observation_of row (observed_state (resolution_row row.id runs b.threads) row)))
          _ _ (λ stale. refl) (λ current. refl)))
step-watermarks s t fold now runs (describe id topic summary through) b spared = refl
step-watermarks s t fold now runs (enrich id details through children) b spared =
    ap (find (watermark_of s t)) (
      assess-watermarks now id runs details through children (resolution_row id runs b.threads)
        b.threads)
step-watermarks s t fold now runs (request requests) b spared =
    ap (find (watermark_of s t)) (request_enrichment-watermarks requests b.threads)
step-watermarks s t fold now runs (mark ids) b spared =
    ap (find (watermark_of s t)) (mark_each-watermarks now (unique [] ids) b.threads)
step-watermarks s t fold now runs (snooze id chosen) b spared = ap (find (watermark_of s t)) (
    if_elim (λ (r : Threads × SnoozeResult). r.0.watermarks ≡ b.threads.watermarks)
      (is_past now chosen) _ _ (λ over. refl)
      (λ ahead.
        if_elim (λ (r : Threads × SnoozeResult). r.0.watermarks ≡ b.threads.watermarks)
          (any (is_thread id) b.threads.threads) _ _ (λ found. refl) (λ lost. refl)))
step-watermarks s t fold now runs (rename id title) b spared = refl
step-watermarks s t fold now runs (purge blacklist) b spared =
    find-keep-watermark (λ (i : String). purges blacklist b.threads.threads i) s t
      b.threads.watermarks spared
