-- ===== src/Threads/Wf.antt =====
-- src/state/database.ts: what stays true of the threads and their details.
pub mod Purge
pub mod Operations
use owner_operator.Prelude.{
  ℕ, suc, ◌≤◌, ◌+◌, ◌≡◌, refl, sym, ap, subst, ◌∙◌, String, Bool, true, false, not, ◌&&◌, ◌||◌,
  Option, none, some, List, [], ◌∷◌, ◌==◌, arith, if_elim, if◌then◌else◌, keep, count, any, length,
  ltb, eq_iff, eq_refl, Bool-cases, inl, inr, update_where, any-update_where, count-update_where-le,
}
use owner_operator.AgentRuns.{AgentRun}
use owner_operator.Threads.{
  DetailsPatch, DetailsRow, Thread, Threads, Writer, append_details, details_of, is_thread,
}
use owner_operator.Threads.Blacklist.{Blacklist, is_purged, purges, purge_blacklisted}
use owner_operator.Threads.Revisions.{
  Numbered, append_details-Numbered, append_details-non_empty, non_empty, revisions,
}
use owner_operator.Threads.Scan.{ThreadObservation, new_thread, observed, upsert_thread}
use owner_operator.Threads.Enrichment.{insert_or_ignore}

-- Ids are unique, the revisions of each thread are numbered from one and differ from one to the next,
-- and the ids that have details are those of the threads.
pub record WfThreads (db : Threads) : Type 0 where
  pub unique : (id : String) → count (is_thread id) db.threads ≤ 1
  pub numbered : (id : String) → Numbered (revisions id db.details)
  pub owned : (id : String) → any (is_thread id) db.threads ≡ non_empty (revisions id db.details)

-- An update of the rows keeps the ids.
pub update-WfThreads :
    (db : Threads) (threads : List Thread)
    → WfThreads db
    → ((j : String) → any (is_thread j) threads ≡ any (is_thread j) db.threads)
    → ((j : String) → count (is_thread j) threads ≤ count (is_thread j) db.threads)
    → WfThreads (record db { threads = threads })
update-WfThreads db threads wf same fewer = record {
  unique = λ j. omega (arith, fewer j, wf.unique j);
  numbered = wf.numbered;
  owned = λ j. same j ∙ wf.owned j;
}

pub update_where-WfThreads :
    (db : Threads) (p : Thread → Bool) (f : Thread → Thread)
    → ((t : Thread) → (f t).id ≡ t.id)
    → WfThreads db
    → WfThreads (record db { threads = update_where p f db.threads })
update_where-WfThreads db p f same wf =
    update-WfThreads db (update_where p f db.threads) wf
      (λ j. any-update_where (is_thread j) p f db.threads (λ t. ap (λ i. i == j) (same t)))
      (λ j.
        count-update_where-le (is_thread j) p f db.threads
          (λ t passes here. ap (λ i. i == j) (sym (same t)) ∙ here))

-- The rows afterwards are those of before and the row of the thread that gets the details.
pub append_details-WfThreads :
    (now : ℕ) (id : String) (patch : DetailsPatch) (w : Writer) (db : Threads)
    (threads : List Thread)
    → WfThreads db
    → ((j : String) → any (is_thread j) threads ≡ ((id == j) || any (is_thread j) db.threads))
    → ((j : String) → count (is_thread j) threads ≤ 1)
    → WfThreads
        (record db { threads = threads; details = (append_details now id patch w db.details).0 })
append_details-WfThreads now id patch w db threads wf rows unique = record {
  unique = unique;
  numbered =
      λ j. append_details-Numbered now id patch w db.details j (wf.numbered id) (wf.numbered j);
  owned = λ j.
      rows j
      ∙ ap (λ b. (id == j) || b) (wf.owned j)
      ∙ sym (append_details-non_empty now id patch w db.details j (wf.numbered id));
}

-- A row that stands is found under its id.
pub present_or :
    (id j : String) (threads : List Thread)
    → any (is_thread id) threads ≡ true
    → any (is_thread j) threads ≡ ((id == j) || any (is_thread j) threads)
present_or id j threads h = elim (Bool-cases (id == j)) [
  | inl same ↦ rw same (subst (λ i. any (is_thread i) threads ≡ true) ((eq_iff id j).0 same) h)
  | inr other ↦ rw other
]

-- Details of a thread that stands.
pub append_details-WfThreads_present :
    (now : ℕ) (id : String) (patch : DetailsPatch) (w : Writer) (db : Threads)
    → WfThreads db
    → any (is_thread id) db.threads ≡ true
    → WfThreads (record db { details = (append_details now id patch w db.details).0 })
append_details-WfThreads_present now id patch w db wf here =
    append_details-WfThreads now id patch w db db.threads wf (λ j. present_or id j db.threads here)
      wf.unique

count-none :
    (j : String) (threads : List Thread)
    → any (is_thread j) threads ≡ false
    → count (is_thread j) threads ≡ 0
count-none j [] h = refl
count-none j (t ∷ ts) h = ground (arith, count-none j ts)

pub any-none :
    (j : String) (threads : List Thread)
    → count (is_thread j) threads ≤ 0
    → any (is_thread j) threads ≡ false
any-none j [] h = refl
any-none j (t ∷ ts) h = ground (arith, any-none j ts)

-- A row put in front where no row of its id stands.
pub consed_unique :
    (t : Thread) (j : String) (threads : List Thread)
    → any (is_thread t.id) threads ≡ false
    → count (is_thread j) threads ≤ 1
    → count (is_thread j) (t ∷ threads) ≤ 1
consed_unique t j threads out h =
    if_elim (λ n. n ≤ 1) (t.id == j) (suc (count (is_thread j) threads))
      (count (is_thread j) threads)
      (λ same. omega (
        arith,
        count-none j threads
            (subst (λ i. any (is_thread i) threads ≡ false) ((eq_iff t.id j).0 same) out),
      ))
      (λ other. h)
