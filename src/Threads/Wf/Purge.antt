-- ===== src/Threads/Wf/Purge.antt =====
-- src/state/database.ts `purgeBlacklisted`: the details go with their threads.
use owner_operator.Prelude.{
  ◌≤◌, ◌≡◌, refl, ap, String, Bool, false, not, ◌&&◌, List, [], ◌∷◌, ◌==◌, arith, if_elim,
  if◌then◌else◌, keep, count, any, eq_iff, Bool-cases, inl, inr,
}
use owner_operator.Threads.{DetailsRow, Thread, Threads, is_thread}
use owner_operator.Threads.Blacklist.{Blacklist, is_purged, purges, purge_blacklisted}
use owner_operator.Threads.Revisions.{Numbered, non_empty, revisions}
use owner_operator.Threads.Wf.{WfThreads, any-none}

purges-none :
    (b : Blacklist) (threads : List Thread) (j : String)
    → any (is_thread j) threads ≡ false
    → purges b threads j ≡ false
purges-none b [] j h = refl
purges-none b (t ∷ ts) j h = ground (arith, purges-none b ts j)

any-keep-purged :
    (b : Blacklist) (threads : List Thread) (j : String)
    → count (is_thread j) threads ≤ 1
    → any (is_thread j) (keep (λ t. not (is_purged b t)) threads)
      ≡ (any (is_thread j) threads && not (purges b threads j))
any-keep-purged b [] j h = refl
any-keep-purged b (t ∷ ts) j h =
    ground (arith, any-keep-purged b ts j, any-none j ts, purges-none b ts j)

count-keep-le :
    (p q : Thread → Bool) (threads : List Thread) → count q (keep p threads) ≤ count q threads
count-keep-le p q [] = omega arith
count-keep-le p q (t ∷ ts) = ground (arith, count-keep-le p q ts)

-- The revisions of a thread are all kept, or all deleted.
revisions-keep :
    (gone : String → Bool) (j : String) (ds : List DetailsRow)
    → revisions j (keep (λ (d : DetailsRow). not (gone d.thread_id)) ds)
      ≡ (if gone j then [] else revisions j ds)
revisions-keep gone j [] = if_elim (λ rs. [] ≡ rs) (gone j) [] [] (λ h. refl) (λ h. refl)
revisions-keep gone j (d ∷ ds) = elim (Bool-cases (d.thread_id == j)) [
  | inl own ↦
      let same : gone d.thread_id ≡ gone j = ap gone ((eq_iff d.thread_id j).0 own) in
      ground (arith, same, own, revisions-keep gone j ds)
  | inr other ↦ ground (arith, other, revisions-keep gone j ds)
]

emptied :
    (present gone : Bool) (rs : List DetailsRow)
    → present ≡ non_empty rs
    → (present && not gone) ≡ non_empty (if gone then [] else rs)
emptied present gone rs h = ground arith

pub purge_blacklisted-WfThreads :
    (b : Blacklist) (db : Threads) → WfThreads db → WfThreads (purge_blacklisted b db).0
unfolding purge_blacklisted
purge_blacklisted-WfThreads b db wf = record {
  unique = λ j.
      omega (arith, count-keep-le (λ t. not (is_purged b t)) (is_thread j) db.threads, wf.unique j);
  numbered = λ j. rw (revisions-keep (purges b db.threads) j db.details) (
      if_elim Numbered (purges b db.threads j) [] (revisions j db.details) (λ h. tt)
        (λ h. wf.numbered j));
  owned = λ j.
      rw
        (
          revisions-keep (purges b db.threads) j db.details,
          any-keep-purged b db.threads j (wf.unique j),
          wf.owned j,
        )
        (emptied (non_empty (revisions j db.details)) (purges b db.threads j)
          (revisions j db.details) refl);
}
