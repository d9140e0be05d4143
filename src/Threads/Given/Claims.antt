-- ===== src/Threads/Given/Claims.antt =====
-- src/state/database.ts `claimNeedsYouScheduleRun`: what a claim that is made takes and writes.
use owner_operator.Prelude.{
  ℕ, ◌≡◌, refl, sym, ap, subst, ◌∙◌, String, true, Option, none, some, List, [], ◌∷◌, arith, any,
  Option-cases, inl, inr, nat_eq,
}
use owner_operator.Schedules.{ScheduleDefinition, ScheduleRun, Schedules, create_schedule_run}
use owner_operator.Schedules
use owner_operator.Threads.{
  DetailsRow, Thread, ThreadState, Threads, Watermark, is_thread, latest_details, same_instant,
}
use owner_operator.Threads.Latest.{HasState}
use owner_operator.Threads.NeedsYou.{
  Board, Change, NeedsYouClaim, claim_fresh, claimed, write_watermarks,
}
use owner_operator.Threads.Revisions.{latest_details-head, non_empty, head, revisions}
use owner_operator.Threads.Wf.{WfThreads}

-- The changes that a claim writes, if it writes any.
pub claim_elim :
    (P : Board → Type 0) (now : ℕ) (id : String) (s : ScheduleDefinition) (cs : List Change)
    (b : Board)
    → P b
    → ((tables : Schedules)
        → P (record {
          threads = record b.threads { watermarks = write_watermarks s.id cs b.threads.watermarks };
          tables = tables;
        }))
    → P (claim_fresh now id s cs b).0
unfolding write_watermarks
claim_elim P now id s [] b base written = base
claim_elim P now id s (c ∷ cs) b base written =
    elim (create_schedule_run now id s Schedules.needs_you none b.tables)
      as (λ r. P (claimed s.id c cs r b).0) [ none ↦ base | some (tables, run) ↦ written tables ]

-- A claim that is made takes the changes that are fresh.
pub claim_changes :
    (now : ℕ) (id : String) (s : ScheduleDefinition) (cs : List Change) (b : Board)
    (r : NeedsYouClaim)
    → (claim_fresh now id s cs b).1 ≡ some r
    → r.changes ≡ cs
unfolding write_watermarks
claim_changes now id s [] b r made = cc
claim_changes now id s (c ∷ cs) b r made = ground (arith, made)

written_by :
    (P : Board → Type 0) (s : ScheduleDefinition) (c : Change) (cs : List Change) (b : Board)
    (r : NeedsYouClaim) (o : Option (Schedules × ScheduleRun))
    → (claimed s.id c cs o b).1 ≡ some r
    → ((tables : Schedules)
        → P (record {
          threads = record b.threads {
            watermarks = write_watermarks s.id (c ∷ cs) b.threads.watermarks;
          };
          tables = tables;
        }))
    → P (claimed s.id c cs o b).0
unfolding write_watermarks
written_by P s c cs b r none made written = cc
written_by P s c cs b r (some (tables, run)) made written = written tables

-- A claim that is made writes its watermarks.
pub claim_made :
    (P : Board → Type 0) (now : ℕ) (id : String) (s : ScheduleDefinition) (cs : List Change)
    (b : Board) (r : NeedsYouClaim)
    → (claim_fresh now id s cs b).1 ≡ some r
    → ((tables : Schedules)
        → P (record {
          threads = record b.threads { watermarks = write_watermarks s.id cs b.threads.watermarks };
          tables = tables;
        }))
    → P (claim_fresh now id s cs b).0
unfolding write_watermarks
claim_made P now id s [] b r made written = cc
claim_made P now id s (c ∷ cs) b r made written =
    written_by P s c cs b r (create_schedule_run now id s Schedules.needs_you none b.tables) made
      written

pub watermarks-WfThreads :
    (db : Threads) (ws : List Watermark) → WfThreads db → WfThreads (record db { watermarks = ws })
watermarks-WfThreads db ws wf = record {
  unique = wf.unique;
  numbered = wf.numbered;
  owned = wf.owned;
}

no_head : (rs : List DetailsRow) → non_empty rs ≡ true → head rs ≡ none → ⊥
no_head [] here missing = cc
no_head (r ∷ rs) here missing = cc

pub last_of :
    {m : ℕ} (c : Change) (x : Thread)
    → x.last_message_at ≡ some m
    → same_instant x.last_message_at (some c.last_message_at) ≡ true
    → c.last_message_at ≡ m
last_of {m} c x last same =
    let same' : nat_eq m c.last_message_at ≡ true =
      subst (λ l. same_instant l (some c.last_message_at) ≡ true) last same in
    ground (arith, same')

pub is_last :
    (l : Option ℕ) (n m : ℕ) → same_instant l (some n) ≡ true → nat_eq n m ≡ true → l ≡ some m
is_last (some k) n m same here = ap some (ground (arith, same, here))
is_last none n m same here = cc

-- A thread that stands has a state.
pub has_state :
    (t : String) (db : Threads)
    → WfThreads db
    → any (is_thread t) db.threads ≡ true
    → (s : ThreadState) × HasState t s db.details
has_state t db wf here = elim (Option-cases (latest_details t db.details)) [
  | inl missing ↦ absurd (
      no_head (revisions t db.details) (sym (wf.owned t) ∙ here)
        (sym (latest_details-head t db.details (wf.numbered t)) ∙ missing))
  | inr (d, found) ↦ (d.state, (d, found, refl))
]
