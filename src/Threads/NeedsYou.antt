-- ===== src/Threads/NeedsYou.antt =====
-- src/state/database.ts `listNeedsYouMessageVersions` and `claimNeedsYouScheduleRun`: the threads that
-- wait for the owner, offered to schedules, and the watermarks of what a schedule has been given.
use owner_operator.Prelude.{
  ℕ, String, Bool, false, not, ◌&&◌, Option, none, some, List, [], ◌∷◌, ◌++◌, ◌==◌, if◌then◌else◌,
  nat_eq, ltb, leb, any, find, keep, update_where, sort_by,
}
use owner_operator.AgentRuns.{AgentRun}
use owner_operator.Schedules.{ScheduleDefinition, ScheduleRun, Schedules, create_schedule_run}
use owner_operator.Schedules
use owner_operator.Threads.{
  needs_you, DetailsRow, Thread, Threads, Watermark, same_state, same_instant, has_active_child,
  latest_details, snooze_holds,
}

-- A message of a thread, the last one when it was read.
pub record Change : Type 0 where
  pub thread_id : String
  pub last_message_at : ℕ

abbrev asks_owner : Option DetailsRow → Bool
asks_owner none = false
asks_owner (some d) = same_state d.state needs_you

-- A thread that waits for the owner, without an active child or a snooze.
unfoldable pub waits : (now : ℕ) → List AgentRun → List DetailsRow → Thread → Bool
unfolding latest_details has_active_child snooze_holds
waits now runs details t =
    asks_owner (latest_details t.id details)
    && not (has_active_child t.id runs)
    && not (snooze_holds now t)

abbrev change_of : Thread → List Change
change_of t = elim t.last_message_at [
  | none ↦ []
  | some m ↦ record { thread_id = t.id; last_message_at = m } ∷ []
]

abbrev offered : (Thread → Bool) → List Thread → List Change
offered p [] = []
offered p (t ∷ ts) = if p t then change_of t ++ offered p ts else offered p ts

unfoldable pub list_needs_you_message_versions : (now : ℕ) → List AgentRun → Threads → List Change
unfolding waits sort_by
list_needs_you_message_versions now runs db =
    sort_by (λ a b. leb a.last_message_at b.last_message_at)
      (offered (waits now runs db.details) db.threads)

abbrev pub names : Change → Thread → Bool
names c t = (t.id == c.thread_id) && same_instant t.last_message_at (some c.last_message_at)

abbrev pub is_eligible : (now : ℕ) → List AgentRun → Threads → Change → Bool
unfolding waits
is_eligible now runs db c = any (λ t. names c t && waits now runs db.details t) db.threads

abbrev pub watermark_of : (schedule_id thread_id : String) → Watermark → Bool
watermark_of schedule_id thread_id w = (w.schedule_id == schedule_id) && (w.thread_id == thread_id)

abbrev pub given_to : Change → Option Watermark → Bool
given_to c none = false
given_to c (some w) = nat_eq w.last_message_at c.last_message_at

abbrev pub is_given : (schedule_id : String) → List Watermark → Change → Bool
is_given schedule_id watermarks c =
    given_to c (find (watermark_of schedule_id c.thread_id) watermarks)

-- The changes that the claim takes.
unfoldable pub fresh :
    (now : ℕ) → List AgentRun → (schedule_id : String) → Threads → List Change → List Change
unfolding waits
fresh now runs schedule_id db changes =
    keep (λ c. is_eligible now runs db c && not (is_given schedule_id db.watermarks c)) changes

-- `INSERT … ON CONFLICT DO UPDATE`.
unfoldable pub write_watermark : (schedule_id : String) → Change → List Watermark → List Watermark
write_watermark schedule_id c watermarks =
    if any (watermark_of schedule_id c.thread_id) watermarks
    then update_where (watermark_of schedule_id c.thread_id)
        (λ w. record w { last_message_at = c.last_message_at }) watermarks
    else record {
      schedule_id = schedule_id;
      thread_id = c.thread_id;
      last_message_at = c.last_message_at;
    }
      ∷ watermarks

unfoldable pub write_watermarks :
    (schedule_id : String) → List Change → List Watermark → List Watermark
unfolding write_watermark
write_watermarks schedule_id [] watermarks = watermarks
write_watermarks schedule_id (c ∷ cs) watermarks =
    write_watermarks schedule_id cs (write_watermark schedule_id c watermarks)

abbrev pub latest_of : ℕ → List Change → ℕ
latest_of latest [] = latest
latest_of latest (c ∷ cs) =
    latest_of (if ltb latest c.last_message_at then c.last_message_at else latest) cs

pub record NeedsYouClaim : Type 0 where
  pub run : ScheduleRun
  pub changes : List Change
  pub observed_through : ℕ

pub record Board : Type 0 where
  pub threads : Threads
  pub tables : Schedules

abbrev pub claimed :
    (schedule_id : String)
    → Change
    → List Change
    → Option (Schedules × ScheduleRun)
    → Board
    → Board × Option NeedsYouClaim
unfolding write_watermarks
claimed schedule_id c cs none b = (b, none)
claimed schedule_id c cs (some (tables, run)) b = (
  record {
    threads = record b.threads {
      watermarks = write_watermarks schedule_id (c ∷ cs) b.threads.watermarks;
    };
    tables = tables;
  },
  some (record {
    run = run;
    changes = c ∷ cs;
    observed_through = latest_of c.last_message_at (c ∷ cs);
  }),
)

abbrev pub claim_fresh :
    (now : ℕ)
    → (id : String) → ScheduleDefinition
    → List Change
    → Board
    → Board × Option NeedsYouClaim
unfolding write_watermarks
claim_fresh now id s [] b = (b, none)
claim_fresh now id s (c ∷ cs) b =
    claimed s.id c cs (create_schedule_run now id s Schedules.needs_you none b.tables) b

-- A throw rolls the transaction back.
unfoldable pub claim_needs_you_schedule_run :
    (now : ℕ)
    → List AgentRun
    → (id : String) → ScheduleDefinition
    → List Change
    → Board
    → Board × Option NeedsYouClaim
unfolding fresh write_watermarks
claim_needs_you_schedule_run now runs id s changes b =
    claim_fresh now id s (fresh now runs s.id b.threads changes) b
