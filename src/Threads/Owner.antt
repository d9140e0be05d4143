-- ===== src/Threads/Owner.antt =====
-- src/state/database.ts: what the owner does to threads, `markDone`, `setSnooze`, `setOwnerTitle`; and
-- `snoozeThread` of src/state/state.ts.
use owner_operator.Prelude.{
  ℕ, String, Bool, false, Option, none, some, List, [], ◌∷◌, ◌==◌, if◌then◌else◌, leb, any,
  update_where, trim,
}
use owner_operator.Threads.{done, Thread, Threads, Edge, owner, is_thread, append_details}
use owner_operator.Threads.Scan.{state_patch}

pub record Marked : Type 0 where
  pub marked_ids : List String
  pub already_done_ids : List String
  pub missing_ids : List String

abbrev pub unmarked : Marked
unmarked = record { marked_ids = []; already_done_ids = []; missing_ids = [] }

abbrev mark_found : (id : String) → Option Edge → Marked → Marked
mark_found id none m = record m { already_done_ids = id ∷ m.already_done_ids }
mark_found id (some edge) m = record m { marked_ids = id ∷ m.marked_ids }

-- The loop of `markDone` over the ids, each once.
unfoldable pub mark_each : (now : ℕ) → List String → Threads → Threads × Marked
unfolding append_details
mark_each now [] db = (db, unmarked)
mark_each now (id ∷ rest) db =
    let (details, edge) = append_details now id (state_patch done) owner db.details in
    let present = any (is_thread id) db.threads in
    let (db', m) = mark_each now rest (if present then record db { details = details } else db) in
    (db', if present then mark_found id edge m else record m { missing_ids = id ∷ m.missing_ids })

-- `[...new Set(ids)]`.
unfoldable pub unique : (seen : List String) → List String → List String
unique seen [] = []
unique seen (id ∷ rest) =
    let known = any (λ i. i == id) seen in
    let others = unique (if known then seen else id ∷ seen) rest in
    if known then others else id ∷ others

unfoldable pub mark_done : (now : ℕ) → List String → Threads → Threads × Marked
unfolding mark_each unique
mark_done now ids db = mark_each now (unique [] ids) db

pub data Snooze : Type 0 where
  until : ℕ → Snooze
  next_message : Snooze

abbrev pub snoozed : Option Snooze → Thread → Thread
snoozed none t = record t { snoozed_until = none; snoozed_through_message_at = none }
snoozed (some (until instant)) t = record t {
  snoozed_until = some instant;
  snoozed_through_message_at = some t.last_message_at;
}
snoozed (some next_message) t = record t {
  snoozed_until = none;
  snoozed_through_message_at = some t.last_message_at;
}

unfoldable pub set_snooze : (id : String) → Option Snooze → Threads → Threads × Bool
set_snooze id snooze db = (
  record db { threads = update_where (is_thread id) (snoozed snooze) db.threads },
  any (is_thread id) db.threads,
)

pub data SnoozeResult : Type 0 where
  applied missing past : SnoozeResult

abbrev pub is_past : (now : ℕ) → Option Snooze → Bool
is_past now (some (until instant)) = leb instant now
is_past now snooze = false

unfoldable pub snooze_thread :
    (now : ℕ) → (id : String) → Option Snooze → Threads → Threads × SnoozeResult
unfolding set_snooze
snooze_thread now id snooze db =
    let (db', found) = set_snooze id snooze db in
    if is_past now snooze then (db, past) else if found then (db', applied) else (db, missing)

abbrev non_empty_title : String → Option String
non_empty_title title = if title == "" then none else some title

unfoldable pub set_owner_title : (id title : String) → Threads → Threads × Bool
set_owner_title id title db = (
  record db {
    threads =
        update_where (is_thread id) (λ t. record t { owner_title = non_empty_title (trim title) })
          db.threads;
  },
  any (is_thread id) db.threads,
)
