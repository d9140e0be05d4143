-- ===== src/Threads/Scan.antt =====
-- src/state/database.ts `recordScan`, packages/core/src/resolve.mjs, and src/state/state.ts
-- `recordObservation`: what a poll of the sessions does to the threads.
use owner_operator.Prelude.{
  ℕ, String, Bool, true, false, not, ◌&&◌, Option, none, some, List, [], ◌∷◌, ◌==◌, if◌then◌else◌,
  ◌*◌, nat_eq, ltb, leb, any, coalesce, is_some, update_where,
}
use owner_operator.AgentRuns.{AgentRun}
use owner_operator.Threads.{
  ThreadState, idle, working, done, Thread, Threads, ThreadResolutionRow, DetailsPatch, Edge, poll,
  is_thread, same_state, append_details, resolution_row,
}

pub record ThreadObservation : Type 0 where
  pub id : String
  pub repo : Option String
  pub project : Option String
  pub app : Option String
  pub source : Option String
  pub transcript_path : Option String
  pub created_at : Option ℕ
  pub last_active_at : Option ℕ
  pub last_message_at : Option ℕ
  pub raw_topic : Option String
  pub state : ThreadState
  pub diff_added : Option ℕ
  pub diff_deleted : Option ℕ
  pub link : Option String

abbrev pub new_thread : (now : ℕ) → ThreadObservation → Thread
new_thread now o = record {
  id = o.id;
  repo = o.repo;
  project = o.project;
  app = o.app;
  source = o.source;
  transcript_path = o.transcript_path;
  created_at = o.created_at;
  first_seen_at = now;
  last_seen_at = now;
  last_active_at = o.last_active_at;
  last_message_at = o.last_message_at;
  last_checked_at = some now;
  diff_added = o.diff_added;
  diff_deleted = o.diff_deleted;
  raw_topic = o.raw_topic;
  owner_title = none;
  snoozed_until = none;
  snoozed_through_message_at = none;
  link = o.link;
  enriched_through_message_at = none;
  enriched_while_working = false;
  enriched_children = [];
  enrichment_contract = 0;
  last_enriched_at = none;
}

abbrev is_zero : Option ℕ → Bool
is_zero none = false
is_zero (some n) = nat_eq n 0

-- No difference is stored for a workspace that has none any more.
abbrev observed_diff : ThreadObservation → Option ℕ → Option ℕ → Option ℕ
observed_diff o seen old =
    if is_zero o.diff_added && is_zero o.diff_deleted then none else coalesce seen old

abbrev pub observed : (now : ℕ) → ThreadObservation → Thread → Thread
observed now o t = record t {
  repo = coalesce o.repo t.repo;
  project = coalesce o.project t.project;
  app = coalesce o.app t.app;
  source = coalesce o.source t.source;
  transcript_path = coalesce o.transcript_path t.transcript_path;
  created_at = coalesce o.created_at t.created_at;
  last_seen_at = now;
  last_active_at = coalesce o.last_active_at t.last_active_at;
  last_message_at = coalesce o.last_message_at t.last_message_at;
  last_checked_at = some now;
  diff_added = observed_diff o o.diff_added t.diff_added;
  diff_deleted = observed_diff o o.diff_deleted t.diff_deleted;
  raw_topic = coalesce o.raw_topic t.raw_topic;
  link = o.link;
}

-- `INSERT … ON CONFLICT(id) DO UPDATE`.
unfoldable pub upsert_thread : (now : ℕ) → ThreadObservation → List Thread → List Thread
upsert_thread now o threads =
    if any (is_thread o.id) threads
    then update_where (is_thread o.id) (observed now o) threads
    else new_thread now o ∷ threads

abbrev pub precedes : Option ℕ → Option ℕ → Bool
precedes observed none = false
precedes none (some m) = true
precedes (some o) (some m) = ltb o m

-- An observation from before the last message is stale.
abbrev pub is_stale : Option ThreadResolutionRow → ThreadObservation → Bool
is_stale none o = false
is_stale (some previous) o = precedes o.last_message_at previous.last_message_at

pub record RecordScanResult : Type 0 where
  pub added : Bool
  pub state_changed : Option (ThreadState × ThreadState)

abbrev state_changed_of : Option Edge → Option (ThreadState × ThreadState)
state_changed_of none = none
state_changed_of (some edge) = elim edge.from [
  | none ↦ none
  | some from ↦ if same_state from edge.to then none else some (from, edge.to)
]

abbrev pub state_patch : ThreadState → DetailsPatch
state_patch state = record {
  state = some state;
  topic = none;
  status_summary = none;
  bookmark = none;
}

unfoldable pub record_scan :
    (now : ℕ) → List AgentRun → ThreadObservation → Threads → Threads × RecordScanResult
unfolding append_details upsert_thread
record_scan now runs o db =
    let previous = resolution_row o.id runs db in
    let (details, edge) = append_details now o.id (state_patch o.state) poll db.details in
    if is_stale previous o then (db, record { added = false; state_changed = none }) else (
      record db { threads = upsert_thread now o db.threads; details = details },
      record { added = not (is_some previous); state_changed = state_changed_of edge },
    )

-- What the scan of the transcripts yields. The role is whether the assistant has spoken last.
pub record ScanRow : Type 0 where
  pub id : String
  pub source : String
  pub repo : String
  pub project : Option String
  pub transcript_path : Option String
  pub app : String
  pub topic : String
  pub last_role : String
  pub created_at : ℕ
  pub last_message_at : ℕ
  pub seconds_since_last_message : ℕ
  pub working : Bool
  pub link : Option String
  pub diff_added : Option ℕ
  pub diff_deleted : Option ℕ

abbrev pub idle_after_seconds : ℕ
idle_after_seconds = 30 * 60

unfoldable pub derive_state : ScanRow → ThreadState
derive_state row =
    if row.working
    then working
    else if leb idle_after_seconds row.seconds_since_last_message
    then idle
    else if row.last_role == "assistant"
    then idle
    else working

-- A persisted thread as its state and its last message.
unfoldable pub holds_done : Option (ThreadState × ℕ) → ScanRow → Bool
holds_done none row = false
holds_done (some (state, last_message_at)) row =
    same_state state done && leb row.last_message_at last_message_at

unfoldable pub resolve_state : Option (ThreadState × ℕ) → ScanRow → ThreadState
unfolding holds_done derive_state
resolve_state persisted row = if holds_done persisted row then done else derive_state row
