-- ===== src/Threads/Observe.antt =====
-- src/state/state.ts `recordObservation` and `recordPoll`: a row of a scan against the thread as it is
-- persisted, and the event that is published.
use owner_operator.Prelude.{
  ℕ, String, Bool, true, not, ◌&&◌, ◌||◌, Option, none, some, List, [], ◌∷◌, if◌then◌else◌, ltb,
  is_some,
}
use owner_operator.AgentRuns.{AgentRun}
use owner_operator.Threads.{
  ThreadState, done, working, Threads, ThreadResolutionRow, same_instant, same_state,
  resolution_row,
}
use owner_operator.Threads.Blacklist.{Blacklist, is_blacklisted, purge_blacklisted}
use owner_operator.Threads.Scan.{
  RecordScanResult, ScanRow, ThreadObservation, record_scan, resolve_state,
}

pub record ThreadChanged : Type 0 where
  pub thread_id : String
  pub state : ThreadState
  pub last_message_at : Option ℕ
  pub needs_enrichment : Bool

abbrev pub persisted : ThreadResolutionRow → Option (ThreadState × ℕ)
persisted previous = elim previous.last_message_at [
  | none ↦ none
  | some m ↦ some (previous.state, m)
]

-- The message has been assessed, the session having stopped: the assessed state holds.
abbrev pub is_assessed : ThreadResolutionRow → ScanRow → Bool
is_assessed previous row =
    not row.working
    && same_instant previous.last_message_at (some row.last_message_at)
    && same_instant previous.enriched_through_message_at (some row.last_message_at)
    && not previous.enriched_while_working
    && not (same_state previous.state working)

unfoldable pub observed_state : Option ThreadResolutionRow → ScanRow → ThreadState
unfolding resolve_state
observed_state none row = resolve_state none row
observed_state (some previous) row =
    if is_assessed previous row then previous.state else resolve_state (persisted previous) row

abbrev pub observation_of : ScanRow → ThreadState → ThreadObservation
observation_of row state = record {
  id = row.id;
  repo = some row.repo;
  project = row.project;
  app = some row.app;
  source = some row.source;
  transcript_path = row.transcript_path;
  created_at = some row.created_at;
  last_active_at = some row.last_message_at;
  last_message_at = some row.last_message_at;
  raw_topic = some row.topic;
  state = state;
  diff_added = row.diff_added;
  diff_deleted = row.diff_deleted;
  link = row.link;
}

abbrev has_newer_message : Option ThreadResolutionRow → ScanRow → Bool
has_newer_message none row = true
has_newer_message (some previous) row = elim previous.last_message_at [
  | none ↦ true
  | some m ↦ ltb m row.last_message_at
]

abbrev enriched_through : Option ThreadResolutionRow → Option ℕ
enriched_through none = none
enriched_through (some previous) = previous.enriched_through_message_at

abbrev pub change_of :
    Option ThreadResolutionRow → ScanRow → ThreadState → RecordScanResult → Option ThreadChanged
change_of previous row state result =
    if result.added || is_some result.state_changed || has_newer_message previous row
    then some (record {
      thread_id = row.id;
      state = state;
      last_message_at = some row.last_message_at;
      needs_enrichment =
          not (same_state state done)
          && not (same_instant (some row.last_message_at) (enriched_through previous));
    })
    else none

unfoldable pub record_observation :
    (fold : String → String)
    → Blacklist
    → (now : ℕ) → List AgentRun
    → ScanRow
    → Threads
    → Threads × Option ThreadChanged
unfolding observed_state
record_observation fold b now runs row db =
    let previous = resolution_row row.id runs db in
    let state = observed_state previous row in
    let (after, result) = record_scan now runs (observation_of row state) db in
    if is_blacklisted fold b row.project (some row.repo)
    then (db, none)
    else (after, change_of previous row state result)

abbrev pub observe_all :
    (fold : String → String)
    → Blacklist
    → (now : ℕ) → List AgentRun
    → List ScanRow
    → Threads
    → Threads
observe_all fold b now runs [] db = db
observe_all fold b now runs (row ∷ rows) db =
    observe_all fold b now runs rows (record_observation fold b now runs row db).0

unfoldable pub record_poll :
    (fold : String → String)
    → Blacklist
    → (now : ℕ) → List AgentRun
    → List ScanRow
    → Threads
    → Threads
unfolding record_observation
record_poll fold b now runs rows db = observe_all fold b now runs rows (purge_blacklisted b db).0
