-- ===== src/Threads.antt =====
-- src/state/database.ts: the tables `threads`, `thread_details` and `schedule_event_watermarks`, and
-- what the operations on them share. Instants are milliseconds; `now` is what `this.now()` returns.
-- The details stand newest first. The rows of `agent_runs` are an argument, `runs`.
pub mod Blacklist
pub mod Scan
pub mod Observe
pub mod Enrichment
pub mod Owner
pub mod Steps
pub mod NeedsYou
pub mod Revisions
pub mod Wf
pub mod Latest
pub mod Messages
pub mod Done
pub mod Assessed
pub mod Board
pub mod Given
use owner_operator.Prelude.{
  ℕ, zero, suc, String, Bool, true, false, not, ◌&&◌, ◌||◌, Option, none, some, List, [], ◌∷◌, ◌++◌,
  ◌==◌, if◌then◌else◌, nat_eq, ltb, leb, any, find, keep, map, get_or, same_text, sort_by,
  text_before,
}
use owner_operator.AgentRuns.{AgentRun, Status, is_pending, is_running}
use owner_operator.RunLog.Json.{status_text}

pub data ThreadState : Type 0 where
  needs_you working idle done : ThreadState

abbrev pub same_state : ThreadState → ThreadState → Bool
same_state needs_you needs_you = true
same_state working working = true
same_state idle idle = true
same_state done done = true
same_state s t = false

pub record Bookmark : Type 0 where
  pub index : ℕ
  pub message_at : ℕ

-- An entry of `CHILD_EVIDENCE_SQL`. Two JSON texts of children are equal when the children are.
pub record ChildEvidence : Type 0 where
  pub id : String
  pub source : Option String
  pub last_message_at : Option ℕ
  pub run_id : String
  pub status : Status

-- A row of `threads`. `snoozed_through_message_at` is a text that is empty for a thread without a
-- message: the inner `none`, below every instant.
pub record Thread : Type 0 where
  pub id : String
  pub repo : Option String
  pub project : Option String
  pub app : Option String
  pub source : Option String
  pub transcript_path : Option String
  pub created_at : Option ℕ
  pub first_seen_at : ℕ
  pub last_seen_at : ℕ
  pub last_active_at : Option ℕ
  pub last_message_at : Option ℕ
  pub last_checked_at : Option ℕ
  pub diff_added : Option ℕ
  pub diff_deleted : Option ℕ
  pub raw_topic : Option String
  pub owner_title : Option String
  pub snoozed_until : Option ℕ
  pub snoozed_through_message_at : Option (Option ℕ)
  pub link : Option String
  pub enriched_through_message_at : Option ℕ
  pub enriched_while_working : Bool
  pub enriched_children : List ChildEvidence
  pub enrichment_contract : ℕ
  pub last_enriched_at : Option ℕ

pub data Writer : Type 0 where
  poll model owner : Writer

pub record DetailsRow : Type 0 where
  pub thread_id : String
  pub version : ℕ
  pub created_at : ℕ
  pub written_by : Writer
  pub state : ThreadState
  pub topic : Option String
  pub status_summary : Option String
  pub bookmark : Option Bookmark

pub record Watermark : Type 0 where
  pub schedule_id : String
  pub thread_id : String
  pub last_message_at : ℕ

pub record Threads : Type 0 where
  pub threads : List Thread
  pub details : List DetailsRow
  pub watermarks : List Watermark

abbrev pub is_thread : String → Thread → Bool
is_thread id t = t.id == id

abbrev pub details_of : String → DetailsRow → Bool
details_of id d = d.thread_id == id

abbrev pub newer : DetailsRow → Option DetailsRow → Option DetailsRow
newer d none = some d
newer d (some e) = if ltb d.version e.version then some e else some d

-- The row of the thread with the highest version.
unfoldable pub latest_details : (id : String) → List DetailsRow → Option DetailsRow
latest_details id [] = none
latest_details id (d ∷ ds) =
    let rest = latest_details id ds in if details_of id d then newer d rest else rest

-- What a patch names: the outer option is the presence of the key.
pub record DetailsPatch : Type 0 where
  pub state : Option ThreadState
  pub topic : Option (Option String)
  pub status_summary : Option (Option String)
  pub bookmark : Option (Option Bookmark)

abbrev pub of_latest {ℓ} : {A : Type ℓ} → (DetailsRow → A) → A → Option DetailsRow → A
of_latest f d none = d
of_latest f d (some e) = f e

abbrev pub merged :
    (now : ℕ) → (id : String) → DetailsPatch → Writer → Option DetailsRow → DetailsRow
merged now id patch writer latest = record {
  thread_id = id;
  version = suc (of_latest (λ d. d.version) 0 latest);
  created_at = now;
  written_by = writer;
  state = get_or patch.state (of_latest (λ d. d.state) idle latest);
  topic = get_or patch.topic (of_latest (λ d. d.topic) none latest);
  status_summary = get_or patch.status_summary (of_latest (λ d. d.status_summary) none latest);
  bookmark = get_or patch.bookmark none;
}

abbrev pub same_meaning : DetailsRow → DetailsRow → Bool
same_meaning d e =
    same_state d.state e.state
    && same_text d.topic e.topic
    && same_text d.status_summary e.status_summary

pub record Edge : Type 0 where
  pub version : ℕ
  pub from : Option ThreadState
  pub to : ThreadState

abbrev pub edge_of : Option DetailsRow → DetailsRow → Edge
edge_of latest row = record {
  version = row.version;
  from = elim latest [ none ↦ none | some d ↦ some d.state ];
  to = row.state;
}

abbrev pub keeps_meaning : Option DetailsRow → DetailsRow → Bool
keeps_meaning none row = false
keeps_meaning (some d) row = same_meaning d row

-- `appendDetailsInTx`: no row is written where the meaning stays.
unfoldable pub append_details :
    (now : ℕ)
    → (id : String) → DetailsPatch
    → Writer
    → List DetailsRow
    → List DetailsRow × Option Edge
unfolding latest_details
append_details now id patch writer details =
    let latest = latest_details id details in
    let row = merged now id patch writer latest in
    if keeps_meaning latest row then (details, none) else (row ∷ details, some (edge_of latest row))

abbrev is_active_child : String → AgentRun → Bool
is_active_child id r =
    same_text r.parent_thread_id (some id) && (is_pending r.status || is_running r.status)

-- `HAS_ACTIVE_CHILD_SQL`.
unfoldable pub has_active_child : (id : String) → List AgentRun → Bool
has_active_child id runs = any (is_active_child id) runs

-- `EFFECTIVE_THREAD_STATE_SQL`.
unfoldable pub effective_state : (id : String) → List AgentRun → ThreadState → ThreadState
unfolding has_active_child
effective_state id runs done = done
effective_state id runs state = if has_active_child id runs then working else state

abbrev pub at_most : Option ℕ → Option ℕ → Bool
at_most none b = true
at_most (some a) none = false
at_most (some a) (some b) = leb a b

abbrev pub ends_after : (now : ℕ) → Option ℕ → Bool
ends_after now none = true
ends_after now (some until) = ltb now until

-- `SNOOZE_HOLDS_SQL`.
unfoldable pub snooze_holds : (now : ℕ) → Thread → Bool
snooze_holds now t = elim t.snoozed_through_message_at [
  | none ↦ false
  | some through ↦ at_most t.last_message_at through && ends_after now t.snoozed_until
]

abbrev pub active_first : AgentRun → AgentRun → Bool
active_first a b =
    let active = λ (r : AgentRun). is_pending r.status || is_running r.status in
    if active a && not (active b)
    then true
    else if active b && not (active a)
    then false
    else ltb b.created_at a.created_at || nat_eq a.created_at b.created_at && text_before a.id b.id

abbrev pub evidence_of : List Thread → AgentRun → List ChildEvidence
evidence_of threads r = elim (find (λ t. same_text r.child_session_id (some t.id)) threads) [
  | none ↦ []
  | some t ↦
      record {
        id = t.id;
        source = t.source;
        last_message_at = t.last_message_at;
        run_id = r.id;
        status = r.status;
      }
      ∷ []
]

abbrev pub gathered {ℓ κ} : {A : Type ℓ} {B : Type κ} → (A → List B) → List A → List B
gathered f [] = []
gathered f (x ∷ xs) = f x ++ gathered f xs

-- `CHILD_EVIDENCE_SQL`: the runs that a thread has delegated, active ones first, with their threads.
unfoldable pub child_evidence : (id : String) → List AgentRun → List Thread → List ChildEvidence
unfolding sort_by
child_evidence id runs threads =
    gathered (evidence_of threads)
      (sort_by active_first (keep (λ r. same_text r.parent_thread_id (some id)) runs))

abbrev pub same_instant : Option ℕ → Option ℕ → Bool
same_instant none none = true
same_instant (some a) (some b) = nat_eq a b
same_instant a b = false

abbrev pub same_child : ChildEvidence → ChildEvidence → Bool
same_child a b =
    (a.id == b.id)
    && same_text a.source b.source
    && same_instant a.last_message_at b.last_message_at
    && (a.run_id == b.run_id)
    && (status_text a.status == status_text b.status)

unfoldable pub same_children : List ChildEvidence → List ChildEvidence → Bool
same_children [] [] = true
same_children (a ∷ as') (b ∷ bs) = same_child a b && same_children as' bs
same_children xs ys = false

pub record ThreadResolutionRow : Type 0 where
  pub id : String
  pub state : ThreadState
  pub last_message_at : Option ℕ
  pub enriched_through_message_at : Option ℕ
  pub enriched_while_working : Bool
  pub enriched_children : List ChildEvidence
  pub enrichment_contract : ℕ
  pub children_evidence : List ChildEvidence

abbrev pub resolution_of :
    List ChildEvidence → Option Thread → Option DetailsRow → Option ThreadResolutionRow
resolution_of evidence none d = none
resolution_of evidence (some t) none = none
resolution_of evidence (some t) (some d) = some (record {
  id = t.id;
  state = d.state;
  last_message_at = t.last_message_at;
  enriched_through_message_at = t.enriched_through_message_at;
  enriched_while_working = t.enriched_while_working;
  enriched_children = t.enriched_children;
  enrichment_contract = t.enrichment_contract;
  children_evidence = evidence;
})

abbrev pub thread_by_id : String → List Thread → Option Thread
thread_by_id id threads = find (is_thread id) threads

unfoldable pub resolution_row : (id : String) → List AgentRun → Threads → Option ThreadResolutionRow
unfolding latest_details child_evidence
resolution_row id runs db =
    resolution_of (child_evidence id runs db.threads) (thread_by_id id db.threads)
      (latest_details id db.details)
