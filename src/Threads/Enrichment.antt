-- ===== src/Threads/Enrichment.antt =====
-- src/state/database.ts: the assessments of a model, `appendModelDetails`,
-- `appendModelDetailsIfFresh`, `listEnrichmentCandidates` and `requestEnrichment`.
use owner_operator.Prelude.{
  ℕ, ◌+◌, ◌*◌, String, Bool, true, false, not, ◌&&◌, ◌||◌, Option, none, some, List, [], ◌∷◌,
  if◌then◌else◌, nat_eq, ltb, leb, any, get_or, is_some, truthy, update_where,
}
use owner_operator.AgentRuns.{AgentRun}
use owner_operator.Threads.{
  ThreadState, idle, needs_you, working, done, Bookmark, ChildEvidence, DetailsRow, Thread, Threads,
  ThreadResolutionRow, DetailsPatch, Edge, model, is_thread, same_state, same_instant,
  same_children, append_details, effective_state, has_active_child, latest_details, of_latest,
  resolution_row, thread_by_id,
}

abbrev pub current_enrichment_contract : ℕ
current_enrichment_contract = 2

abbrev pub working_reassess_ms : ℕ
working_reassess_ms = 4 * 60 * 1000

-- What a model answers for a thread: each part may be missing.
pub data Attention : Type 0 where
  rests asks : Attention

abbrev pub attention_state : Attention → ThreadState
attention_state rests = idle
attention_state asks = needs_you

pub record ThreadEnrichment : Type 0 where
  pub topic : Option String
  pub status_summary : Option String
  pub attention : Option Attention
  pub bookmark : Option Bookmark

abbrev pub blank_thread : (now : ℕ) → (id : String) → Thread
blank_thread now id = record {
  id = id;
  repo = none;
  project = none;
  app = none;
  source = none;
  transcript_path = none;
  created_at = none;
  first_seen_at = now;
  last_seen_at = now;
  last_active_at = none;
  last_message_at = none;
  last_checked_at = none;
  diff_added = none;
  diff_deleted = none;
  raw_topic = none;
  owner_title = none;
  snoozed_until = none;
  snoozed_through_message_at = none;
  link = none;
  enriched_through_message_at = none;
  enriched_while_working = false;
  enriched_children = [];
  enrichment_contract = 0;
  last_enriched_at = none;
}

-- `INSERT OR IGNORE`.
unfoldable pub insert_or_ignore : (now : ℕ) → (id : String) → List Thread → List Thread
insert_or_ignore now id threads =
    if any (is_thread id) threads then threads else blank_thread now id ∷ threads

abbrev pub enriched_to : Option ℕ → Thread → Thread
enriched_to none t = t
enriched_to (some through) t = record t {
  enriched_through_message_at = some through;
  enrichment_contract = current_enrichment_contract;
}

abbrev pub version_of : Option Edge → Option ℕ
version_of none = none
version_of (some edge) = some edge.version

abbrev pub model_patch : (topic status_summary : Option String) → DetailsPatch
model_patch topic status_summary = record {
  state = none;
  topic = some topic;
  status_summary = some status_summary;
  bookmark = none;
}

unfoldable pub append_model_details :
    (now : ℕ)
    → (id : String) → (topic status_summary : Option String) → (through : Option ℕ) → Threads
    → Threads × Option ℕ
unfolding append_details insert_or_ignore
append_model_details now id topic status_summary through db =
    let (details, edge) =
      append_details now id (model_patch topic status_summary) model db.details in
    (
      record db {
        threads =
            update_where (is_thread id) (enriched_to through) (insert_or_ignore now id db.threads);
        details = details;
      },
      version_of edge,
    )

abbrev after : Option ℕ → ℕ → Bool
after none through = false
after (some e) through = ltb through e

-- An assessment that is not taken: the owner has closed the thread, a session that has stopped has no
-- answer, or the evidence has moved.
abbrev pub is_rejected :
    ThreadResolutionRow
    → (busy : Bool) → ThreadEnrichment
    → (through : ℕ) → List ChildEvidence
    → Bool
is_rejected current busy details through children =
    same_state current.state done
    || not busy && not (is_some details.attention)
    || not (same_instant current.last_message_at (some through))
    || not (same_children children current.children_evidence)
    || after current.enriched_through_message_at through

-- Working, as the assessment sees it.
abbrev pub is_busy : (id : String) → List AgentRun → ThreadResolutionRow → Bool
is_busy id runs current = same_state current.state working || has_active_child id runs

abbrev or_title : Option String → Option String → Option String
or_title topic title = if truthy topic then topic else title

abbrev pub state_of_attention : (busy : Bool) → Option Attention → Option ThreadState
state_of_attention busy none = none
state_of_attention busy (some a) = if busy then none else some (attention_state a)

-- The topic and the summary are written with the account only.
abbrev pub enrichment_patch :
    (busy : Bool) → ThreadEnrichment → (title : Option String) → DetailsPatch
enrichment_patch busy details title =
    let account = is_some details.status_summary in
    record {
      state = state_of_attention busy details.attention;
      topic = if account then some (or_title details.topic title) else none;
      status_summary = if account then some details.status_summary else none;
      bookmark = if account then some details.bookmark else none;
    }

abbrev pub assessed : (now through : ℕ) → (busy : Bool) → List ChildEvidence → Thread → Thread
assessed now through busy children t = record t {
  enriched_through_message_at = some through;
  enriched_while_working = busy;
  enriched_children = children;
  enrichment_contract = current_enrichment_contract;
  last_enriched_at = some now;
}

abbrev pub take_assessment :
    (now : ℕ)
    → (id : String) → (busy : Bool) → ThreadEnrichment
    → (through : ℕ) → ThreadResolutionRow
    → Threads
    → Threads × Option ℕ
unfolding append_details
take_assessment now id busy details through current db =
    let title = of_latest (λ d. d.topic) none (latest_details id db.details) in
    let (rows, edge) =
      append_details now id (enrichment_patch busy details title) model db.details in
    (
      record db {
        threads =
            if is_some details.status_summary
            then update_where (is_thread id) (assessed now through busy current.children_evidence)
                db.threads
            else db.threads;
        details = rows;
      },
      some (get_or (version_of edge) 0),
    )

abbrev pub assess :
    (now : ℕ)
    → (id : String) → List AgentRun
    → ThreadEnrichment
    → (through : ℕ) → List ChildEvidence
    → Option ThreadResolutionRow
    → Threads
    → Threads × Option ℕ
unfolding append_details
assess now id runs details through children none db = (db, none)
assess now id runs details through children (some current) db =
    let busy = is_busy id runs current in
    if is_rejected current busy details through children
    then (db, none)
    else take_assessment now id busy details through current db

unfoldable pub append_model_details_if_fresh :
    (now : ℕ)
    → (id : String) → List AgentRun
    → ThreadEnrichment
    → (through : ℕ) → List ChildEvidence
    → Threads
    → Threads × Option ℕ
unfolding append_details resolution_row
append_model_details_if_fresh now id runs details through children db =
    assess now id runs details through children (resolution_row id runs db) db

abbrev is_open : ThreadState → Bool
is_open state = not (same_state state done)

-- The time at which a working session is assessed again has come.
abbrev reassess : (now : ℕ) → Option ℕ → Bool
reassess now none = true
reassess now (some last) = leb (last + working_reassess_ms) now

abbrev evidence_moved : (working_now : Bool) → (message : ℕ) → ThreadResolutionRow → Bool
evidence_moved working_now message r = elim r.enriched_through_message_at [
  | none ↦ true
  | some through ↦
      ltb through message
      || not (nat_eq r.enrichment_contract current_enrichment_contract)
      || not (same_children r.enriched_children r.children_evidence)
      || nat_eq through message
        && (if r.enriched_while_working then not working_now else working_now)
]

-- The condition of `listEnrichmentCandidates`.
abbrev pub wants_enrichment :
    (now : ℕ)
    → (id : String) → List AgentRun
    → (last_enriched_at : Option ℕ) → ThreadResolutionRow
    → Bool
unfolding effective_state
wants_enrichment now id runs last_enriched_at r = elim r.last_message_at [
  | none ↦ false
  | some message ↦
      let working_now = same_state (effective_state id runs r.state) working in
      is_open r.state
      && (evidence_moved working_now message r || working_now && reassess now last_enriched_at)
]

abbrev pub is_candidate_of :
    (now : ℕ) → (id : String) → List AgentRun → Option Thread → Option ThreadResolutionRow → Bool
unfolding effective_state
is_candidate_of now id runs none r = false
is_candidate_of now id runs (some t) none = false
is_candidate_of now id runs (some t) (some r) = wants_enrichment now id runs t.last_enriched_at r

unfoldable pub is_enrichment_candidate : (now : ℕ) → (id : String) → List AgentRun → Threads → Bool
unfolding resolution_row effective_state
is_enrichment_candidate now id runs db =
    is_candidate_of now id runs (thread_by_id id db.threads) (resolution_row id runs db)

abbrev pub requested : (last_message_at : ℕ) → List DetailsRow → Thread → Bool
unfolding latest_details
requested last_message_at details t =
    same_instant t.last_message_at (some last_message_at)
    && (elim (latest_details t.id details) [ none ↦ false | some d ↦ is_open d.state ])

abbrev pub request_one : (id : String) → (last_message_at : ℕ) → Threads → Threads × Bool
unfolding latest_details
request_one id last_message_at db =
    let resets = λ (t : Thread). is_thread id t && requested last_message_at db.details t in
    (
      record db {
        threads =
            update_where resets (λ t. record t { enriched_through_message_at = none }) db.threads;
      },
      any resets db.threads,
    )

unfoldable pub request_enrichment : List (String × ℕ) → Threads → Threads × List String
unfolding latest_details
request_enrichment [] db = (db, [])
request_enrichment ((id, last_message_at) ∷ rest) db =
    let (db', reset) = request_one id last_message_at db in
    let (db'', ids) = request_enrichment rest db' in (db'', if reset then id ∷ ids else ids)
