-- ===== src/Ledger.antt =====
-- src/state/database.ts: the table `agent_runs` with the runs' event logs. The rows stand in the
-- order of their rowid; `now` is what `this.now()` returns. The queries are in `Ledger/Queries`.
pub mod Queries
pub mod Steps
pub mod Rows
pub mod Wf
pub mod Terminal
pub mod Queue
pub mod Capacity
pub mod Logs
pub mod Results
pub mod Lifecycle
pub mod Reported
use owner_operator.Prelude.{
  ℕ, ◌+◌, String, Bool, true, false, not, ◌&&◌, ◌||◌, Option, none, some, List, [], ◌∷◌, ◌++◌, ◌==◌,
  if◌then◌else◌, ltb, leb, count, find, any, keep, update_where, update, coalesce, get_or, is_some,
  truthy, sort_by, map,
}
use owner_operator.AgentRuns.{
  Harness, Status, pending, running, interrupted, lost, Effort, AgentRun, AgentRunActivityUpdate,
  AgentRunOutcome, final_status, is_terminal, is_pending, is_running, unobserved,
}
use owner_operator.AgentRuns.Identity.{read_identity, written_identity}
use owner_operator.RunLog.{RunLog, insert_log_record, enforce_event_log_budget, next_seq}
use owner_operator.RunLog.Json.{LogRecord, stream, result}

pub record AgentRunInsert : Type 0 where
  pub id : String
  pub harness : Harness
  pub task : String
  pub cwd : String
  pub parent_thread_id : Option String
  pub model : Option String
  pub effort : Option Effort
  pub depth : ℕ
  pub timeout_seconds : ℕ
  pub retry_of_run_id : Option String
  pub resume_of_run_id : Option String
  pub completion_run_ids : List String
  pub child_session_id : Option String
  pub acpx_record_id : Option String

pub record Ledger : Type 0 where
  pub runs : List AgentRun
  pub logs : String → RunLog
  pub event_log_max_bytes : ℕ

abbrev pub has_id : String → AgentRun → Bool
has_id id r = r.id == id

abbrev pub agent_run_by_id : String → List AgentRun → Option AgentRun
agent_run_by_id id runs = find (has_id id) runs

abbrev pub inserted : (now : ℕ) → AgentRunInsert → AgentRun
inserted now i = record {
  id = i.id;
  harness = i.harness;
  task = i.task;
  cwd = i.cwd;
  parent_thread_id = i.parent_thread_id;
  model = i.model;
  effort = i.effort;
  effort_applied = false;
  harness_identity = unobserved;
  depth = i.depth;
  status = pending;
  prompt_submitted = false;
  created_at = now;
  started_at = none;
  finished_at = none;
  activity = none;
  last_activity_at = none;
  child_session_id = i.child_session_id;
  acpx_record_id = i.acpx_record_id;
  result_tail = none;
  error = none;
  retry_of_run_id = i.retry_of_run_id;
  resume_of_run_id = i.resume_of_run_id;
  completion_run_ids = i.completion_run_ids;
  timeout_seconds = i.timeout_seconds;
}

-- A foreign key: null, or the id of a row.
abbrev references : Option String → List AgentRun → Bool
references none runs = true
references (some id) runs = is_some (agent_run_by_id id runs)

-- The constraints of the table: the primary key, the references, and one relation at most.
abbrev pub admits : AgentRunInsert → List AgentRun → Bool
admits i runs =
    not (is_some (agent_run_by_id i.id runs))
    && references i.retry_of_run_id runs
    && references i.resume_of_run_id runs
    && not (is_some i.retry_of_run_id && is_some i.resume_of_run_id)

-- `none` is the throw of a violated constraint.
unfoldable pub create_agent_run : (now : ℕ) → AgentRunInsert → Ledger → Option (Ledger × AgentRun)
create_agent_run now i l =
    if admits i l.runs
    then some (record l { runs = l.runs ++ inserted now i ∷ [] }, inserted now i)
    else none

abbrev earlier : AgentRun → Option AgentRun → Option AgentRun
earlier r none = some r
earlier r (some s) = if ltb s.created_at r.created_at then some s else some r

-- The pending row that `ORDER BY created_at ASC, rowid ASC LIMIT 1` gives.
unfoldable pub oldest_pending : List AgentRun → Option AgentRun
oldest_pending [] = none
oldest_pending (r ∷ rs) =
    let rest = oldest_pending rs in if is_pending r.status then earlier r rest else rest

abbrev pub running_count : List AgentRun → ℕ
running_count runs = count (λ r. is_running r.status) runs

abbrev pub started : (now : ℕ) → AgentRun → AgentRun
started now r = record r { status = running; started_at = some now }

unfoldable pub start_run : (now : ℕ) → String → Ledger → Ledger
start_run now id l = record l { runs = update_where (has_id id) (started now) l.runs }

abbrev pub claimed : (now : ℕ) → Option AgentRun → Ledger → Ledger × Option AgentRun
claimed now none l = (l, none)
claimed now (some next) l =
    let l' = start_run now next.id l in (l', agent_run_by_id next.id l'.runs)

unfoldable pub claim_next_pending_agent_run :
    (now max_running : ℕ) → Ledger → Ledger × Option AgentRun
unfolding oldest_pending start_run
claim_next_pending_agent_run now max_running l =
    if leb max_running (running_count l.runs)
    then (l, none)
    else claimed now (oldest_pending l.runs) l

abbrev pub with_activity : (now : ℕ) → AgentRunActivityUpdate → AgentRun → AgentRun
with_activity now u r = record r {
  activity = coalesce u.activity r.activity;
  last_activity_at = some now;
  child_session_id = coalesce u.child_session_id r.child_session_id;
  acpx_record_id = coalesce u.acpx_record_id r.acpx_record_id;
  effort_applied = get_or u.effort_applied r.effort_applied;
  prompt_submitted = r.prompt_submitted || u.prompt_submitted;
  harness_identity = elim u.harness_identity [
    | none ↦ r.harness_identity
    | some o ↦ read_identity (written_identity o)
  ];
}

abbrev pub running_row : String → AgentRun → Bool
running_row id r = r.id == id && is_running r.status

abbrev pub active_row : String → AgentRun → Bool
active_row id r = r.id == id && (is_pending r.status || is_running r.status)

unfoldable pub record_agent_run_activity :
    (now : ℕ) → String → AgentRunActivityUpdate → Ledger → Ledger × Option AgentRun
record_agent_run_activity now id u l =
    let runs' = update_where (running_row id) (with_activity now u) l.runs in
    if any (running_row id) l.runs
    then (record l { runs = runs' }, agent_run_by_id id runs')
    else (l, none)

-- `appendResultRecord` of the row that `agentRunById` reads.
unfoldable pub append_result_record : (now : ℕ) → String → Ledger → Ledger
append_result_record now id l = elim (agent_run_by_id id l.runs) [
  | none ↦ l
  | some run ↦
      let entry = result run.id run.status (if truthy run.error then run.error else none) in
      record l { logs = update l.logs run.id (insert_log_record now entry (l.logs run.id)) }
]

abbrev pub finished : (now : ℕ) → AgentRunOutcome → AgentRun → AgentRun
finished now o r = record r {
  status = final_status o.status;
  finished_at = some now;
  result_tail = o.result_tail;
  error = o.error;
  child_session_id = coalesce o.child_session_id r.child_session_id;
  acpx_record_id = coalesce o.acpx_record_id r.acpx_record_id;
}

unfoldable pub finish_agent_run :
    (now : ℕ) → String → AgentRunOutcome → Ledger → Ledger × Option AgentRun
finish_agent_run now id o l =
    let l' = record l { runs = update_where (active_row id) (finished now o) l.runs } in
    if any (active_row id) l.runs
    then (append_result_record now id l', agent_run_by_id id l'.runs)
    else (l, none)

abbrev pub ids : List AgentRun → List String
ids runs = map (λ r. r.id) runs

abbrev pub created_before : AgentRun → AgentRun → Bool
created_before r s = leb r.created_at s.created_at

unfoldable pub append_results : (now : ℕ) → List String → Ledger → Ledger
append_results now [] l = l
append_results now (id ∷ rest) l = append_results now rest (append_result_record now id l)

abbrev pub ended : (now : ℕ) → Status → (reason : String) → AgentRun → AgentRun
ended now status reason r = record r {
  status = status;
  finished_at = some now;
  error = some reason;
}

-- Before the executor starts: every row that still runs belonged to an earlier daemon.
unfoldable pub mark_running_agent_runs_interrupted :
    (now : ℕ) → (reason : String) → Ledger → Ledger × List String
mark_running_agent_runs_interrupted now reason l =
    let stale = ids (sort_by created_before (keep (λ r. is_running r.status) l.runs)) in
    let l' = record l {
      runs = update_where (λ r. is_running r.status) (ended now interrupted reason) l.runs;
    } in
    (append_results now stale l', stale)

abbrev pub last_seen : AgentRun → ℕ
last_seen r = get_or (coalesce r.last_activity_at r.started_at) r.created_at

abbrev pub lost_error : String
lost_error = "run lost: no live turn and no recent activity"

unfoldable pub mark_lost : (now : ℕ) → String → Ledger → Ledger
mark_lost now id l =
    append_result_record now id
      (record l { runs = update_where (running_row id) (ended now lost lost_error) l.runs })

unfoldable pub mark_each_lost : (now : ℕ) → List String → Ledger → Ledger
mark_each_lost now [] l = l
mark_each_lost now (id ∷ rest) l = mark_each_lost now rest (mark_lost now id l)

abbrev pub stale_run_ids : (live : List String) → (cutoff : ℕ) → List AgentRun → List String
stale_run_ids live cutoff runs =
    keep (λ id. not (any (λ i. i == id) live))
      (ids
        (sort_by created_before (keep (λ r. is_running r.status && ltb (last_seen r) cutoff) runs)))

unfoldable pub mark_agent_runs_lost :
    (now : ℕ) → (live : List String) → (cutoff : ℕ) → Ledger → Ledger × List String
mark_agent_runs_lost now live cutoff l =
    let stale = stale_run_ids live cutoff l.runs in (mark_each_lost now stale l, stale)

unfoldable pub append_agent_run_event :
    (now : ℕ) → String → (json : String) → Ledger → Ledger × Option ℕ
append_agent_run_event now id json l =
    let log = l.logs id in
    let log' =
      enforce_event_log_budget l.event_log_max_bytes (insert_log_record now (stream json) log) in
    if any (running_row id) l.runs
    then (record l { logs = update l.logs id log' }, some (next_seq log))
    else (l, none)
