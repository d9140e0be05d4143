-- ===== src/AgentRuns/SavedSession.antt =====
-- src/agent-runs/agent-state-projection.ts: what the saved ACP session records say of a run. The
-- directory of records and the working directories are an `Environment`.
use owner_operator.Prelude.{
  String, Bool, true, false, not, ◌&&◌, ◌||◌, Option, none, some, truthy, get_or, ◌==◌,
  if◌then◌else◌, is_some,
}
use owner_operator.AgentRuns.{AgentRun, Harness, open_code}

-- A field of a JSON object: `null` and a missing field are `absent`.
pub data Field : Type 0 where
  absent other : Field
  text : String → Field

pub record SessionCapabilities : Type 0 where
  pub load_session : Bool
  pub resume : Bool

pub record SavedRecord : Type 0 where
  pub schema : Field
  pub acpx_record_id : Field
  pub cwd : Field
  pub acp_session_id : Field
  pub agent_session_id : Field
  pub agent_capabilities : Option SessionCapabilities

pub data SavedFile : Type 0 where
  missing unreadable : SavedFile
  saved : SavedRecord → SavedFile

-- `directory` tells whether a path is a directory that can be read.
pub record Environment : Type 0 where
  pub session_file : String → SavedFile
  pub directory : String → Bool

abbrev pub is_text : Field → String → Bool
is_text (text t) s = t == s
is_text absent s = false
is_text other s = false

-- `a ?? b` of two fields.
abbrev pub or_field : Field → Field → Field
or_field absent b = b
or_field (text t) b = text t
or_field other b = other

abbrev pub filled : Field → Option String
filled (text t) = if t == "" then none else some t
filled absent = none
filled other = none

pub data Recovery : Type 0 where
  nothing failed : Recovery
  recovered : (child_session_id acpx_record_id : String) → Recovery

abbrev pub checked : Bool → Option String → String → Recovery
checked true (some child) record_id = recovered child record_id
checked true none record_id = failed
checked false child record_id = failed

abbrev pub read_record : AgentRun → String → SavedFile → Recovery
read_record run record_id missing = if truthy run.acpx_record_id then failed else nothing
read_record run record_id unreadable = failed
read_record run record_id (saved r) =
    checked
      (is_text r.schema "acpx.session.v1"
        && is_text r.acpx_record_id record_id
        && is_text r.cwd run.cwd
        && is_some (filled r.acp_session_id))
      (filled (or_field r.agent_session_id r.acp_session_id)) record_id

-- `failed` is a throw.
unfoldable pub recover_saved_session_identity : Environment → AgentRun → Recovery
recover_saved_session_identity env run =
    if truthy run.child_session_id
    then nothing
    else (let record_id = get_or run.acpx_record_id run.id in
        read_record run record_id (env.session_file record_id))

-- `{ ...run, ...identity }`.
unfoldable pub with_identity : AgentRun → Recovery → AgentRun
with_identity run nothing = run
with_identity run failed = run
with_identity run (recovered child acpx) = record run {
  child_session_id = some child;
  acpx_record_id = some acpx;
}

pub data SessionError : Type 0 where
  unavailable undetermined not_advertised : SessionError

abbrev advertised : Option SessionCapabilities → Option SessionError
advertised none = some undetermined
advertised (some c) = if c.load_session || c.resume then none else some not_advertised

abbrev matches_child : Field → Option String → Bool
matches_child (text t) (some child) = t == child
matches_child _ _ = false

abbrev continuation : AgentRun → String → SavedFile → Option SessionError
continuation run record_id (saved r) =
    if is_text r.schema "acpx.session.v1"
      && is_text r.acpx_record_id record_id
      && matches_child (or_field r.agent_session_id r.acp_session_id) run.child_session_id
      && is_text r.cwd run.cwd
    then advertised r.agent_capabilities
    else some unavailable
continuation run record_id missing = some unavailable
continuation run record_id unreadable = some unavailable

abbrev is_open_code : Harness → Bool
is_open_code open_code = true
is_open_code _ = false

unfoldable pub open_code_continuation_error : Environment → AgentRun → Option SessionError
open_code_continuation_error env run =
    if not (is_open_code run.harness)
    then none
    else if not (truthy run.acpx_record_id)
    then some unavailable
    else (let record_id = get_or run.acpx_record_id "" in
        continuation run record_id (env.session_file record_id))
