-- ===== src/Executor/Turns.antt =====
-- src/agent-runs/executor.ts: the turns that `AgentRunExecutor` has in flight. `Turns` is its state:
-- the ledger, the map `active` and the flag `stopping`. The claims of `pump` are fuelled by the free
-- slots; the turns end, and are aborted, in any order between them. The continuation of parents
-- whose children have ended is not part of these steps: it only records rows, as `create` does.
use Prim.Native.String.{len}
use Prim.Native.String
use owner_operator.Prelude.{
  ℕ, zero, suc, ◌-◌, String, Bool, true, false, not, Option, none, some, List, [], ◌∷◌, ◌++◌, ◌==◌,
  if◌then◌else◌, leb, keep, any, find, length, map, update_where, coalesce, truthy, is_some,
}
use owner_operator.AgentRuns.{
  AgentRun, AgentRunActivityUpdate, AgentRunFinalStatus, AgentRunOutcome, is_pending,
}
use owner_operator.AgentRuns.Intent.{IntentResult, agent_run_turn_intent}
use owner_operator.Ledger.{
  AgentRunInsert, Ledger, agent_run_by_id, create_agent_run, claim_next_pending_agent_run,
  record_agent_run_activity, finish_agent_run, mark_running_agent_runs_interrupted,
  mark_agent_runs_lost, append_agent_run_event,
}
use owner_operator.Ledger.Steps.{created}

pub data AbortIntent : Type 0 where
  cancel timeout stop : AbortIntent

-- An entry of the map `active`.
pub record Entry : Type 0 where
  pub run_id : String
  pub intent : Option AbortIntent

pub record Turns : Type 0 where
  pub ledger : Ledger
  pub active : List Entry
  pub stopping : Bool
  pub max_concurrent : ℕ

-- What the launcher's promise gives: its result, or the message of what it throws.
pub data TurnEnd : Type 0 where
  resolved :
      (status : AgentRunFinalStatus)
      (result_text error child_session_id acpx_record_id : Option String)
      → TurnEnd
  rejected : (message : String) → TurnEnd

unfoldable pub status_for_intent : AbortIntent → AgentRunFinalStatus
status_for_intent cancel = AgentRunFinalStatus.cancelled
status_for_intent timeout = AgentRunFinalStatus.failed
status_for_intent stop = AgentRunFinalStatus.interrupted

unfoldable pub error_for_intent : AbortIntent → String
error_for_intent cancel = "run cancelled"
error_for_intent timeout = "run timed out"
error_for_intent stop = "daemon stopped during run"

abbrev pub result_tail_bytes : ℕ
result_tail_bytes = 32768

-- `decoded s k` is the text that Node decodes from the bytes of `s` after the first `k`.
unfoldable pub tail : (decoded : String → ℕ → String) → String → String
tail decoded s =
    if leb (len s) result_tail_bytes
    then s
    else String.◌++◌ "[truncated to last 32768 bytes]\n" (decoded s (len s - result_tail_bytes))

abbrev optional : Option String → Option String
optional o = if truthy o then o else none

-- The intent of an aborted turn stands in place of what the launcher reports.
unfoldable pub outcome_of :
    (decoded : String → ℕ → String) → Option AbortIntent → TurnEnd → AgentRunOutcome
unfolding status_for_intent error_for_intent tail
outcome_of decoded intent (resolved status text error child acpx) = record {
  child_session_id = optional child;
  acpx_record_id = optional acpx;
  status = elim intent [ none ↦ status | some i ↦ status_for_intent i ];
  result_tail =
      if truthy text then elim text [ none ↦ none | some t ↦ some (tail decoded t) ] else none;
  error = elim intent [ none ↦ error | some i ↦ some (error_for_intent i) ];
}
outcome_of decoded intent (rejected message) = record {
  child_session_id = none;
  acpx_record_id = none;
  status = elim intent [ none ↦ AgentRunFinalStatus.failed | some i ↦ status_for_intent i ];
  result_tail = none;
  error = some (elim intent [ none ↦ message | some i ↦ error_for_intent i ]);
}

abbrev pub entry_of : String → Entry → Bool
entry_of id e = e.run_id == id

abbrev pub has_turn : String → List Entry → Bool
has_turn id active = any (entry_of id) active

abbrev entry : String → Entry
entry id = record { run_id = id; intent = none }

-- `active.set`: an entry that the key has stands where it stood.
unfoldable pub set_active : String → List Entry → List Entry
set_active id active =
    if has_turn id active
    then update_where (entry_of id) (λ e. entry id) active
    else active ++ entry id ∷ []

abbrev pub delete_active : String → List Entry → List Entry
delete_active id active = keep (λ e. not (entry_of id e)) active

-- `entry.intent ??= intent`.
abbrev pub intend : AbortIntent → Entry → Entry
intend intent e = record e { intent = coalesce e.intent (some intent) }

abbrev pub intent_of : String → List Entry → Option AbortIntent
intent_of id active = elim (find (entry_of id) active) [ none ↦ none | some e ↦ e.intent ]

abbrev related : Option String → List AgentRun → Option AgentRun
related none runs = none
related (some id) runs = if truthy (some id) then agent_run_by_id id runs else none

-- The turn that `execute` asks of the launcher.
unfoldable pub turn_intent : AgentRun → Ledger → IntentResult
turn_intent run l =
    agent_run_turn_intent run (related run.retry_of_run_id l.runs)
      (related run.resume_of_run_id l.runs)

-- What `pump` does with the row that it claimed.
abbrev pub claimed_turn : Turns → Ledger × Option AgentRun → Turns
claimed_turn s (l, none) = record s { ledger = l }
claimed_turn s (l, some run) = record s { ledger = l; active = set_active run.id s.active }

abbrev pub claim_turn : (now : ℕ) → Turns → Turns
claim_turn now s = claimed_turn s (claim_next_pending_agent_run now s.max_concurrent s.ledger)

unfoldable pub pump_loop : (fuel now : ℕ) → Turns → Turns
pump_loop zero now s = s
pump_loop (suc fuel) now s =
    let next = claim_turn now s in
    let rest = pump_loop fuel now next in
    if leb s.max_concurrent (length s.active)
    then s
    else if is_some (claim_next_pending_agent_run now s.max_concurrent s.ledger).1
    then rest
    else next

unfoldable pub pump : (now : ℕ) → Turns → Turns
unfolding pump_loop
pump now s = if s.stopping then s else pump_loop (s.max_concurrent - length s.active) now s

-- A turn ends: `execute` records the outcome and forgets the turn. Where the database throws at that,
-- the message is recorded as that of a launcher that rejects.
unfoldable pub end_turn :
    (decoded : String → ℕ → String) → (now : ℕ) → (id : String) → TurnEnd → Turns → Turns
unfolding outcome_of
end_turn decoded now id result s = record s {
  ledger = (finish_agent_run now id (outcome_of decoded (intent_of id s.active) result) s.ledger).0;
  active = delete_active id s.active;
}

-- A turn ends, and the database throws at both writes: nothing is recorded, and the `finally` forgets
-- the turn.
abbrev pub end_turn_unrecorded : (id : String) → Turns → Turns
end_turn_unrecorded id s = record s { active = delete_active id s.active }

-- The deadline of a turn, and a cancellation that finds one.
unfoldable pub abort : AbortIntent → (id : String) → Turns → Turns
abort intent id s = record s { active = update_where (entry_of id) (intend intent) s.active }

abbrev cancelled_before_start : AgentRunOutcome
cancelled_before_start = record {
  child_session_id = none;
  acpx_record_id = none;
  status = AgentRunFinalStatus.cancelled;
  result_tail = none;
  error = some "cancelled before start";
}

abbrev pub cancel_row : (now : ℕ) → (id : String) → Option AgentRun → Turns → Turns
cancel_row now id none s = s
cancel_row now id (some run) s =
    if is_pending run.status
    then record s { ledger = (finish_agent_run now id cancelled_before_start s.ledger).0 }
    else s

-- `cancel`, up to the wait for the launcher. An unknown id throws, and changes nothing.
unfoldable pub cancel_run : (now : ℕ) → (id : String) → Turns → Turns
unfolding abort
cancel_run now id s =
    if not (is_some (agent_run_by_id id s.ledger.runs))
    then s
    else if has_turn id s.active
    then abort cancel id s
    else cancel_row now id (agent_run_by_id id s.ledger.runs) s

unfoldable pub stop_turns : Turns → Turns
stop_turns s = record s {
  active = update_where (λ e. true) (intend stop) s.active;
  stopping = true;
}

abbrev pub active_run_ids : List Entry → List String
active_run_ids active = map (λ e. e.run_id) active

-- `cutoff` is the instant that the grace leaves.
unfoldable pub sweep_lost_runs : (now lost_grace_ms : ℕ) → Turns → Turns
sweep_lost_runs now lost_grace_ms s = record s {
  ledger = (mark_agent_runs_lost now (active_run_ids s.active) (now - lost_grace_ms) s.ledger).0;
}

-- The start of a daemon, before its first claims: no turn is in flight.
unfoldable pub start_turns : (now max_concurrent : ℕ) → Ledger → Turns
start_turns now max_concurrent l = record {
  ledger = (mark_running_agent_runs_interrupted now "daemon restarted during execution" l).0;
  active = [];
  stopping = false;
  max_concurrent = max_concurrent;
}

pub data Event : Type 0 where
  create : AgentRunInsert → Event
  claims : Event
  activity : (id : String) → AgentRunActivityUpdate → Event
  stream : (id json : String) → Event
  end_of : (id : String) → TurnEnd → Event
  deadline : (id : String) → Event
  cancellation : (id : String) → Event
  sweep : (lost_grace_ms : ℕ) → Event
  shutdown : Event

unfoldable pub turn_step : (decoded : String → ℕ → String) → (now : ℕ) → Event → Turns → Turns
turn_step decoded now (create insert) s = record s {
  ledger = created (create_agent_run now insert s.ledger) s.ledger;
}
turn_step decoded now claims s = pump now s
turn_step decoded now (activity id update) s = record s {
  ledger = (record_agent_run_activity now id update s.ledger).0;
}
turn_step decoded now (stream id json) s = record s {
  ledger = (append_agent_run_event now id json s.ledger).0;
}
turn_step decoded now (end_of id result) s =
    if has_turn id s.active then end_turn decoded now id result s else s
turn_step decoded now (deadline id) s = abort timeout id s
turn_step decoded now (cancellation id) s = cancel_run now id s
turn_step decoded now (sweep lost_grace_ms) s = sweep_lost_runs now lost_grace_ms s
turn_step decoded now shutdown s = stop_turns s

-- A history: each event with the instant at which it happens.
unfoldable pub turns_after : (decoded : String → ℕ → String) → List (ℕ × Event) → Turns → Turns
turns_after decoded [] s = s
turns_after decoded ((now, event) ∷ rest) s =
    turns_after decoded rest (turn_step decoded now event s)
