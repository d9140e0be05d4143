-- ===== src/Ledger/Steps.antt =====
-- src/state/state.ts: the operations through which the daemon changes the ledger, as steps on it.
use owner_operator.Prelude.{ℕ, String, Option, none, some, List, [], ◌∷◌}
use owner_operator.AgentRuns.{AgentRun, AgentRunActivityUpdate, AgentRunOutcome}
use owner_operator.Ledger.{
  AgentRunInsert, Ledger, create_agent_run, claim_next_pending_agent_run, record_agent_run_activity,
  finish_agent_run, mark_running_agent_runs_interrupted, mark_agent_runs_lost,
  append_agent_run_event,
}

pub data Operation : Type 0 where
  create : AgentRunInsert → Operation
  claim : (max_running : ℕ) → Operation
  activity : (id : String) → AgentRunActivityUpdate → Operation
  finish : (id : String) → AgentRunOutcome → Operation
  interrupt : (reason : String) → Operation
  lose : (live : List String) → (cutoff : ℕ) → Operation
  event : (id json : String) → Operation

-- A creation that the table refuses throws and changes nothing.
abbrev pub created : Option (Ledger × AgentRun) → Ledger → Ledger
created none l = l
created (some (l', run)) l = l'

unfoldable pub step : (now : ℕ) → Operation → Ledger → Ledger
step now (create insert) l = created (create_agent_run now insert l) l
step now (claim max_running) l = (claim_next_pending_agent_run now max_running l).0
step now (activity id update) l = (record_agent_run_activity now id update l).0
step now (finish id outcome) l = (finish_agent_run now id outcome l).0
step now (interrupt reason) l = (mark_running_agent_runs_interrupted now reason l).0
step now (lose live cutoff) l = (mark_agent_runs_lost now live cutoff l).0
step now (event id json) l = (append_agent_run_event now id json l).0

-- A history: each operation with the instant at which it ran.
unfoldable pub replay : List (ℕ × Operation) → Ledger → Ledger
replay [] l = l
replay ((now, op) ∷ rest) l = replay rest (step now op l)
