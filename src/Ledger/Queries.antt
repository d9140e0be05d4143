-- ===== src/Ledger/Queries.antt =====
-- src/state/database.ts: the queries on `agent_runs`. Where SQL leaves the order of equal instants
-- open, the model takes the lower rowid.
use owner_operator.Prelude.{
  String, Bool, true, ◌&&◌, ◌||◌, Option, none, some, List, [], ◌∷◌, ltb, leb, keep, sort_by,
  same_text,
}
use owner_operator.AgentRuns.{AgentRun, is_pending, is_running}

-- `ORDER BY created_at DESC, rowid DESC`.
abbrev newest_first : AgentRun → AgentRun → Bool
newest_first r s = ltb s.created_at r.created_at

pub data Filter : Type 0 where
  everything : Filter
  children_of : (parent_thread_id : String) → Filter

abbrev selects : Filter → AgentRun → Bool
selects everything r = true
selects (children_of parent) r = same_text r.parent_thread_id (some parent)

unfoldable pub list_agent_runs : Filter → List AgentRun → List AgentRun
list_agent_runs filter runs = sort_by newest_first (keep (selects filter) runs)

abbrev head? : List AgentRun → Option AgentRun
head? [] = none
head? (r ∷ rs) = some r

abbrev newest_or_first : AgentRun → AgentRun → Bool
newest_or_first r s = leb s.created_at r.created_at

unfoldable pub agent_run_by_child_session : String → List AgentRun → Option AgentRun
agent_run_by_child_session child runs =
    head? (sort_by newest_or_first (keep (λ r. same_text r.child_session_id (some child)) runs))

unfoldable pub nonterminal_agent_run_by_child_session : String → List AgentRun → Option AgentRun
nonterminal_agent_run_by_child_session child runs = head? (
    sort_by newest_or_first (
      keep
        (λ r.
          same_text r.child_session_id (some child) && (is_pending r.status || is_running r.status))
        runs))
