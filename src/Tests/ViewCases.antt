-- ===== src/Tests/ViewCases.antt =====
-- The views of packages/core/src/agent-state.ts and the worktrees of src/state/database.ts at
-- concrete rows.
use owner_operator.Prelude.{
  ◌≤◌, String, ◌≡◌, refl, Bool, true, some, List, [], ◌∷◌, arith, count, length, get_or,
}
use owner_operator.AgentRuns.{AgentRun}
use owner_operator.AgentState.{AgentRunView, category_for, derive_parent_agent_state, is_attention}
use owner_operator.AgentState.Attention.{derive_parent_agent_state-attention}
use owner_operator.AgentState.Bounded.{bounded, code_points, code_points-bounded}
use owner_operator.Worktrees.{
  RegisteredWorktree, Registry, register_and_select_worktree, upsert_worktree_selection,
}
use owner_operator.Worktrees.Keys.{WfRegistry}
use owner_operator.Worktrees.Selection.{IsSelected, register_and_select_worktree-IsSelected}
use owner_operator.Tests.Data.{failed_run, pending_run, running_run}

abbrev any_order : String → String → Bool
any_order a b = true

abbrev eligible : AgentRun → Bool
eligible run = true

abbrev siblings : List AgentRun
siblings = running_run "a" 1 ∷ failed_run "b" 2 ∷ pending_run "c" 3 ∷ []

derive_parent_agent_state-attention_example :
    (length (derive_parent_agent_state any_order eligible 9 (some 1) siblings).runs ≤ 1)
    × (count
          (λ (v : AgentRunView). is_attention v.category)
          (derive_parent_agent_state any_order eligible 9 (some 1) siblings).runs
        ≡ (derive_parent_agent_state any_order eligible 9 (some 1) siblings).counts.attention)
unfolding category_for
derive_parent_agent_state-attention_example =
    derive_parent_agent_state-attention any_order eligible 9 1 siblings (omega arith)

code_points-bounded_example : code_points (bounded (some "review the change") 6) ≤ 6
code_points-bounded_example = code_points-bounded (some "review the change") 6

abbrev tree : String → String → RegisteredWorktree
tree id path = record {
  id = id;
  repository = "/repo";
  path = path;
  git_common_dir = "/repo/.git";
  created_by_thread_id = "t1";
  created_at = 1;
}

abbrev registry : Registry
registry = record {
  worktrees = tree "w1" "/a" ∷ tree "w2" "/b" ∷ [];
  selections = record { thread_id = "t1"; worktree_id = "w1"; selected_at = 1 } ∷ [];
}

abbrev after_registration : Registry
after_registration =
    (get_or (register_and_select_worktree "t2" (tree "w3" "/b") 5 registry)
      (registry, tree "" "")).0

registry-WfRegistry : WfRegistry registry
registry-WfRegistry = record { unique = (refl, (refl, tt)); referenced = (refl, tt) }

register_and_select_worktree-IsSelected_example :
    IsSelected "t2" "t1" (tree "w3" "/b") (tree "w2" "/b") registry after_registration
unfolding register_and_select_worktree upsert_worktree_selection
register_and_select_worktree-IsSelected_example =
    register_and_select_worktree-IsSelected "t2" "t1" (tree "w3" "/b") (tree "w2" "/b") 5 registry
      after_registration registry-WfRegistry refl refl

-- The first registration of all.
abbrev empty_registry : Registry
empty_registry = record { worktrees = []; selections = [] }

first_registration :
    register_and_select_worktree "t1" (tree "w1" "/a") 1 empty_registry
    ≡ some (
      record {
        worktrees = tree "w1" "/a" ∷ [];
        selections = record { thread_id = "t1"; worktree_id = "w1"; selected_at = 1 } ∷ [];
      },
      tree "w1" "/a",
    )
unfolding register_and_select_worktree upsert_worktree_selection
first_registration = refl
