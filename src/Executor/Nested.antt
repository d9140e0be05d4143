-- ===== src/Executor/Nested.antt =====
-- src/agent-runs/executor.ts `reconcileNestedCompletions`: which parents are continued, and for which
-- of their children. The runs stand newest first, as `listAgentRuns` gives them.
pub mod Once
use owner_operator.Prelude.{
  String, Bool, true, false, not, ◌&&◌, ◌||◌, Option, none, some, List, [], ◌∷◌, ◌++◌, ◌==◌,
  if◌then◌else◌, ltb, any, find, get_or, is_some, keep, map, same_text, truthy, update_where,
}
use owner_operator.AgentRuns.{
  AgentRun, Status, completed, interrupted, agent_run_max_depth, is_terminal,
}

abbrev pub has : String → List String → Bool
has id ids = any (λ i. i == id) ids

-- `latestBySession`.
abbrev latest_of : String → List AgentRun → Option AgentRun
latest_of session runs = find (λ r. same_text r.child_session_id (some session)) runs

abbrev submitted_in : String → AgentRun → Bool
submitted_in session r = same_text r.child_session_id (some session) && r.prompt_submitted

-- `deliveredBySession`.
unfoldable pub delivered : (session : String) → List AgentRun → List String
delivered session [] = []
delivered session (r ∷ rs) =
    let rest = delivered session rs in
    if submitted_in session r then r.completion_run_ids ++ rest else rest

-- An entry of the map from a child session, or a run id, to the run that counts for it.
pub record Child : Type 0 where
  pub key : String
  pub run : AgentRun

abbrev child_of : AgentRun → List AgentRun → Child
child_of r runs = record {
  key = get_or r.child_session_id r.id;
  run =
      if truthy r.child_session_id
      then get_or (latest_of (get_or r.child_session_id "") runs) r
      else r;
}

-- A later value takes the place of an earlier one.
abbrev set_child : Child → List Child → List Child
set_child c entries =
    if any (λ e. e.key == c.key) entries
    then update_where (λ e. e.key == c.key) (λ e. record e { run = c.run }) entries
    else entries ++ c ∷ []

abbrev children_map : (children runs : List AgentRun) → List Child → List Child
children_map [] runs entries = entries
children_map (r ∷ rest) runs entries = children_map rest runs (set_child (child_of r runs) entries)

abbrev of_parent : String → AgentRun → Bool
of_parent session r = same_text r.parent_thread_id (some session)

-- The children of a session whose result it has not been given.
unfoldable pub undelivered : (session : String) → List AgentRun → List AgentRun
unfolding delivered
undelivered session runs =
    keep (λ c. not (has c.id (delivered session runs)))
      (map (λ (e : Child). e.run) (children_map (keep (of_parent session) runs) runs []))

-- `sessionsWithActiveChildren.has`.
abbrev pub has_active_children : String → List AgentRun → Bool
has_active_children session runs = any (λ r. of_parent session r && not (is_terminal r.status)) runs

abbrev pub is_completed : Status → Bool
is_completed completed = true
is_completed status = false

abbrev pub settled_child : (continuing : List String) → List AgentRun → AgentRun → Bool
settled_child continuing runs c =
    is_terminal c.status
    && (not (truthy c.child_session_id)
        || (not (has (get_or c.child_session_id "") continuing)
            && not (has_active_children (get_or c.child_session_id "") runs)))

abbrev pub non_empty : List AgentRun → Bool
non_empty [] = false
non_empty (r ∷ rs) = true

abbrev pub is_continued :
    (continuing : List String)
    → (runs : List AgentRun) → AgentRun
    → (children : List AgentRun) → Bool
is_continued continuing runs run children =
    is_completed run.status
    && (run.prompt_submitted || (elim run.completion_run_ids [ [] ↦ true | id ∷ ids ↦ false ]))
    && ltb run.depth agent_run_max_depth
    && is_some run.finished_at
    && non_empty children
    && not (any (λ c. not (settled_child continuing runs c)) children)

pub record Continuation : Type 0 where
  pub session : String
  pub parent : AgentRun
  pub children : List AgentRun

-- The loop over the runs: `seen` and `continuing` are its sets.
unfoldable pub continuations :
    (runs rest : List AgentRun) → (seen continuing : List String) → List Continuation
unfolding undelivered
continuations runs [] seen continuing = []
continuations runs (run ∷ rest) seen continuing =
    let session = get_or run.child_session_id "" in
    let children = undelivered session runs in
    let skipped = continuations runs rest seen continuing in
    let passed = continuations runs rest (session ∷ seen) continuing in
    let others = continuations runs rest (session ∷ seen) (session ∷ continuing) in
    if not (truthy run.child_session_id) || has session seen
    then skipped
    else if is_continued continuing runs run children
    then record { session = session; parent = run; children = children } ∷ others
    else passed

abbrev succeeds : String → AgentRun → Bool
succeeds id r = same_text r.retry_of_run_id (some id) || same_text r.resume_of_run_id (some id)

abbrev is_interrupted : Status → Bool
is_interrupted interrupted = true
is_interrupted status = false

-- The follow-ups that `retryInterruptedNestedFollowUps` retries at a start.
unfoldable pub interrupted_follow_ups : List AgentRun → List AgentRun
interrupted_follow_ups runs =
    keep
      (λ r.
        is_interrupted r.status
        && not r.prompt_submitted
        && truthy r.resume_of_run_id
        && not (truthy r.retry_of_run_id)
        && (elim r.completion_run_ids [ [] ↦ false | id ∷ ids ↦ true ])
        && not (any (succeeds r.id) runs))
      runs
