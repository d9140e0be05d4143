-- ===== src/Executor/Task/Within.antt =====
-- src/agent-runs/executor.ts `nestedCompletionTask`: the text stays within its bytes.
use Prim.Native.String.{String, len}
use owner_operator.Prelude.{
  ◌≤◌, ◌≡◌, refl, ap, ◌⊎◌, inl, inr, Bool, true, Option, none, some, List, [], ◌∷◌, ◌++◌, arith,
  if_elim, ltb, All, sort_by, insert_by, is_some, Option-cases,
}
use owner_operator.AgentRuns.{AgentRun, is_terminal}
use owner_operator.AgentState.{create_agent_run_completion_envelope, AgentRunCompletionEnvelope}
use owner_operator.Executor.Task.{
  Detail, collect_details, comes_first, detail_of, nested_completion_task,
  nested_completion_task_max_bytes, push_detail, render,
}

-- A run that has ended at an instant.
abbrev pub IsEnded : AgentRun → Type 0
IsEnded r = (is_terminal r.status ≡ true) × (is_some r.finished_at ≡ true)

abbrev Fits : AgentRun → List AgentRun → List Detail → Type 0
Fits parent children details =
    (len (render parent children details) ≤ nested_completion_task_max_bytes) ⊎ (details ≡ [])

-- A text within the bytes that a task may have, or one without the details of any child.
abbrev pub IsBounded : AgentRun → List AgentRun → Option String → Type 0
IsBounded parent children task =
    (text : String) × (task ≡ some text)
    × ((len text ≤ nested_completion_task_max_bytes) ⊎ (text ≡ render parent children []))

push_detail-Fits :
    (parent : AgentRun) (children : List AgentRun) (d : Detail) (details : List Detail)
    → Fits parent children details
    → Fits parent children (push_detail parent children d details)
unfolding push_detail
push_detail-Fits parent children d details fits =
    if_elim (Fits parent children)
      (ltb nested_completion_task_max_bytes (len (render parent children (details ++ d ∷ [])))) _ _
      (λ long. fits) (λ short. inl (ground arith))

ended_envelope :
    (c : AgentRun)
    → IsEnded c
    → (e : AgentRunCompletionEnvelope) × create_agent_run_completion_envelope c [] ≡ some e
unfolding create_agent_run_completion_envelope
ended_envelope c (over, stamped) = elim (Option-cases (create_agent_run_completion_envelope c [])) [
  | inl missing ↦ ground (arith, over, stamped, missing)
  | inr found ↦ found
]

Collected : AgentRun → List AgentRun → Option (List Detail) → Type 0
Collected parent children found = (ds : List Detail) × (found ≡ some ds) × Fits parent children ds

collect_details-Fits :
    (parent : AgentRun) (children rest : List AgentRun) (details : List Detail)
    → All IsEnded rest
    → Fits parent children details
    → Collected parent children (collect_details parent children rest details)
unfolding collect_details Collected
collect_details-Fits parent children [] details ended fits = (details, refl, fits)
collect_details-Fits parent children (c ∷ cs) details (this, rest) fits =
    let (e, found) = ended_envelope c this in
    let after =
      collect_details-Fits parent children cs (push_detail parent children (detail_of e) details)
        rest (push_detail-Fits parent children (detail_of e) details fits) in
    rw (found, collect_details) after

All-insert_by :
    (P : AgentRun → Type 0) (before : AgentRun → AgentRun → Bool)
    → (x : AgentRun) (xs : List AgentRun) → P x
    → All P xs
    → All P (insert_by before x xs)
unfolding insert_by
All-insert_by P before x [] px pxs = (px, tt)
All-insert_by P before x (y ∷ ys) px (py, pys) =
    if_elim (All P) (before x y) _ _ (λ _. (px, (py, pys)))
      (λ _. (py, All-insert_by P before x ys px pys))

All-sort_by :
    (P : AgentRun → Type 0) (before : AgentRun → AgentRun → Bool)
    → (xs : List AgentRun) → All P xs
    → All P (sort_by before xs)
unfolding sort_by
All-sort_by P before [] h = tt
All-sort_by P before (x ∷ xs) (px, pxs) =
    All-insert_by P before x (sort_by before xs) px (All-sort_by P before xs pxs)

rendered :
    (parent : AgentRun) (children : List AgentRun) (found : Option (List Detail))
    → Collected parent children found
    → IsBounded parent children
        (elim found [ none ↦ none | some ds ↦ some (render parent children ds) ])
unfolding Collected
rendered parent children found (ds, eq, inl fits) =
    rw eq (render parent children ds, refl, inl fits)
rendered parent children found (ds, eq, inr bare) =
    rw eq (render parent children ds, refl, inr (ap (render parent children) bare))

-- Children that have all ended give a task. It has at most 12 KB, unless it holds no child's details.
pub nested_completion_task-IsBounded :
    (parent : AgentRun) (children : List AgentRun)
    → All IsEnded children
    → IsBounded parent children (nested_completion_task parent children)
unfolding nested_completion_task
nested_completion_task-IsBounded parent children ended =
    rendered parent children (collect_details parent children (sort_by comes_first children) []) (
      collect_details-Fits parent children (sort_by comes_first children) []
        (All-sort_by IsEnded comes_first children ended) (inr refl))
