-- ===== src/Executor/Nested/Once.antt =====
-- src/agent-runs/executor.ts `reconcileNestedCompletions`: what a continued parent and its children
-- are.
use owner_operator.Prelude.{
  String, ◌≡◌, refl, ◌<◌, true, false, not, ◌||◌, List, [], ◌∷◌, ◌==◌, arith, All, any, keep,
  get_or, if_elim, truthy, Bool-cases, inl, inr, eq_iff, eq_refl,
}
use owner_operator.AgentRuns.{AgentRun, is_terminal}
use owner_operator.Executor.Nested.{
  Continuation, continuations, delivered, has, is_completed, is_continued, non_empty, settled_child,
  undelivered,
}

-- A parent that is ready, with ended children that its session was not given.
abbrev pub IsReady : List AgentRun → Continuation → Type 0
IsReady runs c =
    (is_completed c.parent.status ≡ true)
    × (c.parent.depth < 5)
    × (non_empty c.children ≡ true)
    × (any (λ r. not (is_terminal r.status)) c.children ≡ false)
    × (any (λ r. has r.id (delivered c.session runs)) c.children ≡ false)

-- No session stands twice.
abbrev pub SessionsOnce : List Continuation → Type 0
SessionsOnce [] = Unit {0}
SessionsOnce (c ∷ cs) =
    (any (λ (d : Continuation). d.session == c.session) cs ≡ false) × SessionsOnce cs

settled-ended :
    (continuing : List String) (runs children : List AgentRun)
    → any (λ c. not (settled_child continuing runs c)) children ≡ false
    → any (λ r. not (is_terminal r.status)) children ≡ false
settled-ended continuing runs [] h = refl
settled-ended continuing runs (c ∷ children) h =
    ground (arith, settled-ended continuing runs children)

keep-undelivered :
    (given : List String) (children : List AgentRun)
    → any (λ r. has r.id given) (keep (λ c. not (has c.id given)) children) ≡ false
keep-undelivered given [] = refl
keep-undelivered given (c ∷ children) = ground (arith, keep-undelivered given children)

undelivered-new :
    (session : String) (runs : List AgentRun)
    → any (λ r. has r.id (delivered session runs)) (undelivered session runs) ≡ false
unfolding undelivered
undelivered-new session runs = keep-undelivered (delivered session runs) _

is_continued-IsReady :
    (continuing : List String) (runs : List AgentRun) (run : AgentRun) (session : String)
    → is_continued continuing runs run (undelivered session runs) ≡ true
    → IsReady runs (record { session = session; parent = run; children = undelivered session runs })
is_continued-IsReady continuing runs run session h = (
  ground arith,
  ground arith,
  ground arith,
  settled-ended continuing runs (undelivered session runs) (ground arith),
  undelivered-new session runs,
)

unseen-other :
    (mine session : String) (seen : List String)
    → has mine seen ≡ false
    → has session seen ≡ true
    → (mine == session) ≡ false
unseen-other mine session seen new h = elim (Bool-cases (mine == session)) [
  | inl same ↦ let there : has mine seen ≡ true = rw ((eq_iff mine session).0 same) h in absurd (cc)
  | inr other ↦ other
]

-- What is continued further on is in no session that was seen.
continuations-unseen :
    (runs rest : List AgentRun) (seen continuing : List String) (session : String)
    → has session seen ≡ true
    → any (λ (d : Continuation). d.session == session) (continuations runs rest seen continuing)
      ≡ false
unfolding continuations
continuations-unseen runs [] seen continuing session h = refl
continuations-unseen runs (run ∷ rest) seen continuing session h =
    let mine = get_or run.child_session_id "" in
    if_elim (λ x. any (λ (d : Continuation). d.session == session) x ≡ false)
      (not (truthy run.child_session_id) || has mine seen) _ _
      (λ _. continuations-unseen runs rest seen continuing session h)
      (λ new.
        if_elim (λ x. any (λ (d : Continuation). d.session == session) x ≡ false)
          (is_continued continuing runs run (undelivered mine runs)) _ _
          (λ _.
            let later =
              continuations-unseen runs rest (mine ∷ seen) (mine ∷ continuing) session
                (ground arith) in
            rw (unseen-other mine session seen (ground arith) h) later)
          (λ _. continuations-unseen runs rest (mine ∷ seen) continuing session (ground arith)))

continuations-IsReady :
    (runs rest : List AgentRun) (seen continuing : List String)
    → All (IsReady runs) (continuations runs rest seen continuing)
unfolding continuations
continuations-IsReady runs [] seen continuing = tt
continuations-IsReady runs (run ∷ rest) seen continuing =
    let mine = get_or run.child_session_id "" in
    if_elim (All (IsReady runs)) (not (truthy run.child_session_id) || has mine seen) _ _
      (λ _. continuations-IsReady runs rest seen continuing)
      (λ _.
        if_elim (All (IsReady runs)) (is_continued continuing runs run (undelivered mine runs)) _ _
          (λ ready. (
            is_continued-IsReady continuing runs run mine ready,
            continuations-IsReady runs rest (mine ∷ seen) (mine ∷ continuing),
          ))
          (λ _. continuations-IsReady runs rest (mine ∷ seen) continuing))

continuations-SessionsOnce :
    (runs rest : List AgentRun) (seen continuing : List String)
    → SessionsOnce (continuations runs rest seen continuing)
unfolding continuations
continuations-SessionsOnce runs [] seen continuing = tt
continuations-SessionsOnce runs (run ∷ rest) seen continuing =
    let mine = get_or run.child_session_id "" in
    if_elim SessionsOnce (not (truthy run.child_session_id) || has mine seen) _ _
      (λ _. continuations-SessionsOnce runs rest seen continuing)
      (λ _.
        if_elim SessionsOnce (is_continued continuing runs run (undelivered mine runs)) _ _
          (λ _. (
            continuations-unseen runs rest (mine ∷ seen) (mine ∷ continuing) mine
                (ground (arith, eq_refl mine)),
            continuations-SessionsOnce runs rest (mine ∷ seen) (mine ∷ continuing),
          ))
          (λ _. continuations-SessionsOnce runs rest (mine ∷ seen) continuing))

-- A reconciliation continues no session twice. Each parent that it continues has completed, below
-- the depth of five, and is continued for at least one child; each of these children has ended, and
-- no turn of the session whose prompt was submitted was given the result of one of them.
pub continuations_lem :
    (runs : List AgentRun)
    → SessionsOnce (continuations runs runs [] [])
      × All (IsReady runs) (continuations runs runs [] [])
continuations_lem runs =
    (continuations-SessionsOnce runs runs [] [], continuations-IsReady runs runs [] [])
