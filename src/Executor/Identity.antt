-- ===== src/Executor/Identity.antt =====
-- src/agent-runs/executor.ts: what recovering a saved session leaves of a run's identity, and what
-- a request that succeeds has passed.
use owner_operator.Prelude.{
  ℕ, String, ◌≡◌, ◌≢◌, refl, ◌⊎◌, inl, inr, Bool, true, false, not, ◌&&◌, Option, none, some, [],
  ◌∷◌, ◌++◌, arith, if_elim, eq_iff, Bool-cases, truthy, same_text, get_or,
}
use owner_operator.AgentRuns.{AgentRun}
use owner_operator.AgentRuns.Eligibility.{ContinuationError}
use owner_operator.AgentRuns.SavedSession.{
  Environment, failed, recover_saved_session_identity, with_identity, SessionError, SavedFile,
  missing, unreadable, saved, read_record, checked, filled, or_field, Field, absent, other, text,
}
use owner_operator.Ledger.{Ledger, AgentRunInsert, inserted, create_agent_run, admits}
use owner_operator.Executor.{RunResult, ok, recorded, refused, ineligible}

-- What a recovery that did not fail leaves of a run's identity.
pub record Consistent (run run' : AgentRun) : Type 0 where
  pub known_child :
      truthy run.child_session_id ≡ true → run'.child_session_id ≡ run.child_session_id
  pub known_record : truthy run.acpx_record_id ≡ true → run'.acpx_record_id ≡ run.acpx_record_id
  pub no_record : truthy run'.child_session_id ≡ false → truthy run'.acpx_record_id ≡ false
  pub same_status : run'.status ≡ run.status

checked-Consistent :
    (run : AgentRun) (b : Bool) (child : Option String)
    → truthy run.child_session_id ≡ false
    → (truthy child ≡ true) ⊎ (child ≡ none)
    → checked b child (get_or run.acpx_record_id run.id) ≢ failed
    → Consistent run (with_identity run (checked b child (get_or run.acpx_record_id run.id)))
unfolding with_identity
checked-Consistent run true none no_child filled h = absurd (h refl)
checked-Consistent run false child no_child filled h = absurd (h refl)
checked-Consistent run true (some c) no_child filled h = record {
  known_child = λ t. cc;
  known_record = λ t. ground arith;
  no_record = λ t. ground arith;
  same_status = refl;
}

filled-cases : (f : Field) → (truthy (filled f) ≡ true) ⊎ (filled f ≡ none)
filled-cases absent = inr refl
filled-cases other = inr refl
filled-cases (text t) = ground arith

read-Consistent :
    (run : AgentRun) (file : SavedFile)
    → truthy run.child_session_id ≡ false
    → let r = read_record run (get_or run.acpx_record_id run.id) file in
      r ≢ failed → Consistent run (with_identity run r)
unfolding with_identity
read-Consistent run missing no_child h = record {
  known_child = λ t. cc;
  known_record = λ t. absurd (h (rw t));
  no_record = λ t. elim (Bool-cases (truthy run.acpx_record_id)) [
    | inl held ↦ absurd (h (rw held))
    | inr gone ↦ rw (gone, gone)
  ];
  same_status = ground arith;
}
read-Consistent run unreadable no_child h = absurd (h refl)
read-Consistent run (saved r) no_child h =
    checked-Consistent run _ (filled (or_field r.agent_session_id r.acp_session_id)) no_child
      (filled-cases (or_field r.agent_session_id r.acp_session_id)) h

pub recover-Consistent :
    (env : Environment) (run : AgentRun)
    → recover_saved_session_identity env run ≢ failed
    → Consistent run (with_identity run (recover_saved_session_identity env run))
unfolding recover_saved_session_identity with_identity
recover-Consistent env run =
    if_elim (λ r. r ≢ failed → Consistent run (with_identity run r)) (truthy run.child_session_id) _
      _
      (λ held h. record {
        known_child = λ t. refl;
        known_record = λ t. refl;
        no_record = λ t. absurd (ground arith);
        same_status = refl;
      })
      (λ no_child.
        read-Consistent run (env.session_file (get_or run.acpx_record_id run.id)) no_child)

pub same_text-of_eq : (a b : Option String) → a ≡ b → same_text a b ≡ true
same_text-of_eq none none e = refl
same_text-of_eq none (some b) e = cc
same_text-of_eq (some a) none e = cc
same_text-of_eq (some a) (some b) e = (eq_iff a b).1 (cc)

pub agrees :
    (mine theirs : Option String)
    → (truthy theirs ≡ true → mine ≡ theirs)
    → truthy theirs && not (same_text mine theirs) ≡ false
agrees mine theirs h = elim (Bool-cases (truthy theirs)) [
  | inl held ↦ rw (same_text-of_eq mine theirs (h held)) (ground arith)
  | inr gone ↦ rw gone
]

pub recorded-ok :
    (now : ℕ) (i : AgentRunInsert) (l l' : Ledger) (new : AgentRun)
    → recorded (create_agent_run now i l) ≡ ok l' new
    → (admits i l.runs ≡ true) × (l'.runs ≡ l.runs ++ inserted now i ∷ []) × (new ≡ inserted now i)
unfolding create_agent_run
recorded-ok now i l l' new e = ground arith

pub ineligible-ok :
    (o : Option ContinuationError) (r : RunResult) (l' : Ledger) (new : AgentRun)
    → ineligible o r ≡ ok l' new
    → (o ≡ none) × (r ≡ ok l' new)
ineligible-ok none r l' new e = (refl, e)
ineligible-ok (some x) r l' new e = absurd (ground arith)

pub refused-ok :
    (o : Option SessionError) (r : RunResult) (l' : Ledger) (new : AgentRun)
    → refused o r ≡ ok l' new
    → r ≡ ok l' new
refused-ok none r l' new e = e
refused-ok (some x) r l' new e = absurd (ground arith)
