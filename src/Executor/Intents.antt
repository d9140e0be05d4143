-- ===== src/Executor/Intents.antt =====
-- src/agent-runs/executor.ts `execute`: what an aborted turn is recorded as.
use owner_operator.Prelude.{
  ℕ, String, ◌≡◌, refl, true, Option, none, some, List, [], ◌∷◌, arith, find, update_where,
  find-update_where, find-passes, any, if_elim, ap,
}
use owner_operator.AgentRuns.{AgentRun, AgentRunOutcome, final_status, is_running}
use owner_operator.Ledger.{Ledger, agent_run_by_id, has_id, active_row, finish_agent_run, finished}
use owner_operator.Ledger.Rows.{append_result_record-runs}
use owner_operator.Executor.Turns.{
  AbortIntent, Entry, TurnEnd, Turns, abort, entry_of, error_for_intent, intend, intent_of,
  end_turn, outcome_of, resolved, rejected, status_for_intent,
}

-- Aborts of one turn, in their order.
abbrev pub abort_each : List AbortIntent → String → Turns → Turns
abort_each [] id s = s
abort_each (intent ∷ rest) id s = abort_each rest id (abort intent id s)

intend-entry :
    (intent : AbortIntent) (id : String) (active : List Entry) (e : Entry)
    → find (entry_of id) active ≡ some e
    → find (entry_of id) (update_where (entry_of id) (intend intent) active)
      ≡ some (intend intent e)
intend-entry intent id active e found = ground (
  arith,
  find-passes (entry_of id) active e found,
  find-update_where (entry_of id) (entry_of id) (intend intent) active e (λ d. refl) found,
)

abort_each-entry :
    (first : AbortIntent) (rest : List AbortIntent) (id : String) (s : Turns) (e : Entry)
    → find (entry_of id) s.active ≡ some e
    → e.intent ≡ some first
    → intent_of id (abort_each rest id s).active ≡ some first
unfolding abort
abort_each-entry first [] id s e found h = ground (arith, found)
abort_each-entry first (intent ∷ rest) id s e found h =
    abort_each-entry first rest id (abort intent id s) (intend intent e)
      (intend-entry intent id s.active e found) (rw h refl)

abort_each-ledger :
    (aborts : List AbortIntent) (id : String) (s : Turns)
    → (abort_each aborts id s).ledger ≡ s.ledger
unfolding abort
abort_each-ledger [] id s = refl
abort_each-ledger (intent ∷ rest) id s = abort_each-ledger rest id (abort intent id s)

any-found :
    (id : String) (runs : List AgentRun) (r : AgentRun)
    → agent_run_by_id id runs ≡ some r
    → is_running r.status ≡ true
    → any (active_row id) runs ≡ true
any-found id [] r e h = ground arith
any-found id (s ∷ runs) r e h = ground (arith, any-found id runs r)

finish-found :
    (now : ℕ) (id : String) (o : AgentRunOutcome) (l : Ledger) (r : AgentRun)
    → agent_run_by_id id l.runs ≡ some r
    → is_running r.status ≡ true
    → agent_run_by_id id (finish_agent_run now id o l).0.runs ≡ some (finished now o r)
unfolding finish_agent_run
finish-found now id o l r found h =
    let written =
      find-update_where (has_id id) (active_row id) (finished now o) l.runs r (λ d. refl) found in
    let same = find-passes (has_id id) l.runs r found in
    if_elim
      (λ (x : Ledger × Option AgentRun). agent_run_by_id id x.0.runs ≡ some (finished now o r))
      (any (active_row id) l.runs) _ _ (λ _. rw (append_result_record-runs now id _) (ground arith))
      (λ out. absurd (let there = any-found id l.runs r found h in cc))

outcome_of-intent :
    (decoded : String → ℕ → String) (first : AbortIntent) (intent : Option AbortIntent)
    (result : TurnEnd)
    → intent ≡ some first
    → ((outcome_of decoded intent result).status ≡ status_for_intent first)
      × ((outcome_of decoded intent result).error ≡ some (error_for_intent first))
unfolding outcome_of
outcome_of-intent decoded first intent (resolved status text error child acpx) e = rw e (refl, refl)
outcome_of-intent decoded first intent (rejected message) e = rw e (refl, refl)

-- A turn of a running row that is aborted, once or several times, is recorded with the status and
-- the reason of the first abort, whatever the launcher then reports.
pub end_turn-first_intent :
    (decoded : String → ℕ → String) (now : ℕ) (id : String) (first : AbortIntent)
    (rest : List AbortIntent) (result : TurnEnd) (s : Turns) (r : AgentRun) (e : Entry)
    → find (entry_of id) s.active ≡ some e
    → e.intent ≡ none
    → agent_run_by_id id s.ledger.runs ≡ some r
    → is_running r.status ≡ true
    → (run : AgentRun) × (agent_run_by_id id
          (end_turn decoded now id result (abort_each (first ∷ rest) id s)).ledger.runs
        ≡ some run)
      × (run.status ≡ final_status (status_for_intent first))
      × (run.error ≡ some (error_for_intent first))
unfolding end_turn
end_turn-first_intent decoded now id first rest result s r e turn fresh found h =
    let s' = abort_each (first ∷ rest) id s in
    let o = outcome_of decoded (intent_of id s'.active) result in
    let same = abort_each-ledger (first ∷ rest) id s in
    let intended : intent_of id s'.active ≡ some first =
      abort_each-entry first rest id (abort first id s) (intend first e)
        (unfold abort in intend-entry first id s.active e turn) (rw fresh refl) in
    let (status, error) =
      outcome_of-intent decoded first (intent_of id s'.active) result intended in
    (
      finished now o r,
      finish-found now id o s'.ledger r (rw same found) h,
      ap final_status status,
      error,
    )
