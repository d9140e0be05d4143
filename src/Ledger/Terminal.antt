-- ===== src/Ledger/Terminal.antt =====
-- src/state/database.ts: terminal states are monotonic. A row that has ended is never written
-- again, whatever the daemon does afterwards.
use mathlib.Core.Option.{some-injective}
use owner_operator.Prelude.{
  ℕ, String, ◌≡◌, refl, sym, ap, ◌∙◌, Bool, true, false, Option, none, some, List, [], ◌∷◌, arith,
  if_elim, update_where, find-update_where_keep, find-append, any, leb, ◌==◌, eq_iff, Bool-cases,
  inl, inr, find-passes,
}
use owner_operator.AgentRuns.{AgentRun, is_terminal, is_pending, is_running}
use owner_operator.Ledger.{
  AgentRunInsert, Ledger, agent_run_by_id, has_id, create_agent_run, admits, inserted,
  running_count, oldest_pending, start_run, claimed, claim_next_pending_agent_run,
  record_agent_run_activity, running_row, active_row, append_result_record, finish_agent_run,
  mark_running_agent_runs_interrupted, mark_lost, mark_agent_runs_lost, append_agent_run_event,
}
use owner_operator.Ledger.Rows.{
  append_result_record-runs, append_results-runs, mark_each_lost-keeps, oldest_pending-status,
  oldest_pending-found,
}
use owner_operator.Ledger.Steps.{
  Operation, created, create, claim, activity, finish, interrupt, lose, event, step, replay,
}
use owner_operator.Ledger.Wf.{WfLedger, step-WfLedger}

module _ (id : String) (run : AgentRun) (over : is_terminal run.status ≡ true) where
  abbrev Holds : Ledger → Type 0
  Holds l = agent_run_by_id id l.runs ≡ some run

  not_running : is_running run.status ≡ false
  not_running = ground arith

  row_not_running : (k : String) → running_row k run ≡ false
  row_not_running k = ground (arith, not_running)

  row_not_active : (k : String) → active_row k run ≡ false
  row_not_active k = ground arith

  keeps_rows :
      (l : Ledger) (p : AgentRun → Bool) (f : AgentRun → AgentRun)
      → ((r : AgentRun) → (f r).id ≡ r.id)
      → p run ≡ false
      → Holds l
      → Holds (record l { runs = update_where p f l.runs })
  keeps_rows l p f same out h =
      find-update_where_keep (has_id id) p f l.runs run (λ r. ap (λ i. i == id) (same r)) out h

  keeps_result :
      (now : ℕ) (k : String) (l : Ledger) → Holds l → Holds (append_result_record now k l)
  keeps_result now k l h = rw (append_result_record-runs now k l) h

  keeps_lost : (now : ℕ) (k : String) (l : Ledger) → Holds l → Holds (mark_lost now k l)
  unfolding mark_lost
  keeps_lost now k l h = keeps_result now k _ (keeps_rows l _ _ (λ r. refl) (row_not_running k) h)

  not_claimed :
      (runs : List AgentRun) (n : AgentRun)
      → agent_run_by_id id runs ≡ some run
      → agent_run_by_id n.id runs ≡ some n
      → is_pending n.status ≡ true
      → has_id n.id run ≡ false
  not_claimed runs n h found p = elim (Bool-cases (run.id == n.id)) [
    | inl same ↦
        let mine = (eq_iff run.id id).0 (find-passes (has_id id) runs run h) in
        let theirs = (eq_iff run.id n.id).0 same in
        let both : some run ≡ some n =
          sym h ∙ ap (λ i. agent_run_by_id i runs) (sym mine ∙ theirs) ∙ found in
        absurd (ground (arith, some-injective both))
    | inr other ↦ other
  ]

  keeps_claim :
      (now : ℕ) (next : Option AgentRun) (l : Ledger)
      → WfLedger l
      → oldest_pending l.runs ≡ next
      → Holds l
      → Holds (claimed now next l).0
  unfolding start_run
  keeps_claim now none l w e h = h
  keeps_claim now (some n) l w e h =
      keeps_rows l _ _ (λ r. refl)
        (not_claimed l.runs n h (oldest_pending-found l.runs n w.distinct e)
          (oldest_pending-status l.runs n e))
        h

  keeps_created :
      (now : ℕ) (i : AgentRunInsert) (l : Ledger)
      → Holds l
      → Holds (created (create_agent_run now i l) l)
  unfolding create_agent_run
  keeps_created now i l h =
      if_elim (λ x. Holds (created x l)) (admits i l.runs) _ _
        (λ _. find-append (has_id id) l.runs (inserted now i ∷ []) run h) (λ _. h)

  pub step-keeps :
      (now : ℕ) (op : Operation) (l : Ledger) → WfLedger l → Holds l → Holds (step now op l)
  unfolding step claim_next_pending_agent_run record_agent_run_activity finish_agent_run
      mark_running_agent_runs_interrupted mark_agent_runs_lost append_agent_run_event
  step-keeps now (create i) l w h = keeps_created now i l h
  step-keeps now (claim m) l w h =
      if_elim (λ (x : Ledger × Option AgentRun). Holds x.0) (leb m (running_count l.runs)) _ _
        (λ _. h) (λ _. keeps_claim now (oldest_pending l.runs) l w refl h)
  step-keeps now (activity k u) l w h =
      if_elim (λ (x : Ledger × Option AgentRun). Holds x.0) (any (running_row k) l.runs) _ _
        (λ _. keeps_rows l _ _ (λ r. refl) (row_not_running k) h) (λ _. h)
  step-keeps now (finish k o) l w h =
      if_elim (λ (x : Ledger × Option AgentRun). Holds x.0) (any (active_row k) l.runs) _ _
        (λ _. keeps_result now k _ (keeps_rows l _ _ (λ r. refl) (row_not_active k) h)) (λ _. h)
  step-keeps now (interrupt reason) l w h =
      rw (append_results-runs now _ _) (keeps_rows l _ _ (λ r. refl) not_running h)
  step-keeps now (lose live cutoff) l w h = mark_each_lost-keeps Holds now (keeps_lost now) _ l h
  step-keeps now (event k json) l w h =
      if_elim (λ (x : Ledger × Option ℕ). Holds x.0) (any (running_row k) l.runs) _ _ (λ _. h)
        (λ _. h)

  -- In a well-formed ledger the row of a run that has ended (completed, failed, cancelled,
  -- interrupted or lost) stays as it is, in every field, through any history of creations, claims,
  -- activity, results, restarts, sweeps and events.
  pub replay-keeps_terminal :
      (history : List (ℕ × Operation)) (l : Ledger)
      → WfLedger l
      → agent_run_by_id id l.runs ≡ some run
      → agent_run_by_id id (replay history l).runs ≡ some run
  unfolding replay
  replay-keeps_terminal [] l w h = h
  replay-keeps_terminal ((now, op) ∷ rest) l w h =
      replay-keeps_terminal rest (step now op l) (step-WfLedger now op l w)
        (step-keeps now op l w h)
