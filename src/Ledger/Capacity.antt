-- ===== src/Ledger/Capacity.antt =====
-- src/state/database.ts `claimNextPendingAgentRun`: the cap on running rows.
use owner_operator.Prelude.{
  ℕ, ◌≤◌, ◌<◌, String, ◌≡◌, refl, Bool, true, Option, none, some, List, [], ◌∷◌, arith, if_elim,
  update_where, count-append, count-update_where-le, any, leb,
}
use owner_operator.AgentRuns.{
  AgentRun, lost, interrupted, is_running, AgentRunOutcome, AgentRunActivityUpdate,
}
use owner_operator.Ledger.{
  AgentRunInsert, Ledger, create_agent_run, admits, inserted, running_count, oldest_pending,
  start_run, claimed, claim_next_pending_agent_run, record_agent_run_activity, running_row,
  active_row, finish_agent_run, mark_running_agent_runs_interrupted, mark_lost,
  mark_agent_runs_lost, append_agent_run_event, ended, lost_error, with_activity, finished,
}
use owner_operator.Ledger.Rows.{
  append_result_record-runs, append_results-runs, mark_each_lost-keeps, oldest_pending-status,
  oldest_pending-found,
}
use owner_operator.Ledger.Steps.{
  Operation, created, create, claim, activity, finish, interrupt, lose, event, step, replay,
}
use owner_operator.Ledger.Wf.{WfLedger, step-WfLedger}
use owner_operator.Ledger.Queue.{running_count-start, final_status-not_running}

-- Every claim of the history is made under this cap.
abbrev pub Capped : ℕ → List (ℕ × Operation) → Type 0
Capped m [] = Unit {0}
Capped m ((now, claim k) ∷ rest) = (k ≡ m) × Capped m rest
Capped m ((now, create i) ∷ rest) = Capped m rest
Capped m ((now, activity id u) ∷ rest) = Capped m rest
Capped m ((now, finish id o) ∷ rest) = Capped m rest
Capped m ((now, interrupt reason) ∷ rest) = Capped m rest
Capped m ((now, lose live cutoff) ∷ rest) = Capped m rest
Capped m ((now, event id json) ∷ rest) = Capped m rest

module _ (m : ℕ) where
  abbrev Within : Ledger → Type 0
  Within l = running_count l.runs ≤ m

  Within-rows :
      (l : Ledger) (p : AgentRun → Bool) (f : AgentRun → AgentRun)
      → ((r : AgentRun) → p r ≡ true → is_running (f r).status ≡ true → is_running r.status ≡ true)
      → Within l
      → Within (record l { runs = update_where p f l.runs })
  Within-rows l p f keeps h =
      omega (arith, count-update_where-le (λ r. is_running r.status) p f l.runs keeps)

  Within-lost : (now : ℕ) (k : String) (l : Ledger) → Within l → Within (mark_lost now k l)
  unfolding mark_lost
  Within-lost now k l h =
      rw (append_result_record-runs now k _) (
        Within-rows l (running_row k) (ended now lost lost_error) (λ r p q. absurd (ground arith))
          h)

  Within-created :
      (now : ℕ) (i : AgentRunInsert) (l : Ledger)
      → Within l
      → Within (created (create_agent_run now i l) l)
  unfolding create_agent_run
  Within-created now i l h =
      if_elim (λ x. Within (created x l)) (admits i l.runs) _ _
        (λ _.
          rw (count-append (λ (r : AgentRun). is_running r.status) l.runs (inserted now i ∷ []))
            (omega arith))
        (λ _. h)

  Within-claimed :
      (now : ℕ) (next : Option AgentRun) (l : Ledger)
      → WfLedger l
      → oldest_pending l.runs ≡ next
      → running_count l.runs < m
      → Within (claimed now next l).0
  unfolding start_run
  Within-claimed now none l w e h = omega arith
  Within-claimed now (some n) l w e h =
      rw
        (running_count-start now l.runs n.id n w.distinct
          (oldest_pending-found l.runs n w.distinct e) (oldest_pending-status l.runs n e))
        h

  Within-claim :
      (now k : ℕ) (l : Ledger)
      → k ≡ m
      → WfLedger l
      → Within l
      → Within (claim_next_pending_agent_run now k l).0
  unfolding claim_next_pending_agent_run
  Within-claim now k l same w h =
      if_elim (λ (x : Ledger × Option AgentRun). Within x.0) (leb k (running_count l.runs)) _ _
        (λ _. h) (λ free. Within-claimed now (oldest_pending l.runs) l w refl (ground arith))

  Within-activity :
      (now : ℕ) (k : String) (u : AgentRunActivityUpdate) (l : Ledger)
      → Within l
      → Within (record_agent_run_activity now k u l).0
  unfolding record_agent_run_activity
  Within-activity now k u l h =
      if_elim (λ (x : Ledger × Option AgentRun). Within x.0) (any (running_row k) l.runs) _ _
        (λ _. Within-rows l (running_row k) (with_activity now u) (λ r p q. q) h) (λ _. h)

  Within-finish :
      (now : ℕ) (k : String) (o : AgentRunOutcome) (l : Ledger)
      → Within l
      → Within (finish_agent_run now k o l).0
  unfolding finish_agent_run
  Within-finish now k o l h =
      if_elim (λ (x : Ledger × Option AgentRun). Within x.0) (any (active_row k) l.runs) _ _
        (λ _. rw (append_result_record-runs now k _) (
          Within-rows l (active_row k) (finished now o)
            (λ r p q. let out = final_status-not_running o.status in cc) h))
        (λ _. h)

  Within-interrupt :
      (now : ℕ) (reason : String) (l : Ledger)
      → Within l
      → Within (mark_running_agent_runs_interrupted now reason l).0
  unfolding mark_running_agent_runs_interrupted
  Within-interrupt now reason l h =
      rw (append_results-runs now _ _)
        (Within-rows l (λ r. is_running r.status) (ended now interrupted reason) (λ r p q. p) h)

  Within-event :
      (now : ℕ) (k json : String) (l : Ledger)
      → Within l
      → Within (append_agent_run_event now k json l).0
  unfolding append_agent_run_event
  Within-event now k json l h =
      if_elim (λ (x : Ledger × Option ℕ). Within x.0) (any (running_row k) l.runs) _ _ (λ _. h)
        (λ _. h)

  -- From a well-formed ledger with at most `m` running rows, a history whose claims are all made
  -- under the cap `m` never has more than `m` running rows.
  pub replay-running_count-le :
      (history : List (ℕ × Operation)) (l : Ledger)
      → Capped m history
      → WfLedger l
      → running_count l.runs ≤ m
      → running_count (replay history l).runs ≤ m
  unfolding replay
  replay-running_count-le [] l c w h = h
  replay-running_count-le ((now, claim k) ∷ rest) l (same, c) w h =
      replay-running_count-le rest _ c (step-WfLedger now (claim k) l w)
        (unfold step in Within-claim now k l same w h)
  replay-running_count-le ((now, create i) ∷ rest) l c w h =
      replay-running_count-le rest _ c (step-WfLedger now (create i) l w)
        (unfold step in Within-created now i l h)
  replay-running_count-le ((now, activity id u) ∷ rest) l c w h =
      replay-running_count-le rest _ c (step-WfLedger now (activity id u) l w)
        (unfold step in Within-activity now id u l h)
  replay-running_count-le ((now, finish id o) ∷ rest) l c w h =
      replay-running_count-le rest _ c (step-WfLedger now (finish id o) l w)
        (unfold step in Within-finish now id o l h)
  replay-running_count-le ((now, interrupt reason) ∷ rest) l c w h =
      replay-running_count-le rest _ c (step-WfLedger now (interrupt reason) l w)
        (unfold step in Within-interrupt now reason l h)
  replay-running_count-le ((now, lose live cutoff) ∷ rest) l c w h =
      replay-running_count-le rest _ c (step-WfLedger now (lose live cutoff) l w) (
        unfold step mark_agent_runs_lost in mark_each_lost-keeps Within now (Within-lost now) _ l h)
  replay-running_count-le ((now, event id json) ∷ rest) l c w h =
      replay-running_count-le rest _ c (step-WfLedger now (event id json) l w)
        (unfold step in Within-event now id json l h)
