-- ===== src/Ledger/Lifecycle.antt =====
-- src/state/database.ts: what the operations on the ledger do to the status of a run, against the
-- machine that a run promises to follow.
use owner_operator.Prelude.{
  ℕ, String, ◌≡◌, refl, sym, ap, subst, ◌∙◌, Bool, true, false, Option, none, some, List, [], ◌∷◌,
  ◌++◌, arith, if_elim, update_where, find-update_where, find-update_where-none, any, leb, ◌==◌,
  eq_iff, Option-cases, inl, inr, find-passes, find-append, find-append_none,
}
use owner_operator.AgentRuns.{
  AgentRun, AgentRunFinalStatus, Status, final_status, cancelled, completed, failed, interrupted,
  is_pending, is_running, is_terminal, lost, pending, running,
}
use owner_operator.Ledger.{
  AgentRunInsert, Ledger, active_row, admits, agent_run_by_id, append_agent_run_event,
  claim_next_pending_agent_run, claimed, create_agent_run, ended, finish_agent_run, finished,
  has_id, inserted, lost_error, mark_agent_runs_lost, mark_each_lost, mark_lost,
  mark_running_agent_runs_interrupted, oldest_pending, record_agent_run_activity, running_count,
  running_row, start_run, started, with_activity,
}
use owner_operator.Ledger.Rows.{
  append_result_record-runs, append_results-runs, oldest_pending-found, oldest_pending-status,
}
use owner_operator.Ledger.Steps.{
  Operation, activity, claim, create, created, event, finish, interrupt, lose, replay, step,
}
use owner_operator.Ledger.Wf.{WfLedger, step-WfLedger}

-- The machine: a run is created pending, is claimed, and ends once, from where it stands.
pub data Moves : Option Status → Option Status → Type 0 where
  creation : Moves none (some pending)
  claiming : Moves (some pending) (some running)
  ending : {s t : Status} → is_terminal s ≡ false → is_terminal t ≡ true → Moves (some s) (some t)

pub data Lifecycle (s : Option Status) : Option Status → Type 0 where
  here : Lifecycle s s
  next : {t u : Option Status} → Lifecycle s t → Moves t u → Lifecycle s u

-- The abstract view of a ledger: the status of each run.
abbrev pub status_in : Option AgentRun → Option Status
status_in none = none
status_in (some r) = some r.status

abbrev pub status_of : String → List AgentRun → Option Status
status_of id runs = status_in (agent_run_by_id id runs)

abbrev pending_in : Option AgentRun → Bool
pending_in none = false
pending_in (some r) = is_pending r.status

Lifecycle-trans : {s t u : Option Status} → Lifecycle s t → Lifecycle t u → Lifecycle s u
Lifecycle-trans a here = a
Lifecycle-trans a (next b m) = next (Lifecycle-trans a b) m

final_status_terminal : (s : AgentRunFinalStatus) → is_terminal (final_status s) ≡ true
final_status_terminal AgentRunFinalStatus.completed = refl
final_status_terminal AgentRunFinalStatus.failed = refl
final_status_terminal AgentRunFinalStatus.cancelled = refl
final_status_terminal AgentRunFinalStatus.interrupted = refl

one_move : {s t : Option Status} → Moves s t → Lifecycle s t
one_move m = next here m

running_open : (s : Status) → is_running s ≡ true → is_terminal s ≡ false
running_open s h = ground (arith, h)

claim_move : (s : Status) → is_pending s ≡ true → Moves (some s) (some running)
claim_move pending h = claiming
claim_move running h = cc
claim_move completed h = cc
claim_move failed h = cc
claim_move cancelled h = cc
claim_move interrupted h = cc
claim_move lost h = cc

module _ (id : String) where
  abbrev Follows : Ledger → Ledger → Type 0
  Follows l l' = Lifecycle (status_of id l.runs) (status_of id l'.runs)

  updated :
      (p : AgentRun → Bool) (f : AgentRun → AgentRun) (runs : List AgentRun)
      → ((r : AgentRun) → (f r).id ≡ r.id)
      → ((r : AgentRun)
          → agent_run_by_id id runs ≡ some r
          → p r ≡ true
          → Lifecycle (some r.status) (some (f r).status))
      → Lifecycle (status_of id runs) (status_of id (update_where p f runs))
  updated p f runs same moves = elim (Option-cases (agent_run_by_id id runs)) [
    | inl missing ↦
        rw
          (
            missing,
            find-update_where-none (has_id id) p f runs (λ r. ap (λ i. i == id) (same r)) missing,
          )
          here
    | inr (r, found) ↦
        rw (found, find-update_where (has_id id) p f runs r (λ y. ap (λ i. i == id) (same y)) found)
          (if_elim (λ x. Lifecycle (some r.status) (some x.status)) (p r) (f r) r (moves r found)
            (λ left. here))
  ]

  appended :
      (r : AgentRun) (runs : List AgentRun)
      → r.status ≡ pending
      → Lifecycle (status_of id runs) (status_of id (runs ++ r ∷ []))
  appended r runs fresh = elim (Option-cases (agent_run_by_id id runs)) [
    | inl missing ↦
        rw (missing, find-append_none (has_id id) runs (r ∷ []) missing)
          (if_elim (λ o. Lifecycle none (status_in o)) (has_id id r) (some r) none
            (λ own. one_move (subst (λ s. Moves none (some s)) (sym fresh) creation))
            (λ other. here))
    | inr (s, found) ↦ rw (found, find-append (has_id id) runs (r ∷ []) s found) here
  ]

  lost_one : (now : ℕ) (k : String) (l : Ledger) → Follows l (mark_lost now k l)
  unfolding mark_lost
  lost_one now k l =
      rw
        (append_result_record-runs now k
          (record l { runs = update_where (running_row k) (ended now lost lost_error) l.runs }))
        (updated (running_row k) (ended now lost lost_error) l.runs (λ r. refl)
          (λ r found hit. one_move (ending (running_open r.status (ground (arith, hit))) refl)))

  lost_each : (now : ℕ) (ks : List String) (l : Ledger) → Follows l (mark_each_lost now ks l)
  unfolding mark_each_lost
  lost_each now [] l = here
  lost_each now (k ∷ ks) l =
      Lifecycle-trans (lost_one now k l) (lost_each now ks (mark_lost now k l))

  claimed_row :
      (now : ℕ) (chosen : Option AgentRun) (l : Ledger)
      → WfLedger l
      → oldest_pending l.runs ≡ chosen
      → Follows l (claimed now chosen l).0
  unfolding start_run
  claimed_row now none l w e = here
  claimed_row now (some n) l w e =
      updated (has_id n.id) (started now) l.runs (λ r. refl)
        (λ r found hit.
          let same : r.id ≡ id = (eq_iff r.id id).0 (find-passes (has_id id) l.runs r found) in
          let theirs : r.id ≡ n.id = (eq_iff r.id n.id).0 hit in
          let both : some r ≡ some n =
            sym found
            ∙ ap (λ i. agent_run_by_id i l.runs) (sym same ∙ theirs)
            ∙ oldest_pending-found l.runs n w.distinct e in
          one_move (
            claim_move r.status
              (ap (λ (o : Option AgentRun). pending_in o) both ∙ oldest_pending-status l.runs n e)))

  created_row :
      (now : ℕ) (i : AgentRunInsert) (l : Ledger) → Follows l (created (create_agent_run now i l) l)
  unfolding create_agent_run
  created_row now i l =
      if_elim (λ x. Follows l (created x l)) (admits i l.runs) _ _
        (λ taken. appended (inserted now i) l.runs refl) (λ refused. here)

  step-Follows : (now : ℕ) (op : Operation) (l : Ledger) → WfLedger l → Follows l (step now op l)
  unfolding step claim_next_pending_agent_run record_agent_run_activity finish_agent_run
      mark_running_agent_runs_interrupted mark_agent_runs_lost append_agent_run_event
  step-Follows now (create i) l w = created_row now i l
  step-Follows now (claim m) l w =
      if_elim (λ (x : Ledger × Option AgentRun). Follows l x.0) (leb m (running_count l.runs)) _ _
        (λ full. here) (λ room. claimed_row now (oldest_pending l.runs) l w refl)
  step-Follows now (activity k u) l w =
      if_elim (λ (x : Ledger × Option AgentRun). Follows l x.0) (any (running_row k) l.runs) _ _
        (λ live.
          updated (running_row k) (with_activity now u) l.runs (λ r. refl) (λ r found hit. here))
        (λ gone. here)
  step-Follows now (finish k o) l w =
      if_elim (λ (x : Ledger × Option AgentRun). Follows l x.0) (any (active_row k) l.runs) _ _
        (λ live.
          rw
            (append_result_record-runs now k
              (record l { runs = update_where (active_row k) (finished now o) l.runs }))
            (updated (active_row k) (finished now o) l.runs (λ r. refl)
              (λ r found hit.
                one_move (ending (ground (arith, hit)) (final_status_terminal o.status)))))
        (λ gone. here)
  step-Follows now (interrupt reason) l w =
      rw
        (append_results-runs now _ (record l {
          runs = update_where (λ r. is_running r.status) (ended now interrupted reason) l.runs;
        }))
        (updated (λ r. is_running r.status) (ended now interrupted reason) l.runs (λ r. refl)
          (λ r found hit. one_move (ending (running_open r.status hit) refl)))
  step-Follows now (lose live cutoff) l w = lost_each now _ l
  step-Follows now (event k json) l w =
      if_elim (λ (x : Ledger × Option ℕ). Follows l x.0) (any (running_row k) l.runs) _ _
        (λ live. here) (λ gone. here)

  -- Through any history of a well-formed ledger the status of each run moves as the machine of a run
  -- allows: from no run to pending, from pending to running, and once to an end, which it keeps.
  pub replay-Lifecycle :
      (history : List (ℕ × Operation)) (l : Ledger)
      → WfLedger l
      → Lifecycle (status_of id l.runs) (status_of id (replay history l).runs)
  unfolding replay
  replay-Lifecycle [] l w = here
  replay-Lifecycle ((now, op) ∷ rest) l w =
      Lifecycle-trans (step-Follows now op l w)
        (replay-Lifecycle rest (step now op l) (step-WfLedger now op l w))
