-- ===== src/Executor/Live/Rows.antt =====
-- src/agent-runs/executor.ts: the running rows and the map `active` after each of the operations on them.
use owner_operator.Prelude.{
  ℕ, String, ◌≡◌, refl, ◌∙◌, Bool, true, false, ◌||◌, Option, none, List, [], ◌∷◌, ◌++◌, ◌==◌,
  arith, if_elim, any, update_where, eq_iff,
}
use owner_operator.AgentRuns.{
  AgentRun, AgentRunFinalStatus, AgentRunOutcome, is_running, final_status,
}
use owner_operator.Ledger.{
  Ledger, has_id, started, running_row, active_row, finished, finish_agent_run,
}
use owner_operator.Ledger.Rows.{append_result_record-runs}
use owner_operator.Executor.Turns.{
  AbortIntent, Entry, entry_of, has_turn, set_active, delete_active, intend,
}

abbrev pub runs_now : String → Ledger → Bool
runs_now id l = any (running_row id) l.runs

-- Exactly the running rows have a turn.
abbrev pub Mirrors : Ledger → List Entry → Type 0
Mirrors l active = (id : String) → runs_now id l ≡ has_turn id active

-- An update that leaves the id and keeps, or ends, what runs.
pub any-running-keep :
    (p : AgentRun → Bool) (f : AgentRun → AgentRun) (id : String) (runs : List AgentRun)
    → ((r : AgentRun) → p r ≡ true → running_row id (f r) ≡ running_row id r)
    → any (running_row id) (update_where p f runs) ≡ any (running_row id) runs
any-running-keep p f id [] same = refl
any-running-keep p f id (r ∷ rs) same = ground (arith, same r, any-running-keep p f id rs same)

pub any-running-end :
    (p : AgentRun → Bool) (f : AgentRun → AgentRun) (id : String) (runs : List AgentRun)
    → ((r : AgentRun) → running_row id r ≡ true → p r ≡ true)
    → ((r : AgentRun) → is_running (f r).status ≡ false)
    → any (running_row id) (update_where p f runs) ≡ false
any-running-end p f id [] covers ends = refl
any-running-end p f id (r ∷ rs) covers ends =
    ground (arith, covers r, ends r, any-running-end p f id rs covers ends)

pub any-running-append :
    (id : String) (runs : List AgentRun) (r : AgentRun)
    → is_running r.status ≡ false
    → any (running_row id) (runs ++ r ∷ []) ≡ any (running_row id) runs
any-running-append id [] r h = ground arith
any-running-append id (s ∷ runs) r h = ground (arith, any-running-append id runs r h)

pub any-running-started :
    (now : ℕ) (id : String) (runs : List AgentRun)
    → any (has_id id) runs ≡ true
    → any (running_row id) (update_where (has_id id) (started now) runs) ≡ true
any-running-started now id [] h = ground arith
any-running-started now id (s ∷ runs) h = ground (arith, any-running-started now id runs)

pub any-started :
    (now : ℕ) (id : String) (runs : List AgentRun)
    → any (has_id id) runs ≡ true
    → any (has_id id) (update_where (has_id id) (started now) runs) ≡ true
any-started now id [] h = h
any-started now id (s ∷ runs) h = ground (arith, any-started now id runs)

-- The map `active` after each of its operations.
pub has_turn-intend :
    (p : Entry → Bool) (intent : AbortIntent) (id : String) (active : List Entry)
    → has_turn id (update_where p (intend intent) active) ≡ has_turn id active
has_turn-intend p intent id [] = refl
has_turn-intend p intent id (e ∷ es) = ground (arith, has_turn-intend p intent id es)

pub has_turn-delete :
    (id : String) (active : List Entry) → has_turn id (delete_active id active) ≡ false
has_turn-delete id [] = refl
has_turn-delete id (e ∷ es) = ground (arith, has_turn-delete id es)

pub has_turn-delete_other :
    (id other : String) (active : List Entry)
    → (id == other) ≡ false
    → has_turn other (delete_active id active) ≡ has_turn other active
has_turn-delete_other id other [] ne = refl
has_turn-delete_other id other (e ∷ es) ne = ground (
  arith,
  has_turn-delete_other id other es ne,
  eq_iff e.run_id id,
  eq_iff e.run_id other,
  eq_iff id other,
)

pub has_turn-update_entry :
    (id j : String) (active : List Entry)
    → has_turn j (update_where (entry_of id) (λ e. record { run_id = id; intent = none }) active)
      ≡ has_turn j active
has_turn-update_entry id j [] = refl
has_turn-update_entry id j (e ∷ es) =
    ground (arith, has_turn-update_entry id j es, eq_iff e.run_id id)

pub has_turn-append :
    (j : String) (active : List Entry) (e : Entry)
    → has_turn j (active ++ e ∷ []) ≡ (has_turn j active || e.run_id == j)
has_turn-append j [] e = ground arith
has_turn-append j (d ∷ es) e = ground (arith, has_turn-append j es e)

pub has_turn-set_active :
    (id j : String) (active : List Entry)
    → has_turn j (set_active id active) ≡ (has_turn j active || id == j)
unfolding set_active
has_turn-set_active id j active =
    if_elim (λ es. has_turn j es ≡ (has_turn j active || id == j)) (has_turn id active) _ _
      (λ present. has_turn-update_entry id j active ∙ ground (arith, eq_iff id j))
      (λ _. has_turn-append j active _)

pub final_status-still : (s : AgentRunFinalStatus) → is_running (final_status s) ≡ false
final_status-still s = ground arith

pub any-weaker :
    (id : String) (runs : List AgentRun)
    → any (active_row id) runs ≡ false
    → any (running_row id) runs ≡ false
any-weaker id [] h = refl
any-weaker id (r ∷ runs) h = ground (arith, any-weaker id runs)

-- Recording the end of a run.
pub finish-ends :
    (now : ℕ) (id : String) (o : AgentRunOutcome) (l : Ledger)
    → runs_now id (finish_agent_run now id o l).0 ≡ false
unfolding finish_agent_run
finish-ends now id o l =
    if_elim (λ (x : Ledger × Option AgentRun). runs_now id x.0 ≡ false) (any (active_row id) l.runs)
      _ _
      (λ _. rw (append_result_record-runs now id _) (
        any-running-end (active_row id) (finished now o) id l.runs (λ r h. ground arith)
          (λ r. final_status-still o.status)))
      (λ none_active. any-weaker id l.runs none_active)

pub finish-other :
    (now : ℕ) (id j : String) (o : AgentRunOutcome) (l : Ledger)
    → (id == j) ≡ false
    → runs_now j (finish_agent_run now id o l).0 ≡ runs_now j l
unfolding finish_agent_run
finish-other now id j o l ne =
    if_elim (λ (x : Ledger × Option AgentRun). runs_now j x.0 ≡ runs_now j l)
      (any (active_row id) l.runs) _ _
      (λ _. rw (append_result_record-runs now id _) (
        any-running-keep (active_row id) (finished now o) j l.runs
          (λ r h. ground (arith, eq_iff r.id id, eq_iff r.id j))))
      (λ _. refl)
