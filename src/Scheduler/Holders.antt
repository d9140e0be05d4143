-- ===== src/Scheduler/Holders.antt =====
-- src/scheduler/scheduler.ts: what the set `running` stands for.
use owner_operator.Prelude.{
  ℕ, ◌+◌, String, ◌≡◌, refl, subst, ◌∙◌, true, false, not, ◌&&◌, Option, none, some, List, [], ◌∷◌,
  ◌++◌, ◌==◌, arith, count, count-append, if_elim, if◌then◌else◌, eq_iff, eq_refl, Bool-cases, inl,
  inr,
}
use owner_operator.Schedule.{CronRuns}
use owner_operator.Schedules.{ScheduleDefinition, ScheduleOutcome, ScheduleRun, Schedules}
use owner_operator.Scheduler.{Ticked, claimed, failed, skipped}
use owner_operator.Scheduler.Runtime.{
  Event, Job, Runtime, done, due, end_current, end_execution, enqueue, execute, execute_job,
  is_running, manual_job, manual_of, manual_request, next, removed, run_now, runtime_after,
  runtime_step, start_next, stop, tick, tick_job,
}

-- The manual runs of a schedule that wait.
abbrev pub waiting : String → List Job → ℕ
waiting id queue = count (λ j. j.preclaimed && (j.schedule_id == id)) queue

abbrev pub current : String → Option Job → ℕ
current id none = 0
current id (some j) = if j.schedule_id == id then 1 else 0

abbrev pub Holds : Option Job → List Job → List String → Type 0
Holds executing queue running =
    (id : String)
    → current id executing + waiting id queue ≡ (if is_running id running then 1 else 0)

removed-same : (id : String) (running : List String) → is_running id (removed id running) ≡ false
removed-same id [] = refl
removed-same id (i ∷ running) = ground (arith, removed-same id running)

removed-other :
    (id other : String) (running : List String)
    → (id == other) ≡ false
    → is_running other (removed id running) ≡ is_running other running
removed-other id other [] ne = refl
removed-other id other (i ∷ running) ne =
    ground (arith, eq_iff i id, eq_iff i other, eq_iff id other, removed-other id other running ne)

waiting-append :
    (id : String) (queue : List Job) (j : Job)
    → waiting id (queue ++ j ∷ [])
      ≡ waiting id queue + (if j.preclaimed && (j.schedule_id == id) then 1 else 0)
waiting-append id queue j =
    count-append (λ j. j.preclaimed && (j.schedule_id == id)) queue (j ∷ []) ∙ ground arith

abbrev pub Held : Runtime → Type 0
Held s = Holds s.executing s.queue s.running

enqueue-Held :
    (schedule_id run_id : String) (s : Runtime)
    → Held s
    → Held (enqueue (record { schedule_id = schedule_id; run_id = run_id; preclaimed = false }) s)
unfolding enqueue
enqueue-Held schedule_id run_id s h =
    if_elim Held s.stopping _ _ (λ _. h)
      (λ _ id. ground (
        arith,
        h id,
        waiting-append id s.queue
            (record { schedule_id = schedule_id; run_id = run_id; preclaimed = false }),
      ))

tick_job-Held :
    (schedule : ScheduleDefinition) (t : Ticked) (s : Runtime)
    → Held s
    → Held (tick_job schedule t s)
tick_job-Held schedule (claimed db run) s h =
    enqueue-Held schedule.id run.id (record s { tables = db }) h
tick_job-Held schedule (skipped db) s h = h
tick_job-Held schedule failed s h = h

manual_job-Held :
    (made : Option (Schedules × ScheduleRun)) (id : String) (s : Runtime)
    → s.stopping ≡ false
    → is_running id s.running ≡ false
    → Held s
    → Held (manual_job made id s)
unfolding enqueue
manual_job-Held none id s open_ idle h = h
manual_job-Held (some (db, run)) id s open_ idle h =
    if_elim Held s.stopping _ _ (λ closed. absurd (cc))
      (λ _ k. ground (
        arith,
        h k,
        h id,
        eq_iff id k,
        waiting-append k s.queue (record { schedule_id = id; run_id = run.id; preclaimed = true }),
      ))

manual_of-Held :
    (now : ℕ) (new_id id : String) (found : Option ScheduleDefinition) (s : Runtime)
    → s.stopping ≡ false
    → Held s
    → Held (manual_of now new_id id found s)
manual_of-Held now new_id id none s open_ h = h
manual_of-Held now new_id id (some schedule) s open_ h =
    if_elim Held (is_running id s.running) _ _ (λ _. h)
      (λ idle. manual_job-Held _ id s open_ idle h)

-- A job leaves the queue, and its schedule the set.
dropped-Holds :
    (j : Job) (rest : List Job) (running : List String)
    → (not j.preclaimed && is_running j.schedule_id running) ≡ false
    → Holds none (j ∷ rest) running
    → Holds none rest (removed j.schedule_id running)
dropped-Holds j rest running free h k = elim (Bool-cases (j.schedule_id == k)) [
  | inl same ↦ rw (← (eq_iff j.schedule_id k).0 same) (
      rw (removed-same j.schedule_id running)
        (let here = h j.schedule_id in ground (arith, eq_refl j.schedule_id)))
  | inr other ↦ rw (removed-other j.schedule_id k running other) (let there = h k in ground arith)
]

started-Holds :
    (j : Job) (rest : List Job) (running : List String)
    → (not j.preclaimed && is_running j.schedule_id running) ≡ false
    → Holds none (j ∷ rest) running
    → Holds (some j) rest (if j.preclaimed then running else j.schedule_id ∷ running)
started-Holds j rest running free h k =
    let there = h k in
    let here = h j.schedule_id in ground (arith, eq_refl j.schedule_id, eq_iff j.schedule_id k)

execute_job-Held :
    (now : ℕ) (j : Job) (rest : List Job) (s : Runtime)
    → s.executing ≡ none
    → Holds none (j ∷ rest) s.running
    → Held (execute_job now j (record s { queue = rest }))
execute_job-Held now j rest s idle h =
    if_elim Held (not j.preclaimed && is_running j.schedule_id s.running) _ _
      (λ taken. rw idle (λ k. let there = h k in ground arith))
      (λ free.
        if_elim Held s.stopping _ _ (λ _. rw idle (dropped-Holds j rest s.running free h))
          (λ _. started-Holds j rest s.running free h))

start_next-Held :
    (now : ℕ) (queue : List Job) (executing : Option Job) (s : Runtime)
    → s.queue ≡ queue
    → s.executing ≡ executing
    → Held s
    → Held (start_next now queue executing s)
start_next-Held now queue (some j) s q e h = h
start_next-Held now [] none s q e h = h
start_next-Held now (j ∷ rest) none s q e h =
    execute_job-Held now j rest s e
      (subst (λ x. Holds x (j ∷ rest) s.running) e (subst (λ x. Holds s.executing x s.running) q h))

end_current-Held :
    (now : ℕ) (executing : Option Job) (outcome : ScheduleOutcome) (s : Runtime)
    → s.executing ≡ executing
    → Held s
    → Held (end_current now executing outcome s)
end_current-Held now none outcome s e h k = h k
end_current-Held now (some j) outcome s e h k =
    let held : Holds (some j) s.queue s.running = subst (λ x. Holds x s.queue s.running) e h in
    elim (Bool-cases (j.schedule_id == k)) [
      | inl same ↦ rw (← (eq_iff j.schedule_id k).0 same) (
          rw (removed-same j.schedule_id s.running)
            (let here = held j.schedule_id in ground (arith, eq_refl j.schedule_id)))
      | inr other ↦
          rw (removed-other j.schedule_id k s.running other) (let there = held k in ground arith)
    ]

runtime_step-Held :
    (parse : String → Option ℕ) (runs : CronRuns) (now : ℕ) (event : Event) (s : Runtime)
    → Held s
    → Held (runtime_step parse runs now event s)
unfolding runtime_step tick run_now execute end_execution
runtime_step-Held parse runs now (due new_id schedule) s h =
    if_elim Held s.stopping _ _ (λ _. h) (λ _. tick_job-Held schedule _ s h)
runtime_step-Held parse runs now (manual_request new_id id) s h =
    if_elim Held s.stopping _ _ (λ _. h) (λ open_. manual_of-Held now new_id id _ s open_ h)
runtime_step-Held parse runs now next s h = start_next-Held now s.queue s.executing s refl refl h
runtime_step-Held parse runs now (done outcome) s h =
    end_current-Held now s.executing outcome s refl h
runtime_step-Held parse runs now stop s h = h

runtime_after-Held :
    (parse : String → Option ℕ) (runs : CronRuns) (history : List (ℕ × Event)) (s : Runtime)
    → Held s
    → Held (runtime_after parse runs history s)
unfolding runtime_after
runtime_after-Held parse runs [] s h = h
runtime_after-Held parse runs ((now, event) ∷ rest) s h =
    runtime_after-Held parse runs rest (runtime_step parse runs now event s)
      (runtime_step-Held parse runs now event s h)

-- From a scheduler that has nothing in hand, whatever ticks, manual requests, executions and ends
-- follow, in any order: a schedule is marked as running exactly when one execution of it is in
-- progress or one manual run of it waits, and never more than one of these.
pub runtime_after-holders :
    (parse : String → Option ℕ) (runs : CronRuns) (history : List (ℕ × Event)) (db : Schedules)
    (id : String)
    → let s =
        runtime_after parse runs history
          (record { tables = db; running = []; queue = []; executing = none; stopping = false }) in
      current id s.executing + waiting id s.queue ≡ (if is_running id s.running then 1 else 0)
runtime_after-holders parse runs history db id =
    runtime_after-Held parse runs history _ (λ k. refl) id
