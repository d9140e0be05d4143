-- ===== src/Threads/Given/Once.antt =====
-- src/state/database.ts `claimNeedsYouScheduleRun`: no later claim of a schedule takes a message again.
use owner_operator.Prelude.{
  ℕ, ◌≡◌, refl, sym, subst, String, true, false, Option, some, List, [], ◌∷◌, arith, any,
}
use owner_operator.AgentRuns.{AgentRun}
use owner_operator.Schedule.{CronRuns}
use owner_operator.Schedules.{ScheduleDefinition}
use owner_operator.Threads.Board.{
  Event, Happening, Spared, board_after, board_step, claim, on_schedules, on_threads, takes,
}
use owner_operator.Threads.Given.{is_change, is_given-taken, message}
use owner_operator.Threads.NeedsYou.{
  Board, Change, NeedsYouClaim, claim_needs_you_schedule_run, fresh, is_given, write_watermarks,
}
use owner_operator.Threads.Wf.{WfThreads}
use owner_operator.Threads.Wf.Operations.{step-WfThreads}
use owner_operator.Threads.Given.Claims.{claim_changes, claim_made, watermarks-WfThreads}
use owner_operator.Threads.Given.Kept.{
  IsGiven, fresh-Agree, step-IsGiven, claim-WfThreads, claim-IsGiven, fresh_seen, fresh_once,
}

module _ (s t : String) (m : ℕ) where
  Steady : Board → Type 0
  Steady b = WfThreads b.threads × IsGiven s t m b.threads

  happen-Steady :
      (fold : String → String) (parse : String → Option ℕ) (cron : CronRuns) (now : ℕ)
      (runs : List AgentRun) (event : Event) (b : Board)
      → takes t event b ≡ false
      → Steady b
      → Steady (board_step fold parse cron now runs event b)
  unfolding board_step Steady
  happen-Steady fold parse cron now runs (on_threads op) b spared (wf, given) = (
    step-WfThreads fold now runs op b.threads wf,
    step-IsGiven s t m fold now runs op b spared wf given,
  )
  happen-Steady fold parse cron now runs (on_schedules op) b spared h = h
  happen-Steady fold parse cron now runs (claim run_id s' changes) b spared (wf, given) = (
    claim-WfThreads s t m now runs run_id s' changes b wf,
    claim-IsGiven s t m now runs run_id s' changes b wf given,
  )

  board_after-Steady :
      (fold : String → String) (parse : String → Option ℕ) (cron : CronRuns)
      (history : List Happening) (b : Board)
      → Spared fold parse cron t history b
      → Steady b
      → Steady (board_after fold parse cron history b)
  unfolding board_after board_step
  board_after-Steady fold parse cron [] b spared h = h
  board_after-Steady fold parse cron (x ∷ rest) b (here, later) h =
      board_after-Steady fold parse cron rest (board_step fold parse cron x.now x.runs x.event b)
        later (happen-Steady fold parse cron x.now x.runs x.event b here h)

  claim-Steady :
      (now : ℕ) (runs : List AgentRun) (id : String) (s' : ScheduleDefinition)
      (changes : List Change) (b : Board) (r : NeedsYouClaim)
      → s'.id ≡ s
      → WfThreads b.threads
      → (claim_needs_you_schedule_run now runs id s' changes b).1 ≡ some r
      → any (is_change t m) r.changes ≡ true
      → Steady (claim_needs_you_schedule_run now runs id s' changes b).0
  unfolding claim_needs_you_schedule_run Steady
  claim-Steady now runs id s' changes b r own wf made here =
      let cs = fresh now runs s'.id b.threads changes in
      let taken : any (is_change t m) cs ≡ true =
        subst (λ ds. any (is_change t m) ds ≡ true) (claim_changes now id s' cs b r made) here in
      let (x, found, last) =
        fresh_seen s t m now runs s'.id b.threads changes (wf.unique t) taken in
      claim_made (λ (b' : Board). WfThreads b'.threads × IsGiven s t m b'.threads) now id s' cs b r
        made
        (λ tables. (
          watermarks-WfThreads b.threads (write_watermarks s'.id cs b.threads.watermarks) wf,
          (
            x,
            found,
            (
              ground (arith, last),
              λ l.
                  subst
                    (λ i.
                      is_given s (write_watermarks i cs b.threads.watermarks) (message s t m)
                      ≡ true)
                    (sym own)
                    (is_given-taken s t m cs b.threads.watermarks
                      (fresh-Agree s t m now runs s'.id b.threads changes x (wf.unique t) found
                        last)
                      taken),
            ),
          ),
        ))

-- Once a schedule has been run for a message of a thread, no claim of it takes that message again,
-- after any history of polls, assessments, requests of the owner, changes of schedules and other claims
-- in which no purge takes the thread.
pub claim_needs_you_schedule_run-once :
    (fold : String → String) (parse : String → Option ℕ) (cron : CronRuns) (t : String)
    (m now later : ℕ) (runs runs' : List AgentRun) (id id' : String) (s s' : ScheduleDefinition)
    (changes changes' : List Change) (b : Board) (history : List Happening) (r r' : NeedsYouClaim)
    → s'.id ≡ s.id
    → WfThreads b.threads
    → (claim_needs_you_schedule_run now runs id s changes b).1 ≡ some r
    → any (is_change t m) r.changes ≡ true
    → Spared fold parse cron t history (claim_needs_you_schedule_run now runs id s changes b).0
    → (claim_needs_you_schedule_run later runs' id' s' changes' (
        board_after fold parse cron history
          (claim_needs_you_schedule_run now runs id s changes b).0)).1
      ≡ some r'
    → any (is_change t m) r'.changes ≡ false
unfolding claim_needs_you_schedule_run Steady
claim_needs_you_schedule_run-once fold parse cron t m now later runs runs' id id' s s' changes
      changes' b history r r' same wf made here spared made' =
    let b' = (claim_needs_you_schedule_run now runs id s changes b).0 in
    let (wf', given) =
      board_after-Steady s.id t m fold parse cron history b' spared
        (claim-Steady s.id t m now runs id s changes b r refl wf made here) in
    let after = (board_after fold parse cron history b').threads in
    subst (λ ds. any (is_change t m) ds ≡ false)
      (sym (
        claim_changes later id' s' (fresh later runs' s'.id after changes')
          (board_after fold parse cron history b') r' made'))
      (subst (λ i. any (is_change t m) (fresh later runs' i after changes') ≡ false) (sym same)
        (fresh_once s.id t m later runs' after changes' (wf'.unique t) given))
