-- ===== src/Threads/Board.antt =====
-- src/state/state.ts: histories of the threads and of the schedules that are run for those which need
-- the owner.
use owner_operator.Prelude.{ℕ, String, Bool, false, Option, ◌≡◌, List, [], ◌∷◌}
use owner_operator.AgentRuns.{AgentRun}
use owner_operator.Schedule.{CronRuns}
use owner_operator.Schedules.{ScheduleDefinition}
use owner_operator.Scheduler.Steps
use owner_operator.Threads.Blacklist.{purges}
use owner_operator.Threads.NeedsYou.{Board, Change, claim_needs_you_schedule_run}
use owner_operator.Threads.Steps.{Operation, purge, step}

pub data Event : Type 0 where
  on_threads : Operation → Event
  on_schedules : Steps.Operation → Event
  claim : (run_id : String) → ScheduleDefinition → List Change → Event

-- An event, with the instant and the delegated runs at which it happened.
pub record Happening : Type 0 where
  pub now : ℕ
  pub runs : List AgentRun
  pub event : Event

-- The event is a purge that takes the thread.
abbrev pub takes : String → Event → Board → Bool
takes id (on_threads (purge blacklist)) b = purges blacklist b.threads.threads id
takes id event b = false

module _ (fold : String → String) (parse : String → Option ℕ) (cron : CronRuns) where
  unfoldable pub board_step : (now : ℕ) → List AgentRun → Event → Board → Board
  unfolding claim_needs_you_schedule_run
  board_step now runs (on_threads op) b = record b { threads = step fold now runs op b.threads }
  board_step now runs (on_schedules op) b = record b {
    tables = Steps.step parse cron now op b.tables;
  }
  board_step now runs (claim run_id s changes) b =
      (claim_needs_you_schedule_run now runs run_id s changes b).0

  unfoldable pub board_after : List Happening → Board → Board
  unfolding board_step
  board_after [] b = b
  board_after (h ∷ rest) b = board_after rest (board_step h.now h.runs h.event b)

  -- No purge in the history takes the thread.
  abbrev pub Spared : String → List Happening → Board → Type 0
  unfolding board_step
  Spared id [] b = Unit
  Spared id (h ∷ rest) b =
      (takes id h.event b ≡ false) × Spared id rest (board_step h.now h.runs h.event b)
