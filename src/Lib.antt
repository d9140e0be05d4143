-- ===== src/Lib.antt =====
-- Owner Operator: a daemon that delegates work to coding agents, watches their sessions, and runs
-- schedules. This library models its core: the ledger of delegated runs, the executor on it, the
-- scheduler, and the threads of sessions, with the tables that they keep in SQLite.
--
-- The parts and how they interact. The executor (src/agent-runs/executor.ts) validates a request,
-- records a pending row in the ledger (src/state/database.ts), and claims pending rows under a cap;
-- each claimed row has a turn in a child process, whose activity, stream events and result go back
-- to the ledger. A run that has ended can be retried or resumed in the session that it saved. The
-- scheduler (src/scheduler/scheduler.ts) claims the occurrences of its schedules from tables in the
-- same database. A poll of the sessions writes their threads, and all surfaces show them in the one
-- arrangement of SessionState. Before the task of a turn over ACP starts, the model and the
-- effort of its session are set and confirmed (AcpSelection).
--
--   AgentRuns      packages/core/src/agent-runs.ts: statuses, capabilities, eligibility, turn intents;
--                  AgentRuns/SavedSession: src/agent-runs/agent-state-projection.ts.
--   RunLog         src/state/database.ts: insertLogRecord, enforceEventLogBudget, agentRunEvents.
--   Ledger         src/state/database.ts: createAgentRun, claimNextPendingAgentRun,
--                  recordAgentRunActivity, finishAgentRun, markRunningAgentRunsInterrupted,
--                  markAgentRunsLost, appendAgentRunEvent and the queries. A ledger is a record of
--                  the rows in the order of their rowid and the event log of each run id.
--   LaunchConfig   src/agent-runs/launch-config.ts: resolveAgentRunLaunch.
--   Executor       src/agent-runs/executor.ts: launch, retry, resumeWithCompletions;
--                  Executor/Turns: start, pump, execute, cancel, stop, sweepLostRuns, as events on
--                  the ledger, the map of active turns and the flag of stopping, in any order;
--                  end_turn_unrecorded is the end of a turn at which the database throws, which no event
--                  of these histories is: Executor/Sweep lets one follow such a history;
--                  Executor/Nested: the selection of reconcileNestedCompletions;
--                  Executor/Task: the text of nestedCompletionTask.
--   Schedule       src/scheduler/schedule.ts: computeNextRunAt, countMissedOccurrences.
--   Schedules      src/state/database.ts: the tables schedules and schedule_runs.
--   Scheduler      src/scheduler/scheduler.ts: validateSchedule, createSchedule, updateSchedule, the
--                  claims of tick. Scheduler/Steps: their histories; Scheduler/Runtime:
--                  tick, runNow and execute on the queue of executions and the set running.
--   AgentState     packages/core/src/agent-state.ts: deriveParentAgentState and the completion envelope.
--   Threads        src/state/database.ts, src/state/state.ts, packages/core/src/resolve.mjs: the tables
--                  threads and thread_details. Threads/Scan, Observe: recordScan, recordObservation, recordPoll;
--                  Enrichment: appendModelDetails, appendModelDetailsIfFresh, the candidates;
--                  Owner: markDone, setSnooze, setOwnerTitle; Blacklist: isBlacklisted,
--                  purgeBlacklisted; NeedsYou: claimNeedsYouScheduleRun; Steps, Board: histories.
--   SessionState   packages/core/src/session-state.ts: arrangeSessionState; emit runs on fuel.
--   AcpSelection   src/agent-runs/acp-session-selection.ts: Options: configOptionsFromStatus, validation;
--                  Selector: resolveThoughtLevelSelector; Confirm: applyAndConfirmAcpSelection as calls
--                  on the state of the session, which goes on after a throw.
--   Worktrees      src/state/database.ts: registerAndSelectWorktree, selectWorktree.
--   Prelude        Boolean tests, lists, texts and maps that the parts share.
--   Tests          each theorem that has conditions at a concrete input.
--
-- Instants are milliseconds since 1970 where the program compares ISO texts of a fixed width. A throw
-- is an error value that leaves the state as it was; only what acpx has done to a session stays done
-- after a throw (AcpSelection). What is not in the repository is an argument: croner,
-- acpx, Date.parse, randomUUID, the clock, the file system, the decoding of bytes by Node.
--
-- Fuel. The loop of pump runs on the free slots: each claim takes one, so that the loop stops by
-- itself before the fuel ends. The count of missed cron occurrences runs on the milliseconds that
-- the schedule is late, and one more: each occurrence is later than the one before it. The recursion
-- of emit runs on the number of rows: a chain of parents up to a root is shorter than that.
--
-- Not modelled: the resumes that continue the selected parents,
-- the query of listSessionState, migrations of the database, and the parts around the core (gateway,
-- command line, session monitor, search, launcher processes, widget, evaluation), which are I/O.
pub mod Prelude
pub mod AgentRuns
pub mod RunLog
pub mod Ledger
pub mod LaunchConfig
pub mod Executor
pub mod Schedule
pub mod Schedules
pub mod Scheduler
pub mod Tests
pub mod AgentState
pub mod Worktrees
pub mod Threads
pub mod AcpSelection
pub mod SessionState
