-- ===== src/Tests/ThreadCases.antt =====
-- The threads of src/state at concrete sessions.
use owner_operator.Prelude.{
  ℕ, ◌+◌, ◌≡◌, refl, String, Bool, true, false, ◌&&◌, Option, none, some, List, [], ◌∷◌, arith, any,
  leb, sort_by, if_elim,
}
use owner_operator.Schedule.{CronRuns}
use owner_operator.Schedule
use owner_operator.Schedules.{
  ScheduleDefinition, Schedules, command, create_schedule_run, new_schedule_run,
}
use owner_operator.Schedules
use owner_operator.Threads.{
  DetailsRow, Thread, Threads, ThreadState, append_details, child_evidence, details_of,
  has_active_child, latest_details, poll, resolution_row, same_children, snooze_holds,
}
use owner_operator.Threads.Assessed.{append_model_details_if_fresh-candidate, counts_as_working}
use owner_operator.Threads.Blacklist.{Blacklist, is_blacklisted, is_purged, like}
use owner_operator.Threads.Board.{Happening, board_after, board_step, on_threads}
use owner_operator.Threads.Done.{IsDone, replay-IsDone}
use owner_operator.Threads.Enrichment.{
  ThreadEnrichment, append_model_details_if_fresh, asks, is_enrichment_candidate,
  working_reassess_ms,
}
use owner_operator.Threads.Given.{is_change}
use owner_operator.Threads.Given.Once.{claim_needs_you_schedule_run-once}
use owner_operator.Threads.NeedsYou.{
  Board, Change, NeedsYouClaim, claim_needs_you_schedule_run, fresh, waits, write_watermark,
  write_watermarks,
}
use owner_operator.Threads.Observe.{observed_state, record_observation}
use owner_operator.Threads.Revisions.{Numbered, revisions}
use owner_operator.Threads.Scan.{
  ScanRow, derive_state, holds_done, new_thread, record_scan, resolve_state, upsert_thread,
}
use owner_operator.Threads.Observe.{observation_of}
use owner_operator.Threads.Steps.{Moment, Operation, enrich, mark, observe, replay, step}
use owner_operator.Threads.Wf.{WfThreads}
use owner_operator.Threads.Wf.Operations.{replay-WfThreads}

abbrev same_text' : String → String
same_text' text = text

abbrev nothing_blocked : Blacklist
nothing_blocked = record { paths = []; repos = [] }

-- A session in which the assistant has spoken at an instant.
abbrev answered : (at : ℕ) → ScanRow
answered at = record {
  id = "t";
  source = "codex";
  repo = "app";
  project = some "/work/app";
  transcript_path = none;
  app = "cli";
  topic = "Fix the build";
  last_role = "assistant";
  created_at = 1;
  last_message_at = at;
  seconds_since_last_message = 5;
  working = false;
  link = none;
  diff_added = none;
  diff_deleted = none;
}

abbrev no_threads : Threads
no_threads = record { threads = []; details = []; watermarks = [] }

no_threads-WfThreads : WfThreads no_threads
no_threads-WfThreads = record {
  unique = λ id. omega arith;
  numbered = λ id. tt;
  owned = λ id. refl;
}

abbrev unfinished : ThreadEnrichment
unfinished = record {
  topic = some "Fix the build";
  status_summary = some "Waits for a choice";
  attention = some asks;
  bookmark = none;
}

abbrev at_instant : ℕ → Operation → Moment
at_instant now operation = record { now = now; runs = []; operation = operation }

-- A session is seen, assessed, closed, and seen again.
abbrev morning : List Moment
morning =
    at_instant 10 (observe nothing_blocked (answered 5))
    ∷ at_instant 20 (enrich "t" unfinished 5 [])
    ∷ at_instant 30 (mark ("t" ∷ []))
    ∷ at_instant 40 (observe nothing_blocked (answered 5))
    ∷ []

replay-WfThreads_example : WfThreads (replay same_text' morning no_threads)
replay-WfThreads_example = replay-WfThreads same_text' morning no_threads no_threads-WfThreads

abbrev details_in : ThreadState → ℕ → DetailsRow
details_in state version = record {
  thread_id = "t";
  version = version;
  created_at = 10;
  written_by = poll;
  state = state;
  topic = none;
  status_summary = none;
  bookmark = none;
}

abbrev seen : Thread
seen = new_thread 10 (observation_of (answered 5) ThreadState.idle)

abbrev one_thread : ThreadState → Threads
one_thread state = record {
  threads = seen ∷ [];
  details = details_in state 1 ∷ [];
  watermarks = [];
}

replay-IsDone_example : IsDone "t" 5 (
    replay same_text'
      (at_instant 40 (observe nothing_blocked (answered 5))
        ∷ at_instant 50 (enrich "t" unfinished 5 [])
        ∷ [])
      (one_thread ThreadState.done))
unfolding latest_details
replay-IsDone_example =
    replay-IsDone same_text' "t" 5
      (at_instant 40 (observe nothing_blocked (answered 5))
        ∷ at_instant 50 (enrich "t" unfinished 5 [])
        ∷ [])
      (one_thread ThreadState.done) (refl, (refl, tt))
      ((details_in ThreadState.done 1, refl, refl), (seen, refl, refl))

append_model_details_if_fresh-candidate_example :
    is_enrichment_candidate 400000 "t" []
      (append_model_details_if_fresh 20 "t" [] unfinished 5 [] (one_thread ThreadState.idle)).0
    ≡ (counts_as_working "t" [] (latest_details "t" (one_thread ThreadState.idle).details)
        && leb (20 + working_reassess_ms) 400000)
unfolding append_model_details_if_fresh resolution_row latest_details child_evidence same_children
    has_active_child append_details sort_by
append_model_details_if_fresh-candidate_example =
    append_model_details_if_fresh-candidate 20 400000 5 "t" [] unfinished []
      (one_thread ThreadState.idle) "Waits for a choice" 2 refl refl

Numbered-one : (d : DetailsRow) (id : String) → d.version ≡ 1 → Numbered (revisions id (d ∷ []))
Numbered-one d id first =
    if_elim Numbered (details_of id d) (d ∷ []) [] (λ own. (first, tt, tt)) (λ other. tt)

abbrev on_call : ScheduleDefinition
on_call = record {
  id = "s";
  name = "on call";
  enabled = true;
  trigger = Schedule.needs_you;
  payload = command ("notify" ∷ []);
  cwd = "/work";
  timeout_seconds = 60;
  revision = 1;
  created_at = 0;
  updated_at = 0;
  next_run_at = none;
}

-- A thread that waits for the owner, and a schedule that is run for it.
abbrev waiting_board : Board
waiting_board = record {
  threads = one_thread ThreadState.needs_you;
  tables = record {
    schedules = record { definition = on_call; deleted_at = none } ∷ [];
    runs = [];
  };
}

abbrev no_dates : String → Option ℕ
no_dates text = none

abbrev no_cron : CronRuns
no_cron expression zone after = none

abbrev last_change : ℕ → Change
last_change at = record { thread_id = "t"; last_message_at = at }

-- A newer message comes, and the thread is assessed again.
abbrev afternoon : List Happening
afternoon =
    record { now = 60; runs = []; event = on_threads (observe nothing_blocked (answered 55)) }
    ∷ record { now = 70; runs = []; event = on_threads (enrich "t" unfinished 55 []) }
    ∷ []

abbrev first_claim : Board × Option NeedsYouClaim
unfolding claim_needs_you_schedule_run
first_claim = claim_needs_you_schedule_run 50 [] "r" on_call (last_change 5 ∷ []) waiting_board

abbrev second_claim : Board × Option NeedsYouClaim
unfolding claim_needs_you_schedule_run
second_claim =
    claim_needs_you_schedule_run 80 [] "q" on_call (last_change 5 ∷ last_change 55 ∷ [])
      (board_after same_text' no_dates no_cron afternoon first_claim.0)

abbrev claim_in : ℕ → Option NeedsYouClaim → Bool
claim_in at none = false
claim_in at (some r) = any (is_change "t" at) r.changes

waiting-WfThreads : WfThreads (one_thread ThreadState.needs_you)
waiting-WfThreads = record {
  unique = λ id. ground arith;
  numbered = λ id. Numbered-one (details_in ThreadState.needs_you 1) id refl;
  owned = λ id. ground arith;
}

-- The second claim is made, for the newer message.
second_claim-newer : claim_in 55 second_claim.1 ≡ true
unfolding claim_needs_you_schedule_run fresh waits latest_details has_active_child snooze_holds
    write_watermarks write_watermark create_schedule_run board_after board_step step
    record_observation record_scan resolution_row child_evidence sort_by
    append_model_details_if_fresh append_details is_blacklisted observed_state resolve_state
    derive_state holds_done upsert_thread same_children
second_claim-newer = refl

abbrev claim_at : (run_id : String) → (now at : ℕ) → NeedsYouClaim
claim_at run_id now at = record {
  run = new_schedule_run now run_id on_call Schedules.needs_you none;
  changes = last_change at ∷ [];
  observed_through = at;
}

claim_needs_you_schedule_run-once_example :
    any (is_change "t" 5) (claim_at "q" 80 55).changes ≡ false
unfolding claim_needs_you_schedule_run fresh waits latest_details has_active_child snooze_holds
    write_watermarks write_watermark create_schedule_run board_after board_step step
    record_observation record_scan resolution_row child_evidence sort_by
    append_model_details_if_fresh append_details is_blacklisted observed_state resolve_state
    derive_state holds_done upsert_thread same_children
claim_needs_you_schedule_run-once_example =
    claim_needs_you_schedule_run-once same_text' no_dates no_cron "t" 5 50 80 [] [] "r" "q" on_call
      on_call (last_change 5 ∷ []) (last_change 5 ∷ last_change 55 ∷ []) waiting_board afternoon
      (claim_at "r" 50 5) (claim_at "q" 80 55) refl waiting-WfThreads refl refl (refl, (refl, tt))
      refl

-- `_` in a path of the blacklist is read as any character: a session outside the tree is deleted.
abbrev wildcard : Blacklist
wildcard = record { paths = "/work/ap_" ∷ []; repos = [] }

sibling_purged :
    (is_blacklisted same_text' wildcard (some "/work/app/ui") (some "app") ≡ false)
    × (is_purged wildcard (record seen { project = some "/work/app/ui" }) ≡ true)
unfolding is_blacklisted is_purged like
sibling_purged = (refl, refl)
