-- ===== src/Threads/Steps.antt =====
-- src/state/state.ts and src/state/database.ts: what changes the threads, as steps on them.
use owner_operator.Prelude.{ℕ, String, Option, List, [], ◌∷◌}
use owner_operator.AgentRuns.{AgentRun}
use owner_operator.Threads.{ChildEvidence, Threads}
use owner_operator.Threads.Blacklist.{Blacklist, purge_blacklisted}
use owner_operator.Threads.Scan.{ScanRow}
use owner_operator.Threads.Observe.{record_observation}
use owner_operator.Threads.Enrichment.{
  ThreadEnrichment, append_model_details, append_model_details_if_fresh, request_enrichment,
}
use owner_operator.Threads.Owner.{Snooze, mark_done, set_owner_title, snooze_thread}

pub data Operation : Type 0 where
  observe : Blacklist → ScanRow → Operation
  describe : (id : String) (topic status_summary : Option String) (through : Option ℕ) → Operation
  enrich : (id : String) → ThreadEnrichment → (through : ℕ) → List ChildEvidence → Operation
  request : List (String × ℕ) → Operation
  mark : List String → Operation
  snooze : (id : String) → Option Snooze → Operation
  rename : (id title : String) → Operation
  purge : Blacklist → Operation

unfoldable pub step :
    (fold : String → String) → (now : ℕ) → List AgentRun → Operation → Threads → Threads
step fold now runs (observe b row) db = (record_observation fold b now runs row db).0
step fold now runs (describe id topic status_summary through) db =
    (append_model_details now id topic status_summary through db).0
step fold now runs (enrich id details through children) db =
    (append_model_details_if_fresh now id runs details through children db).0
step fold now runs (request requests) db = (request_enrichment requests db).0
step fold now runs (mark ids) db = (mark_done now ids db).0
step fold now runs (snooze id s) db = (snooze_thread now id s db).0
step fold now runs (rename id title) db = (set_owner_title id title db).0
step fold now runs (purge b) db = (purge_blacklisted b db).0

-- An operation, with the instant and the delegated runs at which it ran.
pub record Moment : Type 0 where
  pub now : ℕ
  pub runs : List AgentRun
  pub operation : Operation

unfoldable pub replay : (fold : String → String) → List Moment → Threads → Threads
replay fold [] db = db
replay fold (m ∷ rest) db = replay fold rest (step fold m.now m.runs m.operation db)
