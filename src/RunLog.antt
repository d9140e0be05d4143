-- ===== src/RunLog.antt =====
-- src/state/database.ts: the event log of one run, which the tables `agent_run_events` and
-- `agent_run_event_sequences` and the map `eventLogBytes` hold under the run's id. The rows stand
-- in the order of their primary key.
pub mod Json
pub mod Order
pub mod Budget
use owner_operator.Prelude.{
  ℕ, suc, ◌+◌, ◌-◌, ◌*◌, String, Option, none, some, List, [], ◌∷◌, if◌then◌else◌, ltb, leb, get_or,
  keep,
}
use Json.{LogRecord, byte_length}

pub record LogRow : Type 0 where
  pub seq : ℕ
  pub at : ℕ
  pub entry : LogRecord
  pub bytes : ℕ

-- `last_seq` is the run's row of `agent_run_event_sequences`, `known_bytes` its entry in
-- `eventLogBytes`.
pub record RunLog : Type 0 where
  pub last_seq : Option ℕ
  pub rows : List LogRow
  pub known_bytes : Option ℕ

abbrev pub empty_log : RunLog
empty_log = record { last_seq = none; rows = []; known_bytes = none }

-- `COALESCE(MAX(seq), 0)`.
abbrev pub max_seq : List LogRow → ℕ
max_seq [] = 0
max_seq (r ∷ rs) = let m = max_seq rs in if ltb m r.seq then r.seq else m

-- `COALESCE(SUM(bytes), 0)`.
abbrev pub sum_bytes : List LogRow → ℕ
sum_bytes [] = 0
sum_bytes (r ∷ rs) = r.bytes + sum_bytes rs

-- A row takes the place of its key.
unfoldable pub insert_row : LogRow → List LogRow → List LogRow
insert_row r [] = r ∷ []
insert_row r (x ∷ xs) = if ltb r.seq x.seq then r ∷ x ∷ xs else x ∷ insert_row r xs

unfoldable pub next_seq : RunLog → ℕ
next_seq log = elim log.last_seq [ none ↦ max_seq log.rows + 1 | some n ↦ n + 1 ]

abbrev add_known : Option ℕ → ℕ → Option ℕ
add_known none bytes = none
add_known (some known) bytes = some (known + bytes)

-- The log after the insertion; the sequence number that is returned is `next_seq log`.
unfoldable pub insert_log_record : ℕ → LogRecord → RunLog → RunLog
unfolding insert_row
insert_log_record now entry log = record {
  last_seq = some (next_seq log);
  rows =
      insert_row (record { seq = next_seq log; at = now; entry = entry; bytes = byte_length entry })
        log.rows;
  known_bytes = add_known log.known_bytes (byte_length entry);
}

-- The loop over the oldest rows: what `through` and `total` are after it.
unfoldable pub evict : (budget : ℕ) → List LogRow → (through total : ℕ) → ℕ × ℕ
evict budget [] through total = (through, total)
evict budget (r ∷ rs) through total =
    let rest = evict budget rs r.seq (total - r.bytes) in
    if leb total budget then (through, total) else rest

unfoldable pub enforce_event_log_budget : (budget : ℕ) → RunLog → RunLog
unfolding evict
enforce_event_log_budget budget log =
    let total = get_or log.known_bytes (sum_bytes log.rows) in
    if leb total budget
    then record log { known_bytes = some total }
    else (let (through, left) = evict budget log.rows 0 total in
        record log { rows = keep (λ r. ltb through r.seq) log.rows; known_bytes = some left })

-- `agentRunEvents` and `iterateAgentRunEvents`.
unfoldable pub agent_run_events : RunLog → (after_seq : ℕ) → List LogRow
agent_run_events log after_seq = keep (λ r. ltb after_seq r.seq) log.rows

abbrev pub agent_run_last_seq : RunLog → Option ℕ
agent_run_last_seq log = log.last_seq
