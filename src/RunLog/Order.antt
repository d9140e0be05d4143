-- ===== src/RunLog/Order.antt =====
-- src/state/database.ts `insertLogRecord`: sequence numbers rise along the log and stay at or
-- below the last one issued.
use owner_operator.Prelude.{
  ℕ, ◌+◌, ◌≤◌, ◌<◌, ◌≡◌, refl, ◌⊎◌, inl, Bool, none, some, List, [], ◌∷◌, ◌++◌, arith, ltb, keep,
  get_or,
}
use owner_operator.RunLog.{
  LogRow, RunLog, empty_log, max_seq, sum_bytes, insert_row, next_seq, insert_log_record,
  agent_run_events,
}
use owner_operator.RunLog.Json.{LogRecord, byte_length}

-- The numbers rise, above `lo` and up to `hi`.
abbrev pub Between : ℕ → ℕ → List LogRow → Type 0
Between lo hi [] = Unit {0}
Between lo hi (r ∷ rs) = (lo < r.seq) × (r.seq ≤ hi) × Between r.seq hi rs

abbrev pub issued : RunLog → ℕ
issued log = get_or log.last_seq 0

pub record WfLog (log : RunLog) : Type 0 where
  pub ordered : Between 0 (issued log) log.rows
  pub counted : (log.known_bytes ≡ none) ⊎ (log.known_bytes ≡ some (sum_bytes log.rows))

pub Between-widen :
    (lo : ℕ) {hi hi' : ℕ} (rs : List LogRow) → hi ≤ hi' → Between lo hi rs → Between lo hi' rs
Between-widen lo [] h b = tt
Between-widen lo (r ∷ rs) h (above, below, b) = (above, omega arith, Between-widen r.seq rs h b)

pub Between-append :
    (lo hi : ℕ) (rs : List LogRow) (r : LogRow)
    → Between lo hi rs
    → lo ≤ hi
    → hi < r.seq
    → Between lo r.seq (rs ++ r ∷ [])
Between-append lo hi [] r b h k = (omega arith, omega arith, tt)
Between-append lo hi (x ∷ xs) r (above, below, b) h k =
    (above, omega arith, Between-append x.seq hi xs r b below k)

max_seq-le : (lo hi : ℕ) (rs : List LogRow) → Between lo hi rs → max_seq rs ≤ hi
max_seq-le lo hi [] b = omega arith
max_seq-le lo hi (r ∷ rs) (above, below, b) = ground (arith, max_seq-le r.seq hi rs b)

pub insert_row-append :
    (lo hi : ℕ) (r : LogRow) (rs : List LogRow)
    → Between lo hi rs
    → hi < r.seq
    → insert_row r rs ≡ rs ++ r ∷ []
unfolding insert_row
insert_row-append lo hi r [] b h = refl
insert_row-append lo hi r (x ∷ xs) (above, below, b) h =
    ground (arith, insert_row-append x.seq hi r xs b h)

pub next_seq-issued : (log : RunLog) → WfLog log → next_seq log ≡ issued log + 1
unfolding next_seq
next_seq-issued log w =
    elim log.last_seq
        as (λ o.
          Between 0 (get_or o 0) log.rows
          → elim o [ none ↦ max_seq log.rows + 1 | some n ↦ n + 1 ] ≡ get_or o 0 + 1) [
            | none ↦ λ b. ground (arith, max_seq-le 0 0 log.rows b)
            | some n ↦ λ b. refl
          ]
      w.ordered

pub sum_bytes-append : (rs ss : List LogRow) → sum_bytes (rs ++ ss) ≡ sum_bytes rs + sum_bytes ss
sum_bytes-append [] ss = omega arith
sum_bytes-append (r ∷ rs) ss = omega (arith, sum_bytes-append rs ss)

abbrev pub new_row : ℕ → LogRecord → RunLog → LogRow
new_row now entry log = record {
  seq = issued log + 1;
  at = now;
  entry = entry;
  bytes = byte_length entry;
}

-- In a well-formed log the new record takes the number after the last one issued and stands last.
pub insert_log_record-rows :
    (now : ℕ) (entry : LogRecord) (log : RunLog)
    → WfLog log
    → (insert_log_record now entry log).rows ≡ log.rows ++ new_row now entry log ∷ []
unfolding insert_log_record
insert_log_record-rows now entry log w =
    rw (next_seq-issued log w)
      (insert_row-append 0 (issued log) (new_row now entry log) log.rows w.ordered (omega arith))

pub insert_log_record-last_seq :
    (now : ℕ) (entry : LogRecord) (log : RunLog)
    → WfLog log
    → (insert_log_record now entry log).last_seq ≡ some (issued log + 1)
unfolding insert_log_record
insert_log_record-last_seq now entry log w = rw (next_seq-issued log w)

insert_log_record-counted :
    (now : ℕ) (entry : LogRecord) (log : RunLog)
    → WfLog log
    → let log' = insert_log_record now entry log in
      (log'.known_bytes ≡ none)
      ⊎ (log'.known_bytes ≡ some (sum_bytes (log.rows ++ new_row now entry log ∷ [])))
unfolding insert_log_record
insert_log_record-counted now entry log w =
    ground (arith, sum_bytes-append log.rows (new_row now entry log ∷ []))

pub insert_log_record-WfLog :
    (now : ℕ) (entry : LogRecord) (log : RunLog)
    → WfLog log
    → WfLog (insert_log_record now entry log)
insert_log_record-WfLog now entry log w = record {
  ordered =
      rw (insert_log_record-last_seq now entry log w, insert_log_record-rows now entry log w)
        (Between-append 0 (issued log) log.rows (new_row now entry log) w.ordered (omega arith)
          (omega arith));
  counted = rw (insert_log_record-rows now entry log w) (insert_log_record-counted now entry log w);
}

pub empty_log-WfLog : WfLog empty_log
empty_log-WfLog = record { ordered = tt; counted = inl refl }

pub keep-above :
    (after lo hi : ℕ) (rs : List LogRow)
    → Between lo hi rs
    → after ≤ lo
    → keep (λ r. ltb after r.seq) rs ≡ rs
keep-above after lo hi [] b h = refl
keep-above after lo hi (r ∷ rs) (above, below, b) h = ground (arith, keep-above after r.seq hi rs b)

pub keep-none :
    (after lo hi : ℕ) (rs : List LogRow)
    → Between lo hi rs
    → hi ≤ after
    → keep (λ r. ltb after r.seq) rs ≡ []
keep-none after lo hi [] b h = refl
keep-none after lo hi (r ∷ rs) (above, below, b) h = ground (arith, keep-none after r.seq hi rs b)

keep-append : (p : LogRow → Bool) (rs ss : List LogRow) → keep p (rs ++ ss) ≡ keep p rs ++ keep p ss
keep-append p [] ss = refl
keep-append p (r ∷ rs) ss = ground (arith, keep-append p rs ss)

-- A follower that has read a well-formed log up to the last number issued reads exactly the next
-- record, under a number that is one higher and that no row of the log has.
pub follower-insert_log_record :
    (now : ℕ) (entry : LogRecord) (log : RunLog)
    → WfLog log
    → (agent_run_events (insert_log_record now entry log) (issued log) ≡ new_row now entry log ∷ [])
      × (agent_run_events log (issued log) ≡ [])
      × (issued (insert_log_record now entry log) ≡ issued log + 1)
unfolding agent_run_events
follower-insert_log_record now entry log w = (
  rw (insert_log_record-rows now entry log w) (
      rw (keep-append (λ r. ltb (issued log) r.seq) log.rows (new_row now entry log ∷ [])) (
        rw (keep-none (issued log) 0 (issued log) log.rows w.ordered (omega arith))
          (ground arith))),
  keep-none (issued log) 0 (issued log) log.rows w.ordered (omega arith),
  rw (insert_log_record-last_seq now entry log w),
)
