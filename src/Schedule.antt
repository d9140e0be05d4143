-- ===== src/Schedule.antt =====
-- src/scheduler/schedule.ts. Instants are milliseconds since 1970. `parse` is `Date.parse`, where
-- `none` is what is not finite; `cron expression zone` is croner's `nextRun`, where the outer `none`
-- is a throw.
pub mod Every
pub mod Cron
use owner_operator.Prelude.{
  ℕ, zero, suc, ◌+◌, ◌-◌, ◌*◌, ◌/◌, String, Bool, true, false, not, ◌||◌, Option, none, some,
  Number, whole, other, if◌then◌else◌, ltb, leb,
}

-- The closed vocabulary of triggers.
pub data ScheduleTrigger : Type 0 where
  at : (text : String) → ScheduleTrigger
  every : (every_ms anchor_ms : Number) → ScheduleTrigger
  cron : (expression time_zone : String) → ScheduleTrigger
  needs_you : ScheduleTrigger

pub data ScheduleError : Type 0 where
  invalid_at invalid_every invalid_anchor invalid_cron invalid_date : ScheduleError

pub data NextRun : Type 0 where
  ok : Option ℕ → NextRun
  err : ScheduleError → NextRun

abbrev pub CronRuns : Type 0
CronRuns = (expression time_zone : String) → (after : ℕ) → Option (Option ℕ)

-- `Number.isSafeInteger` of a whole number.
abbrev pub is_safe : ℕ → Bool
is_safe n = leb n 9007199254740991

-- `new Date(ms).toISOString()`, which throws past the last date.
abbrev pub to_iso : ℕ → NextRun
to_iso ms = if leb ms 8640000000000000 then ok (some ms) else err invalid_date

abbrev next_every : (every_ms anchor_ms now : ℕ) → ℕ
next_every e a now = if ltb now a then a else a + ((now - a) / e + 1) * e

abbrev compute_every : (every_ms anchor_ms : Number) → (now : ℕ) → NextRun
compute_every other anchor now = err invalid_every
compute_every (whole e) other now =
    if not (is_safe e) || ltb e 1000 then err invalid_every else err invalid_anchor
compute_every (whole e) (whole a) now =
    if not (is_safe e) || ltb e 1000
    then err invalid_every
    else if not (is_safe a)
    then err invalid_anchor
    else to_iso (next_every e a now)

abbrev compute_at : Option ℕ → (now : ℕ) → NextRun
compute_at none now = err invalid_at
compute_at (some ms) now = if ltb now ms then to_iso ms else ok none

abbrev compute_cron : Option (Option ℕ) → NextRun
compute_cron none = err invalid_cron
compute_cron (some next) = ok next

unfoldable pub compute_next_run_at :
    (parse : String → Option ℕ) → (cron : CronRuns) → ScheduleTrigger → (now : ℕ) → NextRun
compute_next_run_at parse runs needs_you now = ok none
compute_next_run_at parse runs (at text) now = compute_at (parse text) now
compute_next_run_at parse runs (every e a) now = compute_every e a now
compute_next_run_at parse runs (cron expression zone) now = compute_cron (runs expression zone now)

-- What the loop over the occurrences of a cron expression gives.
pub data Missed : Type 0 where
  counted : ℕ → Missed
  threw out_of_fuel not_a_number : Missed

unfoldable pub count_cron :
    (fuel : ℕ) → (next_run : ℕ → Option (Option ℕ)) → (cursor now missed : ℕ) → Missed
count_cron zero next_run cursor now missed = out_of_fuel
count_cron (suc fuel) next_run cursor now missed = elim (next_run cursor) [
  | none ↦ threw
  | some none ↦ counted missed
  | some (some next) ↦
      let rest = count_cron fuel next_run next now (suc missed) in
      if ltb now next then counted missed else rest
]

abbrev count_every : (every_ms : Number) → (late : ℕ) → Missed
count_every other late = not_a_number
count_every (whole zero) late = not_a_number
count_every (whole (suc e)) late = counted (late / suc e)

-- Each occurrence of a cron expression is later than the one before it, so that the fuel is one
-- step for each millisecond and one to stop.
unfoldable pub count_missed_occurrences :
    (cron : CronRuns) → ScheduleTrigger → (scheduled now : ℕ) → Missed
unfolding count_cron
count_missed_occurrences runs trigger scheduled now =
    if leb now scheduled then counted 0 else elim trigger [
      | every e a ↦ count_every e (now - scheduled)
      | cron expression zone ↦
          count_cron (suc (now - scheduled)) (runs expression zone) scheduled now 0
      | at text ↦ counted 0
      | needs_you ↦ counted 0
    ]
