-- ===== src/Schedule/Cron.antt =====
-- src/scheduler/schedule.ts: the occurrences of a cron expression, and what every trigger has in
-- common.
use owner_operator.Prelude.{
  ℕ, zero, suc, ◌+◌, ◌-◌, ◌≤◌, ◌<◌, String, ◌≡◌, refl, sym, ◌∙◌, ◌⊎◌, inl, inr, Option, none, some,
  Number, whole, other, arith, if_elim, if◌then◌else◌, ltb, leb, Option-cases, ap,
}
use owner_operator.Schedule.{
  CronRuns, Missed, ScheduleTrigger, at, compute_at, compute_cron, compute_next_run_at, count_cron,
  count_missed_occurrences, counted, cron, every, needs_you, ok, threw,
}
use owner_operator.Schedule.Every.{compute_next_run_at-every}

-- croner's `nextRun` gives an occurrence after the instant that it is asked for.
abbrev pub Later : (ℕ → Option (Option ℕ)) → Type 0
Later next_run = (t u : ℕ) → next_run t ≡ some (some u) → t < u

compute_every-later :
    (parse : String → Option ℕ) (runs : CronRuns) (e a : Number) (now t : ℕ)
    → compute_next_run_at parse runs (every e a) now ≡ ok (some t)
    → now < t
compute_every-later parse runs (whole e) (whole a) now t h =
    let (t', same, later, near, aligned) =
      compute_next_run_at-every parse runs e a now (some t) h in
    ground arith
compute_every-later parse runs (whole e) other now t h =
    absurd (unfold compute_next_run_at in ground arith)
compute_every-later parse runs other a now t h = absurd (unfold compute_next_run_at in ground arith)

at-later : (parsed : Option ℕ) (now t : ℕ) → compute_at parsed now ≡ ok (some t) → now < t
at-later parsed now t h = ground arith

cron-runs : (r : Option (Option ℕ)) (t : ℕ) → compute_cron r ≡ ok (some t) → r ≡ some (some t)
cron-runs r t h = ground arith

-- An occurrence that any trigger gives is later than now, if croner's are.
pub compute_next_run_at-Later :
    (parse : String → Option ℕ) (runs : CronRuns) (trigger : ScheduleTrigger) (now t : ℕ)
    → ((expression zone : String) → Later (runs expression zone))
    → compute_next_run_at parse runs trigger now ≡ ok (some t)
    → now < t
compute_next_run_at-Later parse runs (at text) now t later h =
    at-later (parse text) now t (unfold compute_next_run_at in h)
compute_next_run_at-Later parse runs (every e a) now t later h =
    compute_every-later parse runs e a now t h
compute_next_run_at-Later parse runs (cron x zone) now t later h =
    later x zone now t (cron-runs (runs x zone now) t (unfold compute_next_run_at in h))
compute_next_run_at-Later parse runs needs_you now t later h =
    absurd (unfold compute_next_run_at in ground arith)

-- The occurrence that stands `k` places after the instant, if there is one.
abbrev pub occurrence : (next_run : ℕ → Option (Option ℕ)) → (k after : ℕ) → Option ℕ
occurrence next_run zero after = some after
occurrence next_run (suc k) after = elim (next_run after) [
  | none ↦ none
  | some none ↦ none
  | some (some next) ↦ occurrence next_run k next
]

-- The count, beyond what was counted before, names the last occurrence that is not after now.
abbrev pub Counted : (next_run : ℕ → Option (Option ℕ)) → (cursor now missed : ℕ) → Missed → Type 0
Counted next_run cursor now missed r =
    (r ≡ threw)
    ⊎ ((k : ℕ) × (r ≡ counted (missed + k))
        × ((t : ℕ) × (occurrence next_run k cursor ≡ some t)
            × (t ≤ now)
            × ((u : ℕ) → next_run t ≡ some (some u) → now < u)))

some-some : (n u : ℕ) → some (some n) ≡ some (some u) → n ≡ u
some-some n u e = ground arith

count_cron-step :
    (fuel : ℕ) (next_run : ℕ → Option (Option ℕ)) (cursor next now missed : ℕ)
    → next_run cursor ≡ some (some next)
    → Counted next_run next now (suc missed) (count_cron fuel next_run next now (suc missed))
    → Counted next_run cursor now missed (count_cron fuel next_run next now (suc missed))
count_cron-step fuel next_run cursor next now missed e (inl failed) = inl failed
count_cron-step fuel next_run cursor next now missed e (inr (k, same, (t, there, due, last))) =
    inr (suc k, same ∙ ap counted (omega arith), (t, rw (e, occurrence) there, due, last))

count_cron-next :
    (fuel : ℕ) (next_run : ℕ → Option (Option ℕ)) (cursor now missed next : ℕ)
    → next_run cursor ≡ some (some next)
    → count_cron (suc fuel) next_run cursor now missed
      ≡ (if ltb now next then counted missed else count_cron fuel next_run next now (suc missed))
unfolding count_cron
count_cron-next fuel next_run cursor now missed next e =
    ap
      (λ r. elim r [
        | none ↦ threw
        | some none ↦ counted missed
        | some (some n) ↦
            if ltb now n then counted missed else count_cron fuel next_run n now (suc missed)
      ])
      e

count_cron-Counted :
    (fuel : ℕ) (next_run : ℕ → Option (Option ℕ)) (cursor now missed : ℕ)
    → Later next_run
    → cursor ≤ now
    → now - cursor < fuel
    → Counted next_run cursor now missed (count_cron fuel next_run cursor now missed)
unfolding count_cron
count_cron-Counted zero next_run cursor now missed later due enough = absurd (omega arith)
count_cron-Counted (suc fuel) next_run cursor now missed later due enough =
    elim (Option-cases (next_run cursor)) [
      | inl failed ↦ rw (failed, count_cron) (inl refl)
      | inr (none, e) ↦
          rw (e, count_cron)
            (inr (0, ap counted (omega arith), (cursor, refl, due, (λ u h. absurd (cc)))))
      | inr (some next, e) ↦ rw (count_cron-next fuel next_run cursor now missed next e) (
          if_elim (Counted next_run cursor now missed) (ltb now next) _ _
            (λ after. inr (
              0,
              ap counted (omega arith),
              (
                cursor,
                refl,
                due,
                (λ u h. let same : next ≡ u = some-some next u (sym e ∙ h) in ground arith),
              ),
            ))
            (λ passed. count_cron-step fuel next_run cursor next now missed e (
              count_cron-Counted fuel next_run next now (suc missed) later (ground arith)
                (let after = later cursor next e in ground arith))))
    ]

-- If croner's occurrences each come after the one before, counting those that a late cron schedule
-- missed ends: croner throws, or the count is the place of the last occurrence that is not after
-- now, counted from the one that was due.
pub count_missed_occurrences-cron :
    (runs : CronRuns) (expression zone : String) (scheduled now : ℕ)
    → Later (runs expression zone)
    → scheduled < now
    → Counted
        (runs expression zone)
        scheduled
        now
        0
        (count_missed_occurrences runs (cron expression zone) scheduled now)
unfolding count_missed_occurrences
count_missed_occurrences-cron runs expression zone scheduled now later late =
    if_elim (Counted (runs expression zone) scheduled now 0) (leb now scheduled) _ _
      (λ early. absurd (ground arith))
      (λ _.
        count_cron-Counted (suc (now - scheduled)) (runs expression zone) scheduled now 0 later
          (omega arith) (omega arith))
