-- ===== src/Schedule/Every.antt =====
-- src/scheduler/schedule.ts: the occurrences of a timer.
use native.Mathlib.Nat.{zero-div, lt-div-mul-add, div-mul-le_self, mul-add-div_right}
use owner_operator.Prelude.{
  ℕ, zero, suc, ◌+◌, ◌-◌, ◌*◌, ◌/◌, ◌≤◌, ◌<◌, String, ◌≡◌, refl, ap, ◌∙◌, ◌⊎◌, inl, inr, Bool, true,
  false, not, ◌||◌, Option, some, whole, arith, if_elim, if◌then◌else◌, ltb, leb,
}
use owner_operator.Schedule.{
  CronRuns, NextRun, compute_every, compute_next_run_at, count_every, count_missed_occurrences,
  counted, every, next_every, is_safe, ok, to_iso, err, ScheduleError, invalid_every,
  invalid_anchor,
}

to_iso-ok : (ms : ℕ) (next : Option ℕ) → to_iso ms ≡ ok next → next ≡ some ms
to_iso-ok ms next e = ground arith

guarded :
    (b : Bool) (x : ScheduleError) (r : NextRun) (next : Option ℕ)
    → (if b then err x else r) ≡ ok next
    → (b ≡ false) × (r ≡ ok next)
guarded true x r next e = absurd (ground arith)
guarded false x r next e = (refl, e)

-- A period that is accepted, with what is then given.
compute_every-ok :
    (e a now : ℕ) (next : Option ℕ)
    → compute_every (whole e) (whole a) now ≡ ok next
    → (1000 ≤ e) × (next ≡ some (next_every e a now))
compute_every-ok e a now next h =
    let (long, h₁) = guarded (not (is_safe e) || ltb e 1000) invalid_every _ next h in
    let (safe, h₂) = guarded (not (is_safe a)) invalid_anchor _ next h₁ in
    (ground arith, to_iso-ok (next_every e a now) next h₂)

above-now : (a now e q : ℕ) → a ≤ now → now - a < q * e + e → now < a + (q + 1) * e
above-now a now e q since h = omega (arith)

below-now : (a now e q : ℕ) → a ≤ now → q * e ≤ now - a → a + (q + 1) * e ≤ now + e
below-now a now e q since h = omega (arith)

next_every-bounds :
    (e a now : ℕ)
    → 0 < e
    → (now < next_every e a now) × ((next_every e a now ≡ a) ⊎ (next_every e a now ≤ now + e))
next_every-bounds e a now positive =
    if_elim (λ t. (now < t) × ((t ≡ a) ⊎ (t ≤ now + e))) (ltb now a) _ _
      (λ before. (ground arith, inl refl))
      (λ since. (
        above-now a now e ((now - a) / e) (ground arith) (lt-div-mul-add positive),
        inr (below-now a now e ((now - a) / e) (ground arith) (div-mul-le_self (now - a) e)),
      ))

next_every-aligned : (e a now : ℕ) → (k : ℕ) × (next_every e a now ≡ a + k * e)
next_every-aligned e a now =
    if_elim (λ t. (k : ℕ) × (t ≡ a + k * e)) (ltb now a) _ _ (λ _. (0, omega arith))
      (λ _. ((now - a) / e + 1, refl))

-- The next occurrence of an accepted timer is later than now, comes within one period unless it is
-- the anchor, and lies a whole number of periods after the anchor.
pub compute_next_run_at-every :
    (parse : String → Option ℕ) (runs : CronRuns) (e a now : ℕ) (next : Option ℕ)
    → compute_next_run_at parse runs (every (whole e) (whole a)) now ≡ ok next
    → (t : ℕ) × (next ≡ some t)
      × (now < t)
      × ((t ≡ a) ⊎ (t ≤ now + e))
      × ((k : ℕ) × (t ≡ a + k * e))
unfolding compute_next_run_at
compute_next_run_at-every parse runs e a now next h =
    let (long, same) = compute_every-ok e a now next h in
    let (later, near) = next_every-bounds e a now (omega arith) in
    (next_every e a now, same, later, near, next_every-aligned e a now)

count_every-aligned :
    (e a k now m : ℕ)
    → a + k * e ≤ now
    → 0 < e
    → count_every (whole e) (now - (a + k * e)) ≡ counted m
    → (now - a) / e ≡ k + m
count_every-aligned zero a k now m due positive h = absurd (omega arith)
count_every-aligned (suc e) a k now m due positive h =
    let late = now - (a + k * suc e) in
    let whole_late : now - a ≡ k * suc e + late = omega arith in
    let count : late / suc e ≡ m = ground arith in
    rw whole_late (mul-add-div_right {m = suc e} positive k late ∙ ap (λ q. k + q) count)

count_every-zero :
    (e late m : ℕ)
    → 0 < e
    → late ≡ 0
    → counted 0 ≡ counted m
    → count_every (whole e) late ≡ counted m
count_every-zero zero late m positive now h = absurd (omega arith)
count_every-zero (suc e) late m positive now h = rw (now, zero-div (suc e)) h

-- An occurrence that is due is run once for itself and for those that were missed since: the next
-- one comes one period after the last that was missed.
pub count_missed_occurrences-every :
    (parse : String → Option ℕ) (runs : CronRuns) (e a k now m : ℕ) (next : Option ℕ)
    → a + k * e ≤ now
    → count_missed_occurrences runs (every (whole e) (whole a)) (a + k * e) now ≡ counted m
    → compute_next_run_at parse runs (every (whole e) (whole a)) now ≡ ok next
    → next ≡ some (a + k * e + (m + 1) * e)
unfolding compute_next_run_at count_missed_occurrences
count_missed_occurrences-every parse runs e a k now m next due h₀ h =
    let (long, same) = compute_every-ok e a now next h in
    let steps : (now - a) / e ≡ k + m =
      if_elim (λ x. x ≡ counted m → (now - a) / e ≡ k + m) (leb now (a + k * e)) _ _
        (λ at_once e₁.
          count_every-aligned e a k now m due (omega arith)
            (count_every-zero e _ m (omega arith) (ground arith) e₁))
        (λ _ e₁. count_every-aligned e a k now m due (omega arith) e₁) h₀ in
    same
    ∙ ap some (
        if_elim (λ t. t ≡ a + k * e + (m + 1) * e) (ltb now a) _ _ (λ early. absurd (ground arith))
          (λ _. rw steps (omega arith)))
