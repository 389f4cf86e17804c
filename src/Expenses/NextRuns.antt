-- ===== src/Expenses/NextRuns.antt =====
-- When a template runs again: src/modules/expenses/expenses.service.ts, calculateNextRun.
use apiv.Prelude.{
  ◌⊎◌, ℕ, suc, ◌+◌, ◌-◌, ◌*◌, ◌≤◌, ◌<◌, Option, some, ltb, if◌then◌else◌, ◌≡◌, refl, sym, ap, ◌∙◌,
  arith, inl, inr, Bool-cases,
}
use apiv.Calendar.{day, Date, date_of, day_number, weekday, first_of, days_in_month, add_months}
use apiv.Calendar.Months.{
  IsDateOf, date_of-IsDateOf, date_of-number, number_of, days_in_month_bounds, add_months-one,
  add_months_bounds, first_of-lt,
}
use apiv.Expenses.Recurring.{
  RecurrenceType, daily, weekly, monthly, no_recurrence, or_default, days_until, min, monthly_run,
  calculate_next_run,
}

whole_day : (k : ℕ) → day_number (k * day) ≡ k
whole_day k = omega arith

-- The month that a month on is in, from a date: the next one, or if it does not have the day the one
-- after.
abbrev pub month_after : Date → ℕ
month_after d =
    if ltb d.day_of_month (days_in_month (suc d.month)) then suc d.month else suc (suc d.month)

abbrev rest_after : Date → ℕ
rest_after d =
    if ltb d.day_of_month (days_in_month (suc d.month))
    then d.day_of_month
    else d.day_of_month - days_in_month (suc d.month)

abbrev month_on : Date → Date
month_on d = record { month = month_after d; day_of_month = rest_after d }

month_on-number :
    (n : ℕ) (d : Date) → IsDateOf n d → d ≡ date_of n → number_of (month_on d) ≡ add_months 1 n
unfolding first_of
month_on-number n d h e =
    let one = add_months-one n in
    let same : days_in_month d.month ≡ days_in_month (date_of n).month =
      ap (λ (x : Date). days_in_month x.month) e in
    elim (Bool-cases (ltb d.day_of_month (days_in_month (suc d.month)))) [
      | inl q ↦ rw q (omega (arith, one, same, h.number))
      | inr q ↦
          let le : days_in_month (suc d.month) ≤ d.day_of_month = ground (arith, q) in
          rw q (omega (arith, one, same, h.number, le))
    ]

month_on-valid :
    (n : ℕ) (d : Date) → IsDateOf n d → (month_on d).day_of_month < days_in_month (month_on d).month
month_on-valid n d h = elim (Bool-cases (ltb d.day_of_month (days_in_month (suc d.month)))) [
  | inl q ↦ rw q (ground (arith, q))
  | inr q ↦ rw q (
      omega (
        arith,
        h.valid,
        (days_in_month_bounds d.month).1,
        (days_in_month_bounds (suc d.month)).0,
        (days_in_month_bounds (suc (suc d.month))).0,
      ))
]

date_of-add_months : (n : ℕ) → date_of (add_months 1 n) ≡ month_on (date_of n)
date_of-add_months n =
    let d = date_of n in
    ap date_of (sym (month_on-number n d (date_of-IsDateOf n) refl))
    ∙ date_of-number (month_on d) (month_on-valid n d (date_of-IsDateOf n))

-- A monthly template for a day from 1 on runs next at the start of a day that has a date: its day of
-- the month, or the month's last one, in the next month if that has today's day of the month, and if it
-- does not in the month after.
pub calculate_next_run-monthly :
    (now target : ℕ)
    → 1 ≤ target
    → let next = calculate_next_run now monthly (some target) in
      let m = month_after (date_of (day_number now)) in
      (next ≡ day_number next * day)
      × (date_of (day_number next)
          ≡ record { month = m; day_of_month = min target (days_in_month m) - 1 })
unfolding calculate_next_run monthly_run
calculate_next_run-monthly now target h =
    let d = date_of (add_months 1 (day_number now)) in
    let m = month_after (date_of (day_number now)) in
    let e : d.month ≡ m = ap (λ (x : Date). x.month) (date_of-add_months (day_number now)) in
    let target_date : Date = record {
      month = m;
      day_of_month = min target (days_in_month m) - 1;
    } in
    let positive = days_in_month_bounds m in
    let run : monthly_run (day_number now) target ≡ number_of target_date =
      rw (e, monthly_run) (ground arith) in
    let number : day_number (calculate_next_run now monthly (some target)) ≡ number_of target_date =
      whole_day (monthly_run (day_number now) target) ∙ run in
    (
      ap (λ k. k * day) (sym (whole_day (monthly_run (day_number now) target))),
      ap date_of number ∙ date_of-number target_date (ground (arith, positive)),
    )

days_until_lem :
    (n target : ℕ)
    → target ≤ 6
    → (weekday (n + days_until target (weekday n)) ≡ target)
      × (1 ≤ days_until target (weekday n))
      × (days_until target (weekday n) ≤ 7)
unfolding weekday
days_until_lem n target h = (ground arith, ground arith, ground arith)

days_until_bounds :
    (target current : ℕ) → (1 ≤ days_until target current) × (days_until target current ≤ 7)
days_until_bounds target current = (ground arith, ground arith)

-- A weekly template for a day of the week (0 is Sunday, which null stands for) runs next at the start
-- of such a day, after one to seven days.
calculate_next_run-weekly :
    (now target : ℕ)
    → target ≤ 6
    → let next = calculate_next_run now weekly (some target) in
      (next ≡ day_number next * day)
      × (weekday (day_number next) ≡ target)
      × (day_number now < day_number next)
      × (day_number next ≤ day_number now + 7)
unfolding calculate_next_run
calculate_next_run-weekly now target h =
    let n = day_number now in
    let k = n + days_until target (weekday n) in
    let u = days_until_lem n target h in
    (
      ap (λ j. j * day) (sym (whole_day k)),
      ap weekday (whole_day k) ∙ u.0,
      omega (arith, whole_day k, u.1),
      omega (arith, whole_day k, u.2),
    )

monthly_run-later :
    (n target : ℕ) → 1 ≤ target → (n < monthly_run n target) × (monthly_run n target ≤ n + 61)
unfolding monthly_run
monthly_run-later n target h =
    let now_date = date_of-IsDateOf n in
    let then_date = date_of-IsDateOf (add_months 1 n) in
    let m = (date_of (add_months 1 n)).month in
    let e = date_of-add_months n in
    let later : (date_of n).month < m = ground (arith, ap (λ (x : Date). x.month) e) in
    let start = first_of-lt (date_of n).month m later in
    let positive = days_in_month_bounds m in
    let bounds = add_months_bounds 1 n in
    let low : 1 ≤ min target (days_in_month m) = ground (arith, positive, h) in
    let high : min target (days_in_month m) ≤ 31 = ground (arith, positive, h) in
    (
      omega (arith, start, now_date.number, now_date.valid, low),
      omega (arith, high, then_date.number, bounds.1),
    )

-- Whatever the recurrence, where the day of a monthly one is not 0, the next run is later than now, and
-- at most 61 days later.
pub calculate_next_run-later :
    (now : ℕ) (type : RecurrenceType) (d : Option ℕ)
    → 1 ≤ or_default 1 d ⊎ (type ≡ weekly)
    → (now < calculate_next_run now type d) × (calculate_next_run now type d ≤ now + 61 * day)
unfolding calculate_next_run
calculate_next_run-later now daily d h = (omega arith, omega arith)
calculate_next_run-later now weekly d h =
    let n = day_number now in
    let u = days_until_bounds (or_default 0 d) (weekday n) in (omega (arith, u), omega (arith, u))
calculate_next_run-later now monthly d (inl h) =
    let r = monthly_run-later (day_number now) (or_default 1 d) h in
    (omega (arith, r), omega (arith, r))
calculate_next_run-later now monthly d (inr e) = absurd (cc e)
calculate_next_run-later now no_recurrence d h = (omega arith, omega arith)
