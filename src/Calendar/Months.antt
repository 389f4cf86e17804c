-- ===== src/Calendar/Months.antt =====
-- Every day has one date, and a month or a year on is a month or a year of days on.
use mathlib.Core.Path.{subst}
use apiv.Prelude.{
  ℕ, zero, suc, ◌+◌, ◌-◌, ◌*◌, ◌≤◌, ◌<◌, ◌≡◌, refl, ap, arith, inl, inr, ltb, Bool-cases,
}
use native.Mathlib.Decide.{dec_lt}
use apiv.Calendar.{
  days_in_month, first_of, Date, date_from, date_of, add_months, time_add_months, day, day_number,
}

pub days_in_month_bounds : (m : ℕ) → (28 ≤ days_in_month m) × (days_in_month m ≤ 31)
unfolding days_in_month
days_in_month_bounds m = ground arith

-- The day of a date.
abbrev pub number_of : Date → ℕ
number_of d = first_of d.month + d.day_of_month

pub record IsDateOf (n : ℕ) (d : Date) : Type 0 where
  pub number : number_of d ≡ n
  pub valid : d.day_of_month < days_in_month d.month

regroup :
    (m n : ℕ) → days_in_month m ≤ n → first_of (suc m) + (n - days_in_month m) ≡ first_of m + n
unfolding first_of
regroup m n h = omega arith

date_from-IsDateOf : (fuel m n : ℕ) → n ≤ fuel → IsDateOf (first_of m + n) (date_from fuel m n)
unfolding date_from first_of
date_from-IsDateOf zero m n h = record {
  number = refl;
  valid = omega (arith, days_in_month_bounds m);
}
date_from-IsDateOf (suc fuel) m n h = elim (Bool-cases (ltb n (days_in_month m))) [
  | inl q ↦ rw q (record { number = refl; valid = ground (arith, q) })
  | inr q ↦
      let more : days_in_month m ≤ n = ground (arith, q) in
      let positive = days_in_month_bounds m in
      rw q (
        subst (λ k. IsDateOf k (date_from fuel (suc m) (n - days_in_month m))) (regroup m n more)
          (date_from-IsDateOf fuel (suc m) (n - days_in_month m) (omega arith)))
]

-- The date of a day is a date that exists, and its day is that day.
pub date_of-IsDateOf : (n : ℕ) → IsDateOf n (date_of n)
unfolding date_of first_of
date_of-IsDateOf n =
    subst (λ k. IsDateOf k (date_from n 0 n)) (omega arith) (date_from-IsDateOf n 0 n (omega arith))

-- The days of a month are over before a later month begins.
pub first_of-lt : (m k : ℕ) → m < k → first_of m + days_in_month m ≤ first_of k
unfolding first_of
first_of-lt m zero h = absurd (omega arith)
first_of-lt m (suc k) h = elim (dec_lt m k) [
  | yes p ↦ omega (arith, first_of-lt m k p)
  | no p ↦
      let e : m ≡ k = omega arith in
      subst (λ (j : ℕ). first_of m + days_in_month m ≤ first_of j + days_in_month j) e (omega arith)
]

-- Of two dates of one day neither month is the later.
not_later : (n : ℕ) (d e : Date) → IsDateOf n d → IsDateOf n e → e.month ≤ d.month
not_later n d e hd he = elim (dec_lt d.month e.month) [
  | yes p ↦ absurd (omega (arith, first_of-lt d.month e.month p, hd.number, hd.valid, he.number))
  | no p ↦ omega arith
]

-- A day has one date.
pub IsDateOf-unique : (n : ℕ) (d e : Date) → IsDateOf n d → IsDateOf n e → d ≡ e
IsDateOf-unique n d e hd he =
    let same_month : d.month ≡ e.month =
      omega (arith, not_later n d e hd he, not_later n e d he hd) in
    let same_first : first_of d.month ≡ first_of e.month = ap first_of same_month in
    let same_day : d.day_of_month ≡ e.day_of_month =
      omega (arith, same_first, hd.number, he.number) in
    ground (arith, same_month, same_day)

pub date_of-number : (d : Date) → d.day_of_month < days_in_month d.month → date_of (number_of d) ≡ d
date_of-number d h =
    IsDateOf-unique (number_of d) (date_of (number_of d)) d (date_of-IsDateOf (number_of d))
      (record { number = refl; valid = h })

zero_on : (m : ℕ) → m + 0 ≡ m
zero_on m = omega arith

next_first : (m k : ℕ) → first_of (m + suc k) ≡ first_of (m + k) + days_in_month (m + k)
unfolding first_of
next_first m k = let e : m + suc k ≡ suc (m + k) = omega arith in ap first_of e

-- So many months are at least 28 and at most 31 days each.
pub first_of_bounds :
    (m k : ℕ) → (first_of m + 28 * k ≤ first_of (m + k)) × (first_of (m + k) ≤ first_of m + 31 * k)
first_of_bounds m zero = rw (zero_on m) (omega arith)
first_of_bounds m (suc k) =
    omega (arith, first_of_bounds m k, next_first m k, days_in_month_bounds (m + k))

-- A month on, the day is as many days later as the month has, whether or not the next month has the
-- day.
pub add_months-one : (n : ℕ) → add_months 1 n ≡ n + days_in_month (date_of n).month
unfolding add_months
add_months-one n =
    let m = (date_of n).month in
    omega (
      arith,
      next_first m 0,
      (date_of-IsDateOf n).number,
      ap first_of (zero_on m),
      ap days_in_month (zero_on m),
    )

pub add_months_bounds : (k n : ℕ) → (n + 28 * k ≤ add_months k n) × (add_months k n ≤ n + 31 * k)
unfolding add_months
add_months_bounds k n =
    omega (arith, first_of_bounds (date_of n).month k, (date_of-IsDateOf n).number)

-- The time of day is kept.
pub time_add_months_bounds :
    (k time : ℕ)
    → (time + 28 * k * day ≤ time_add_months k time)
      × (time_add_months k time ≤ time + 31 * k * day)
unfolding time_add_months
time_add_months_bounds k time = omega (arith, add_months_bounds k (day_number time))
