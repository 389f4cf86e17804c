-- ===== src/Calendar.antt =====
-- The dates of JavaScript as the code uses them, in UTC, from 1970 on: the local time zone of the server
-- is taken to be UTC. A month is numbered from January 1970, and a day of a month from 0.
pub mod Months
use apiv.Prelude.{
  ℕ, zero, suc, ◌+◌, ◌-◌, ◌*◌, ◌/◌, ◌%◌, Bool, true, false, not, nat_eq, ltb, if◌then◌else◌, ◌||◌,
}

abbrev pub day : ℕ
day = 86400000

unfoldable pub is_leap : ℕ → Bool
is_leap y =
    if nat_eq (y % 4) 0 then (if nat_eq (y % 100) 0 then nat_eq (y % 400) 0 else true) else false

unfoldable pub days_in_month : ℕ → ℕ
unfolding is_leap
days_in_month m =
    if nat_eq (m % 12) 1
    then (if is_leap (1970 + m / 12) then 29 else 28)
    else if nat_eq (m % 12) 3 || nat_eq (m % 12) 5 || nat_eq (m % 12) 8 || nat_eq (m % 12) 10
    then 30
    else 31

-- The days before a month.
unfoldable pub first_of : ℕ → ℕ
unfolding days_in_month
first_of zero = 0
first_of (suc m) = first_of m + days_in_month m

pub record Date : Type 0 where
  pub month : ℕ
  pub day_of_month : ℕ

-- The date that lies `n` days after the first of month `m`, with enough fuel.
unfoldable pub date_from : ℕ → ℕ → ℕ → Date
unfolding days_in_month
date_from zero m n = record { month = m; day_of_month = n }
date_from (suc fuel) m n =
    let later = date_from fuel (suc m) (n - days_in_month m) in
    if ltb n (days_in_month m) then record { month = m; day_of_month = n } else later

-- The date of a day counted from 1 January 1970.
unfoldable pub date_of : ℕ → Date
unfolding date_from
date_of n = date_from n 0 n

abbrev pub day_number : ℕ → ℕ
day_number time = time / day

abbrev pub time_of_day : ℕ → ℕ
time_of_day time = time % day

-- `getDay`: Sunday is 0. The first of January 1970 was a Thursday.
unfoldable pub weekday : ℕ → ℕ
weekday n = (n + 4) % 7

-- `setMonth(getMonth() + k)`: a day that the new month does not have runs on into the next.
unfoldable pub add_months : ℕ → ℕ → ℕ
add_months k n = let d = date_of n in first_of (d.month + k) + d.day_of_month

-- The time of day stays.
unfoldable pub time_add_months : ℕ → ℕ → ℕ
unfolding add_months
time_add_months k time = add_months k (day_number time) * day + time_of_day time
