-- ===== src/Calendar.antt =====
-- source/libraries/basic/math.c: `convert_unix_time`.
use blesk_os_fork.Base.{
  ℕ, zero, suc, ◌+◌, ◌-◌, ◌*◌, ◌/◌, ◌%◌, Bool, true, false, ◌&&◌, ◌||◌, not, ltb, ◌==◌,
  if◌then◌else◌, List, [], ◌∷◌, Option, none, some, dec32,
}
pub mod Years
mod Tests

-- The globals that the function writes.
pub record Time : Type 0 where
  pub math_year : ℕ
  pub math_month : ℕ
  pub math_day : ℕ
  pub math_hour : ℕ
  pub math_minute : ℕ
  pub math_second : ℕ

abbrev pub is_leap : ℕ → Bool
is_leap year = year % 400 == 0 || (year % 4 == 0 && not (year % 100 == 0))

abbrev pub years_with_leap_second : List ℕ
years_with_leap_second =
    72 ∷ 73 ∷ 74 ∷ 75 ∷ 76 ∷ 77 ∷ 78 ∷ 79 ∷ 81 ∷ 82 ∷ 83 ∷ 85 ∷ 87 ∷ 89 ∷ 90 ∷ 92 ∷ 93 ∷ 94 ∷ 95
    ∷ 97 ∷ 98 ∷ 5 ∷ 8 ∷ 12 ∷ 15 ∷ 16 ∷ []

is_in_list : ℕ → List ℕ → Bool
is_in_list x [] = false
is_in_list x (y ∷ ys) = y == x || is_in_list x ys

-- `unix_time` less the leap seconds of a year that is reached. Nothing reads it afterwards.
unfoldable pub skip_leap_seconds : ℕ → ℕ → ℕ
unfolding is_in_list
skip_leap_seconds year unix_time =
    let first = if year == 1972 then dec32 unix_time else unix_time in
    if is_in_list (year % 100) years_with_leap_second then dec32 first else first

pub record YearState : Type 0 where
  pub unix_time : ℕ
  pub math_day : ℕ
  pub math_year : ℕ

abbrev pub next_year : ℕ → YearState → YearState
next_year days s = record {
  unix_time = skip_leap_seconds (s.math_year + 1) s.unix_time;
  math_day = s.math_day - days;
  math_year = s.math_year + 1;
}

-- The loop that finds the year; `none` means that the fuel ran out.
unfoldable pub find_year : ℕ → YearState → Option YearState
find_year zero s = none
find_year (suc fuel) s =
    let days = if is_leap s.math_year then 366 else 365 in
    let rest = find_year fuel (next_year days s) in if ltb s.math_day days then some s else rest

abbrev pub month_days : ℕ → List ℕ
month_days year =
    31 ∷ (if is_leap year then 29 else 28) ∷ 31 ∷ 30 ∷ 31 ∷ 30 ∷ 31 ∷ 31 ∷ 30 ∷ 31 ∷ 30 ∷ 31 ∷ []

pub record MonthState : Type 0 where
  pub math_month : ℕ
  pub math_day : ℕ

-- The loop over the months whose days are left.
unfoldable pub find_month : List ℕ → MonthState → MonthState
find_month [] s = s
find_month (days ∷ rest) s =
    let later =
      find_month rest (record { math_month = s.math_month + 1; math_day = s.math_day - days }) in
    if ltb s.math_day days
    then record { math_month = s.math_month + 1; math_day = s.math_day + 1 }
    else later

abbrev pub date_of : ℕ → YearState → Time
date_of unix_time s =
    let m =
      find_month (month_days s.math_year) (record { math_month = 0; math_day = s.math_day }) in
    record {
      math_year = s.math_year;
      math_month = m.math_month;
      math_day = m.math_day;
      math_hour = unix_time % 86400 / 3600;
      math_minute = unix_time % 3600 / 60;
      math_second = unix_time % 60;
    }

abbrev pub time_of : ℕ → Option YearState → Option Time
time_of unix_time none = none
time_of unix_time (some s) = some (date_of unix_time s)

unfoldable pub convert_unix_time : ℕ → ℕ → Option Time
convert_unix_time fuel unix_time = time_of unix_time (
    find_year fuel
      (record { unix_time = unix_time; math_day = unix_time / 86400; math_year = 1970 }))
