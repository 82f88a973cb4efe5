-- ===== src/Calendar/Years.antt =====
-- The date that `convert_unix_time` computes is the one of the Gregorian calendar.
use blesk_os_fork.Base.{
  List, [], ◌∷◌, get_or, length, ◌≤◌, ◌*◌, ◌-◌, ◌/◌, ◌%◌, suc, ap, ◌^◌, inr, inl, ℕ, zero, ◌+◌, ◌<◌,
  ◌≡◌, refl, ltb, if◌then◌else◌, arith, some, Bool-cases,
}
use blesk_os_fork.Calendar.{
  time_of, MonthState, month_days, find_month, date_of, convert_unix_time, Time, is_leap, YearState,
  next_year, find_year,
}

-- The days of the Gregorian calendar before the first day of a year.
unfoldable pub days_before_year : ℕ → ℕ
days_before_year year = let y = year - 1 in 365 * y + y / 4 + y / 400 - y / 100

days_before_next_year :
    (y : ℕ)
    → 0 < y
    → days_before_year (y + 1) ≡ days_before_year y + (if is_leap y then 366 else 365)
unfolding days_before_year
days_before_next_year y h = ground arith

-- The loop ends within a round for each 365 days, at the year that holds the day.
record IsYear (day year : ℕ) (s : YearState) : Type 0 where
  exact : days_before_year s.math_year + s.math_day ≡ days_before_year year + day
  within : s.math_day < (if is_leap s.math_year then 366 else 365)

find_year-IsYear :
    (fuel : ℕ) (s : YearState)
    → 0 < s.math_year
    → s.math_day < 365 * fuel
    → (r : YearState) × (find_year fuel s ≡ some r) × IsYear s.math_day s.math_year r
unfolding find_year
find_year-IsYear zero s h lt = absurd (omega arith)
find_year-IsYear (suc fuel) s h lt =
    elim (Bool-cases (ltb s.math_day (if is_leap s.math_year then 366 else 365))) [
      | inl e ↦ (s, rw e refl, record { exact = refl; within = ground (arith, e) })
      | inr e ↦
          let n = next_year (if is_leap s.math_year then 366 else 365) s in
          let r = find_year-IsYear fuel n (omega arith) (ground (arith, e, lt)) in
          (
            r.0,
            rw e r.1,
            record {
              exact = ground (arith, r.2.exact, days_before_next_year s.math_year h, e);
              within = r.2.within;
            },
          )
    ]

-- The days of the months before the `n`-th one from now.
unfoldable pub days_of : ℕ → List ℕ → ℕ
days_of zero ds = 0
days_of (suc n) [] = 0
days_of (suc n) (d ∷ ds) = d + days_of n ds

-- The month that holds the day, and the day in it, counted from 1.
record IsMonth (ds : List ℕ) (s r : MonthState) : Type 0 where
  months : ℕ
  month : r.math_month ≡ s.math_month + months + 1
  few : months < length ds
  exact : days_of months ds + r.math_day ≡ s.math_day + 1
  first : 0 < r.math_day
  within : r.math_day ≤ get_or ds months 0

find_month-IsMonth :
    (ds : List ℕ) (s : MonthState)
    → s.math_day < days_of (length ds) ds
    → IsMonth ds s (find_month ds s)
unfolding find_month days_of
find_month-IsMonth [] s h = absurd (omega arith)
find_month-IsMonth (d ∷ ds) s h = elim (Bool-cases (ltb s.math_day d)) [
  | inl e ↦ rw e (record {
    months = 0;
    month = omega arith;
    few = omega arith;
    exact = omega arith;
    first = omega arith;
    within = ground (arith, e);
  })
  | inr e ↦
      let k =
        find_month-IsMonth ds (record { math_month = s.math_month + 1; math_day = s.math_day - d })
          (ground (arith, e, h)) in
      rw e (record {
        months = suc k.months;
        month = omega (arith, k.month);
        few = omega (arith, k.few);
        exact = ground (arith, e, k.exact);
        first = k.first;
        within = k.within;
      })
]

-- The calendar date and the time of the day of a number of seconds since 1970.
pub record IsDate (unix_time : ℕ) (t : Time) : Type 0 where
  pub month_range : (0 < t.math_month) × (t.math_month ≤ 12)
  pub day_range :
      (0 < t.math_day) × (t.math_day ≤ get_or (month_days t.math_year) (t.math_month - 1) 0)
  pub day_count :
      days_before_year t.math_year
        + days_of (t.math_month - 1) (month_days t.math_year)
        + t.math_day
      ≡ days_before_year 1970 + unix_time / 86400 + 1
  pub clock_range : (t.math_hour < 24) × (t.math_minute < 60) × (t.math_second < 60)
  pub clock : (t.math_hour * 60 + t.math_minute) * 60 + t.math_second ≡ unix_time % 86400

year_days :
    (year day : ℕ) → day < (if is_leap year then 366 else 365) → day < days_of 12 (month_days year)
unfolding days_of
year_days year day h = ground (arith, h)

date_of-IsDate : (u : ℕ) (s : YearState) → IsYear (u / 86400) 1970 s → IsDate u (date_of u s)
date_of-IsDate u s y =
    let k =
      find_month-IsMonth (month_days s.math_year) (record { math_month = 0; math_day = s.math_day })
        (year_days s.math_year s.math_day y.within) in
    let n : (date_of u s).math_month - 1 ≡ k.months = omega (arith, k.month) in
    record {
      month_range = omega (arith, k.month, k.few);
      day_range = (k.first, rw n k.within);
      day_count = rw n (omega (arith, k.exact, y.exact));
      clock_range = omega arith;
      clock = omega arith;
    }

-- For every time of 32 bits the loop over the years ends within 137 rounds, and the date is the one
-- of the Gregorian calendar that lies as many days after the first of January 1970.
pub convert_unix_time-IsDate :
    (unix_time : ℕ)
    → unix_time < 2 ^ 32
    → (t : Time) × (convert_unix_time 137 unix_time ≡ some t) × IsDate unix_time t
unfolding convert_unix_time
convert_unix_time-IsDate u small =
    let s : YearState = record { unix_time = u; math_day = u / 86400; math_year = 1970 } in
    let r = find_year-IsYear 137 s (omega arith) (omega arith) in
    (date_of u r.0, ap (time_of u) r.1, date_of-IsDate u r.0 r.2)
