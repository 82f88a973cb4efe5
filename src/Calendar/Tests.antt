-- ===== src/Calendar/Tests.antt =====
-- A date computed by the model, and the theorem there.
use blesk_os_fork.Base.{◌≡◌, refl, some, arith}
use blesk_os_fork.Calendar.{Time, convert_unix_time, find_year, find_month, skip_leap_seconds}
use blesk_os_fork.Calendar.Years.{IsDate, convert_unix_time-IsDate}

-- 29 February 2024, 23:59:59
leap_day :
    convert_unix_time 137 1709251199
    ≡ some (record {
      math_year = 2024;
      math_month = 2;
      math_day = 29;
      math_hour = 23;
      math_minute = 59;
      math_second = 59;
    })
unfolding convert_unix_time find_year find_month skip_leap_seconds
leap_day = refl

convert_unix_time-IsDate_example :
    (t : Time) × (convert_unix_time 137 1709251199 ≡ some t) × IsDate 1709251199 t
convert_unix_time-IsDate_example = convert_unix_time-IsDate 1709251199 (omega arith)
