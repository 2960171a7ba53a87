-- ===== src/Tests/Terms.antt =====
-- Dates.
use mentos_backend.Common.{◌+◌, ◌-◌, ◌*◌, ◌<◌, ◌≡◌, arith}
use mentos_backend.Calendar.{Date, add_months_minus_day, days_in_month, day_number}
use mentos_backend.Calendar.Terms.{IsDate}
use mentos_backend.Calendar.Days.{first_of, add_months_minus_day-day_number}

abbrev leap_day : Date
leap_day = record { year = 2028; month = 2; day = 29 }

leap_day-IsDate : IsDate leap_day
unfolding days_in_month
leap_day-IsDate = ground arith

one_year_on : (add_months_minus_day leap_day 12).year < 10_000
unfolding add_months_minus_day
one_year_on = omega arith

add_months_minus_day-day_number_example :
    IsDate (add_months_minus_day leap_day 12)
    × (day_number (add_months_minus_day leap_day 12) + 2
        ≡ day_number (first_of (2028 * 12 + (2 - 1) + 12)) + 29)
add_months_minus_day-day_number_example =
    add_months_minus_day-day_number leap_day 12 leap_day-IsDate (omega arith) one_year_on
