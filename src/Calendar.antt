-- ===== src/Calendar.antt =====
-- common/date.util.ts: ISO dates, the labels made of them, and the end of a lease term. A date
-- `YYYY-MM-DD` is its three numbers; Date.UTC is the proleptic Gregorian calendar.
-- That fits the code from the year 100, below which Date.UTC adds 1900, to the year 9999, above which
-- an ISO text has more digits than are kept.
pub mod Terms
pub mod Days
use mentos_backend.Common.{
  ℕ, zero, suc, ◌+◌, ◌-◌, ◌*◌, ◌/◌, ◌%◌, ◌≡◌, refl, Bool, ◌&&◌, ◌||◌, not, ◌++◌, ltb, leb, ◌==◌,
  if◌then◌else◌, Text, text,
}
use mentos_backend.Codes.Decimal.{show, pad_start}

pub record Date : Type 0 where
  pub year : ℕ
  pub month : ℕ
  pub day : ℕ

-- `a < b` on ISO strings with years of four digits, and SQL's `<` on dates
abbrev pub before : Date → Date → Bool
before a b =
    ltb a.year b.year
    || (a.year == b.year && (ltb a.month b.month || (a.month == b.month && ltb a.day b.day)))

-- MONTHS[month - 1]
unfoldable pub month_name : ℕ → Text
month_name (suc zero) = text "Jan"
month_name (suc (suc zero)) = text "Feb"
month_name (suc (suc (suc zero))) = text "Mar"
month_name (suc (suc (suc (suc zero)))) = text "Apr"
month_name (suc (suc (suc (suc (suc zero))))) = text "May"
month_name (suc (suc (suc (suc (suc (suc zero)))))) = text "Jun"
month_name (suc (suc (suc (suc (suc (suc (suc zero))))))) = text "Jul"
month_name (suc (suc (suc (suc (suc (suc (suc (suc zero)))))))) = text "Aug"
month_name (suc (suc (suc (suc (suc (suc (suc (suc (suc zero))))))))) = text "Sep"
month_name (suc (suc (suc (suc (suc (suc (suc (suc (suc (suc zero)))))))))) = text "Oct"
month_name (suc (suc (suc (suc (suc (suc (suc (suc (suc (suc (suc zero))))))))))) = text "Nov"
month_name (suc (suc (suc (suc (suc (suc (suc (suc (suc (suc (suc (suc zero)))))))))))) = text "Dec"
month_name _ = text "undefined"

unfoldable pub month_label : Date → Text
unfolding month_name show
month_label d = month_name d.month ++ text " " ++ show d.year

unfoldable pub day_label : Date → Text
unfolding month_name show pad_start
day_label d =
    pad_start 2 (show d.day)
    ++ text " "
    ++ month_name d.month
    ++ text " "
    ++ pad_start 4 (show d.year)

unfoldable pub is_leap : ℕ → Bool
is_leap y = (y % 4 == 0 && not (y % 100 == 0)) || y % 400 == 0

unfoldable pub days_in_month : ℕ → ℕ → ℕ
unfolding is_leap
days_in_month y m =
    if m == 2
    then (if is_leap y then 29 else 28)
    else if m == 4 || m == 6 || m == 9 || m == 11
    then 30
    else 31

-- date.setUTCMonth(date.getUTCMonth() + months): the year carries, and a day past the end of the
-- new month runs over into the month after it
unfoldable pub set_month : Date → ℕ → Date
unfolding days_in_month
set_month d months =
    let index : ℕ = d.month - 1 + months in
    let y : ℕ = d.year + index / 12 in
    let m : ℕ = index % 12 + 1 in
    if leb d.day (days_in_month y m)
    then record { year = y; month = m; day = d.day }
    else record { year = y + m / 12; month = m % 12 + 1; day = d.day - days_in_month y m }

-- date.setUTCDate(date.getUTCDate() - 1)
unfoldable pub day_before : Date → Date
unfolding days_in_month
day_before d =
    if ltb 1 d.day
    then record d { day = d.day - 1 }
    else if ltb 1 d.month
    then record { year = d.year; month = d.month - 1; day = days_in_month d.year (d.month - 1) }
    else record { year = d.year - 1; month = 12; day = 31 }

unfoldable pub add_months_minus_day : Date → ℕ → Date
unfolding set_month day_before
add_months_minus_day start months = day_before (set_month start months)

-- date.setDate(date.getDate() + n), for an `n` that is shorter than a month
unfoldable pub plus_days : Date → ℕ → Date
unfolding days_in_month
plus_days d n =
    if leb (d.day + n) (days_in_month d.year d.month)
    then record d { day = d.day + n }
    else record {
      year = d.year + d.month / 12;
      month = d.month % 12 + 1;
      day = d.day + n - days_in_month d.year d.month;
    }

one_year :
    add_months_minus_day (record { year = 2026; month = 1; day = 1 }) 12
    ≡ record { year = 2026; month = 12; day = 31 }
unfolding add_months_minus_day
one_year = refl

-- 31 January and a month is 3 March, and the day before it 2 March.
runs_over :
    add_months_minus_day (record { year = 2026; month = 1; day = 31 }) 1
    ≡ record { year = 2026; month = 3; day = 2 }
unfolding add_months_minus_day
runs_over = refl

july : month_label (record { year = 2026; month = 7; day = 1 }) ≡ text "Jul 2026"
unfolding month_label
july = refl

-- the days of the months before the given one
days_before_month : ℕ → ℕ → ℕ
unfolding days_in_month
days_before_month y zero = 0
days_before_month y (suc zero) = 0
days_before_month y (suc (suc m)) = days_before_month y (suc m) + days_in_month y (suc m)

-- the number of a day, in the proleptic Gregorian calendar
unfoldable pub day_number : Date → ℕ
unfolding days_before_month
day_number d =
    let p : ℕ = d.year - 1 in
    365 * p + p / 4 + p / 400 - p / 100 + days_before_month d.year d.month + d.day
