-- ===== src/Calendar/Days.antt =====
-- The end of a lease term, by its place among the days.
use mathlib.Core.Path.{subst}
use native.Mathlib.Numerals.{add-one}
use mentos_backend.Common.{
  ℕ, ◌+◌, ◌-◌, ◌*◌, ◌/◌, ◌%◌, ◌≡◌, sym, ap, ◌∙◌, ◌≤◌, ◌<◌, zero, suc, if◌then◌else◌, ltb, leb, inl,
  inr, Bool-cases, arith,
}
use mentos_backend.Calendar.{
  Date, is_leap, days_in_month, set_month, day_before, add_months_minus_day, day_number,
  days_before_month,
}
use mentos_backend.Calendar.Terms.{
  IsDate, days_bound, days_of_december, set_month-IsDate, day_before-IsDate,
}

-- days_before_month at the start of the next month
next_month :
    (y m : ℕ) → 0 < m → days_before_month y (m + 1) ≡ days_before_month y m + days_in_month y m
unfolding days_before_month
next_month y zero h = absurd (omega arith)
next_month y (suc m) h = ap (days_before_month y) (add-one (suc m))

leap_days : ℕ → ℕ
leap_days y = if is_leap y then 1 else 0

-- the days of the years before the given one
next_year :
    (p : ℕ)
    → (p + 1) / 4 + (p + 1) / 400 - (p + 1) / 100 ≡ p / 4 + p / 400 - p / 100 + leap_days (p + 1)
unfolding leap_days is_leap
next_year p = ground arith

before_december : (y : ℕ) → days_before_month y 12 ≡ 334 + leap_days y
unfolding days_before_month leap_days days_in_month
before_december y = ground arith

december :
    (y : ℕ)
    → 0 < y
    → day_number (record { year = y + 12 / 12; month = 12 % 12 + 1; day = 1 })
      ≡ day_number (record { year = y; month = 12; day = 1 }) + 31
unfolding day_number days_before_month
december y h =
    let e : y - 1 + 1 ≡ y = omega arith in
    let years : y / 4 + y / 400 - y / 100
        ≡ (y - 1) / 4 + (y - 1) / 400 - (y - 1) / 100 + leap_days y =
      subst
        (λ k. k / 4 + k / 400 - k / 100 ≡ (y - 1) / 4 + (y - 1) / 400 - (y - 1) / 100 + leap_days k)
        e (next_year (y - 1)) in
    let days = before_december y in omega (arith, years, days)

-- the first day of a month, the months counted from the year 0
abbrev pub first_of : ℕ → Date
first_of index = record { year = index / 12; month = index % 12 + 1; day = 1 }

-- the day after the last of a month is the first of the next
first_of-suc :
    (y m : ℕ)
    → 0 < y
    → 0 < m
    → m ≤ 12
    → day_number (record { year = y + m / 12; month = m % 12 + 1; day = 1 })
      ≡ day_number (record { year = y; month = m; day = 1 }) + days_in_month y m
unfolding day_number
first_of-suc y m some_year positive bound = elim (Bool-cases (ltb m 12)) [
  | inl inner ↦
      let year : y + m / 12 ≡ y = ground arith in
      let month : m % 12 + 1 ≡ m + 1 = ground arith in
      rw (year, month) (omega (arith, next_month y m positive))
  | inr last ↦
      let e : m ≡ 12 = ground arith in
      subst
        (λ k.
          day_number (record { year = y + k / 12; month = k % 12 + 1; day = 1 })
          ≡ day_number (record { year = y; month = k; day = 1 }) + days_in_month y k)
        (sym e)
        (december y some_year
          ∙ ap (λ n. day_number (record { year = y; month = 12; day = 1 }) + n)
              (sym (days_of_december y)))
]

-- the number of a day is that of the first of its month, and the days since
day_number-first :
    (y m d : ℕ)
    → 0 < d
    → day_number (record { year = y; month = m; day = d }) + 1
      ≡ day_number (record { year = y; month = m; day = 1 }) + d
unfolding day_number
day_number-first y m d h = omega arith

day_number-set_month :
    (d : Date) (months : ℕ)
    → IsDate d
    → 0 < d.year
    → day_number (set_month d months) + 1
      ≡ day_number (first_of (d.year * 12 + (d.month - 1) + months)) + d.day
unfolding set_month
day_number-set_month d months h some_year =
    let index : ℕ = d.month - 1 + months in
    let y : ℕ = d.year + index / 12 in
    let m : ℕ = index % 12 + 1 in
    let year : (d.year * 12 + (d.month - 1) + months) / 12 ≡ y = omega arith in
    let month : (d.year * 12 + (d.month - 1) + months) % 12 + 1 ≡ m = omega arith in
    let first_day : day_number (first_of (d.year * 12 + (d.month - 1) + months))
        ≡ day_number (record { year = y; month = m; day = 1 }) =
      ap
        (λ a.
          day_number
            (record { year = a; month = (d.year * 12 + (d.month - 1) + months) % 12 + 1; day = 1 }))
        year
      ∙ ap (λ b. day_number (record { year = y; month = b; day = 1 })) month in
    elim (Bool-cases (leb d.day (days_in_month y m))) [
      | inl fits ↦
          let e : set_month d months ≡ record { year = y; month = m; day = d.day } = ground arith in
          ap (λ a. day_number a + 1) e
          ∙ day_number-first y m d.day h.2
          ∙ ap (λ n. n + d.day) (sym first_day)
      | inr over ↦
          let e : set_month d months
              ≡ record { year = y + m / 12; month = m % 12 + 1; day = d.day - days_in_month y m } =
            ground arith in
          let past : 0 < d.day - days_in_month y m = ground arith in
          ap (λ a. day_number a + 1) e
          ∙ day_number-first (y + m / 12) (m % 12 + 1) (d.day - days_in_month y m) past
          ∙ ap (λ n. n + (d.day - days_in_month y m))
              (first_of-suc y m (omega arith) (omega arith) (omega arith))
          ∙ omega (arith, first_day)
    ]

-- the last day of a month comes before the first of the next
before_first :
    (y m : ℕ)
    → 0 < y
    → 0 < m
    → m ≤ 12
    → day_number (record { year = y; month = m; day = days_in_month y m }) + 1
      ≡ day_number (record { year = y + m / 12; month = m % 12 + 1; day = 1 })
before_first y m some_year positive bound =
    day_number-first y m (days_in_month y m) (omega (arith, days_bound y m))
    ∙ sym (first_of-suc y m some_year positive bound)

day_number-earlier :
    (d : Date) → 1 < d.day → day_number (record d { day = d.day - 1 }) + 1 ≡ day_number d
unfolding day_number
day_number-earlier d h = omega arith

-- a date by its parts
date_of : ℕ → ℕ → ℕ → Date
date_of y m d = record { year = y; month = m; day = d }

day_number-day_before :
    (d : Date) → IsDate d → 1 < d.year → day_number (day_before d) + 1 ≡ day_number d
unfolding day_before date_of
day_number-day_before d h some_year = elim (Bool-cases (ltb 1 d.day)) [
  | inl later ↦
      let e : day_before d ≡ record d { day = d.day - 1 } = ground arith in
      ap (λ a. day_number a + 1) e ∙ day_number-earlier d (ground arith)
  | inr first_day ↦
      let one : 1 ≡ d.day = ground arith in
      elim (Bool-cases (ltb 1 d.month)) [
        | inl inner ↦
            let m : ℕ = d.month - 1 in
            let e : day_before d ≡ date_of d.year m (days_in_month d.year m) = ground arith in
            let year : d.year + m / 12 ≡ d.year = ground arith in
            let month : m % 12 + 1 ≡ d.month = ground arith in
            ap (λ a. day_number a + 1) e
            ∙ before_first d.year m (omega arith) (ground arith) (omega arith)
            ∙ (λ i. day_number (date_of (year i) (month i) (one i)))
        | inr january ↦
            let y : ℕ = d.year - 1 in
            let e : day_before d ≡ date_of y 12 31 = ground arith in
            let year : y + 12 / 12 ≡ d.year = omega arith in
            let month : 12 % 12 + 1 ≡ d.month = ground arith in
            ap (λ a. day_number a + 1) e
            ∙ ap (λ n. day_number (date_of y 12 n) + 1) (sym (days_of_december y))
            ∙ before_first y 12 (omega arith) (omega arith) (omega arith)
            ∙ (λ i. day_number (date_of (year i) (month i) (one i)))
      ]
]

set_month_year : (d : Date) (months : ℕ) → d.year ≤ (set_month d months).year
unfolding set_month
set_month_year d months =
    let m : ℕ = (d.month - 1 + months) % 12 + 1 in
    elim (Bool-cases (leb d.day (days_in_month (d.year + (d.month - 1 + months) / 12) m))) [
      | inl fits ↦ ground arith
      | inr over ↦ ground arith
    ]

-- The end of a term from a date of the calendar in the year 100 or later, where it falls before the
-- year 10000, is the date of the calendar with this place among the days: count the months from
-- that of the start, begin at the first of the month that is reached, and go on by as many days as
-- the day of the start is past the first; the term ends on the day before.
pub add_months_minus_day-day_number :
    (start : Date) (months : ℕ)
    → IsDate start
    → 100 ≤ start.year
    → (add_months_minus_day start months).year < 10_000
    → IsDate (add_months_minus_day start months)
      × (day_number (add_months_minus_day start months) + 2
          ≡ day_number (first_of (start.year * 12 + (start.month - 1) + months)) + start.day)
unfolding add_months_minus_day
add_months_minus_day-day_number start months h early late =
    let shifted = set_month-IsDate start months h in
    (
      day_before-IsDate (set_month start months) shifted,
      omega (
        arith,
        day_number-day_before (set_month start months) shifted
            (omega (arith, set_month_year start months)),
        day_number-set_month start months h (omega arith),
      ),
    )
