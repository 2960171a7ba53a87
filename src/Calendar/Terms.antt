-- ===== src/Calendar/Terms.antt =====
-- Adding months to a date of the calendar, and going back a day, gives a date of the calendar.
use mathlib.Core.Path.{subst}
use mentos_backend.Common.{
  ℕ, ◌+◌, ◌-◌, ◌/◌, ◌%◌, ◌≡◌, ◌≤◌, ◌<◌, ltb, leb, inl, inr, Bool-cases, false, arith,
}
use mentos_backend.Calendar.{Date, is_leap, days_in_month, set_month, day_before}

-- a date of the calendar
abbrev pub IsDate : Date → Type 0
IsDate d = (0 < d.month) × (d.month ≤ 12) × (0 < d.day) × (d.day ≤ days_in_month d.year d.month)

pub days_bound : (y m : ℕ) → (28 ≤ days_in_month y m) × (days_in_month y m ≤ 31)
unfolding days_in_month
days_bound y m = elim (Bool-cases (is_leap y)) [
  | inl leap ↦ ground arith
  | inr common ↦ ground arith
]

pub days_of_december : (y : ℕ) → days_in_month y 12 ≡ 31
unfolding days_in_month
days_of_december y = ground arith

-- a day past the end of a month lies at the start of the next one
overflow :
    (day len next : ℕ)
    → day ≤ 31
    → 28 ≤ len
    → 28 ≤ next
    → leb day len ≡ false
    → (0 < day - len) × (day - len ≤ next)
overflow day len next short long room over = ground arith

month_range : (n : ℕ) → (0 < n % 12 + 1) × (n % 12 + 1 ≤ 12)
month_range n = omega arith

pub set_month-IsDate : (d : Date) (months : ℕ) → IsDate d → IsDate (set_month d months)
unfolding set_month
set_month-IsDate d months h =
    let index : ℕ = d.month - 1 + months in
    let y : ℕ = d.year + index / 12 in
    let m : ℕ = index % 12 + 1 in
    elim (Bool-cases (leb d.day (days_in_month y m))) [
      | inl fits ↦
          let e : record { year = y; month = m; day = d.day } ≡ set_month d months = ground arith in
          subst IsDate e ((month_range index).0, (month_range index).1, h.2, ground arith)
      | inr over ↦
          let small =
            overflow d.day (days_in_month y m) (days_in_month (y + m / 12) (m % 12 + 1))
              (omega (arith, (days_bound d.year d.month).1)) (days_bound y m).0
              (days_bound (y + m / 12) (m % 12 + 1)).0 over in
          let e : record { year = y + m / 12; month = m % 12 + 1; day = d.day - days_in_month y m }
              ≡ set_month d months =
            ground arith in
          subst IsDate e ((month_range m).0, (month_range m).1, small.0, small.1)
    ]

pub day_before-IsDate : (d : Date) → IsDate d → IsDate (day_before d)
unfolding day_before
day_before-IsDate d h = elim (Bool-cases (ltb 1 d.day)) [
  | inl later ↦
      let e : record d { day = d.day - 1 } ≡ day_before d = ground arith in
      subst IsDate e (h.0, h.1, ground arith, ground arith)
  | inr first_day ↦ elim (Bool-cases (ltb 1 d.month)) [
    | inl inner ↦
        let e : record {
          year = d.year;
          month = d.month - 1;
          day = days_in_month d.year (d.month - 1);
        }
            ≡ day_before d =
          ground arith in
        subst IsDate e (
          ground arith,
          ground arith,
          omega (arith, (days_bound d.year (d.month - 1)).0),
          omega arith,
        )
    | inr january ↦
        let e : record { year = d.year - 1; month = 12; day = 31 } ≡ day_before d = ground arith in
        subst IsDate e
          (omega arith, omega arith, omega arith, ground (arith, days_of_december (d.year - 1)))
  ]
]
