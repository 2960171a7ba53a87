-- ===== src/Reports/Window.antt =====
-- The twelve months of the payment trends.
use mentos_backend.Common.{
  ℕ, zero, suc, ◌+◌, ◌-◌, ◌*◌, ◌/◌, ◌%◌, ◌≤◌, ◌≡◌, refl, sym, ◌∙◌, Bool, ◌&&◌, List, [], ◌∷◌, arith,
  ltb, leb, ◌==◌, if◌then◌else◌, any, select, sum_by, All, All-map, Bool-cases, inl, inr,
}
use mentos_backend.Calendar.{Date, month_name}
use mentos_backend.Model.{Payment}
use mentos_backend.Reports.Trends.{
  Bucket, bucket_at, buckets_from, same_month, add_payment, add_payments,
}

-- months are numbered from year 0 on
abbrev pub month_index : Date → ℕ
month_index d = d.year * 12 + (d.month - 1)

abbrev pub IsMonth : Date → Type 0
IsMonth d = (1 ≤ d.month) × (d.month ≤ 12)

-- in one of the last twelve months
abbrev pub in_window : Date → Payment → Bool
in_window today p =
    ltb (month_index today) (month_index p.date + 12)
    && leb (month_index p.date) (month_index today)

month_parts :
    (i y m : ℕ) → 1 ≤ m → m ≤ 12 → (i / 12 == y && i % 12 + 1 == m) ≡ (y * 12 + (m - 1) == i)
month_parts i y m low high = elim (Bool-cases (y * 12 + (m - 1) == i)) [
  | inl t ↦
      let e : y * 12 + (m - 1) ≡ i = ground arith in
      let year : i / 12 ≡ y = omega arith in
      let month : i % 12 + 1 ≡ m = omega arith in rw t (ground arith)
  | inr f ↦ elim (Bool-cases (i / 12 == y && i % 12 + 1 == m)) [
    | inl both ↦
        let year : i / 12 ≡ y = ground arith in
        let month : i % 12 + 1 ≡ m = ground arith in
        let e : y * 12 + (m - 1) ≡ i = omega arith in absurd (ground arith)
    | inr neither ↦ neither ∙ sym f
  ]
]

same_month_at :
    (today : Date) (back : ℕ) (p : Payment)
    → IsMonth p.date
    → same_month (bucket_at today back) p ≡ (month_index p.date == month_index today - back)
unfolding month_name
same_month_at today back p h =
    month_parts (month_index today - back) p.date.year p.date.month h.0 h.1

any-buckets_from :
    (today : Date) (back : ℕ) (p : Payment)
    → back ≤ month_index today
    → IsMonth p.date
    → any (λ b. same_month b p) (buckets_from today back) ≡ (
        ltb (month_index today) (month_index p.date + back + 1)
        && leb (month_index p.date) (month_index today))
any-buckets_from today zero p h m = rw (same_month_at today 0 p m) (ground arith)
any-buckets_from today (suc back) p h m =
    rw (same_month_at today (suc back) p m, any-buckets_from today back p (omega arith) m)
      (ground arith)

any-add_payment :
    (p q : Payment) (bs : List Bucket)
    → any (λ b. same_month b q) (add_payment p bs) ≡ any (λ b. same_month b q) bs
any-add_payment p q [] = refl
any-add_payment p q (b ∷ bs) = elim (Bool-cases (same_month b p)) [
  | inl t ↦ rw t refl
  | inr f ↦ rw (f, any-add_payment p q bs) refl
]

sum_by-add_payment :
    (p : Payment) (bs : List Bucket)
    → sum_by (λ b. b.total) (add_payment p bs)
      ≡ sum_by (λ b. b.total) bs + (if any (λ b. same_month b p) bs then p.amount else 0)
sum_by-add_payment p [] = refl
sum_by-add_payment p (b ∷ bs) = elim (Bool-cases (same_month b p)) [
  | inl t ↦ rw t (omega arith)
  | inr f ↦ rw f (omega (arith, sum_by-add_payment p bs))
]

pub sum_by-add_payments :
    (counted : Payment → Bool) (ps : List Payment) (bs : List Bucket)
    → All (λ p. any (λ b. same_month b p) bs ≡ counted p) ps
    → sum_by (λ b. b.total) (add_payments ps bs)
      ≡ sum_by (λ b. b.total) bs + sum_by (λ p. p.amount) (select counted ps)
sum_by-add_payments counted [] bs h = omega arith
sum_by-add_payments counted (p ∷ ps) bs h =
    let rest = sum_by-add_payments counted ps (add_payment p bs) (
      All-map (λ q. any (λ b. same_month b q) bs ≡ counted q)
        (λ q. any (λ b. same_month b q) (add_payment p bs) ≡ counted q) ps
        (λ q e. any-add_payment p q bs ∙ e) h.1) in
    ground (arith, sum_by-add_payment p bs)

pub sum_by-buckets_from :
    (today : Date) (back : ℕ) → sum_by (λ b. b.total) (buckets_from today back) ≡ 0
unfolding month_name
sum_by-buckets_from today zero = refl
sum_by-buckets_from today (suc back) = omega (arith, sum_by-buckets_from today back)

pub window_counts :
    (today : Date) (ps : List Payment)
    → 1 ≤ today.year
    → All (λ p. IsMonth p.date) ps
    → All (λ p. any (λ b. same_month b p) (buckets_from today 11) ≡ in_window today p) ps
window_counts today ps year months =
    All-map (λ p. IsMonth p.date)
      (λ p. any (λ b. same_month b p) (buckets_from today 11) ≡ in_window today p) ps
      (λ p m. any-buckets_from today 11 p (omega arith) m ∙ ground arith) months
