-- ===== src/Reports/Trends.antt =====
-- reports/reports.service.ts: payment trends. The time zone of the server is UTC.
use mentos_backend.Common.{
  ℕ, zero, suc, ◌+◌, ◌-◌, ◌*◌, ◌/◌, ◌%◌, ◌==◌, ◌&&◌, ltb, Bool, true, List, [], ◌∷◌, map, sum_by,
  length, if◌then◌else◌, Text, text,
}
use mentos_backend.Calendar.{Date, before, month_name, day_label}
use mentos_backend.Money.{money_label, money_short_label, quotient_label}
use mentos_backend.Model.{Payment, World, Request}
use mentos_backend.Reports.Shape.{BuiltReport, Bar, tenant_of, tenant_cell, percent, sort_by}

pub record Bucket : Type 0 where
  pub label : Text
  pub year : ℕ
  pub month : ℕ
  pub total : ℕ

-- `new Date(year, month - 1 - back, 1)` with nothing in it
abbrev pub bucket_at : Date → ℕ → Bucket
unfolding month_name
bucket_at today back =
    let index : ℕ = today.year * 12 + (today.month - 1) - back in
    record {
      label = month_name (index % 12 + 1);
      year = index / 12;
      month = index % 12 + 1;
      total = 0;
    }

-- from `back` months ago to the current month
abbrev pub buckets_from : Date → ℕ → List Bucket
buckets_from today zero = bucket_at today 0 ∷ []
buckets_from today (suc back) = bucket_at today (suc back) ∷ buckets_from today back

abbrev pub same_month : Bucket → Payment → Bool
same_month b p = b.year == p.date.year && b.month == p.date.month

-- the first bucket of the payment's month, if there is one
abbrev pub add_payment : Payment → List Bucket → List Bucket
add_payment p [] = []
add_payment p (b ∷ bs) =
    if same_month b p then record b { total = b.total + p.amount } ∷ bs else b ∷ add_payment p bs

abbrev pub add_payments : List Payment → List Bucket → List Bucket
add_payments [] bs = bs
add_payments (p ∷ ps) bs = add_payments ps (add_payment p bs)

abbrev pub max_total : ℕ → List Bucket → ℕ
max_total m [] = m
max_total m (b ∷ bs) = max_total (if ltb m b.total then b.total else m) bs

abbrev pub bars_of : ℕ → List Bucket → List Bar
bars_of max_v [] = []
bars_of max_v (b ∷ bs) =
    record {
      label = b.label;
      value_fmt = money_short_label b.total;
      pct = percent b.total max_v;
      color = if length bs == 0 then text "var(--gold-500)" else text "var(--green-500)";
    }
    ∷ bars_of max_v bs

-- reduce((best, b) => b.total > best.total ? b : best)
abbrev pub peak_from : Bucket → List Bucket → Bucket
peak_from best [] = best
peak_from best (b ∷ bs) = peak_from (if ltb best.total b.total then b else best) bs

abbrev peak_label : List Bucket → Text
peak_label [] = text ""
peak_label (b ∷ bs) = (peak_from b (b ∷ bs)).label

abbrev take {ℓ} : {A : Type ℓ} → ℕ → List A → List A
take zero xs = []
take (suc n) [] = []
take (suc n) (x ∷ xs) = x ∷ take n xs

abbrev payment_row : World → Payment → List Text
payment_row w p =
    p.code
    ∷ tenant_cell (tenant_of w p.tenant_id)
    ∷ day_label p.date
    ∷ money_label p.amount
    ∷ p.method
    ∷ []

abbrev pub filled_buckets : Date → List Payment → List Bucket
filled_buckets today payments = add_payments payments (buckets_from today 11)

unfoldable pub payment_trends : Request → World → BuiltReport
payment_trends req w =
    let buckets = filled_buckets req.today w.payments in
    record {
      columns = text "Receipt" ∷ text "Tenant" ∷ text "Date" ∷ text "Amount" ∷ text "Method" ∷ [];
      -- the latest first
      rows = map (payment_row w) (take 8 (sort_by (λ a b. before b.date a.date) w.payments));
      kpis =
          (text "Average monthly", quotient_label (sum_by (λ b. b.total) buckets) (length buckets))
          ∷ (text "Peak month", peak_label buckets)
          ∷ [];
      has_bars = true;
      bars = bars_of (max_total 100 buckets) buckets;
    }
