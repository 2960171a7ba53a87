-- ===== src/Reports/Figures.antt =====
-- The figures that the reports show add up.
use mentos_backend.Common.{
  ℕ, ◌≡◌, not, Option, none, some, List, [], ◌∷◌, map, select, sum_by, length, if◌then◌else◌, Text,
  text, same,
}
use mentos_backend.Codes.Decimal.{show}
use mentos_backend.Money.{money_label, money_short_label, quotient_label}
use mentos_backend.Model.{is_occupied, World, Request}
use mentos_backend.Reports.Shape.{BuiltReport, Bar}
use mentos_backend.Reports.Financial.{rent_collection, income_vs_expenses}
use mentos_backend.Reports.Trends.{Bucket, payment_trends}
use mentos_backend.Reports.Window.{in_window}
use mentos_backend.Reports.Operational.{CategoryBucket, occupancy_rates, maintenance_summary}
use mentos_backend.Reports.Sums.{is_unfinished}

-- the value of a key figure
abbrev value_in : List (Text × Text) → Text → Option Text
value_in [] label = none
value_in ((l, value) ∷ rest) label = if same l label then some value else value_in rest label

abbrev pub figure : Text → BuiltReport → Option Text
figure label report = value_in report.kpis label

module _ (req : Request) (w : World) where
  -- the report of rent collection, and that of occupancy
  abbrev pub TotalsShown : Type 0
  TotalsShown =
      (figure (text "Expected") (rent_collection req w)
        ≡ some (money_label (sum_by (λ i. i.amount) w.invoices)))
      × (figure (text "Outstanding") (rent_collection req w)
          ≡ some (money_label (sum_by (λ i. i.balance) w.invoices)))
      × (figure (text "Total vacant units") (occupancy_rates w)
          ≡ some (show (length (select (λ u. not (is_occupied u.status)) w.units))))

  -- the expenses by category
  abbrev pub ExpensesShown : Type 0
  ExpensesShown =
      (costs : List (Text × ℕ)) × ((income_vs_expenses w).rows
        ≡ map (λ e. e.0 ∷ money_label e.1 ∷ []) costs)
      × (figure (text "Expenses") (income_vs_expenses w)
          ≡ some (money_label (sum_by (λ e. e.1) costs)))
      × (sum_by (λ e. e.1) costs ≡ sum_by (λ r. r.cost) w.requests)

  -- the summary of maintenance by category
  abbrev pub SummaryShown : Type 0
  SummaryShown =
      (categories : List (Text × CategoryBucket)) × ((maintenance_summary w).rows
        ≡ map
            (λ e. e.0 ∷ show e.1.count ∷ show e.1.open_ ∷ show e.1.done ∷ money_label e.1.cost ∷ [])
            categories)
      × (figure (text "Total requests") (maintenance_summary w)
          ≡ some (show (sum_by (λ e. e.1.count) categories)))
      × (figure (text "Open now") (maintenance_summary w)
          ≡ some (show (sum_by (λ e. e.1.open_) categories)))
      × (figure (text "Total cost") (maintenance_summary w)
          ≡ some (money_label (sum_by (λ e. e.1.cost) categories)))
      × (sum_by (λ e. e.1.count) categories ≡ length w.requests)
      × (sum_by (λ e. e.1.open_) categories
          ≡ length (select (λ r. is_unfinished r.status) w.requests))
      × (sum_by (λ e. e.1.cost) categories ≡ sum_by (λ r. r.cost) w.requests)

  -- the payment trends
  abbrev pub TrendsShown : Type 0
  TrendsShown =
      (buckets : List Bucket) × (map (λ (b : Bar). b.value_fmt) (payment_trends req w).bars
        ≡ map (λ b. money_short_label b.total) buckets)
      × (figure (text "Average monthly") (payment_trends req w)
          ≡ some (quotient_label (sum_by (λ b. b.total) buckets) 12))
      × (length buckets ≡ 12)
      × (sum_by (λ b. b.total) buckets
          ≡ sum_by (λ p. p.amount) (select (in_window req.today) w.payments))

  abbrev pub AddsUp : Type 0
  AddsUp = TotalsShown × ExpensesShown × SummaryShown × TrendsShown
