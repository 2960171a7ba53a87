-- ===== src/Reports/Financial.antt =====
-- reports/reports.service.ts: the financial reports, but for payment trends.
use mentos_backend.Common.{
  ℕ, ◌+◌, ◌%◌, ◌==◌, ◌&&◌, ltb, Bool, true, List, [], ◌∷◌, ◌++◌, map, select, sum_by, length,
  if◌then◌else◌, Text, text, same,
}
use mentos_backend.Calendar.{month_label, day_label}
use mentos_backend.Codes.Decimal.{show}
use mentos_backend.Money.{Signed, difference, less, money_label, signed_label}
use mentos_backend.Model.{
  Property, RentalUnit, is_occupied, Invoice, MaintenanceRequest, World, Request,
}
use mentos_backend.Overdue.{is_overdue}
use mentos_backend.Reports.Shape.{
  BuiltReport, table, display_label, invoice_status, tenant_of, property_of, leased_unit,
  tenant_cell, prop_unit_cell, percent, percent_cell, signed_percent_cell, sort_by,
}

-- the getter `isOverdue` at the time of the request
abbrev pub overdue_at : Request → Invoice → Bool
overdue_at req i = is_overdue req.today (req.now % 86_400_000) i

abbrev status_cell : Request → Invoice → Text
status_cell req i =
    display_label (if overdue_at req i then text "overdue" else invoice_status i.status)

abbrev collection_row : Request → World → Invoice → List Text
collection_row req w i =
    tenant_cell (tenant_of w i.tenant_id)
    ∷ prop_unit_cell (property_of w i.property_id) (leased_unit w i)
    ∷ i.code
    ∷ month_label i.issued
    ∷ money_label i.amount
    ∷ money_label i.balance
    ∷ status_cell req i
    ∷ []

abbrev pub expected : List Invoice → ℕ
expected invoices = sum_by (λ i. i.amount) invoices

abbrev pub collected : List Invoice → Signed
collected invoices = difference (expected invoices) (sum_by (λ i. i.balance) invoices)

unfoldable pub rent_collection : Request → World → BuiltReport
rent_collection req w =
    table
      (text "Tenant"
        ∷ text "Property · unit"
        ∷ text "Invoice"
        ∷ text "Period"
        ∷ text "Amount"
        ∷ text "Balance"
        ∷ text "Status"
        ∷ [])
      (map (collection_row req w) w.invoices)
      ((text "Expected", money_label (expected w.invoices))
        ∷ (text "Collected", signed_label (collected w.invoices))
        ∷ (text "Collection rate", signed_percent_cell (collected w.invoices) (expected w.invoices))
        ∷ (text "Outstanding", signed_label (less (expected w.invoices) (collected w.invoices)))
        ∷ [])

abbrev pub has_balance : Invoice → Bool
has_balance i = ltb 0 i.balance

-- the list of the report, the greatest balance first
abbrev pub outstanding : List Invoice → List Invoice
outstanding invoices = sort_by (λ a b. ltb b.balance a.balance) (select has_balance invoices)

abbrev pub outstanding_row : Request → World → Invoice → List Text
outstanding_row req w i =
    tenant_cell (tenant_of w i.tenant_id)
    ∷ prop_unit_cell (property_of w i.property_id) (leased_unit w i)
    ∷ i.code
    ∷ day_label i.due
    ∷ money_label i.balance
    ∷ status_cell req i
    ∷ []

unfoldable pub outstanding_balances : Request → World → BuiltReport
outstanding_balances req w =
    let list = outstanding w.invoices in
    table
      (text "Tenant"
        ∷ text "Property · unit"
        ∷ text "Invoice"
        ∷ text "Due date"
        ∷ text "Balance"
        ∷ text "Status"
        ∷ [])
      (map (outstanding_row req w) list)
      ((text "Total outstanding", money_label (sum_by (λ i. i.balance) list))
        ∷ (text "Overdue invoices", show (length (select (overdue_at req) list)))
        ∷ (text "Tenants affected", show (length list))
        ∷ [])

-- `map.set(key, f(map.get(key)))` on a map in the order of insertion
abbrev pub put {ℓ} : {A : Type ℓ} → Text → (A → A) → A → List (Text × A) → List (Text × A)
put key f fresh [] = (key, f fresh) ∷ []
put key f fresh ((k, v) ∷ rest) =
    if same k key then (k, f v) ∷ rest else (k, v) ∷ put key f fresh rest

-- the loop over the requests
abbrev pub costs_from : List (Text × ℕ) → List MaintenanceRequest → List (Text × ℕ)
costs_from acc [] = acc
costs_from acc (r ∷ rs) = costs_from (put r.category (λ c. c + r.cost) 0 acc) rs

abbrev larger : ℕ → ℕ → ℕ
larger a b = if ltb a b then b else a

unfoldable pub income_vs_expenses : World → BuiltReport
income_vs_expenses w =
    let income = sum_by (λ p. p.amount) w.payments in
    let expenses = sum_by (λ r. r.cost) w.requests in
    -- 1 shilling
    let max_v = larger (larger income expenses) 100 in
    record {
      columns = text "Expense category" ∷ text "Total cost" ∷ [];
      rows = map (λ (category, cost). category ∷ money_label cost ∷ []) (costs_from [] w.requests);
      kpis =
          (text "Income", money_label income)
          ∷ (text "Expenses", money_label expenses)
          ∷ (text "Net income", signed_label (difference income expenses))
          ∷ [];
      has_bars = true;
      bars =
          record {
            label = text "Income (rent collected)";
            value_fmt = money_label income;
            pct = percent income max_v;
            color = text "var(--success-500)";
          }
          ∷ record {
            label = text "Expenses (maintenance)";
            value_fmt = money_label expenses;
            pct = percent expenses max_v;
            color = text "var(--danger-500)";
          }
          ∷ [];
    }

abbrev pub units_of : List RentalUnit → ℕ → List RentalUnit
units_of units property_id = select (λ u. u.property_id == property_id) units

abbrev pub occupied_of : List RentalUnit → ℕ → List RentalUnit
occupied_of units property_id =
    select (λ u. u.property_id == property_id && is_occupied u.status) units

abbrev pub roll_for : List RentalUnit → ℕ → ℕ
roll_for units property_id = sum_by (λ u. u.rent) (occupied_of units property_id)

abbrev pub total_roll : List RentalUnit → ℕ
total_roll units = sum_by (λ u. u.rent) (select (λ u. is_occupied u.status) units)

abbrev revenue_row : List RentalUnit → Property → List Text
revenue_row units p =
    p.name
    ∷ (show (length (occupied_of units p.id)) ++ text "/" ++ show (length (units_of units p.id)))
    ∷ money_label (roll_for units p.id)
    ∷ percent_cell (roll_for units p.id) (total_roll units)
    ∷ []

unfoldable pub revenue_by_property : World → BuiltReport
revenue_by_property w =
    table
      (text "Property" ∷ text "Occupied / total" ∷ text "Rent roll" ∷ text "Share of revenue" ∷ [])
      (map (revenue_row w.units)
        (sort_by (λ a b. ltb (roll_for w.units b.id) (roll_for w.units a.id)) w.properties))
      ((text "Total monthly revenue", money_label (total_roll w.units))
        ∷ (text "Properties", show (length w.properties))
        ∷ [])
