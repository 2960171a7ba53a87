-- ===== src/Reports/Shape.antt =====
-- What reports/reports.service.ts builds from: the shape of a report (reports/dto/report.dto.ts),
-- the labels of common/status-label.ts, relations, sorting, and sums.
use mentos_backend.Common.{
  ℕ, ◌+◌, ◌-◌, ◌*◌, ◌/◌, ◌==◌, Bool, false, Option, none, some, List, [], ◌∷◌, ◌++◌, first,
  if◌then◌else◌, Text, text, same,
}
use mentos_backend.Codes.Decimal.{show}
use mentos_backend.Money.{Signed}
use mentos_backend.Model.{
  Property, RentalUnit, Tenant, TenantStatus, Lease, LeaseStatus, Invoice, InvoiceStatus, World,
}

pub record Bar : Type 0 where
  pub label : Text
  pub value_fmt : Text
  pub pct : ℕ
  pub color : Text

-- BuiltReportDto; without bars, `bars` is empty
pub record BuiltReport : Type 0 where
  pub columns : List Text
  pub rows : List (List Text)
  -- label and value
  pub kpis : List (Text × Text)
  pub has_bars : Bool
  pub bars : List Bar

-- a table without bars
abbrev pub table : List Text → List (List Text) → List (Text × Text) → BuiltReport
table columns rows kpis = record {
  columns = columns;
  rows = rows;
  kpis = kpis;
  has_bars = false;
  bars = [];
}

unfoldable pub labels : List (Text × Text)
labels =
    (text "active", text "Active")
    ∷ (text "prospective", text "Prospective")
    ∷ (text "notice", text "Notice given")
    ∷ (text "vacated", text "Vacated")
    ∷ (text "blacklisted", text "Blacklisted")
    ∷ (text "occupied", text "Occupied")
    ∷ (text "vacant", text "Vacant")
    ∷ (text "paid", text "Paid")
    ∷ (text "due", text "Due")
    ∷ (text "overdue", text "Overdue")
    ∷ (text "partial", text "Partial")
    ∷ (text "void", text "Void")
    ∷ (text "open", text "Open")
    ∷ (text "assigned", text "Assigned")
    ∷ (text "in_progress", text "In progress")
    ∷ (text "completed", text "Completed")
    ∷ (text "closed", text "Closed")
    ∷ (text "invited", text "Invited")
    ∷ (text "suspended", text "Suspended")
    ∷ (text "ending", text "Ending")
    ∷ (text "ended", text "Ended")
    ∷ (text "on_leave", text "On leave")
    ∷ (text "inactive", text "Inactive")
    ∷ []

abbrev label_in : List (Text × Text) → Text → Text
label_in [] status = status
label_in ((k, label) ∷ rest) status = if same k status then label else label_in rest status

-- statusLabel
unfoldable pub display_label : Text → Text
unfolding labels
display_label status = label_in labels status

-- the values of the enums
abbrev pub invoice_status : InvoiceStatus → Text
invoice_status InvoiceStatus.due = text "due"
invoice_status InvoiceStatus.partial = text "partial"
invoice_status InvoiceStatus.paid = text "paid"
invoice_status InvoiceStatus.void = text "void"

abbrev pub lease_status : LeaseStatus → Text
lease_status LeaseStatus.active = text "active"
lease_status LeaseStatus.ending = text "ending"
lease_status LeaseStatus.ended = text "ended"

abbrev pub tenant_status : TenantStatus → Text
tenant_status TenantStatus.active = text "active"
tenant_status TenantStatus.prospective = text "prospective"
tenant_status TenantStatus.notice = text "notice"
tenant_status TenantStatus.vacated = text "vacated"
tenant_status TenantStatus.blacklisted = text "blacklisted"

-- the relations of a row
module _ (w : World) where
  abbrev pub tenant_of : ℕ → Option Tenant
  tenant_of id = first (λ t. t.id == id) w.tenants

  abbrev pub property_of : ℕ → Option Property
  property_of id = first (λ p. p.id == id) w.properties

  abbrev pub unit_of : ℕ → Option RentalUnit
  unit_of id = first (λ u. u.id == id) w.units

  abbrev unit_of_lease : Option Lease → Option RentalUnit
  unit_of_lease none = none
  unit_of_lease (some l) = unit_of l.unit_id

  -- invoice.lease?.unit
  abbrev pub leased_unit : Invoice → Option RentalUnit
  leased_unit i = unit_of_lease (first (λ l. l.id == i.lease_id) w.leases)

abbrev pub joined {ℓ} : {A : Type ℓ} → (ℕ → Option A) → Option ℕ → Option A
joined find none = none
joined find (some id) = find id

-- tenant?.name ?? '—'
abbrev pub tenant_cell : Option Tenant → Text
tenant_cell none = text "—"
tenant_cell (some t) = t.name

abbrev pub property_cell : Option Property → Text
property_cell none = text "—"
property_cell (some p) = p.name

-- propUnitCell
unfoldable pub prop_unit_cell : Option Property → Option RentalUnit → Text
prop_unit_cell none unit = text "—"
prop_unit_cell (some p) none = p.name
prop_unit_cell (some p) (some u) = p.name ++ text " · " ++ u.no

-- Math.round((a / b) * 100), where halves go up, and 0 for an empty whole
unfoldable pub percent : ℕ → ℕ → ℕ
percent a b = if b == 0 then 0 else (200 * a + b) / (2 * b)

abbrev pub percent_cell : ℕ → ℕ → Text
unfolding percent show
percent_cell a b = show (percent a b) ++ text "%"

-- the same for a part that may be below zero; -0 is printed as 0
abbrev pub signed_percent_cell : Signed → ℕ → Text
unfolding percent show
signed_percent_cell (Signed.plus a) b = percent_cell a b
signed_percent_cell (Signed.minus a) b =
    if b == 0
    then text "0%"
    else if (200 * a + b - 1) / (2 * b) == 0
    then text "0%"
    else text "-" ++ show ((200 * a + b - 1) / (2 * b)) ++ text "%"

module _ {ℓ} {A : Type ℓ} (goes_before : A → A → Bool) where
  abbrev pub insert_sorted : A → List A → List A
  insert_sorted x [] = x ∷ []
  insert_sorted x (y ∷ ys) = if goes_before y x then y ∷ insert_sorted x ys else x ∷ y ∷ ys

  -- Array.sort, which is stable; the argument says when the comparator puts one before another
  abbrev pub sort_by : List A → List A
  sort_by [] = []
  sort_by (x ∷ xs) = insert_sorted x (sort_by xs)
