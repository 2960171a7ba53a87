-- ===== src/Reports/Operational.antt =====
-- reports/reports.service.ts: the operational reports.
use mentos_backend.Common.{
  ℕ, ◌+◌, ◌-◌, not, ltb, leb, Bool, true, false, List, [], ◌∷◌, ◌++◌, map, select, sum_by, length,
  Text, text,
}
use mentos_backend.Calendar.{Date, day_number, month_label, day_label}
use mentos_backend.Codes.Decimal.{show}
use mentos_backend.Money.{Signed, difference, money_label, decimal_label}
use mentos_backend.Model.{
  Property, RentalUnit, is_occupied, Tenant, TenantStatus, Lease, MaintenanceRequest,
  MaintenanceStatus, World, Request,
}
use mentos_backend.Orm.{Orm}
use mentos_backend.Reports.Shape.{
  BuiltReport, table, display_label, lease_status, tenant_status, tenant_of, property_of, unit_of,
  joined, tenant_cell, property_cell, prop_unit_cell, percent_cell, sort_by,
}
use mentos_backend.Reports.Financial.{units_of, put}

abbrev pub occupied_units : List RentalUnit → List RentalUnit
occupied_units = select (λ u. is_occupied u.status)

abbrev occupancy_row : List RentalUnit → Property → List Text
occupancy_row units p =
    let us = units_of units p.id in
    let occ = length (occupied_units us) in
    p.name
    ∷ (show occ ++ text "/" ++ show (length us))
    ∷ show (length us - occ)
    ∷ percent_cell occ (length us)
    ∷ []

unfoldable pub occupancy_rates : World → BuiltReport
occupancy_rates w =
    let total_units = length w.units in
    let total_occ = length (occupied_units w.units) in
    table (text "Property" ∷ text "Occupied / total" ∷ text "Vacant" ∷ text "Occupancy" ∷ [])
      (map (occupancy_row w.units) w.properties)
      ((text "Portfolio occupancy", percent_cell total_occ total_units)
        ∷ (text "Total vacant units", show (total_units - total_occ))
        ∷ [])

abbrev pub is_vacant : RentalUnit → Bool
is_vacant u = not (is_occupied u.status)

abbrev vacancy_row : World → RentalUnit → List Text
vacancy_row w u =
    property_cell (property_of w u.property_id)
    ∷ u.no
    ∷ u.type
    ∷ (decimal_label u.size ++ text " m²")
    ∷ money_label u.rent
    ∷ []

unfoldable pub vacancy_report : Orm → World → BuiltReport
vacancy_report orm w =
    let list = orm.find is_vacant w.units in
    table (text "Property" ∷ text "Unit" ∷ text "Type" ∷ text "Size" ∷ text "Monthly rent" ∷ [])
      (map (vacancy_row w) list)
      ((text "Vacant units", show (length list))
        ∷ (text "Potential rent lost / mo", money_label (sum_by (λ u. u.rent) list))
        ∷ [])

-- daysUntil, with the time zone of the server UTC
unfoldable pub days_until : Date → Date → Signed
unfolding day_number
days_until today date = difference (day_number date) (day_number today)

-- a < b
abbrev pub signed_ltb : Signed → Signed → Bool
signed_ltb (Signed.plus a) (Signed.plus b) = ltb a b
signed_ltb (Signed.plus a) (Signed.minus b) = false
signed_ltb (Signed.minus a) (Signed.plus b) = ltb 0 (a + b)
signed_ltb (Signed.minus a) (Signed.minus b) = ltb b a

abbrev pub within_days : ℕ → Signed → Bool
within_days n (Signed.plus d) = leb d n
within_days n (Signed.minus d) = true

abbrev days_cell : Signed → Text
days_cell (Signed.plus d) = show d ++ text "d"
days_cell (Signed.minus d) = text "-" ++ show d ++ text "d"

abbrev pub expiration_row : World → Lease × Signed → List Text
expiration_row w (l, days) =
    l.code
    ∷ tenant_cell (tenant_of w l.tenant_id)
    ∷ prop_unit_cell (property_of w l.property_id) (unit_of w l.unit_id)
    ∷ day_label l.end
    ∷ days_cell days
    ∷ display_label (lease_status l.status)
    ∷ []

abbrev pub expirations : Date → List Lease → List (Lease × Signed)
expirations today leases =
    sort_by (λ a b. signed_ltb a.1 b.1) (map (λ l. (l, days_until today l.end)) leases)

abbrev pub expiring : ℕ → List (Lease × Signed) → ℕ
expiring n list = length (select (λ l. within_days n l.1) list)

unfoldable pub lease_expirations : Request → World → BuiltReport
lease_expirations req w =
    let list = expirations req.today w.leases in
    table
      (text "Lease"
        ∷ text "Tenant"
        ∷ text "Property · unit"
        ∷ text "End date"
        ∷ text "Days left"
        ∷ text "Status"
        ∷ [])
      (map (expiration_row w) list)
      ((text "Expiring ≤30 days", show (expiring 30 list))
        ∷ (text "Expiring ≤60 days", show (expiring 60 list))
        ∷ (text "Expiring ≤90 days", show (expiring 90 list))
        ∷ [])

abbrev is_active_tenant : TenantStatus → Bool
is_active_tenant TenantStatus.active = true
is_active_tenant _ = false

abbrev directory_row : World → Tenant → List Text
directory_row w t =
    t.name
    ∷ t.phone
    ∷ t.email
    ∷ prop_unit_cell (joined (property_of w) t.property_id) (joined (unit_of w) t.unit_id)
    ∷ display_label (tenant_status t.status)
    ∷ month_label t.since
    ∷ []

unfoldable pub tenant_directory : World → BuiltReport
tenant_directory w =
    table
      (text "Name"
        ∷ text "Phone"
        ∷ text "Email"
        ∷ text "Property · unit"
        ∷ text "Status"
        ∷ text "Since"
        ∷ [])
      (map (directory_row w) w.tenants)
      ((text "Total tenants", show (length w.tenants))
        ∷ (text "Active", show (length (select (λ t. is_active_tenant t.status) w.tenants)))
        ∷ [])

pub record CategoryBucket : Type 0 where
  pub count : ℕ
  pub open_ : ℕ
  pub done : ℕ
  pub cost : ℕ

abbrev pub is_open : MaintenanceStatus → Bool
is_open MaintenanceStatus.open_ = true
is_open MaintenanceStatus.assigned = true
is_open MaintenanceStatus.in_progress = true
is_open _ = false

abbrev pub is_done : MaintenanceStatus → Bool
is_done MaintenanceStatus.completed = true
is_done MaintenanceStatus.closed = true
is_done _ = false

abbrev pub one_if : Bool → ℕ
one_if true = 1
one_if false = 0

abbrev pub count_request : MaintenanceRequest → CategoryBucket → CategoryBucket
count_request r b = record {
  count = b.count + 1;
  open_ = b.open_ + one_if (is_open r.status);
  done = b.done + one_if (is_done r.status);
  cost = b.cost + r.cost;
}

abbrev pub empty_bucket : CategoryBucket
empty_bucket = record { count = 0; open_ = 0; done = 0; cost = 0 }

-- the loop over the requests
abbrev pub categories_from :
    List (Text × CategoryBucket) → List MaintenanceRequest → List (Text × CategoryBucket)
categories_from acc [] = acc
categories_from acc (r ∷ rs) =
    categories_from (put r.category (count_request r) empty_bucket acc) rs

abbrev category_row : Text × CategoryBucket → List Text
category_row (category, b) =
    category ∷ show b.count ∷ show b.open_ ∷ show b.done ∷ money_label b.cost ∷ []

unfoldable pub maintenance_summary : World → BuiltReport
maintenance_summary w =
    table
      (text "Category"
        ∷ text "Total requests"
        ∷ text "Open / in progress"
        ∷ text "Completed"
        ∷ text "Total cost"
        ∷ [])
      (map category_row (categories_from [] w.requests))
      ((text "Total requests", show (length w.requests))
        ∷ (text "Open now", show (length (select (λ r. is_open r.status) w.requests)))
        ∷ (text "Total cost", money_label (sum_by (λ r. r.cost) w.requests))
        ∷ [])
