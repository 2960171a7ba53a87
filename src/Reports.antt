-- ===== src/Reports.antt =====
-- reports/reports.service.ts: the list of the reports, and the report with a given id.
pub mod Shape
pub mod Financial
pub mod Trends
pub mod Operational
pub mod Window
pub mod Sums
pub mod Figures
pub mod Sorting
pub mod Listing
use mentos_backend.Common.{Option, none, some, List, [], ◌∷◌, if◌then◌else◌, Text, text, same}
use mentos_backend.Model.{unknown_report, World, Request}
use mentos_backend.Orm.{Orm, Exec, pure, throw, gets, ◌>>=◌}
use Shape.{BuiltReport}
use Financial.{rent_collection, outstanding_balances, income_vs_expenses, revenue_by_property}
use Trends.{payment_trends}
use Operational.{
  occupancy_rates, vacancy_report, lease_expirations, tenant_directory, maintenance_summary,
}

pub data ReportCategory : Type 0 where
  financial operational : ReportCategory

pub record ReportDef : Type 0 where
  pub id : Text
  pub title : Text
  pub desc : Text
  pub icon : Text
  pub cat : ReportCategory

abbrev report : Text → Text → Text → Text → ReportCategory → ReportDef
report id title desc icon cat = record {
  id = id;
  title = title;
  desc = desc;
  icon = icon;
  cat = cat;
}

unfoldable pub report_defs : List ReportDef
report_defs =
    report (text "rent_collection") (text "Rent collection report")
      (text "Every invoice this period and its payment status.") (text "receipt-text")
      ReportCategory.financial
    ∷ report (text "outstanding_balances") (text "Outstanding balances")
        (text "Tenants with unpaid or partially paid balances.") (text "circle-alert")
        ReportCategory.financial
    ∷ report (text "income_vs_expenses") (text "Income vs expenses")
        (text "Rent collected against maintenance spend.") (text "scale") ReportCategory.financial
    ∷ report (text "revenue_by_property") (text "Revenue by property")
        (text "Rent roll and share of total revenue per property.") (text "building-2")
        ReportCategory.financial
    ∷ report (text "payment_trends") (text "Payment trends")
        (text "Collections over the last 12 months.") (text "trending-up") ReportCategory.financial
    ∷ report (text "occupancy_rates") (text "Occupancy rates")
        (text "Occupied vs vacant units across the portfolio.") (text "layout-grid")
        ReportCategory.operational
    ∷ report (text "vacancy_report") (text "Vacancy report")
        (text "Every vacant unit currently available to lease.") (text "door-open")
        ReportCategory.operational
    ∷ report (text "lease_expirations") (text "Lease expiration schedule")
        (text "Leases ordered by days remaining.") (text "file-clock") ReportCategory.operational
    ∷ report (text "tenant_directory") (text "Tenant directory")
        (text "Full contact list of every tenant on record.") (text "users-round")
        ReportCategory.operational
    ∷ report (text "maintenance_summary") (text "Maintenance summary")
        (text "Requests and cost by category.") (text "wrench") ReportCategory.operational
    ∷ []

abbrev pub Builders : Type 0
Builders = List (Text × (World → BuiltReport))

-- the cases of the switch
unfoldable pub builders : Orm → Request → Builders
builders orm req =
    (text "rent_collection", rent_collection req)
    ∷ (text "outstanding_balances", outstanding_balances req)
    ∷ (text "income_vs_expenses", income_vs_expenses)
    ∷ (text "revenue_by_property", revenue_by_property)
    ∷ (text "payment_trends", payment_trends req)
    ∷ (text "occupancy_rates", occupancy_rates)
    ∷ (text "vacancy_report", vacancy_report orm)
    ∷ (text "lease_expirations", lease_expirations req)
    ∷ (text "tenant_directory", tenant_directory)
    ∷ (text "maintenance_summary", maintenance_summary)
    ∷ []

abbrev pub switch : Text → Builders → Exec BuiltReport
switch id [] = throw (unknown_report id)
switch id ((k, builder) ∷ rest) = if same id k then gets builder else switch id rest

unfoldable pub build : Orm → Request → Text → Exec BuiltReport
unfolding builders
build orm req id = switch id (builders orm req)
