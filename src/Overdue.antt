-- ===== src/Overdue.antt =====
-- invoices/invoice-overdue.job.ts, and the getter isOverdue of invoices/entities/invoice.entity.ts
pub mod Notified
use mentos_backend.Common.{
  ℕ, ◌==◌, ◌&&◌, ◌||◌, not, ltb, Bool, Option, none, some, is_some, List, [], ◌∷◌, ◌++◌, length,
  Text, text,
}
use mentos_backend.Calendar.{Date, before, day_label}
use mentos_backend.Money.{money_label}
use mentos_backend.Model.{
  Property, Tenant, Invoice, InvoiceStatus, is_payable, is_void, NotificationType, World, Request,
}
use mentos_backend.Orm.{Orm, Exec, pure, gets, fire_trigger, ◌>>=◌, ◌>>◌}
use mentos_backend.Invoices

abbrev pub is_paid : InvoiceStatus → Bool
is_paid InvoiceStatus.paid = Bool.true
is_paid _ = Bool.false

abbrev pub same_date : Date → Date → Bool
same_date a b = a.year == b.year && a.month == b.month && a.day == b.day

-- the getter `isOverdue`, at the given milliseconds after midnight (UTC) of `today`
unfoldable pub is_overdue : Date → ℕ → Invoice → Bool
is_overdue today millis i =
    not (is_paid i.status)
    && not (is_void i.status)
    && (before i.due today || (same_date i.due today && ltb 0 millis))

-- the where clause of the job
unfoldable pub is_candidate : Date → Invoice → Bool
is_candidate today i =
    is_payable i.status && before i.due today && not (is_some i.overdue_notified_at)

abbrev tenant_name : Option Tenant → Text
tenant_name none = text ""
tenant_name (some t) = t.name

abbrev property_name : Option Property → Text
property_name none = text ""
property_name (some p) = p.name

module _ (orm : Orm) where
  -- the body of the loop
  unfoldable pub notify_overdue : Request → Invoice → Exec Unit
  unfolding money_label day_label Invoices.update_row
  notify_overdue req invoice = do
    tenant ← gets (λ w. orm.find_one (λ t. t.id == invoice.tenant_id) w.tenants)
    property ← gets (λ w. orm.find_one (λ p. p.id == invoice.property_id) w.properties)
    fire_trigger (record {
      key = text "invoice-overdue";
      vars =
          (text "tenant_name", tenant_name tenant)
          ∷ (text "amount", money_label invoice.balance)
          ∷ (text "due_date", day_label invoice.due)
          ∷ (text "property_name", property_name property)
          ∷ [];
      type = NotificationType.billing;
      icon = text "triangle-alert";
    })
    Invoices.update_row orm invoice.id (λ i. record i { overdue_notified_at = some req.now })

  -- the loop
  unfoldable pub notify_all : Request → List Invoice → Exec Unit
  notify_all req [] = pure tt
  notify_all req (invoice ∷ rest) = do notify_overdue req invoice; notify_all req rest

  unfoldable pub check_overdue_invoices : Request → Exec ℕ
  unfolding is_candidate
  check_overdue_invoices req = do
    candidates ← gets (λ w. orm.find (is_candidate req.today) w.invoices)
    notify_all req candidates
    pure (length candidates)
