-- ===== src/Tests/Reminders.antt =====
-- The overdue job.
use mentos_backend.Common.{◌≡◌, ◌&&◌, ◌||◌, refl, none, ltb}
use mentos_backend.Calendar.{Date}
use mentos_backend.Model.{Request, is_payable}
use mentos_backend.Orm.{reference, reference-Documented, ok}
use mentos_backend.Overdue.{is_overdue, is_candidate, same_date, check_overdue_invoices}
use mentos_backend.Overdue.Notified.{
  is_overdue-is_candidate, check_overdue_invoices-check_overdue_invoices,
}
use mentos_backend.Tests.Sample.{req, july, invoice, billed}

abbrev august : Date
august = record july { month = 8 }

abbrev morning : Request
morning = record req { today = august }

is_overdue-is_candidate_example : is_overdue july 5 invoice ≡ (
    is_candidate july (record invoice { overdue_notified_at = none })
    || (is_payable invoice.status && same_date invoice.due july && ltb 0 5))
is_overdue-is_candidate_example = is_overdue-is_candidate july 5 invoice

check_overdue_invoices-check_overdue_invoices_example :
    check_overdue_invoices reference
      (record morning { now = 2_000 })
      (check_overdue_invoices reference morning billed).1
    ≡ (ok 0, (check_overdue_invoices reference morning billed).1)
check_overdue_invoices-check_overdue_invoices_example =
    check_overdue_invoices-check_overdue_invoices reference reference-Documented morning
      (record morning { now = 2_000 }) billed refl
