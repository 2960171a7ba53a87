-- ===== src/Tests/Billing.antt =====
-- Payments and invoices.
use mentos_backend.Common.{ℕ, ◌≡◌, refl, none, text, arith}
use mentos_backend.Model.{Request}
use mentos_backend.Orm.{reference, reference-Documented, ok}
use mentos_backend.Codes.Decimal.{show, pad_start, cast_integer}
use mentos_backend.Codes.Scheme.{next_code}
use mentos_backend.Invoices
use mentos_backend.Invoices.{update, void, create_for_lease}
use mentos_backend.Invoices.Commands.{BillingCommand, run, run-IsBalanced}
use mentos_backend.Payments.Outcomes.{receipt}
use mentos_backend.Payments.Race.{both_read, Overpaid, both_read-Overpaid}
use mentos_backend.Payments.{whole, RecordPaymentDto, settle_amount, write_payment}
use mentos_backend.Payments.Ledger.{IsBalanced}
use mentos_backend.Tests.Sample.{req, invoice, billed}

abbrev pay : ℕ → RecordPaymentDto
pay n = record { amount = whole n; method = text "Cash"; date = none }

billed-IsBalanced : IsBalanced billed.db
billed-IsBalanced = record { distinct = ground arith; in_order = ground arith }

run-IsBalanced_example :
    IsBalanced (run reference (BillingCommand.pay req (text "INV-1015") (pay 2000)) billed).db
run-IsBalanced_example =
    run-IsBalanced reference reference-Documented
      (BillingCommand.pay req (text "INV-1015") (pay 2000)) billed refl billed-IsBalanced

abbrev req2 : Request
req2 = record req { new_id = 78 }

both_read_ok :
    (both_read reference req req2 (text "INV-1015") (pay 600) (pay 700) billed).0
    ≡ ok (receipt req2 invoice (pay 700) (whole 700) (text "RC-1017"))
unfolding both_read Invoices.find_by_code_or_fail settle_amount write_payment next_code show
    pad_start cast_integer
both_read_ok = refl

both_read-Overpaid_example :
    Overpaid req req2
      (text "INV-1015")
      (pay 600)
      (pay 700)
      billed
      (both_read reference req req2 (text "INV-1015") (pay 600) (pay 700) billed).1
both_read-Overpaid_example =
    both_read-Overpaid reference reference-Documented req req2 (text "INV-1015") (pay 600) (pay 700)
      billed (receipt req2 invoice (pay 700) (whole 700) (text "RC-1017")) refl refl both_read_ok
      billed-IsBalanced
