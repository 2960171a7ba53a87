-- ===== src/Invoices/Commands.antt =====
-- The handlers that write invoices and receipts, together (src/invoices/invoices.service.ts and
-- src/payments/payments.service.ts).
use mentos_backend.Common.{◌≡◌, ◌==◌, false, any, List, Text}
use mentos_backend.Calendar.{Date}
use mentos_backend.Model.{Lease, InvoiceLineItem, World, Request}
use mentos_backend.Orm.{Orm, Documented}
use mentos_backend.Invoices.{create_for_lease, update, void}
use mentos_backend.Invoices.Items.{Json}
use mentos_backend.Invoices.Books.{update-IsBalanced, void-IsBalanced}
use mentos_backend.Invoices.Issue.{create_for_lease-IsBalanced}
use mentos_backend.Payments.{RecordPaymentDto, record_payment}
use mentos_backend.Payments.Ledger.{received, IsWhole, IsBalanced, record_payment-IsBalanced}

pub data BillingCommand : Type 0 where
  issue : Request → Lease → List InvoiceLineItem → Date → Date → BillingCommand
  edit : Text → List Json → BillingCommand
  cancel : Text → BillingCommand
  pay : Request → Text → RecordPaymentDto → BillingCommand

abbrev pub run : Orm → BillingCommand → World → World
run orm (issue req lease items issued due) w = (create_for_lease orm req lease items issued due w).1
run orm (edit code raw) w = (update orm code raw w).1
run orm (cancel code) w = (void orm code w).1
run orm (pay req code dto) w = (record_payment orm req code dto w).1

-- a new invoice gets an id that no invoice and no receipt has, and a payment has no parts of a cent
abbrev pub IsSound : BillingCommand → World → Type 0
IsSound (issue req lease items issued due) w =
    (any (λ i. i.id == req.new_id) w.invoices ≡ false) × (received req.new_id w.payments ≡ 0)
IsSound (pay req code dto) w = IsWhole dto
IsSound _ w = Unit

-- Whatever handler issues, edits, voids or pays an invoice, a new invoice under an id that is not in
-- use, a payment without parts of a cent, the books of every invoice stay in order, also when it throws: its receipts and its balance
-- add up to its amount, its status fits them, and no two invoices share an id.
pub run-IsBalanced :
    (orm : Orm)
    → Documented orm
    → (c : BillingCommand) (w : World) → IsSound c w
    → IsBalanced w.db
    → IsBalanced (run orm c w).db
run-IsBalanced orm documented (issue req lease items issued due) w fresh h =
    create_for_lease-IsBalanced orm documented req lease items issued due w fresh.0 fresh.1 h
run-IsBalanced orm documented (edit code raw) w fresh h =
    update-IsBalanced orm documented code raw w h
run-IsBalanced orm documented (cancel code) w fresh h = void-IsBalanced orm documented code w h
run-IsBalanced orm documented (pay req code dto) w fresh h =
    record_payment-IsBalanced orm documented req code dto w fresh h
