-- ===== src/Invoices.antt =====
-- invoices/invoices.service.ts, with the line items of the update request as JSON values.
pub mod Items
pub mod Books
pub mod Commands
pub mod Issue
use mentos_backend.Common.{
  ℕ, ◌+◌, ◌==◌, not, Option, none, some, List, [], ◌∷◌, map, sum_by, Text, same,
}
use mentos_backend.Calendar.{Date}
use mentos_backend.Codes.Scheme.{invoice_codes}
use mentos_backend.Model.{
  Lease, Invoice, InvoiceLineItem, InvoiceStatus, is_void, Table, not_found, invoice_voided,
  payment_recorded, World, Request,
}
use mentos_backend.Orm.{
  Orm, Exec, pure, gets, modify, or_throw, throw_if, or_unique, allocate_code, ◌>>=◌, ◌>>◌,
}
use Items.{Json, parse_items}

abbrev pub total : List InvoiceLineItem → ℕ
total items = sum_by (λ item. item.amount) items

abbrev pub put_invoices : World → List Invoice → World
put_invoices w t = record w { db = record w.db { invoices = t } }

module _ (orm : Orm) where
  unfoldable pub find_by_code_or_fail : Text → Exec Invoice
  find_by_code_or_fail code = do
    found ← gets (λ w. orm.find_one (λ i. same i.code code) w.invoices)
    or_throw (not_found Table.invoice code) found

  -- `repository.update(id, patch)`
  unfoldable pub update_row : ℕ → (Invoice → Invoice) → Exec Unit
  update_row id patch = modify (λ w. put_invoices w (orm.update (λ i. i.id == id) patch w.invoices))

  -- runs in the transaction of its caller, LeasesService.create
  unfoldable pub create_for_lease :
      Request → Lease → List InvoiceLineItem → Date → Date → Exec Invoice
  unfolding allocate_code
  create_for_lease req lease items issued due = do
    codes ← gets (λ w. map (λ i. i.code) w.invoices)
    code ← allocate_code invoice_codes codes
    let amount = total items
    let invoice : Invoice = record {
      id = req.new_id;
      code = code;
      tenant_id = lease.tenant_id;
      lease_id = lease.id;
      property_id = lease.property_id;
      issued = issued;
      due = due;
      amount = amount;
      balance = amount;
      status = InvoiceStatus.due;
      items = items;
      overdue_notified_at = none;
    }
    rows ← gets (λ w. orm.insert (λ i. same i.code code) invoice w.invoices)
    saved ← or_unique rows
    modify (λ w. put_invoices w saved)
    pure invoice

  -- PATCH /invoices/:code, whose reply is the row as it is read back
  unfoldable pub update : Text → List Json → Exec Invoice
  unfolding find_by_code_or_fail update_row parse_items
  update code raw = do
    invoice ← find_by_code_or_fail code
    throw_if (is_void invoice.status) invoice_voided
    throw_if (not (invoice.balance == invoice.amount)) payment_recorded
    items ← parse_items raw
    let amount = total items
    update_row invoice.id (λ i. record i { items = items; amount = amount; balance = amount })
    find_by_code_or_fail code

  -- POST /invoices/:code/void
  unfoldable pub void : Text → Exec Invoice
  unfolding find_by_code_or_fail update_row
  void code = do
    invoice ← find_by_code_or_fail code
    throw_if (is_void invoice.status) invoice_voided
    throw_if (not (invoice.balance == invoice.amount)) payment_recorded
    update_row invoice.id (λ i. record i { status = InvoiceStatus.void })
    find_by_code_or_fail code
