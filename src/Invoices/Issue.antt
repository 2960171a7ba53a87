-- ===== src/Invoices/Issue.antt =====
-- Issuing the first invoice of a lease keeps the books in order.
use mentos_backend.Common.{
  ◌==◌, ◌≡◌, ◌⊎◌, inl, inr, refl, false, any, none, List, [], ◌∷◌, ◌++◌, map, Text, same, arith,
  All-append, Distinct-append, Option-cases, Bool-cases,
}
use mentos_backend.Calendar.{Date}
use mentos_backend.Codes.Scheme.{next_code, invoice_codes}
use mentos_backend.Model.{
  Invoice, InvoiceLineItem, InvoiceStatus, Lease, Payment, World, Request, Exception, query_failed,
  unique_violation,
}
use mentos_backend.Orm.{Orm, Documented, reference, orm-eq-reference, Result, ok, err}
use mentos_backend.Invoices.{total, put_invoices, create_for_lease}
use mentos_backend.Payments.Ledger.{received, IsInOrder, IsBalanced}

issued-IsInOrder :
    (ps : List Payment) (i : Invoice)
    → received i.id ps ≡ 0
    → i.balance ≡ i.amount
    → i.status ≡ InvoiceStatus.due
    → IsInOrder ps i
issued-IsInOrder ps i h e d = ground arith

abbrev pub new_invoice : Request → Lease → List InvoiceLineItem → Date → Date → Text → Invoice
new_invoice req lease items issued due code = record {
  id = req.new_id;
  code = code;
  tenant_id = lease.tenant_id;
  lease_id = lease.id;
  property_id = lease.property_id;
  issued = issued;
  due = due;
  amount = total items;
  balance = total items;
  status = InvoiceStatus.due;
  items = items;
  overdue_notified_at = none;
}

module _ (req : Request) (lease : Lease) (items : List InvoiceLineItem) (issued due : Date)
    (w : World) where
  -- what issuing an invoice does: nothing, or one row with a new code
  abbrev pub Issues : Result Invoice × World → Type 0
  Issues r =
      ((e : Exception) × (r ≡ (err e, w)))
      ⊎ ((code : Text) × (any (λ i. same i.code code) w.invoices ≡ false)
          × (r ≡ (
            ok (new_invoice req lease items issued due code),
            put_invoices w (w.invoices ++ new_invoice req lease items issued due code ∷ []),
          )))

  pub create_for_lease_cases : Issues (create_for_lease reference req lease items issued due w)
  unfolding create_for_lease
  create_for_lease_cases =
      elim (Option-cases (next_code invoice_codes (map (λ i. i.code) w.invoices))) [
        | inl failed ↦ inl (query_failed, ground arith)
        | inr (code, next) ↦ elim (Bool-cases (any (λ i. same i.code code) w.invoices)) [
          | inl clash ↦ inl (unique_violation, ground arith)
          | inr fresh ↦ inr (code, fresh, ground arith)
        ]
      ]

  Issues-IsBalanced :
      (r : Result Invoice × World)
      → any (λ i. i.id == req.new_id) w.invoices ≡ false
      → received req.new_id w.payments ≡ 0
      → IsBalanced w.db
      → Issues r
      → IsBalanced r.1.db
  Issues-IsBalanced r new_row unpaid h (inl (e, same_world)) = rw same_world h
  Issues-IsBalanced r new_row unpaid h (inr (code, fresh, new)) =
      let inv = new_invoice req lease items issued due code in
      rw new (record {
        distinct = Distinct-append (λ i. i.id) inv w.invoices new_row h.distinct;
        in_order =
            All-append (IsInOrder w.payments) w.invoices (inv ∷ []) h.in_order
              (issued-IsInOrder w.payments inv unpaid refl refl, tt);
      })

create_reference :
    (req : Request) (lease : Lease) (items : List InvoiceLineItem) (issued due : Date) (w : World)
    → any (λ i. i.id == req.new_id) w.invoices ≡ false
    → received req.new_id w.payments ≡ 0
    → IsBalanced w.db
    → IsBalanced (create_for_lease reference req lease items issued due w).1.db
create_reference req lease items issued due w new_row unpaid h =
    Issues-IsBalanced req lease items issued due w
      (create_for_lease reference req lease items issued due w) new_row unpaid h
      (create_for_lease_cases req lease items issued due w)

-- Issuing the first invoice of a lease, under an id that no invoice and no receipt has, keeps the
-- books of every invoice in order, also when it throws.
pub create_for_lease-IsBalanced :
    (orm : Orm)
    → Documented orm
    → (req : Request) (lease : Lease) (items : List InvoiceLineItem) (issued due : Date) (w : World)
    → any (λ i. i.id == req.new_id) w.invoices ≡ false
    → received req.new_id w.payments ≡ 0
    → IsBalanced w.db
    → IsBalanced (create_for_lease orm req lease items issued due w).1.db
create_for_lease-IsBalanced orm documented = rw (orm-eq-reference orm documented) create_reference
