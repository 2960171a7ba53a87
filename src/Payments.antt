-- ===== src/Payments.antt =====
-- payments/payments.service.ts
pub mod Outcomes
pub mod Ledger
pub mod Race
use mentos_backend.Common.{
  ℕ, ◌+◌, ◌-◌, ◌==◌, ◌&&◌, Bool, ltb, leb, if◌then◌else◌, Option, none, some, List, [], ◌∷◌, map,
  first, or_else, Text, text, same,
}
use mentos_backend.Calendar.{Date}
use mentos_backend.Codes.Scheme.{payment_codes}
use mentos_backend.Money.{money_label}
use mentos_backend.Model.{
  Invoice, InvoiceStatus, is_void, Payment, Tenant, Property, Table, not_found, invoice_voided,
  already_paid, bad_amount, NotificationType, World, Request,
}
use mentos_backend.Orm.{
  Orm, Exec, pure, gets, modify, or_throw, throw_if, or_unique, allocate_code, fire_trigger, ◌>>=◌,
  ◌>>◌,
}
use mentos_backend.Invoices

-- what a number of cents has beyond its whole part
pub data Fraction : Type 0 where
  zero_cents below_half half above_half : Fraction

-- An amount of money as the request and JavaScript's numbers hold it, with parts of a cent: where
-- they lie is all that rounding sees of them.
pub record Amount : Type 0 where
  pub cents : ℕ
  pub rest : Fraction

abbrev pub whole : ℕ → Amount
whole n = record { cents = n; rest = Fraction.zero_cents }

abbrev nearest : ℕ → Fraction → ℕ
nearest n Fraction.zero_cents = n
nearest n Fraction.below_half = n
nearest n Fraction.half = n + 1
nearest n Fraction.above_half = n + 1

-- what a decimal(12,2) column holds of an amount: a half is rounded up
abbrev pub rounded : Amount → ℕ
rounded a = nearest a.cents a.rest

abbrev has_no_rest : Fraction → Bool
has_no_rest Fraction.zero_cents = Bool.true
has_no_rest _ = Bool.false

-- amount <= 0
abbrev pub is_zero : Amount → Bool
is_zero a = a.cents == 0 && has_no_rest a.rest

-- Math.min(requested, balance)
abbrev pub capped : Amount → ℕ → Amount
capped a balance = if ltb a.cents balance then a else whole balance

-- balance - amount, where the amount is at most the balance
abbrev subtract : ℕ → ℕ → Fraction → Amount
subtract balance n Fraction.zero_cents = whole (balance - n)
subtract balance n Fraction.below_half = record {
  cents = balance - n - 1;
  rest = Fraction.above_half;
}
subtract balance n Fraction.half = record { cents = balance - n - 1; rest = Fraction.half }
subtract balance n Fraction.above_half = record {
  cents = balance - n - 1;
  rest = Fraction.below_half;
}

abbrev pub remaining : ℕ → Amount → Amount
remaining balance a = subtract balance a.cents a.rest

-- the validated request: the amount is at least 0.01, and may have parts of a cent
pub record RecordPaymentDto : Type 0 where
  pub amount : Amount
  pub method : Text
  pub date : Option Date

abbrev name_of : Option Tenant → Text
name_of none = text ""
name_of (some t) = t.name

abbrev property_name_of : Option Property → Text
property_name_of none = text ""
property_name_of (some p) = p.name

abbrev pub put_payments : World → List Payment → World
put_payments w t = record w { db = record w.db { payments = t } }

module _ (orm : Orm) where
  unfoldable pub find_by_code_or_fail : Text → Exec Payment
  find_by_code_or_fail code = do
    found ← gets (λ w. orm.find_one (λ p. same p.code code) w.payments)
    or_throw (not_found Table.payment code) found

  unfoldable pub find_by_invoice_code : Text → Exec (List Payment)
  unfolding Invoices.find_by_code_or_fail
  find_by_invoice_code code = do
    invoice ← Invoices.find_by_code_or_fail orm code
    gets (λ w. orm.find (λ p. p.invoice_id == invoice.id) w.payments)

  -- the checks of `record` on the invoice that it has read, and the amount that they settle on
  unfoldable pub settle_amount : Invoice → RecordPaymentDto → Exec Amount
  settle_amount invoice dto = do
    throw_if (is_void invoice.status) invoice_voided
    throw_if (leb invoice.balance 0) already_paid
    let amount = capped dto.amount invoice.balance
    throw_if (is_zero amount) bad_amount
    pure amount

  -- the body of the transaction: the new balance is computed from the invoice that was read
  -- before the transaction began, and its status from the amount before it is rounded
  unfoldable pub write_payment : Request → Invoice → RecordPaymentDto → Amount → Exec Payment
  unfolding allocate_code Invoices.update_row
  write_payment req invoice dto amount = do
    codes ← gets (λ w. map (λ p. p.code) w.payments)
    code ← allocate_code payment_codes codes
    let payment : Payment = record {
      id = req.new_id;
      code = code;
      invoice_id = invoice.id;
      tenant_id = invoice.tenant_id;
      amount = rounded amount;
      method = dto.method;
      date = or_else dto.date req.today;
    }
    rows ← gets (λ w. orm.insert (λ p. same p.code code) payment w.payments)
    saved ← or_unique rows
    modify (λ w. put_payments w saved)
    let new_balance = remaining invoice.balance amount
    Invoices.update_row orm invoice.id (λ i. record i {
      balance = rounded new_balance;
      status = if is_zero new_balance then InvoiceStatus.paid else InvoiceStatus.partial;
    })
    pure payment

  -- the 'payment-received' notification; its label rounds to shillings, for which the whole cents
  -- of the amount are enough
  unfoldable pub announce : Invoice → Amount → Exec Unit
  announce invoice amount = do
    tenant ← gets (λ w. orm.find_one (λ t. t.id == invoice.tenant_id) w.tenants)
    property ← gets (λ w. orm.find_one (λ p. p.id == invoice.property_id) w.properties)
    fire_trigger (record {
      key = text "payment-received";
      vars =
          (text "tenant_name", name_of tenant)
          ∷ (text "amount", money_label amount.cents)
          ∷ (text "property_name", property_name_of property)
          ∷ [];
      type = NotificationType.payment;
      icon = text "banknote";
    })

  -- PaymentsService.record
  unfoldable pub record_payment : Request → Text → RecordPaymentDto → Exec Payment
  unfolding Invoices.find_by_code_or_fail settle_amount write_payment announce
  record_payment req invoice_code dto = do
    invoice ← Invoices.find_by_code_or_fail orm invoice_code
    amount ← settle_amount invoice dto
    result ← orm.transaction (write_payment req invoice dto amount)
    announce invoice amount
    pure result
