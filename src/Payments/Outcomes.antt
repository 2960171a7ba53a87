-- ===== src/Payments/Outcomes.antt =====
-- A call of `record` either throws and changes nothing, or appends one receipt and lowers the
-- balance of the invoice.
use mentos_backend.Common.{
  ℕ, ◌==◌, ◌≡◌, ◌<◌, ◌+◌, ◌⊎◌, inl, inr, refl, ltb, false, any, change, leb, min, if◌then◌else◌,
  some, [], ◌∷◌, ◌++◌, map, first, or_else, Text, same, Option-cases, Bool-cases, arith,
}
use mentos_backend.Codes.Scheme.{payment_codes, next_code}
use mentos_backend.Model.{
  Invoice, InvoiceStatus, is_void, Payment, Table, not_found, invoice_voided, already_paid,
  bad_amount, query_failed, unique_violation, Exception, Db, World, Request,
}
use mentos_backend.Orm.{Orm, reference, Result, ok, err}
use mentos_backend.Payments.{
  RecordPaymentDto, Amount, Fraction, rounded, is_zero, capped, remaining, record_payment,
}

abbrev pub receipt : Request → Invoice → RecordPaymentDto → Amount → Text → Payment
receipt req inv dto amount code = record {
  id = req.new_id;
  code = code;
  invoice_id = inv.id;
  tenant_id = inv.tenant_id;
  amount = rounded amount;
  method = dto.method;
  date = or_else dto.date req.today;
}

abbrev pub reduced : Amount → Invoice → Invoice
reduced b i = record i {
  balance = rounded b;
  status = if is_zero b then InvoiceStatus.paid else InvoiceStatus.partial;
}

abbrev pub after : Request → Invoice → RecordPaymentDto → Amount → Text → Db → Db
after req inv dto amount code db = record db {
  payments = db.payments ++ receipt req inv dto amount code ∷ [];
  invoices = change (λ i. i.id == inv.id) (reduced (remaining inv.balance amount)) db.invoices;
}

-- the receipt is the smaller of the rounded amount and the balance; it and the new balance make up
-- the old balance, or one cent more where both are rounded up from a half
abbrev pub SharesOut : ℕ → Amount → Type 0
SharesOut balance asked =
    let paid = rounded (capped asked balance) in
    let left = rounded (remaining balance (capped asked balance)) in
    (paid ≡ min (rounded asked) balance)
    × ((paid + left ≡ balance) ⊎ ((asked.rest ≡ Fraction.half) × (paid + left ≡ balance + 1)))

shares_out : (balance : ℕ) (asked : Amount) → SharesOut balance asked
shares_out balance asked = by_rest asked.cents asked.rest
  where
    by_rest : (n : ℕ) (r : Fraction) → SharesOut balance (record { cents = n; rest = r })
    by_rest n Fraction.zero_cents = elim (Bool-cases (ltb n balance)) [
      | inl less ↦ (ground arith, inl (ground arith))
      | inr covers ↦ (ground arith, inl (ground arith))
    ]
    by_rest n Fraction.below_half = elim (Bool-cases (ltb n balance)) [
      | inl less ↦ (ground arith, inl (ground arith))
      | inr covers ↦ (ground arith, inl (ground arith))
    ]
    by_rest n Fraction.half = elim (Bool-cases (ltb n balance)) [
      | inl less ↦ (ground arith, inr (refl, ground arith))
      | inr covers ↦ (ground arith, inl (ground arith))
    ]
    by_rest n Fraction.above_half = elim (Bool-cases (ltb n balance)) [
      | inl less ↦ (ground arith, inl (ground arith))
      | inr covers ↦ (ground arith, inl (ground arith))
    ]

abbrev pub Recorded : Request → Text → RecordPaymentDto → World → Result Payment × World → Type 0
Recorded req code dto w (r, w') =
    (inv : Invoice) × (c : Text) × (first (λ i. same i.code code) w.invoices ≡ some inv)
    × (is_void inv.status ≡ false)
    × (0 < inv.balance)
    × (is_zero dto.amount ≡ false)
    × (next_code payment_codes (map (λ p. p.code) w.payments) ≡ some c)
    × (r ≡ ok (receipt req inv dto (capped dto.amount inv.balance) c))
    × (w'.db ≡ after req inv dto (capped dto.amount inv.balance) c w.db)
    × SharesOut inv.balance dto.amount

abbrev pub Refused : World → Result Payment × World → Type 0
Refused w (r, w') = (e : Exception) × (r ≡ err e) × (w' ≡ w)

pub record_cases :
    (req : Request) (code : Text) (dto : RecordPaymentDto) (w : World)
    → Refused w (record_payment reference req code dto w)
      ⊎ Recorded req code dto w (record_payment reference req code dto w)
unfolding record_payment
record_cases req code dto w = elim (Option-cases (first (λ i. same i.code code) w.invoices)) [
  | inl missing ↦ inl (not_found Table.invoice code, ground arith, ground arith)
  | inr (inv, found) ↦ elim (Bool-cases (is_void inv.status)) [
    | inl voided ↦ inl (invoice_voided, ground arith, ground arith)
    | inr valid ↦ elim (Bool-cases (leb inv.balance 0)) [
      | inl paid ↦ inl (already_paid, ground arith, ground arith)
      | inr owed ↦ elim (Bool-cases (is_zero (capped dto.amount inv.balance))) [
        | inl bad ↦ inl (bad_amount, ground arith, ground arith)
        | inr good ↦ elim (Option-cases (next_code payment_codes (map (λ p. p.code) w.payments))) [
          | inl failed ↦ inl (query_failed, ground arith, ground arith)
          | inr (c, next) ↦ elim (Bool-cases (any (λ p. same p.code c) w.payments)) [
            | inl clash ↦ inl (unique_violation, ground arith, ground arith)
            | inr fresh ↦ inr (
              inv,
              c,
              found,
              valid,
              ground arith,
              ground arith,
              next,
              ground arith,
              ground arith,
              shares_out inv.balance dto.amount,
            )
          ]
        ]
      ]
    ]
  ]
]
