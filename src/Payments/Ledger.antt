-- ===== src/Payments/Ledger.antt =====
-- The books of an invoice: what its receipts add up to, its balance and its status agree, whatever
-- sequence of operations runs, one at a time.
use mentos_backend.Common.{
  ℕ, ◌+◌, ◌-◌, ◌==◌, ◌≡◌, ◌<◌, ◌≤◌, ◌⊎◌, sym, inl, inr, refl, true, false, min, ltb, Bool-cases,
  if◌then◌else◌, some, List, [], ◌∷◌, ◌++◌, first, Text, same, arith, All, All-change, All-both,
  All-first, Distinct, Distinct-first, Distinct-change, sum_by, sum_by-append, ◌∙◌,
}
use mathlib.Core.Path.{subst}
use mentos_backend.Model.{Invoice, InvoiceStatus, Payment, Db, World, Request}
use mentos_backend.Orm.{Orm, Documented, reference, orm-eq-reference, Result}
use mentos_backend.Payments.{
  RecordPaymentDto, Amount, Fraction, whole, is_zero, capped, record_payment,
}
use mentos_backend.Payments.Outcomes.{record_cases, Refused, Recorded, receipt, reduced, after}

-- what the receipts of an invoice add up to
abbrev pub received : ℕ → List Payment → ℕ
received id ps = sum_by (λ p. if p.invoice_id == id then p.amount else 0) ps

-- what a status says of the balance and the amount
abbrev pub Fits : InvoiceStatus → ℕ → ℕ → Type 0
Fits InvoiceStatus.due balance amount = balance ≡ amount
Fits InvoiceStatus.partial balance amount = (0 < balance) × (balance < amount)
Fits InvoiceStatus.paid balance amount = (balance ≡ 0) × (0 < amount)
Fits InvoiceStatus.void balance amount = balance ≡ amount

abbrev pub IsInOrder : List Payment → Invoice → Type 0
IsInOrder ps i = (received i.id ps + i.balance ≡ i.amount) × Fits i.status i.balance i.amount

pub record IsBalanced (db : Db) : Type 0 where
  pub distinct : Distinct (λ i. i.id) db.invoices
  pub in_order : All (IsInOrder db.payments) db.invoices

pub received-append :
    (id : ℕ) (ps : List Payment) (p : Payment)
    → received id (ps ++ p ∷ []) ≡ received id ps + (if p.invoice_id == id then p.amount else 0)
received-append id ps p =
    sum_by-append (λ p. if p.invoice_id == id then p.amount else 0) ps (p ∷ []) ∙ omega arith

-- the books of one invoice, when a receipt of another one is added
other-IsInOrder :
    (ps : List Payment) (p : Payment) (i : Invoice)
    → (i.id == p.invoice_id) ≡ false
    → IsInOrder ps i
    → IsInOrder (ps ++ p ∷ []) i
other-IsInOrder ps p i ne h = ground (arith, received-append i.id ps p)

-- the books of the invoice that is paid
paid-IsInOrder :
    (ps : List Payment) (p : Payment) (i : Invoice)
    → p.invoice_id ≡ i.id
    → 0 < p.amount
    → p.amount ≤ i.balance
    → IsInOrder ps i
    → IsInOrder (ps ++ p ∷ []) (reduced (whole (i.balance - p.amount)) i)
paid-IsInOrder ps p i own pos capped h = ground (arith, received-append i.id ps p)

after-IsBalanced :
    (req : Request) (inv : Invoice) (dto : RecordPaymentDto) (n : ℕ) (code c : Text) (db : Db)
    → first (λ i. same i.code code) db.invoices ≡ some inv
    → 0 < inv.balance
    → 0 < n
    → n ≤ inv.balance
    → IsBalanced db
    → IsBalanced (after req inv dto (whole n) c db)
after-IsBalanced req inv dto n code c db found owed asked covered h = record {
  distinct =
      Distinct-change (λ i. i.id) (λ i. i.id == inv.id) (reduced rest) db.invoices (λ i. refl)
        h.distinct;
  in_order =
      All-change (λ i. IsInOrder db.payments i × ((i.id == inv.id) ≡ true → i ≡ inv))
        (IsInOrder (db.payments ++ p ∷ [])) (λ i. i.id == inv.id) (reduced rest) db.invoices
        (λ i k e.
          subst (λ j. IsInOrder (db.payments ++ p ∷ []) (reduced rest j)) (sym (k.1 e))
            (paid-IsInOrder db.payments p inv refl (ground arith) (omega arith) own.0))
        (λ i k e. other-IsInOrder db.payments p i e k.0)
        (All-both (IsInOrder db.payments) (λ i. (i.id == inv.id) ≡ true → i ≡ inv) db.invoices
          h.in_order
          (Distinct-first (λ i. i.id) (λ i. same i.code code) inv db.invoices h.distinct found));
}
  where
    p : Payment
    p = receipt req inv dto (whole n) c

    rest : Amount
    rest = whole (inv.balance - n)

    own : IsInOrder db.payments inv × (same inv.code code ≡ true)
    own = All-first (IsInOrder db.payments) (λ i. same i.code code) inv db.invoices h.in_order found

-- the amount has no parts of a cent
abbrev pub IsWhole : RecordPaymentDto → Type 0
IsWhole dto = dto.amount.rest ≡ Fraction.zero_cents

pub capped-whole :
    (dto : RecordPaymentDto) (balance : ℕ)
    → IsWhole dto
    → capped dto.amount balance ≡ whole (min dto.amount.cents balance)
capped-whole dto balance exact = elim (Bool-cases (ltb dto.amount.cents balance)) [
  | inl less ↦ ground arith
  | inr covers ↦ ground arith
]

pub positive :
    (dto : RecordPaymentDto) (balance : ℕ)
    → IsWhole dto
    → 0 < balance
    → is_zero dto.amount ≡ false
    → 0 < min dto.amount.cents balance
positive dto balance exact owed asked = ground arith

-- whatever the outcome
outcome-IsBalanced :
    (req : Request) (code : Text) (dto : RecordPaymentDto) (w : World) (r : Result Payment × World)
    → IsWhole dto
    → IsBalanced w.db
    → Refused w r ⊎ Recorded req code dto w r
    → IsBalanced r.1.db
outcome-IsBalanced req code dto w r exact h (inl (e, _, same_world)) = rw same_world h
outcome-IsBalanced req code dto w r exact h (inr (inv, c, found, _, owed, asked, _, _, new, _)) =
    rw new (
      subst (λ a. IsBalanced (after req inv dto a c w.db))
        (sym (capped-whole dto inv.balance exact))
        (after-IsBalanced req inv dto (min dto.amount.cents inv.balance) code c w.db found owed
          (positive dto inv.balance exact owed asked) (omega arith) h))

reference-IsBalanced :
    (req : Request) (code : Text) (dto : RecordPaymentDto) (w : World)
    → IsWhole dto
    → IsBalanced w.db
    → IsBalanced (record_payment reference req code dto w).1.db
reference-IsBalanced req code dto w exact h =
    outcome-IsBalanced req code dto w (record_payment reference req code dto w) exact h
      (record_cases req code dto w)

-- Recording a payment of whole cents keeps the books of every invoice in order, also when it throws: its receipts
-- and its balance add up to its amount, its status fits them, and no two invoices share an id.
pub record_payment-IsBalanced :
    (orm : Orm)
    → Documented orm
    → (req : Request) (code : Text) (dto : RecordPaymentDto) (w : World) → IsWhole dto
    → IsBalanced w.db
    → IsBalanced (record_payment orm req code dto w).1.db
record_payment-IsBalanced orm documented = rw (orm-eq-reference orm documented) reference-IsBalanced
