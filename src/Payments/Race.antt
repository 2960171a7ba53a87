-- ===== src/Payments/Race.antt =====
-- Two requests that pay the same invoice: `record` reads the invoice before its transaction, so
-- both may see the same balance.
use mathlib.Core.Path.{subst}
use mentos_backend.Common.{
  ◌+◌, ◌-◌, ◌==◌, ◌≡◌, ◌<◌, ◌≤◌, refl, sym, ap, ◌∙◌, min, change, some, List, [], ◌∷◌, ◌++◌, map,
  first, false, Text, same, arith, All-first, first-change, ==_refl, Bool-cases, Option-cases, inl,
  inr, any, leb,
}
use mentos_backend.Codes.Scheme.{payment_codes, next_code}
use mentos_backend.Model.{Invoice, Payment, Db, World, Request, is_void}
use mentos_backend.Orm.{
  Orm, Documented, reference, orm-eq-reference, ok, Exec, Outcome-cases, ◌>>=◌, ◌>>◌,
}
use mentos_backend.Invoices
use mentos_backend.Payments.{
  RecordPaymentDto, Amount, rounded, is_zero, capped, remaining, settle_amount, write_payment,
}
use mentos_backend.Payments.Outcomes.{receipt, reduced}
use mentos_backend.Payments.Ledger.{
  received, IsWhole, capped-whole, positive, IsInOrder, IsBalanced, received-append,
}

-- The two calls, with both reads before both transactions.
unfoldable pub both_read :
    Orm → Request → Request → Text → RecordPaymentDto → RecordPaymentDto → Exec Payment
both_read orm req1 req2 code dto1 dto2 = do
  invoice1 ← Invoices.find_by_code_or_fail orm code
  amount1 ← settle_amount orm invoice1 dto1
  invoice2 ← Invoices.find_by_code_or_fail orm code
  amount2 ← settle_amount orm invoice2 dto2
  orm.transaction (write_payment orm req1 invoice1 dto1 amount1)
  orm.transaction (write_payment orm req2 invoice2 dto2 amount2)

abbrev both :
    Request → Request → Invoice → RecordPaymentDto → RecordPaymentDto → Text → Text → Db → Db
both req1 req2 inv dto1 dto2 c1 c2 db = record db {
  payments =
      (db.payments ++ receipt req1 inv dto1 (capped dto1.amount inv.balance) c1 ∷ [])
      ++ receipt req2 inv dto2 (capped dto2.amount inv.balance) c2 ∷ [];
  invoices =
      change (λ i. i.id == inv.id)
        (reduced (remaining inv.balance (capped dto2.amount inv.balance)))
        (change (λ i. i.id == inv.id)
          (reduced (remaining inv.balance (capped dto1.amount inv.balance))) db.invoices);
}

-- a payment that is settled is due, and asked for
settled :
    (inv : Invoice) (dto : RecordPaymentDto) (w w' : World) {n : Amount}
    → settle_amount reference inv dto w ≡ (ok n, w')
    → (w' ≡ w)
      × (n ≡ capped dto.amount inv.balance)
      × (0 < inv.balance)
      × (is_zero dto.amount ≡ false)
unfolding settle_amount
settled inv dto w w' h = elim (Bool-cases (is_void inv.status)) [
  | inl voided ↦ absurd (ground arith)
  | inr valid ↦ elim (Bool-cases (leb inv.balance 0)) [
    | inl paid ↦ absurd (ground arith)
    | inr owed ↦ elim (Bool-cases (is_zero (capped dto.amount inv.balance))) [
      | inl bad ↦ absurd (ground arith)
      | inr good ↦ (ground arith, ground arith, ground arith, ground arith)
    ]
  ]
]

abbrev written : Request → Invoice → RecordPaymentDto → Text → World → World
written req inv dto c w = record w {
  db = record w.db {
    payments = w.payments ++ receipt req inv dto (capped dto.amount inv.balance) c ∷ [];
    invoices =
        change (λ i. i.id == inv.id)
          (reduced (remaining inv.balance (capped dto.amount inv.balance))) w.invoices;
  };
}

write_payment_ok :
    (req : Request) (inv : Invoice) (dto : RecordPaymentDto) (w w' : World) {p : Payment}
    → reference.transaction (write_payment reference req inv dto (capped dto.amount inv.balance)) w
      ≡ (ok p, w')
    → (c : Text) × (w' ≡ written req inv dto c w)
unfolding write_payment
write_payment_ok req inv dto w w' h =
    elim (Option-cases (next_code payment_codes (map (λ p. p.code) w.payments))) [
      | inl failed ↦ absurd (ground arith)
      | inr (c, next) ↦ elim (Bool-cases (any (λ p. same p.code c) w.payments)) [
        | inl clash ↦ absurd (ground arith)
        | inr fresh ↦ (c, ground arith)
      ]
    ]

found_ok :
    (code : Text) (w w' : World) {inv : Invoice}
    → Invoices.find_by_code_or_fail reference code w ≡ (ok inv, w')
    → (w' ≡ w) × (first (λ i. same i.code code) w.invoices ≡ some inv)
unfolding Invoices.find_by_code_or_fail
found_ok code w w' h = ground arith

abbrev both_write : Request → Request → Invoice → RecordPaymentDto → RecordPaymentDto → Exec Payment
both_write req1 req2 inv dto1 dto2 = do
  reference.transaction (write_payment reference req1 inv dto1 (capped dto1.amount inv.balance))
  reference.transaction (write_payment reference req2 inv dto2 (capped dto2.amount inv.balance))

both_write_ok :
    (req1 req2 : Request) (inv : Invoice) (dto1 dto2 : RecordPaymentDto) (w : World) {p : Payment}
    → (both_write req1 req2 inv dto1 dto2 w).0 ≡ ok p
    → (c1 : Text) × (c2 : Text) × ((both_write req1 req2 inv dto1 dto2 w).1
        ≡ written req2 inv dto2 c2 (written req1 inv dto1 c1 w))
both_write_ok req1 req2 inv dto1 dto2 w {p} done =
    elim (Outcome-cases (
      reference.transaction (write_payment reference req1 inv dto1 (capped dto1.amount inv.balance))
        w)) [
          | inr (e, w1, h1) ↦ absurd (ground arith)
          | inl (p1, w1, h1) ↦
              elim (Outcome-cases (
                reference.transaction
                  (write_payment reference req2 inv dto2 (capped dto2.amount inv.balance)) w1)) [
                    | inr (e, w2, h2) ↦ absurd (ground arith)
                    | inl (p2, w2, h2) ↦
                        let (c1, e1) = write_payment_ok req1 inv dto1 w w1 {p = p1} h1 in
                        let (c2, e2) = write_payment_ok req2 inv dto2 w1 w2 {p = p2} h2 in
                        (c1, c2, ground arith)
                  ]
        ]

-- the two calls, once both have read
read_then_write :
    (req1 req2 : Request) (code : Text) (dto1 dto2 : RecordPaymentDto) (w : World) (inv : Invoice)
    → Invoices.find_by_code_or_fail reference code w ≡ (ok inv, w)
    → settle_amount reference inv dto1 w ≡ (ok (capped dto1.amount inv.balance), w)
    → settle_amount reference inv dto2 w ≡ (ok (capped dto2.amount inv.balance), w)
    → both_read reference req1 req2 code dto1 dto2 w ≡ both_write req1 req2 inv dto1 dto2 w
unfolding both_read
read_then_write req1 req2 code dto1 dto2 w inv h1 h2 h3 = ground arith

-- Both calls return: each has read the same invoice, and the second has overwritten the balance.
both_read_ok :
    (req1 req2 : Request) (code : Text) (dto1 dto2 : RecordPaymentDto) (w : World) {p : Payment}
    → (both_read reference req1 req2 code dto1 dto2 w).0 ≡ ok p
    → (inv : Invoice) × (c1 : Text) × (c2 : Text) × (first (λ i. same i.code code) w.invoices
        ≡ some inv)
      × (0 < inv.balance)
      × (is_zero dto1.amount ≡ false)
      × (is_zero dto2.amount ≡ false)
      × ((both_read reference req1 req2 code dto1 dto2 w).1
          ≡ written req2 inv dto2 c2 (written req1 inv dto1 c1 w))
unfolding both_read
both_read_ok req1 req2 code dto1 dto2 w {p} done =
    elim (Outcome-cases (Invoices.find_by_code_or_fail reference code w)) [
      | inr (e, w1, h1) ↦ absurd (ground arith)
      | inl (inv, w1, h1) ↦ elim (Outcome-cases (settle_amount reference inv dto1 w)) [
        | inr (e, w2, h2) ↦ absurd (ground (arith, found_ok code w w1 {inv = inv} h1))
        | inl (a1, w2, h2) ↦ elim (Outcome-cases (settle_amount reference inv dto2 w)) [
          | inr (e, w3, h3) ↦
              absurd (
                ground
                  (arith, found_ok code w w1 {inv = inv} h1, settled inv dto1 w w2 {n = a1} h2))
          | inl (a2, w3, h3) ↦
              let (e1, found) = found_ok code w w1 {inv = inv} h1 in
              let (e2, n1, owed, asked1) = settled inv dto1 w w2 {n = a1} h2 in
              let (e3, n2, _, asked2) = settled inv dto2 w w3 {n = a2} h3 in
              let same_run : both_read reference req1 req2 code dto1 dto2 w
                  ≡ both_write req1 req2 inv dto1 dto2 w =
                read_then_write req1 req2 code dto1 dto2 w inv (h1 ∙ λ i. (ok inv, e1 i))
                  (h2 ∙ λ i. (ok (n1 i), e2 i)) (h3 ∙ λ i. (ok (n2 i), e3 i)) in
              let (c1, c2, e) =
                both_write_ok req1 req2 inv dto1 dto2 w {p = p}
                  (ap (λ r. r.0) (sym same_run) ∙ done) in
              (inv, c1, c2, found, owed, asked1, asked2, ap (λ r. r.1) same_run ∙ e)
        ]
      ]
    ]

-- both receipts count in full, the balance only loses the second one
two_receipts :
    (ps : List Payment) (inv : Invoice) (p1 p2 : Payment)
    → p1.invoice_id ≡ inv.id
    → p2.invoice_id ≡ inv.id
    → p2.amount ≤ inv.balance
    → received inv.id ps + inv.balance ≡ inv.amount
    → received inv.id ((ps ++ p1 ∷ []) ++ p2 ∷ []) + (inv.balance - p2.amount)
      ≡ inv.amount + p1.amount
two_receipts ps inv p1 p2 own1 own2 capped books =
    ground (arith, received-append inv.id ps p1, received-append inv.id (ps ++ p1 ∷ []) p2)

module _ (req1 req2 : Request) (code : Text) (dto1 dto2 : RecordPaymentDto) (w : World) where
  -- the invoice and its receipts afterwards, against the invoice before
  abbrev pub Overpaid : World → Type 0
  Overpaid w' =
      (inv : Invoice) × (inv' : Invoice) × (first (λ i. same i.code code) w.invoices ≡ some inv)
      × (first (λ i. same i.code code) w'.invoices ≡ some inv')
      × (received inv.id w'.payments + inv'.balance
          ≡ inv.amount + min dto1.amount.cents inv.balance)
      × (inv.amount < received inv.id w'.payments + inv'.balance)

  lost_update_of_ok :
      {p : Payment}
      → IsWhole dto1
      → IsWhole dto2
      → (both_read reference req1 req2 code dto1 dto2 w).0 ≡ ok p
      → IsBalanced w.db
      → Overpaid (both_read reference req1 req2 code dto1 dto2 w).1
  lost_update_of_ok {p} exact1 exact2 done h =
      let (inv, c1, c2, found, owed, asked1, asked2, e) =
        both_read_ok req1 req2 code dto1 dto2 w {p = p} done in
      let m1 : Amount = capped dto1.amount inv.balance in
      let m2 : Amount = capped dto2.amount inv.balance in
      let n1 : rounded m1 ≡ min dto1.amount.cents inv.balance =
        ap rounded (capped-whole dto1 inv.balance exact1) in
      let n2 : rounded m2 ≡ min dto2.amount.cents inv.balance =
        ap rounded (capped-whole dto2 inv.balance exact2) in
      let left : rounded (remaining inv.balance m2) ≡ inv.balance - rounded m2 =
        ap (λ a. rounded (remaining inv.balance a)) (capped-whole dto2 inv.balance exact2)
        ∙ ap (λ n. inv.balance - n) (sym n2) in
      let p1 = receipt req1 inv dto1 (capped dto1.amount inv.balance) c1 in
      let p2 = receipt req2 inv dto2 (capped dto2.amount inv.balance) c2 in
      let own =
        All-first (IsInOrder w.payments) (λ i. same i.code code) inv w.invoices h.in_order found in
      let once =
        first-change (λ i. same i.code code) (λ i. i.id == inv.id)
          (reduced (remaining inv.balance m1)) inv w.invoices (λ i. refl) (==_refl inv.id) found in
      let twice =
        first-change (λ i. same i.code code) (λ i. i.id == inv.id)
          (reduced (remaining inv.balance m2)) (reduced (remaining inv.balance m1) inv)
          (change (λ i. i.id == inv.id) (reduced (remaining inv.balance m1)) w.invoices) (λ i. refl)
          (==_refl inv.id) once in
      let sum =
        ap (λ b. received inv.id ((w.payments ++ p1 ∷ []) ++ p2 ∷ []) + b) left
        ∙ two_receipts w.payments inv p1 p2 refl refl (omega arith) own.0.0
        ∙ ap (λ n. inv.amount + n) n1 in
      let more : inv.amount < inv.amount + min dto1.amount.cents inv.balance =
        omega (arith, positive dto1 inv.balance exact1 owed asked1) in
      rw e (
        inv,
        reduced (remaining inv.balance m2) (reduced (remaining inv.balance m1) inv),
        found,
        twice,
        sum,
        subst (λ n. inv.amount < n) (sym sum) more,
      )

lost_update_reference :
    (req1 req2 : Request) (code : Text) (dto1 dto2 : RecordPaymentDto) (w : World) (p : Payment)
    → IsWhole dto1
    → IsWhole dto2
    → (both_read reference req1 req2 code dto1 dto2 w).0 ≡ ok p
    → IsBalanced w.db
    → Overpaid req1 req2 code dto1 dto2 w (both_read reference req1 req2 code dto1 dto2 w).1
lost_update_reference req1 req2 code dto1 dto2 w p exact1 exact2 done h =
    lost_update_of_ok req1 req2 code dto1 dto2 w {p = p} exact1 exact2 done h

-- If two payments of whole cents for one invoice both read it before either is written, and both succeed, the
-- balance forgets the first one: receipts and balance together exceed the amount of the invoice by
-- exactly what the first payment took.
pub both_read-Overpaid :
    (orm : Orm)
    → Documented orm
    → (req1 req2 : Request) (code : Text) (dto1 dto2 : RecordPaymentDto) (w : World) (p : Payment)
    → IsWhole dto1
    → IsWhole dto2
    → (both_read orm req1 req2 code dto1 dto2 w).0 ≡ ok p
    → IsBalanced w.db
    → Overpaid req1 req2 code dto1 dto2 w (both_read orm req1 req2 code dto1 dto2 w).1
both_read-Overpaid orm documented = rw (orm-eq-reference orm documented) lost_update_reference
