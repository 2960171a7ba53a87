-- ===== src/Leases/Steps.antt =====
-- What the first steps of the transaction of `create` have done when they return.
use mentos_backend.Common.{
  ℕ, ◌≡◌, false, any, List, [], ◌∷◌, ◌++◌, map, Text, same, arith, Bool-cases, Option-cases, inl,
  inr,
}
use mentos_backend.Codes.Scheme.{lease_codes, document_codes, next_code}
use mentos_backend.Model.{Property, RentalUnit, Tenant, Lease, Invoice, World, Request}
use mentos_backend.Orm.{reference, ok}
use mentos_backend.Calendar.{plus_days}
use mentos_backend.Invoices
use mentos_backend.Invoices.{put_invoices}
use mentos_backend.Invoices.Issue.{new_invoice, create_for_lease_cases}
use mentos_backend.Documents
use mentos_backend.Documents.{External, put_documents, agreement, agreement_file, stored}
use mentos_backend.Leases.{
  NewIds, CreateLeaseDto, put_leases, new_lease, first_items, insert_lease, invoice_grace_days,
}

pub insert_lease_ok :
    (ext : External) (id : ℕ) (dto : CreateLeaseDto) (tenant : Tenant) (unit : RentalUnit)
    (w w' : World) {l : Lease}
    → insert_lease reference ext id dto tenant unit w ≡ (ok l, w')
    → (c : Text) × (any (λ r. same r.code c) w.leases ≡ false)
      × (l ≡ new_lease id dto tenant unit c)
      × (w' ≡ put_leases w (w.leases ++ new_lease id dto tenant unit c ∷ []))
unfolding insert_lease
insert_lease_ok ext id dto tenant unit w w' h =
    elim (Option-cases (next_code lease_codes (map (λ r. r.code) w.leases))) [
      | inl failed ↦ absurd (ground arith)
      | inr (c, next) ↦ elim (Bool-cases (any (λ r. same r.code c) w.leases)) [
        | inl clash ↦ absurd (ground arith)
        | inr fresh ↦ (c, fresh, ground arith, ground arith)
      ]
    ]

-- issuing the invoice has returned
pub issued_ok :
    (req : Request) (ids : NewIds) (lease : Lease) (w w' : World) {i : Invoice}
    → Invoices.create_for_lease reference
        (record req { new_id = ids.invoice })
        lease
        (first_items req.today lease)
        req.today
        (plus_days req.today invoice_grace_days)
        w
      ≡ (ok i, w')
    → (c : Text) × (i
        ≡ new_invoice
            (record req { new_id = ids.invoice })
            lease
            (first_items req.today lease)
            req.today
            (plus_days req.today invoice_grace_days)
            c)
      × (w' ≡ put_invoices w (w.invoices ++ i ∷ []))
issued_ok req ids lease w w' {i} h =
    elim (create_for_lease_cases (record req { new_id = ids.invoice }) lease
      (first_items req.today lease) req.today (plus_days req.today invoice_grace_days) w) [
        | inl (e, failed) ↦ absurd (ground arith)
        | inr (c, fresh, done) ↦ (c, ground arith, ground arith)
      ]

-- the agreement has been stored
pub agreement_ok :
    (ext : External) (id : ℕ) (lease : Lease) (tenant : Tenant) (unit : RentalUnit)
    (property : Property) (w w' : World)
    → Documents.generate_lease_agreement reference ext id lease tenant unit property w ≡ (ok tt, w')
    → (c : Text) × (w'
        ≡ record (put_documents w (
            w.documents
            ++ agreement id c lease tenant (ext.render lease tenant unit property) ∷ [])) {
              files = stored (agreement_file c (ext.render lease tenant unit property)) w.files;
            })
unfolding Documents.generate_lease_agreement
agreement_ok ext id lease tenant unit property w w' h =
    let pdf : List ℕ = ext.render lease tenant unit property in
    elim (Option-cases (next_code document_codes (map (λ r. r.code) w.documents))) [
      | inl failed ↦ absurd (ground arith)
      | inr (c, next) ↦ elim (Bool-cases (ext.accepts (agreement_file c pdf))) [
        | inr refused ↦ absurd (ground arith)
        | inl accepted ↦ elim (Bool-cases (any (λ r. same r.code c) w.documents)) [
          | inl clash ↦ absurd (ground arith)
          | inr fresh ↦ (c, ground arith)
        ]
      ]
    ]
