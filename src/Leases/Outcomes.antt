-- ===== src/Leases/Outcomes.antt =====
-- What a call of `create` has done when it returns, and that it has changed no table when it throws.
use mentos_backend.Common.{
  ℕ, ◌==◌, ◌≡◌, sym, ap, ◌∙◌, false, any, first, change, some, List, [], ◌∷◌, ◌++◌, Text, same,
  arith, Option-cases, inl, inr,
}
use mentos_backend.Model.{
  Property, RentalUnit, UnitStatus, Tenant, TenantStatus, Lease, Invoice, Document, StoredFile,
  World, Request,
}
use mentos_backend.Orm.{reference, ok, Outcome-cases}
use mentos_backend.Calendar.{plus_days}
use mentos_backend.Units
use mentos_backend.Units.{put_units}
use mentos_backend.Tenants
use mentos_backend.Tenants.{put_tenants}
use mentos_backend.Invoices
use mentos_backend.Invoices.{put_invoices}
use mentos_backend.Invoices.Issue.{new_invoice}
use mentos_backend.Documents
use mentos_backend.Documents.{External, put_documents, agreement, agreement_file, stored}
use mentos_backend.Leases.{
  NewIds, CreateLeaseDto, put_leases, new_lease, first_items, insert_lease, finish_lease,
  write_lease, invoice_grace_days,
}
use mentos_backend.Leases.Steps.{insert_lease_ok, issued_ok, agreement_ok}

abbrev pub seated : ℕ → RentalUnit → RentalUnit
seated tenant_id u = record u { tenant_id = some tenant_id; status = UnitStatus.occupied }

abbrev pub housed : ℕ → ℕ → Tenant → Tenant
housed unit_id property_id t = record t {
  status = TenantStatus.active;
  unit_id = some unit_id;
  property_id = some property_id;
}

-- the rows that a lease writes
abbrev pub leased : World → Lease → Invoice → Document → StoredFile → World
leased w l i d f = record w {
  db = record w.db {
    leases = w.leases ++ l ∷ [];
    invoices = w.invoices ++ i ∷ [];
    units = change (λ u. u.id == l.unit_id) (seated l.tenant_id) w.units;
    tenants = change (λ t. t.id == l.tenant_id) (housed l.unit_id l.property_id) w.tenants;
    documents = w.documents ++ d ∷ [];
  };
  files = stored f w.files;
}

-- the tables once the transaction of `create` has committed
abbrev pub with_lease :
    External
    → Request
    → NewIds
    → Tenant
    → RentalUnit
    → Property
    → World
    → Text
    → Text
    → Lease
    → World
with_lease ext req ids tenant unit property w ci cd l =
    leased w l
      (new_invoice (record req { new_id = ids.invoice }) l (first_items req.today l) req.today
        (plus_days req.today invoice_grace_days) ci)
      (agreement ids.document cd l tenant (ext.render l tenant unit property))
      (agreement_file cd (ext.render l tenant unit property))

-- everything that `write_lease` has done when it returns
abbrev pub Written :
    External
    → Request
    → NewIds
    → CreateLeaseDto
    → Tenant
    → RentalUnit
    → World
    → Lease
    → World
    → Type 0
Written ext req ids dto tenant unit w l w' =
    (c : Text) × (ci : Text) × (cd : Text) × (property : Property) × (any (λ r. same r.code c)
        w.leases
      ≡ false)
    × (l ≡ new_lease ids.lease dto tenant unit c)
    × (first (λ p. p.id == unit.property_id) w.properties ≡ some property)
    × (w' ≡ with_lease ext req ids tenant unit property w ci cd l)

-- the updates of the unit and of the tenant
abbrev moved_in : Lease → World → World
moved_in l w = record w {
  db = record w.db {
    units = change (λ u. u.id == l.unit_id) (seated l.tenant_id) w.units;
    tenants = change (λ t. t.id == l.tenant_id) (housed l.unit_id l.property_id) w.tenants;
  };
}

-- what the statements after the invoice write
abbrev finished : ℕ → Tenant → Text → List ℕ → Lease → World → World
finished id tenant cd pdf l w =
    record (put_documents (moved_in l w) (w.documents ++ agreement id cd l tenant pdf ∷ [])) {
      files = stored (agreement_file cd pdf) w.files;
    }

-- the three stretches of the transaction, put together
stretches :
    (ext : External) (req : Request) (ids : NewIds) (tenant : Tenant) (unit : RentalUnit)
    (property : Property) (w w1 w2 w' : World) (ci cd : Text) (i : Invoice) (l l1 : Lease)
    → w1 ≡ put_leases w (w.leases ++ l1 ∷ [])
    → w2 ≡ put_invoices w1 (w1.invoices ++ i ∷ [])
    → i
      ≡ new_invoice
          (record req { new_id = ids.invoice })
          l1
          (first_items req.today l1)
          req.today
          (plus_days req.today invoice_grace_days)
          ci
    → w' ≡ finished ids.document tenant cd (ext.render l1 tenant unit property) l1 w2
    → l ≡ l1
    → w' ≡ with_lease ext req ids tenant unit property w ci cd l
stretches ext req ids tenant unit property w w1 w2 w' ci cd i l l1 e1 e2 ei e3 back =
    let pdf : List ℕ = ext.render l1 tenant unit property in
    e3
    ∙ ap (finished ids.document tenant cd pdf l1)
        (e2 ∙ ap (λ v. put_invoices v (v.invoices ++ i ∷ [])) e1)
    ∙ ap (λ j. leased w l1 j (agreement ids.document cd l1 tenant pdf) (agreement_file cd pdf)) ei
    ∙ ap (with_lease ext req ids tenant unit property w ci cd) (sym back)

same_properties :
    (unit : RentalUnit) (w w1 w2 : World) (l : Lease) (i : Invoice) (property : Property)
    → w1 ≡ put_leases w (w.leases ++ l ∷ [])
    → w2 ≡ put_invoices w1 (w1.invoices ++ i ∷ [])
    → first (λ p. p.id == unit.property_id) w2.properties ≡ some property
    → first (λ p. p.id == unit.property_id) w.properties ≡ some property
same_properties unit w w1 w2 l i property e1 e2 found =
    ap (λ v. first (λ p. p.id == unit.property_id) v.properties)
      (sym (e2 ∙ ap (λ v. put_invoices v (v.invoices ++ i ∷ [])) e1))
    ∙ found

-- the statements after the invoice
finish_lease_ok :
    (ext : External) (ids : NewIds) (tenant : Tenant) (unit : RentalUnit) (l : Lease) (w w' : World)
    {r : Lease}
    → l.unit_id ≡ unit.id
    → l.tenant_id ≡ tenant.id
    → l.property_id ≡ unit.property_id
    → finish_lease reference ext ids l tenant unit w ≡ (ok r, w')
    → (cd : Text) × (property : Property) × (r ≡ l)
      × (first (λ p. p.id == unit.property_id) w.properties ≡ some property)
      × (w' ≡ finished ids.document tenant cd (ext.render l tenant unit property) l w)
unfolding finish_lease Units.occupy Tenants.occupy_for_lease
finish_lease_ok ext ids tenant unit l w w' {r} eu et ep h =
    elim (Option-cases (first (λ p. p.id == unit.property_id) w.properties)) [
      | inl missing ↦ absurd (ground arith)
      | inr (property, found) ↦
          elim (Outcome-cases (
            Documents.generate_lease_agreement reference ext ids.document l tenant unit property
              (moved_in l w))) [
                | inr (e, w4, h4) ↦ absurd (ground arith)
                | inl (done, w4, h4) ↦
                    let (cd, after4) =
                      agreement_ok ext ids.document l tenant unit property (moved_in l w) w4 h4 in
                    (cd, property, ground arith, found, ground arith)
              ]
    ]

pub write_lease_ok :
    (ext : External) (req : Request) (ids : NewIds) (dto : CreateLeaseDto) (tenant : Tenant)
    (unit : RentalUnit) (w w' : World) {l : Lease}
    → write_lease reference ext req ids dto tenant unit w ≡ (ok l, w')
    → Written ext req ids dto tenant unit w l w'
unfolding write_lease new_lease
write_lease_ok ext req ids dto tenant unit w w' {l} h =
    elim (Outcome-cases (insert_lease reference ext ids.lease dto tenant unit w)) [
      | inr (e, w1, h1) ↦ absurd (ground arith)
      | inl (l1, w1, h1) ↦
          let (c, fresh, is_new, after1) =
            insert_lease_ok ext ids.lease dto tenant unit w w1 {l = l1} h1 in
          elim (Outcome-cases (
            Invoices.create_for_lease reference (record req { new_id = ids.invoice }) l1
              (first_items req.today l1) req.today (plus_days req.today invoice_grace_days) w1)) [
                | inr (e, w2, h2) ↦ absurd (ground arith)
                | inl (i, w2, h2) ↦
                    let (ci, is_invoice, after2) = issued_ok req ids l1 w1 w2 {i = i} h2 in
                    let ended : finish_lease reference ext ids l1 tenant unit w2 ≡ (ok l, w') =
                      ground arith in
                    let (cd, property, back, found, after3) =
                      finish_lease_ok ext ids tenant unit l1 w2 w' {r = l}
                        (ap (λ r. r.unit_id) is_new) (ap (λ r. r.tenant_id) is_new)
                        (ap (λ r. r.property_id) is_new) ended in
                    let inserted : w1 ≡ put_leases w (w.leases ++ l1 ∷ []) =
                      after1 ∙ ap (λ r. put_leases w (w.leases ++ r ∷ [])) (sym is_new) in
                    (
                      c,
                      ci,
                      cd,
                      property,
                      fresh,
                      back ∙ is_new,
                      same_properties unit w w1 w2 l1 i property inserted after2 found,
                      stretches ext req ids tenant unit property w w1 w2 w' ci cd i l l1 inserted
                          after2 is_invoice after3 back,
                    )
              ]
    ]
