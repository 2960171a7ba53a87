-- ===== src/Leases/Creation.antt =====
-- LeasesService.create as a whole: what must have held and what it has written when it returns,
-- and that no table has changed when it throws.
use mathlib.Core.Path.{subst}
use mentos_backend.Common.{
  sym, ◌==◌, ◌&&◌, ◌≡◌, refl, false, first, none, some, Text, same, arith, Bool-cases, Option-cases,
  inl, inr, ◌⊎◌,
}
use mentos_backend.Model.{
  RentalUnit, is_occupied, Tenant, is_blacklisted, Lease, World, Request, Exception, Table,
  not_found, unit_occupied, tenant_blacklisted, already_leased,
}
use mentos_backend.Orm.{
  Orm, Documented, reference, orm-eq-reference, Result, ok, err, Outcome-cases,
}
use mentos_backend.Units
use mentos_backend.Tenants
use mentos_backend.Documents.{External}
use mentos_backend.Leases.{
  NewIds, CreateLeaseDto, is_running, check_vacancy, write_lease, announce, create,
}
use mentos_backend.Leases.Outcomes.{Written, write_lease_ok}

-- the conditions on which a unit is let
abbrev pub MayLet : Tenant → RentalUnit → World → Type 0
MayLet tenant unit w =
    (is_occupied unit.status ≡ false)
    × (is_blacklisted tenant.status ≡ false)
    × (first (λ l. (l.tenant_id == tenant.id) && is_running l.status) w.leases ≡ none)

check_vacancy_cases :
    (ext : External) (dto : CreateLeaseDto) (tenant : Tenant) (unit : RentalUnit) (w : World)
    → ((e : Exception) × (check_vacancy reference ext dto tenant unit w ≡ (err e, w)))
      ⊎ (MayLet tenant unit w × (check_vacancy reference ext dto tenant unit w ≡ (ok tt, w)))
unfolding check_vacancy
check_vacancy_cases ext dto tenant unit w = elim (Bool-cases (is_occupied unit.status)) [
  | inl occupied ↦ inl (unit_occupied dto.unit_id, ground arith)
  | inr vacant ↦ elim (Bool-cases (is_blacklisted tenant.status)) [
    | inl listed ↦ inl (tenant_blacklisted tenant.name, ground arith)
    | inr welcome ↦
        elim (Option-cases
          (first (λ l. (l.tenant_id == tenant.id) && is_running l.status) w.leases)) [
            | inr (l, held) ↦ inl (already_leased tenant.name l.code, ground arith)
            | inl free ↦ inr ((vacant, welcome, free), ground arith)
          ]
  ]
]

tenant_cases :
    (code : Text) (w : World)
    → (Tenants.find_by_code_or_fail reference code w ≡ (err (not_found Table.tenant code), w))
      ⊎ ((t : Tenant) × (first (λ r. same r.code code) w.tenants ≡ some t)
          × (Tenants.find_by_code_or_fail reference code w ≡ (ok t, w)))
unfolding Tenants.find_by_code_or_fail
tenant_cases code w = elim (Option-cases (first (λ r. same r.code code) w.tenants)) [
  | inl missing ↦ inl (ground arith)
  | inr (t, found) ↦ inr (t, found, ground arith)
]

unit_cases :
    (code : Text) (w : World)
    → (Units.find_by_code_or_fail reference code w ≡ (err (not_found Table.unit code), w))
      ⊎ ((u : RentalUnit) × (first (λ r. same r.code code) w.units ≡ some u)
          × (Units.find_by_code_or_fail reference code w ≡ (ok u, w)))
unfolding Units.find_by_code_or_fail
unit_cases code w = elim (Option-cases (first (λ r. same r.code code) w.units)) [
  | inl missing ↦ inl (ground arith)
  | inr (u, found) ↦ inr (u, found, ground arith)
]

module _ (ext : External) (req : Request) (ids : NewIds) (dto : CreateLeaseDto) (w : World) where
  -- what `create` has done when it returns `l`
  abbrev pub Created : Lease → World → Type 0
  Created l w' =
      (tenant : Tenant) × (unit : RentalUnit) × (written : World) × (first
          (λ r. same r.code dto.tenant_id) w.tenants
        ≡ some tenant)
      × (first (λ r. same r.code dto.unit_id) w.units ≡ some unit)
      × MayLet tenant unit w
      × Written ext req ids dto tenant unit w l written
      × (w'.db ≡ written.db)

  -- what it has done, however it ends
  abbrev pub Outcome : Result Lease × World → Type 0
  Outcome (ok l, w') = Created l w'
  Outcome (err e, w') = w'.db ≡ w.db

  returned :
      (l : Lease) (w' : World)
      → create reference ext req ids dto w ≡ (ok l, w')
      → Created l w'
      → Outcome (create reference ext req ids dto w)
  returned l w' e h = subst Outcome (sym e) h

  thrown :
      (e : Exception) (w' : World)
      → create reference ext req ids dto w ≡ (err e, w')
      → w'.db ≡ w.db
      → Outcome (create reference ext req ids dto w)
  thrown e w' h same_db = subst Outcome (sym h) same_db

  pub reference_cases : Outcome (create reference ext req ids dto w)
  unfolding create announce
  reference_cases = elim (tenant_cases dto.tenant_id w) [
    | inl missing ↦ thrown (not_found Table.tenant dto.tenant_id) w (ground arith) refl
    | inr (tenant, found, et) ↦ elim (unit_cases dto.unit_id w) [
      | inl missing ↦ thrown (not_found Table.unit dto.unit_id) w (ground arith) refl
      | inr (unit, found_unit, eu) ↦ elim (check_vacancy_cases ext dto tenant unit w) [
        | inl (e, refused) ↦ thrown e w (ground arith) refl
        | inr (may_let, ec) ↦
            elim (Outcome-cases (write_lease reference ext req ids dto tenant unit w)) [
              | inr (e, w1, failed) ↦ thrown e (record w1 { db = w.db }) (ground arith) refl
              | inl (l, w1, done) ↦
                  returned l (announce reference ext l tenant unit w1).1 (ground arith) (
                    tenant,
                    unit,
                    w1,
                    found,
                    found_unit,
                    may_let,
                    write_lease_ok ext req ids dto tenant unit w w1 {l = l} done,
                    ground arith,
                  )
            ]
      ]
    ]
  ]

-- A call of `create` that returns a lease has found the tenant and the unit by their codes, the unit
-- was not occupied, the tenant not blacklisted and without a running lease, and the tables hold the
-- new lease, its first invoice and its agreement, the unit marked as occupied by the tenant and the
-- tenant as living there; a call that throws has changed no table.
pub create-Outcome :
    (orm : Orm)
    → Documented orm
    → (ext : External) (req : Request) (ids : NewIds) (dto : CreateLeaseDto) (w : World)
    → Outcome ext req ids dto w (create orm ext req ids dto w)
create-Outcome orm documented = rw (orm-eq-reference orm documented) reference_cases
