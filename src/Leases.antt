-- ===== src/Leases.antt =====
-- leases/leases.service.ts
pub mod Steps
pub mod Outcomes
pub mod Creation
pub mod Occupancy
pub mod Eviction
use mentos_backend.Common.{
  ℕ, ◌+◌, ◌==◌, ◌&&◌, not, Bool, true, false, Option, none, some, List, [], ◌∷◌, ◌++◌, map, or_else,
  Text, text, same,
}
use mentos_backend.Calendar.{Date, month_label, day_label, plus_days, add_months_minus_day}
use mentos_backend.Codes.Scheme.{lease_codes}
use mentos_backend.Model.{
  Property, RentalUnit, is_occupied, Tenant, is_blacklisted, Lease, LeaseStatus, is_ended,
  InvoiceLineItem, Table, not_found, unit_occupied, already_leased, tenant_blacklisted, lease_ended,
  query_failed, NotificationType, World, Request,
}
use mentos_backend.Orm.{
  Orm, Exec, pure, throw, gets, modify, or_throw, throw_if, or_unique, allocate_code, fire_trigger,
  ◌>>=◌, ◌>>◌,
}
use mentos_backend.Units
use mentos_backend.Units.{or_default, patched}
use mentos_backend.Tenants
use mentos_backend.Invoices
use mentos_backend.Documents
use mentos_backend.Documents.{External}

abbrev pub invoice_grace_days : ℕ
invoice_grace_days = 4

-- The uuids of the three rows that `create` inserts.
pub record NewIds : Type 0 where
  pub lease : ℕ
  pub invoice : ℕ
  pub document : ℕ

pub record CreateLeaseDto : Type 0 where
  pub tenant_id : Text
  pub unit_id : Text
  pub start : Date
  pub duration : ℕ
  pub rent : Option ℕ
  pub deposit : Option ℕ
  pub frequency : Option Text
  pub billing : Option Text
  pub grace : Option Text
  pub penalty : Option Text
  pub renewal : Option Text
  pub notes : Option Text

pub record UpdateLeaseDto : Type 0 where
  pub rent : Option ℕ
  pub deposit : Option ℕ
  pub frequency : Option Text
  pub billing : Option Text
  pub grace : Option Text
  pub penalty : Option Text
  pub renewal : Option Text
  pub notes : Option Text

-- the statuses of the two alternatives in the where clause, Active and Ending
abbrev pub is_running : LeaseStatus → Bool
is_running LeaseStatus.active = true
is_running LeaseStatus.ending = true
is_running LeaseStatus.ended = false

abbrev pub put_leases : World → List Lease → World
put_leases w t = record w { db = record w.db { leases = t } }

unfoldable pub new_lease : ℕ → CreateLeaseDto → Tenant → RentalUnit → Text → Lease
unfolding add_months_minus_day
new_lease id dto tenant unit code = record {
  id = id;
  code = code;
  tenant_id = tenant.id;
  unit_id = unit.id;
  property_id = unit.property_id;
  start = dto.start;
  end = add_months_minus_day dto.start dto.duration;
  rent = or_else dto.rent unit.rent;
  deposit = or_else dto.deposit unit.deposit;
  frequency = or_default dto.frequency (text "Monthly");
  status = LeaseStatus.active;
  billing = dto.billing;
  grace = dto.grace;
  penalty = dto.penalty;
  renewal = dto.renewal;
  notes = dto.notes;
}

unfoldable pub edited : UpdateLeaseDto → Lease → Lease
edited dto l = record l {
  rent = or_else dto.rent l.rent;
  deposit = or_else dto.deposit l.deposit;
  frequency = or_else dto.frequency l.frequency;
  billing = patched dto.billing l.billing;
  grace = patched dto.grace l.grace;
  penalty = patched dto.penalty l.penalty;
  renewal = patched dto.renewal l.renewal;
  notes = patched dto.notes l.notes;
}

-- the two line items of the first invoice
unfoldable pub first_items : Date → Lease → List InvoiceLineItem
unfolding month_label
first_items issued lease =
    record { label = text "Rent · " ++ month_label issued; amount = lease.rent }
    ∷ record { label = text "Security deposit"; amount = lease.deposit }
    ∷ []

abbrev property_name_of : Option Property → Text
property_name_of none = text ""
property_name_of (some p) = p.name

abbrev already_held : Tenant → Option Lease → Exec Unit
already_held tenant none = pure tt
already_held tenant (some lease) = throw (already_leased tenant.name lease.code)

module _ (orm : Orm) (ext : External) where
  unfoldable pub find_by_code_or_fail : Text → Exec Lease
  find_by_code_or_fail code = do
    found ← gets (λ w. orm.find_one (λ l. same l.code code) w.leases)
    or_throw (not_found Table.lease code) found

  unfoldable pub update_row : ℕ → (Lease → Lease) → Exec Unit
  update_row id patch = modify (λ w. put_leases w (orm.update (λ l. l.id == id) patch w.leases))

  -- what `create` asks of the tenant and the unit before its transaction
  unfoldable pub check_vacancy : CreateLeaseDto → Tenant → RentalUnit → Exec Unit
  check_vacancy dto tenant unit = do
    throw_if (is_occupied unit.status) (unit_occupied dto.unit_id)
    throw_if (is_blacklisted tenant.status) (tenant_blacklisted tenant.name)
    existing ←
        gets (λ w. orm.find_one (λ l. (l.tenant_id == tenant.id) && is_running l.status) w.leases)
    already_held tenant existing

  -- the first statements of the transaction: the row of the lease
  unfoldable pub insert_lease : ℕ → CreateLeaseDto → Tenant → RentalUnit → Exec Lease
  unfolding allocate_code new_lease
  insert_lease id dto tenant unit = do
    codes ← gets (λ w. map (λ l. l.code) w.leases)
    code ← allocate_code lease_codes codes
    let lease = new_lease id dto tenant unit code
    rows ← gets (λ w. orm.insert (λ l. same l.code code) lease w.leases)
    saved ← or_unique rows
    modify (λ w. put_leases w saved)
    pure lease

  -- the statements of the transaction after the invoice
  unfoldable pub finish_lease : NewIds → Lease → Tenant → RentalUnit → Exec Lease
  finish_lease ids lease tenant unit = do
    Units.occupy orm unit.id tenant.id
    Tenants.occupy_for_lease orm tenant.id unit.id unit.property_id
    found ← gets (λ w. orm.find_one (λ p. p.id == unit.property_id) w.properties)
    property ← or_throw query_failed found
    Documents.generate_lease_agreement orm ext ids.document lease tenant unit property
    pure lease

  -- the body of the transaction
  unfoldable pub write_lease : Request → NewIds → CreateLeaseDto → Tenant → RentalUnit → Exec Lease
  write_lease req ids dto tenant unit = do
    lease ← insert_lease ids.lease dto tenant unit
    Invoices.create_for_lease orm (record req { new_id = ids.invoice }) lease
        (first_items req.today lease) req.today (plus_days req.today invoice_grace_days)
    finish_lease ids lease tenant unit

  -- the 'lease-created' notification
  unfoldable pub announce : Lease → Tenant → RentalUnit → Exec Unit
  unfolding day_label
  announce lease tenant unit = do
    property ← gets (λ w. orm.find_one (λ p. p.id == unit.property_id) w.properties)
    fire_trigger (record {
      key = text "lease-created";
      vars =
          (text "tenant_name", tenant.name)
          ∷ (text "unit", unit.no)
          ∷ (text "property_name", property_name_of property)
          ∷ (text "start_date", day_label lease.start)
          ∷ [];
      type = NotificationType.lease;
      icon = text "file-text";
    })

  unfoldable pub create : Request → NewIds → CreateLeaseDto → Exec Lease
  create req ids dto = do
    tenant ← Tenants.find_by_code_or_fail orm dto.tenant_id
    unit ← Units.find_by_code_or_fail orm dto.unit_id
    check_vacancy dto tenant unit
    result ← orm.transaction (write_lease req ids dto tenant unit)
    announce result tenant unit
    pure result

  unfoldable pub update : Text → UpdateLeaseDto → Exec Lease
  unfolding find_by_code_or_fail update_row edited
  update code dto = do
    lease ← find_by_code_or_fail code
    throw_if (is_ended lease.status) lease_ended
    update_row lease.id (edited dto)
    find_by_code_or_fail code

  -- the body of the transaction of `terminate`
  unfoldable pub end_lease : Lease → Exec Unit
  unfolding update_row Units.vacate Tenants.vacate_for_lease
  end_lease lease = do
    update_row lease.id (λ l. record l { status = LeaseStatus.ended })
    Units.vacate orm lease.unit_id
    Tenants.vacate_for_lease orm lease.tenant_id

  unfoldable pub terminate : Text → Exec Lease
  unfolding find_by_code_or_fail end_lease
  terminate code = do
    lease ← find_by_code_or_fail code
    throw_if (is_ended lease.status) lease_ended
    orm.transaction (end_lease lease)
    find_by_code_or_fail code
