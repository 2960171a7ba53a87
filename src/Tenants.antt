-- ===== src/Tenants.antt =====
-- tenants/tenants.service.ts
use mentos_backend.Common.{
  ℕ, ◌==◌, Option, none, some, List, [], ◌∷◌, ◌++◌, map, or_else, Text, text, same,
}
use mentos_backend.Codes.Scheme.{tenant_codes}
use mentos_backend.Model.{
  Tenant, TenantStatus, is_blacklisted, Table, not_found, already_blacklisted, NotificationType,
  World, Request,
}
use mentos_backend.Orm.{
  Orm, Exec, pure, gets, modify, or_throw, throw_if, or_unique, allocate_code, fire_trigger, ◌>>=◌,
  ◌>>◌,
}
use mentos_backend.Units

pub record CreateTenantDto : Type 0 where
  pub full_name : Text
  pub phone : Text
  pub email : Option Text
  pub occupation : Option Text
  pub id_number : Option Text
  pub em_name : Option Text
  pub em_relation : Option Text
  pub em_contact : Option Text

pub record UpdateTenantDto : Type 0 where
  pub phone : Option Text
  pub email : Option Text
  pub occupation : Option Text
  pub employer : Option Text
  pub org : Option Text
  pub id_type : Option Text
  pub id_number : Option Text
  pub kin : Option Text
  pub comms : Option Text

-- [a, b, c].filter(Boolean): what is missing or empty is left out
abbrev present : List (Option Text) → List Text
present [] = []
present (none ∷ r) = present r
present (some [] ∷ r) = present r
present (some (c ∷ s) ∷ r) = (c ∷ s) ∷ present r

abbrev join : Text → List Text → Text
join sep [] = []
join sep (s ∷ []) = s
join sep (s ∷ t ∷ r) = s ++ sep ++ join sep (t ∷ r)

-- the next of kin, "Name · Relation · Contact"
unfoldable pub kin_of : CreateTenantDto → Text
kin_of dto = named dto.em_name
  where
    named : Option Text → Text
    named none = text "—"
    named (some []) = text "—"
    named (some (c ∷ s)) =
        join (text " · ") (present (some (c ∷ s) ∷ dto.em_relation ∷ dto.em_contact ∷ []))

abbrev pub put_tenants : World → List Tenant → World
put_tenants w t = record w { db = record w.db { tenants = t } }

unfoldable pub new_tenant : Request → Text → CreateTenantDto → Tenant
unfolding kin_of
new_tenant req code dto = record {
  id = req.new_id;
  code = code;
  name = dto.full_name;
  phone = dto.phone;
  email = or_else dto.email (text "");
  status = TenantStatus.prospective;
  since = req.today;
  unit_id = none;
  property_id = none;
  org = text "";
  occupation = or_else dto.occupation (text "");
  employer = text "";
  id_type = text "NIDA";
  id_number = or_else dto.id_number (text "");
  kin = kin_of dto;
  comms = text "SMS";
}

unfoldable pub edited : UpdateTenantDto → Tenant → Tenant
edited dto t = record t {
  phone = or_else dto.phone t.phone;
  email = or_else dto.email t.email;
  occupation = or_else dto.occupation t.occupation;
  employer = or_else dto.employer t.employer;
  org = or_else dto.org t.org;
  id_type = or_else dto.id_type t.id_type;
  id_number = or_else dto.id_number t.id_number;
  kin = or_else dto.kin t.kin;
  comms = or_else dto.comms t.comms;
}

module _ (orm : Orm) where
  unfoldable pub find_by_code_or_fail : Text → Exec Tenant
  find_by_code_or_fail code = do
    found ← gets (λ w. orm.find_one (λ t. same t.code code) w.tenants)
    or_throw (not_found Table.tenant code) found

  -- repository.update(id, patch), or save of the loaded row
  unfoldable pub update_row : ℕ → (Tenant → Tenant) → Exec Unit
  update_row id patch = modify (λ w. put_tenants w (orm.update (λ t. t.id == id) patch w.tenants))

  -- the body of the transaction of `create`
  unfoldable pub write_tenant : Request → CreateTenantDto → Exec Tenant
  unfolding new_tenant allocate_code
  write_tenant req dto = do
    codes ← gets (λ w. map (λ t. t.code) w.tenants)
    code ← allocate_code tenant_codes codes
    let tenant = new_tenant req code dto
    rows ← gets (λ w. orm.insert (λ t. same t.code code) tenant w.tenants)
    saved ← or_unique rows
    modify (λ w. put_tenants w saved)
    pure tenant

  unfoldable pub create : Request → CreateTenantDto → Exec Tenant
  unfolding write_tenant
  create req dto = do
    result ← orm.transaction (write_tenant req dto)
    fire_trigger (record {
      key = text "tenant-onboarded";
      vars = (text "tenant_name", result.name) ∷ [];
      type = NotificationType.system;
      icon = text "user-plus";
    })
    pure result

  unfoldable pub update : Text → UpdateTenantDto → Exec Tenant
  unfolding find_by_code_or_fail update_row edited
  update code dto = do
    tenant ← find_by_code_or_fail code
    update_row tenant.id (edited dto)
    find_by_code_or_fail code

  -- `if (tenant.unitId) await this.units.vacate(…)`
  abbrev pub vacate_unit : Option ℕ → Exec Unit
  vacate_unit none = pure tt
  vacate_unit (some unit_id) = Units.vacate orm unit_id

  unfoldable pub blacklist : Text → Exec Tenant
  unfolding find_by_code_or_fail update_row Units.vacate
  blacklist code = do
    tenant ← find_by_code_or_fail code
    throw_if (is_blacklisted tenant.status) (already_blacklisted tenant.name)
    orm.transaction (do
      vacate_unit tenant.unit_id
      update_row tenant.id
          (λ t. record t { status = TenantStatus.blacklisted; unit_id = none; property_id = none }))
    find_by_code_or_fail code

  -- called by LeasesService.create in its transaction
  unfoldable pub occupy_for_lease : ℕ → ℕ → ℕ → Exec Unit
  unfolding update_row
  occupy_for_lease tenant_id unit_id property_id = update_row tenant_id (λ t. record t {
    status = TenantStatus.active;
    unit_id = some unit_id;
    property_id = some property_id;
  })

  -- called by LeasesService.terminate in its transaction
  unfoldable pub vacate_for_lease : ℕ → Exec Unit
  unfolding update_row
  vacate_for_lease tenant_id =
      update_row tenant_id
        (λ t. record t { status = TenantStatus.vacated; unit_id = none; property_id = none })
