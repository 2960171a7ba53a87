-- ===== src/Roles/BuiltIn.antt =====
-- roles/built-in-roles.ts, and ensureBuiltInRoles of roles/roles.service.ts.
use mentos_backend.Common.{
  ℕ, suc, ◌==◌, ◌&&◌, ◌||◌, not, true, Option, none, some, List, [], ◌∷◌, Text, text, same,
}
use mentos_backend.Model.{Role, Request}
use mentos_backend.Orm.{Orm, Exec, pure, gets, modify, or_unique, ◌>>=◌, ◌>>◌}
use mentos_backend.Roles.{put_roles}
use mentos_backend.Roles.Catalog.{all_perm_keys}

pub record BuiltInRole : Type 0 where
  pub code : Text
  pub name : Text
  pub description : Text
  pub perms : List Text

abbrev pub super_admin_code : Text
super_admin_code = text "role-super"

unfoldable pub super_admin : BuiltInRole
super_admin = record {
  code = super_admin_code;
  name = text "Super Admin";
  description =
      text "Full access to every module and administrative function, including user management.";
  perms = all_perm_keys;
}

-- the roles but for the first
unfoldable pub staff_roles : List BuiltInRole
staff_roles =
    record {
      code = text "role-pm";
      name = text "Property Manager";
      description =
          text
            "Runs day-to-day operations across assigned properties — onboarding, leasing and maintenance.";
      perms =
          text "dashboard.read"
          ∷ text "property.read"
          ∷ text "property.create"
          ∷ text "property.update"
          ∷ text "unit.read"
          ∷ text "unit.create"
          ∷ text "unit.update"
          ∷ text "tenant.read"
          ∷ text "tenant.create"
          ∷ text "tenant.update"
          ∷ text "tenant.blacklist"
          ∷ text "lease.read"
          ∷ text "lease.create"
          ∷ text "lease.update"
          ∷ text "invoice.read"
          ∷ text "payment.read"
          ∷ text "maintenance.read"
          ∷ text "maintenance.create"
          ∷ text "maintenance.assign"
          ∷ text "maintenance.close"
          ∷ text "report.read"
          ∷ text "notification.read"
          ∷ text "notification.send"
          ∷ text "document.read"
          ∷ text "document.create"
          ∷ [];
    }
    ∷ record {
      code = text "role-acct";
      name = text "Accountant";
      description =
          text "Owns billing, rent collection and financial reporting across the portfolio.";
      perms =
          text "dashboard.read"
          ∷ text "property.read"
          ∷ text "tenant.read"
          ∷ text "lease.read"
          ∷ text "invoice.read"
          ∷ text "invoice.create"
          ∷ text "invoice.update"
          ∷ text "payment.read"
          ∷ text "payment.create"
          ∷ text "report.read"
          ∷ text "report.export"
          ∷ text "notification.read"
          ∷ text "document.read"
          ∷ [];
    }
    ∷ record {
      code = text "role-maint";
      name = text "Maintenance Staff";
      description =
          text "Handles maintenance requests assigned to them, with limited visibility elsewhere.";
      perms =
          text "property.read"
          ∷ text "unit.read"
          ∷ text "maintenance.read"
          ∷ text "maintenance.create"
          ∷ text "maintenance.assign"
          ∷ text "maintenance.close"
          ∷ text "notification.read"
          ∷ [];
    }
    ∷ record {
      code = text "role-tenant";
      name = text "Tenant";
      description =
          text
            "Self-service portal only — lease, invoices and maintenance requests for their own unit.";
      perms =
          text "lease.read"
          ∷ text "invoice.read"
          ∷ text "payment.read"
          ∷ text "maintenance.read"
          ∷ text "maintenance.create"
          ∷ text "notification.read"
          ∷ text "document.read"
          ∷ [];
    }
    ∷ []

unfoldable pub built_in_roles : List BuiltInRole
unfolding super_admin staff_roles
built_in_roles = super_admin ∷ staff_roles

-- a row from the data
abbrev pub role_of : ℕ → BuiltInRole → Role
role_of id data_ = record {
  id = id;
  code = data_.code;
  name = data_.name;
  description = data_.description;
  perms = data_.perms;
  is_system = true;
}

module _ (orm : Orm) where
  abbrev save_existing : BuiltInRole → Role → Exec Unit
  save_existing data_ existing = do
    rows ← gets (λ w.
        orm.update_unique (λ r. not (r.id == existing.id) && same r.name data_.name)
          (λ r. r.id == existing.id) (λ r. role_of r.id (record data_ { code = r.code })) w.roles)
    saved ← or_unique rows
    modify (λ w. put_roles w saved)

  abbrev save_new : ℕ → BuiltInRole → Exec Unit
  save_new id data_ = do
    rows ← gets (λ w.
        orm.insert (λ r. same r.code data_.code || same r.name data_.name) (role_of id data_)
          w.roles)
    saved ← or_unique rows
    modify (λ w. put_roles w saved)

  -- the body of the loop
  abbrev ensure_one : ℕ → BuiltInRole → Option Role → Exec Unit
  ensure_one id data_ none = save_new id data_
  ensure_one id data_ (some existing) = save_existing data_ existing

  unfoldable pub ensure_roles : ℕ → List BuiltInRole → Exec Unit
  ensure_roles id [] = pure tt
  ensure_roles id (data_ ∷ rest) = do
    existing ← gets (λ w. orm.find_one (λ r. same r.code data_.code) w.roles)
    ensure_one id data_ existing
    ensure_roles (suc id) rest

  unfoldable pub ensure_built_in_roles : Request → Exec Unit
  unfolding ensure_roles built_in_roles
  ensure_built_in_roles req = ensure_roles req.new_id built_in_roles
