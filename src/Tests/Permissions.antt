-- ===== src/Tests/Permissions.antt =====
-- Roles.
use mentos_backend.Common.{refl, false, [], ◌∷◌, text}
use mentos_backend.Model.{Role, World, empty_db, empty_world}
use mentos_backend.Orm.{reference, reference-Documented}
use mentos_backend.Roles.{is_known}
use mentos_backend.Roles.Integrity.{IsIntact, RoleCommand, run, run-IsIntact}
use mentos_backend.Tests.Access.{neema}

abbrev pub clerk : Role
clerk = record {
  id = 81;
  code = text "role-clerk";
  name = text "Clerk";
  description = text "";
  perms = text "lease.read" ∷ [];
  is_system = false;
}

abbrev office : World
office = record empty_world { db = record empty_db { roles = clerk ∷ []; users = neema ∷ [] } }

office-IsIntact : IsIntact office.db
unfolding is_known
office-IsIntact = record { assigned = (refl, tt); known = ((refl, tt), tt) }

run-IsIntact_example :
    IsIntact (run reference (λ s. s) (RoleCommand.to_remove (text "role-clerk")) office).db
run-IsIntact_example =
    run-IsIntact reference reference-Documented (λ s. s) (RoleCommand.to_remove (text "role-clerk"))
      office office-IsIntact
