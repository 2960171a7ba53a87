-- ===== src/Roles/Integrity.antt =====
-- Every user has a role that is there, and roles hold only keys of the catalog.
use mathlib.Core.Path.{subst}
use mentos_backend.Common.{
  ℕ, ◌==◌, ◌≡◌, ◌∙◌, inl, inr, refl, sym, not, any, any-append, ltb, Bool, true, false, List, [],
  ◌∷◌, ◌++◌, length, select, change, Text, same, arith, All, All-map, All-append, All-change,
  All-first, Bool-cases,
}
use mentos_backend.Model.{Role, User, Db, World, Request}
use mentos_backend.Orm.{Orm, Documented, reference, orm-eq-reference}
use mentos_backend.Roles.{CreateRoleDto, UpdateRoleDto, create, update, set_perms, remove}
use mentos_backend.Roles.Outcomes.{
  IsKnown, Saved, create_cases, set_perms_cases, remove_cases, update_cases,
}

-- the role of a user is among the rows
abbrev pub HasRole : List Role → User → Type 0
HasRole roles u = any (λ r. r.id == u.role_id) roles ≡ true

pub record IsIntact (db : Db) : Type 0 where
  pub assigned : All (HasRole db.roles) db.users
  pub known : All IsKnown db.roles

-- a role that nobody has can go
any-select :
    (id n : ℕ) (roles : List Role)
    → (n == id) ≡ false
    → any (λ r. r.id == n) roles ≡ true
    → any (λ r. r.id == n) (select (λ r. not (r.id == id)) roles) ≡ true
any-select id n [] other h = h
any-select id n (r ∷ roles) other h = ground (arith, any-select id n roles other)

any-change :
    (role : Role) (n : ℕ) (roles : List Role)
    → any (λ r. r.id == n) (change (λ r. r.id == role.id) (λ r. role) roles)
      ≡ any (λ r. r.id == n) roles
any-change role n [] = refl
any-change role n (r ∷ roles) = ground (arith, any-change role n roles)

unassigned :
    (id : ℕ) (roles : List Role) (us : List User)
    → ltb 0 (length (select (λ u. u.role_id == id) us)) ≡ false
    → All (HasRole roles) us
    → All (HasRole (select (λ r. not (r.id == id)) roles)) us
unassigned id roles [] none_left h = tt
unassigned id roles (u ∷ us) none_left h = elim (Bool-cases (u.role_id == id)) [
  | inl own ↦ absurd (ground arith)
  | inr other ↦ (any-select id u.role_id roles other h.0, unassigned id roles us (ground arith) h.1)
]

-- A call of one of the handlers that write roles.
pub data RoleCommand : Type 0 where
  to_create : Request → CreateRoleDto → RoleCommand
  to_update : Text → UpdateRoleDto → RoleCommand
  to_set_perms : Text → List Text → RoleCommand
  to_remove : Text → RoleCommand

-- the state that it leaves
abbrev pub run : Orm → (Text → Text) → RoleCommand → World → World
run orm to_lower_case (RoleCommand.to_create req dto) w = (create orm to_lower_case req dto w).1
run orm to_lower_case (RoleCommand.to_update code dto) w = (update orm code dto w).1
run orm to_lower_case (RoleCommand.to_set_perms code perms) w = (set_perms orm code perms w).1
run orm to_lower_case (RoleCommand.to_remove code) w = (remove orm code w).1

Saved-IsIntact : (code : Text) (w w' : World) → Saved code w w' → IsIntact w.db → IsIntact w'.db
Saved-IsIntact code w w' (r, r', found, same_id, keeps, after) h =
    subst IsIntact (sym after) (record {
      assigned =
          All-map (HasRole w.roles) (HasRole (change (λ x. x.id == r'.id) (λ x. r') w.roles))
            w.users (λ u k. any-change r' u.role_id w.roles ∙ k) h.assigned;
      known =
          All-change IsKnown IsKnown (λ x. x.id == r'.id) (λ x. r') w.roles
            (λ x k e. keeps (All-first IsKnown (λ x. same x.code code) r w.roles h.known found).0)
            (λ x k e. k) h.known;
    })

created-IsIntact :
    (r : Role) (w : World)
    → IsKnown r
    → IsIntact w.db
    → IsIntact (record w.db { roles = w.roles ++ r ∷ [] })
created-IsIntact r w listed h = record {
  assigned =
      All-map (HasRole w.roles) (HasRole (w.roles ++ r ∷ [])) w.users
        (λ u k. ground (arith, any-append (λ x. x.id == u.role_id) w.roles (r ∷ []))) h.assigned;
  known = All-append IsKnown w.roles (r ∷ []) h.known (listed, tt);
}

select-IsKnown :
    (p : Role → Bool) (roles : List Role) → All IsKnown roles → All IsKnown (select p roles)
select-IsKnown p [] h = tt
select-IsKnown p (r ∷ roles) h = elim (Bool-cases (p r)) [
  | inl kept ↦ rw kept (h.0, select-IsKnown p roles h.1)
  | inr left ↦ rw left (select-IsKnown p roles h.1)
]

run-reference :
    (to_lower_case : Text → Text) (c : RoleCommand) (w : World)
    → IsIntact w.db
    → IsIntact (run reference to_lower_case c w).db
run-reference lower (RoleCommand.to_create req dto) w h = elim (create_cases lower req dto w) [
  | inl same_db ↦ subst IsIntact (sym same_db) h
  | inr (r, listed, after) ↦ subst IsIntact (sym after) (created-IsIntact r w listed h)
]
run-reference lower (RoleCommand.to_update code dto) w h = elim (update_cases code dto w) [
  | inl same_db ↦ subst IsIntact (sym same_db) h
  | inr saved ↦ Saved-IsIntact code w (update reference code dto w).1 saved h
]
run-reference lower (RoleCommand.to_set_perms code perms) w h =
    elim (set_perms_cases code perms w) [
      | inl same_db ↦ subst IsIntact (sym same_db) h
      | inr saved ↦ Saved-IsIntact code w (set_perms reference code perms w).1 saved h
    ]
run-reference lower (RoleCommand.to_remove code) w h = elim (remove_cases code w) [
  | inl same_db ↦ subst IsIntact (sym same_db) h
  | inr (r, free, after) ↦ subst IsIntact (sym after) (record {
    assigned = unassigned r.id w.roles w.users free h.assigned;
    known = select-IsKnown (λ x. not (x.id == r.id)) w.roles h.known;
  })
]

-- Creating, editing or removing a role, or replacing its permissions, keeps every user's role
-- among the roles and every permission of a role in the catalog, also when the call throws.
pub run-IsIntact :
    (orm : Orm)
    → Documented orm
    → (to_lower_case : Text → Text) (c : RoleCommand) (w : World) → IsIntact w.db
    → IsIntact (run orm to_lower_case c w).db
run-IsIntact orm documented = rw (orm-eq-reference orm documented) run-reference
