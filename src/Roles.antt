-- ===== src/Roles.antt =====
-- roles/roles.service.ts
pub mod Catalog
pub mod BuiltIn
pub mod Outcomes
pub mod Integrity
use mentos_backend.Common.{
  ℕ, ◌+◌, ◌==◌, ◌&&◌, ◌||◌, not, any, ltb, leb, Bool, true, false, if◌then◌else◌, Option, none,
  some, is_some, List, [], ◌∷◌, ◌++◌, length, select, or_else, Text, text, same,
}
use mentos_backend.Model.{
  Role, role_exists, role_in_use, role_built_in, unknown_perms, Table, not_found, World, Request,
}
use mentos_backend.Orm.{Orm, Exec, pure, gets, modify, or_throw, throw_if, or_unique, ◌>>=◌, ◌>>◌}
use mentos_backend.Users.{find_role_or_fail}
use Catalog.{all_perm_keys}

pub record CreateRoleDto : Type 0 where
  pub name : Text
  pub description : Option Text
  pub perms : Option (List Text)

pub record UpdateRoleDto : Type 0 where
  pub name : Option Text
  pub description : Option Text

abbrev pub put_roles : World → List Role → World
put_roles w t = record w { db = record w.db { roles = t } }

-- validKeys.has
unfoldable pub is_known : Text → Bool
is_known key = any (same key) all_perm_keys

-- unknownPermKeys
abbrev pub unknown_perm_keys : List Text → List Text
unknown_perm_keys keys = select (λ k. not (is_known k)) keys

abbrev pub assert_known_perms : List Text → Exec Unit
assert_known_perms perms = throw_if (ltb 0 (length (unknown_perm_keys perms))) unknown_perms

-- [...new Set(perms)]
unfoldable pub dedupe : List Text → List Text
dedupe [] = []
dedupe (k ∷ ks) = k ∷ select (λ l. not (same l k)) (dedupe ks)

abbrev is_slug : ℕ → Bool
is_slug c = (leb b'a' c && leb c b'z') || (leb b'0' c && leb c b'9')

-- replace(/[^a-z0-9]+/g, '-'); the flag says that a run of other characters has begun
abbrev dashed : Bool → Text → Text
dashed inside [] = []
dashed inside (c ∷ s) =
    let kept = dashed false s in
    let skipped = dashed true s in
    if is_slug c then c ∷ kept else if inside then skipped else b'-' ∷ skipped

-- replace(/^-|-$/g, '')
abbrev drop_last_dash : Text → Text
drop_last_dash [] = []
drop_last_dash (c ∷ []) = if c == b'-' then [] else c ∷ []
drop_last_dash (c ∷ d ∷ s) = c ∷ drop_last_dash (d ∷ s)

abbrev drop_first_dash : Text → Text
drop_first_dash [] = []
drop_first_dash (c ∷ s) = if c == b'-' then s else c ∷ s

-- `to_lower_case` is the case mapping of Unicode
unfoldable pub slugify : (Text → Text) → Text → Text
slugify to_lower_case name =
    text "role-" ++ drop_last_dash (drop_first_dash (dashed false (to_lower_case name)))

-- the body of `if (dto.name !== role.name)`, once it is known whether the name is taken
abbrev pub rename : Bool → Text → Role → Exec Role
rename taken name role =
    if same name role.name
    then pure role
    else throw_if role.is_system role_built_in
      >> throw_if taken (role_exists name)
      >> pure (record role { name = name })

module _ (orm : Orm) where
  -- the count of users for one role
  unfoldable pub user_count : ℕ → Exec ℕ
  user_count role_id = gets (λ w. length (orm.find (λ u. u.role_id == role_id) w.users))

  -- repository.save of the loaded role
  unfoldable pub save_role : Role → Exec Unit
  save_role role = modify (λ w. put_roles w (orm.update (λ r. r.id == role.id) (λ r. role) w.roles))

  unfoldable pub create : (Text → Text) → Request → CreateRoleDto → Exec Role
  unfolding slugify is_known
  create to_lower_case req dto = do
    let code = slugify to_lower_case dto.name
    existing ← gets (λ w. orm.find_one (λ r. same r.code code || same r.name dto.name) w.roles)
    throw_if (is_some existing) (role_exists dto.name)
    let perms = or_else dto.perms []
    assert_known_perms perms
    let role : Role = record {
      id = req.new_id;
      code = code;
      name = dto.name;
      description =
          or_else dto.description (text "Custom role — configure module permissions below.");
      perms = perms;
      is_system = false;
    }
    rows ← gets (λ w. orm.insert (λ r. same r.code code || same r.name dto.name) role w.roles)
    saved ← or_unique rows
    modify (λ w. put_roles w saved)
    pure role

  -- `if (dto.name && dto.name !== role.name)`
  abbrev pub renamed : Option Text → Role → Exec Role
  renamed none role = pure role
  renamed (some []) role = pure role
  renamed (some (c ∷ s)) role = do
    taken ← gets (λ w. orm.find_one (λ r. same r.name (c ∷ s)) w.roles)
    rename (is_some taken) (c ∷ s) role

  unfoldable pub update : Text → UpdateRoleDto → Exec Role
  unfolding find_role_or_fail save_role
  update code dto = do
    role ← find_role_or_fail orm code
    with_name ← renamed dto.name role
    save_role (record with_name { description = or_else dto.description with_name.description })
    find_role_or_fail orm role.code

  unfoldable pub set_perms : Text → List Text → Exec Role
  unfolding find_role_or_fail save_role dedupe is_known
  set_perms code perms = do
    role ← find_role_or_fail orm code
    assert_known_perms perms
    save_role (record role { perms = dedupe perms })
    find_role_or_fail orm role.code

  unfoldable pub remove : Text → Exec Unit
  unfolding find_role_or_fail user_count
  remove code = do
    role ← find_role_or_fail orm code
    throw_if role.is_system role_built_in
    assigned ← user_count role.id
    throw_if (ltb 0 assigned) (role_in_use role.name assigned)
    modify (λ w. put_roles w (orm.delete (λ r. r.id == role.id) w.roles))
