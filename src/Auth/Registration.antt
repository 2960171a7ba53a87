-- ===== src/Auth/Registration.antt =====
-- register of auth/auth.service.ts: the bootstrap account.
use mentos_backend.Common.{ltb, Option, none, some, Text}
use mentos_backend.Model.{UserStatus, registration_closed, Request}
use mentos_backend.Orm.{Orm, Exec, throw_if, ◌>>=◌, ◌>>◌}
use mentos_backend.Tokens.{RefreshContext}
use mentos_backend.Users
use mentos_backend.Users.{NewUser}
use mentos_backend.Users.Inputs.{Platform, Random}
use mentos_backend.Roles.BuiltIn.{ensure_built_in_roles, super_admin_code}
use mentos_backend.Auth.{AuthSession, issue_session}

pub record RegisterDto : Type 0 where
  pub full_name : Text
  pub email : Text
  pub password : Text

module _ (orm : Orm) (p : Platform) (access_ttl : Option Text) where
  -- what `register` does once the roles are there
  unfoldable pub open_account : Request → Random → RefreshContext → RegisterDto → Exec AuthSession
  unfolding Users.find_role_or_fail Users.create_user Users.find_by_code_or_fail
  open_account req random ctx dto = do
    role ← Users.find_role_or_fail orm super_admin_code
    created ← Users.create_user orm p req (record {
      full_name = dto.full_name;
      email = dto.email;
      role_id = role.id;
      status = UserStatus.active;
      password_hash = some (p.bcrypt_hash random.salt dto.password);
      mfa_enabled = none;
    })
    user ← Users.find_by_code_or_fail orm created.code
    issue_session orm p access_ttl req random ctx user

  unfoldable pub register : Request → Random → RefreshContext → RegisterDto → Exec AuthSession
  unfolding Users.count
  register req random ctx dto = do
    users ← Users.count orm
    throw_if (ltb 0 users) registration_closed
    ensure_built_in_roles orm req
    open_account req random ctx dto
