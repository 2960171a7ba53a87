-- ===== src/Users.antt =====
-- users/users.service.ts
pub mod Inputs
use mentos_backend.Common.{
  ℕ, ◌+◌, ◌==◌, ◌&&◌, ◌||◌, not, any, Bool, true, false, if◌then◌else◌, Option, none, some, is_some,
  List, [], ◌∷◌, ◌++◌, map, length, or_else, Text, same,
}
use mentos_backend.Codes.Scheme.{user_codes}
use mentos_backend.Model.{
  Role, User, UserStatus, UserTokenPurpose, Mail, Table, not_found, email_registered,
  invite_accepted, invite_pending, own_role, own_account, not_accepted, World, Request,
}
use mentos_backend.Orm.{
  Orm, Exec, pure, throw, gets, modify, or_throw, throw_if, or_unique, allocate_code, ◌>>=◌, ◌>>◌,
}
use mentos_backend.Tokens
use mentos_backend.Users.Inputs.{Platform, Random, trim}

abbrev pub is_invited : UserStatus → Bool
is_invited UserStatus.invited = true
is_invited _ = false

abbrev pub is_active : UserStatus → Bool
is_active UserStatus.active = true
is_active _ = false

abbrev pub is_suspended : UserStatus → Bool
is_suspended UserStatus.suspended = true
is_suspended _ = false

abbrev pub same_status : UserStatus → UserStatus → Bool
same_status UserStatus.active s = is_active s
same_status UserStatus.invited s = is_invited s
same_status UserStatus.suspended s = is_suspended s

-- the argument of `createUser`
pub record NewUser : Type 0 where
  pub full_name : Text
  pub email : Text
  pub role_id : ℕ
  pub status : UserStatus
  pub password_hash : Option Text
  pub mfa_enabled : Option Bool

pub record CreateUserDto : Type 0 where
  pub name : Text
  pub email : Text
  pub role_id : Text
  pub mfa : Option Bool

pub record UpdateUserDto : Type 0 where
  pub name : Option Text
  pub role_id : Option Text
  pub status : Option UserStatus
  pub mfa : Option Bool

abbrev pub put_users : World → List User → World
put_users w t = record w { db = record w.db { users = t } }

abbrev pub send : Mail → Exec Unit
send m = modify (λ w. record w { mails = w.mails ++ m ∷ [] })

unfoldable pub new_user : Request → Text → Text → NewUser → User
unfolding trim
new_user req code email data_ = record {
  id = req.new_id;
  code = code;
  full_name = trim data_.full_name;
  email = email;
  password_hash = data_.password_hash;
  role_id = data_.role_id;
  status = data_.status;
  mfa_enabled = or_else data_.mfa_enabled false;
  last_login_at = none;
  token_version = 0;
}

abbrev pub renamed : Option Text → User → User
renamed none u = u
renamed (some name) u = record u { full_name = trim name }

abbrev pub with_mfa : Option Bool → User → User
with_mfa none u = u
with_mfa (some mfa) u = record u { mfa_enabled = mfa }

module _ (orm : Orm) where
  -- RolesService.findByCodeOrFail
  unfoldable pub find_role_or_fail : Text → Exec Role
  find_role_or_fail code = do
    found ← gets (λ w. orm.find_one (λ r. same r.code code) w.roles)
    or_throw (not_found Table.role code) found

  unfoldable pub find_by_id : ℕ → Exec (Option User)
  find_by_id id = gets (λ w. orm.find_one (λ u. u.id == id) w.users)

  unfoldable pub find_by_code_or_fail : Text → Exec User
  find_by_code_or_fail code = do
    found ← gets (λ w. orm.find_one (λ u. same u.code code) w.users)
    or_throw (not_found Table.user code) found

  unfoldable pub count : Exec ℕ
  count = gets (λ w. length w.users)

  -- repository.update(id, patch), and save of the loaded row
  unfoldable pub update_row : ℕ → (User → User) → Exec Unit
  update_row id patch = modify (λ w. put_users w (orm.update (λ u. u.id == id) patch w.users))

  unfoldable pub record_login : Request → User → Exec Unit
  unfolding update_row
  record_login req user = update_row user.id (λ u. record u { last_login_at = some req.now })

  unfoldable pub set_password : ℕ → Text → Bool → Exec Unit
  unfolding update_row
  set_password user_id password_hash activate = update_row user_id (λ u. record u {
    password_hash = some password_hash;
    status = if activate then UserStatus.active else u.status;
  })

  unfoldable pub bump_token_version : ℕ → Exec Unit
  unfolding update_row
  bump_token_version user_id =
      update_row user_id (λ u. record u { token_version = u.token_version + 1 })

module _ (orm : Orm) (p : Platform) where
  unfoldable pub normalize_email : Text → Text
  unfolding trim
  normalize_email email = p.to_lower_case (trim email)

  -- findByEmail, and findByEmailWithSecret, which also selects the password hash
  unfoldable pub find_by_email : Text → Exec (Option User)
  unfolding normalize_email
  find_by_email email = gets (λ w. orm.find_one (λ u. same u.email (normalize_email email)) w.users)

  -- the body of the transaction of `createUser`
  unfoldable pub write_user : Request → Text → NewUser → Exec User
  unfolding new_user allocate_code
  write_user req email data_ = do
    codes ← gets (λ w. map (λ u. u.code) w.users)
    code ← allocate_code user_codes codes
    let user = new_user req code email data_
    rows ← gets (λ w. orm.insert (λ u. same u.code code || same u.email email) user w.users)
    saved ← or_unique rows
    modify (λ w. put_users w saved)
    pure user

  unfoldable pub create_user : Request → NewUser → Exec User
  unfolding normalize_email write_user
  create_user req data_ = do
    let email = normalize_email data_.email
    taken ← gets (λ w. orm.find_one (λ u. same u.email email) w.users)
    throw_if (is_some taken) (email_registered email)
    orm.transaction (write_user req email data_)

  unfoldable pub invite : Request → Random → CreateUserDto → Exec User
  unfolding find_role_or_fail create_user find_by_code_or_fail
  invite req random dto = do
    role ← find_role_or_fail orm dto.role_id
    created ← create_user req (record {
      full_name = dto.name;
      email = dto.email;
      role_id = role.id;
      status = UserStatus.invited;
      password_hash = none;
      mfa_enabled = some (or_else dto.mfa false);
    })
    issued ←
        Tokens.issue_user_token orm p.sha256 p.settings (record req { new_id = random.id })
          random.token created.id UserTokenPurpose.invite
    send (Mail.invite created.email created.full_name role.name issued.token)
    find_by_code_or_fail orm created.code

  unfoldable pub resend_invite : Request → Random → Text → Exec User
  unfolding find_by_code_or_fail
  resend_invite req random code = do
    user ← find_by_code_or_fail orm code
    throw_if (not (is_invited user.status)) invite_accepted
    issued ←
        Tokens.issue_user_token orm p.sha256 p.settings (record req { new_id = random.id })
          random.token user.id UserTokenPurpose.invite
    role ← gets (λ w. orm.find_one (λ r. r.id == user.role_id) w.roles)
    send (Mail.invite user.email user.full_name (or_else (role_name role) []) issued.token)
    pure user
    where
      role_name : Option Role → Option Text
      role_name none = none
      role_name (some r) = some r.name

  -- `if (next === UserStatus.Suspended)`: the user with its new token version
  abbrev pub suspend_sessions : ℕ → User → UserStatus → Exec User
  suspend_sessions now user next =
      if is_suspended next
      then Tokens.revoke_all_for_user orm p.sha256 p.settings now user.id
        >> pure (record user { token_version = user.token_version + 1 })
      else pure user

  unfoldable pub apply_status : ℕ → User → UserStatus → ℕ → Exec User
  unfolding Tokens.revoke_all_for_user
  apply_status now user next acting_user_id = do
    throw_if ((user.id == acting_user_id) && not (is_active next)) own_account
    bumped ← suspend_sessions now user next
    throw_if (is_active next && is_invited user.status) not_accepted
    pure (record bumped { status = next })

  -- `if (dto.roleId !== undefined)`
  abbrev with_role : Option Text → ℕ → User → Exec User
  with_role none acting_user_id user = pure user
  with_role (some code) acting_user_id user = do
    role ← find_role_or_fail orm code
    throw_if ((user.id == acting_user_id) && not (role.id == user.role_id)) own_role
    pure (record user { role_id = role.id })

  -- `if (dto.status !== undefined && dto.status !== user.status)`
  abbrev with_status : ℕ → Option UserStatus → ℕ → User → Exec User
  with_status now none acting_user_id user = pure user
  with_status now (some next) acting_user_id user =
      if same_status next user.status then pure user else apply_status now user next acting_user_id

  unfoldable pub update : Request → Text → UpdateUserDto → ℕ → Exec User
  unfolding find_by_code_or_fail find_role_or_fail apply_status update_row
  update req code dto acting_user_id = do
    user ← find_by_code_or_fail orm code
    with_new_role ← with_role dto.role_id acting_user_id (renamed dto.name user)
    saved ← with_status req.now dto.status acting_user_id (with_mfa dto.mfa with_new_role)
    update_row orm saved.id (λ u. saved)
    find_by_code_or_fail orm user.code

  unfoldable pub toggle_status : Request → Text → ℕ → Exec User
  unfolding find_by_code_or_fail apply_status update_row
  toggle_status req code acting_user_id = do
    user ← find_by_code_or_fail orm code
    throw_if (is_invited user.status) invite_pending
    let next = if is_active user.status then UserStatus.suspended else UserStatus.active
    saved ← apply_status req.now user next acting_user_id
    update_row orm saved.id (λ u. saved)
    find_by_code_or_fail orm user.code
