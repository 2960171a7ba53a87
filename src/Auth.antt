-- ===== src/Auth.antt =====
-- auth/auth.service.ts and auth/strategies/jwt.strategy.ts
pub mod Ttl
pub mod Sessions
pub mod Passwords
pub mod Entry
pub mod Reactivation
pub mod Suspension
pub mod Registration
pub mod Bootstrap
use mentos_backend.Common.{
  ℕ, ◌==◌, ◌&&◌, not, Bool, true, false, if◌then◌else◌, Option, none, some, List, [], ◌∷◌, ◌++◌,
  or_else, Text, text,
}
use mentos_backend.Model.{
  Role, User, UserStatus, UserToken, UserTokenPurpose, Mail, bad_credentials, account_suspended,
  account_invited, account_inactive, account_gone, session_expired, World, Request,
}
use mentos_backend.Orm.{Orm, Exec, pure, throw, gets, modify, throw_if, ◌>>=◌, ◌>>◌}
use mentos_backend.Tokens
use mentos_backend.Tokens.{RefreshContext}
use mentos_backend.Users
use mentos_backend.Users.{is_invited, is_active, is_suspended, send}
use mentos_backend.Users.Inputs.{Platform, Random}
use mentos_backend.Auth.Ttl.{parse_ttl_seconds}

pub record LoginDto : Type 0 where
  pub email : Text
  pub password : Text

pub record ResetPasswordDto : Type 0 where
  pub token : Text
  pub password : Text

pub record ChangePasswordDto : Type 0 where
  pub current_password : Text
  pub password : Text

pub record AuthTokens : Type 0 where
  pub access_token : Text
  pub refresh_token : Text
  pub expires_in : ℕ

pub record AuthSession : Type 0 where
  pub tokens : AuthTokens
  pub user : User
  pub perms : List Text

pub record AccessTokenPayload : Type 0 where
  pub sub : ℕ
  pub email : Text
  pub tv : ℕ

-- the hash that a missing user is compared with
abbrev pub invalid_hash : Text
invalid_hash = text "$2b$12$invalidinvalidinvalidinvalidinvalidinvalidinvalidinvaliduu"

-- user?.passwordHash
abbrev pub hash_of : Option User → Option Text
hash_of none = none
hash_of (some u) = u.password_hash

-- user.role?.perms ?? []
abbrev perms_of : Option Role → List Text
perms_of none = []
perms_of (some r) = r.perms

-- `if (!user || !ok) throw`
abbrev pub known_or_throw : Option User → Bool → Exec User
known_or_throw none matched = throw bad_credentials
known_or_throw (some u) matched = if matched then pure u else throw bad_credentials

abbrev pub gone_or_throw : Option User → Exec User
gone_or_throw none = throw account_gone
gone_or_throw (some u) = pure u

-- `withSecret?.passwordHash != null && (await bcrypt.compare(…))`
abbrev pub matches : Platform → Text → Option Text → Bool
matches p password none = false
matches p password (some hash) = p.bcrypt_compare password hash

module _ (orm : Orm) where
  -- JwtStrategy.validate
  unfoldable pub validate : AccessTokenPayload → Exec User
  unfolding Users.find_by_id
  validate payload = do
    found ← Users.find_by_id orm payload.sub
    user ← gone_or_throw found
    throw_if (not (user.token_version == payload.tv)) session_expired
    throw_if (is_suspended user.status) account_suspended
    throw_if (is_invited user.status) account_invited
    pure user

module _ (orm : Orm) (p : Platform) (access_ttl : Option Text) where
  unfoldable pub sign_access_token : User → Text
  sign_access_token user = p.sign user.id user.email user.token_version

  unfoldable pub issue_session : Request → Random → RefreshContext → User → Exec AuthSession
  unfolding sign_access_token parse_ttl_seconds
  issue_session req random ctx user = do
    issued ←
        Tokens.issue_refresh_token orm p.sha256 p.settings (record req { new_id = random.id })
          random.token ctx user.id
    role ← gets (λ w. orm.find_one (λ r. r.id == user.role_id) w.roles)
    pure (record {
      tokens = record {
        access_token = sign_access_token user;
        refresh_token = issued.token;
        expires_in = parse_ttl_seconds access_ttl 900;
      };
      user = user;
      perms = perms_of role;
    })

  unfoldable pub login : Request → Random → RefreshContext → LoginDto → Exec AuthSession
  unfolding Users.find_by_email Users.record_login
  login req random ctx dto = do
    found ← Users.find_by_email orm p dto.email
    let matched = p.bcrypt_compare dto.password (or_else (hash_of found) invalid_hash)
    user ← known_or_throw found matched
    throw_if (is_suspended user.status) account_suspended
    throw_if (is_invited user.status) account_invited
    Users.record_login orm req user
    issue_session req random ctx user

  -- `if (!user || user.status !== Active)` of `refresh`
  abbrev active_or_throw : ℕ → ℕ → Option User → Exec User
  active_or_throw now user_id none =
      Tokens.revoke_all_for_user orm p.sha256 p.settings now user_id >> throw account_inactive
  active_or_throw now user_id (some user) =
      if is_active user.status
      then pure user
      else Tokens.revoke_all_for_user orm p.sha256 p.settings now user_id >> throw account_inactive

  unfoldable pub refresh : Request → Random → RefreshContext → Text → Exec AuthTokens
  unfolding Users.find_by_id sign_access_token parse_ttl_seconds
  refresh req random ctx refresh_token = do
    rotated ←
        Tokens.rotate_refresh_token orm p.sha256 p.settings (record req { new_id = random.id })
          refresh_token random.token ctx
    found ← Users.find_by_id orm rotated.0
    user ← active_or_throw req.now rotated.0 found
    pure (record {
      access_token = sign_access_token user;
      refresh_token = rotated.1.token;
      expires_in = parse_ttl_seconds access_ttl 900;
    })

  unfoldable pub logout : Request → Text → Exec Unit
  logout req refresh_token =
      Tokens.revoke_refresh_token orm p.sha256 p.settings req.now refresh_token

  unfoldable pub logout_all : Request → User → Exec Unit
  unfolding Users.bump_token_version
  logout_all req user = do
    Tokens.revoke_all_for_user orm p.sha256 p.settings req.now user.id
    Users.bump_token_version orm user.id

  -- `if (!user || user.status === Suspended) return`; otherwise the token is mailed
  abbrev mail_reset : Request → Random → Option User → Exec Unit
  mail_reset req random none = pure tt
  mail_reset req random (some user) =
      if is_suspended user.status
      then pure tt
      else Tokens.issue_user_token orm p.sha256 p.settings (record req { new_id = random.id })
          random.token user.id UserTokenPurpose.password_reset
        >>= λ issued. send (Mail.password_reset user.email user.full_name issued.token)

  unfoldable pub forgot_password : Request → Random → Text → Exec Unit
  unfolding Users.find_by_email
  forgot_password req random email = do
    found ← Users.find_by_email orm p email
    mail_reset req random found

  -- `if (user) await this.mail.sendPasswordChanged(user.email)`
  abbrev mail_changed : Option User → Exec Unit
  mail_changed none = pure tt
  mail_changed (some user) = send (Mail.password_changed user.email)

  unfoldable pub reset_password : Request → Random → ResetPasswordDto → Exec Unit
  unfolding Users.set_password Users.bump_token_version Users.find_by_id
  reset_password req random dto = do
    row ←
        Tokens.redeem_user_token orm p.sha256 p.settings req.now dto.token
          UserTokenPurpose.password_reset
    Users.set_password orm row.user_id (p.bcrypt_hash random.salt dto.password) false
    Tokens.revoke_all_for_user orm p.sha256 p.settings req.now row.user_id
    Users.bump_token_version orm row.user_id
    found ← Users.find_by_id orm row.user_id
    mail_changed found

  unfoldable pub accept_invite :
      Request → Random → RefreshContext → ResetPasswordDto → Exec AuthSession
  unfolding Users.set_password Users.find_by_id Users.record_login
  accept_invite req random ctx dto = do
    row ← Tokens.redeem_user_token orm p.sha256 p.settings req.now dto.token UserTokenPurpose.invite
    Users.set_password orm row.user_id (p.bcrypt_hash random.salt dto.password) true
    found ← Users.find_by_id orm row.user_id
    user ← gone_or_throw found
    Users.record_login orm req user
    issue_session req random ctx user

  unfoldable pub change_password : Request → Random → User → ChangePasswordDto → Exec Unit
  unfolding Users.find_by_email Users.set_password Users.bump_token_version
  change_password req random user dto = do
    with_secret ← Users.find_by_email orm p user.email
    throw_if (not (matches p dto.current_password (hash_of with_secret))) bad_credentials
    Users.set_password orm user.id (p.bcrypt_hash random.salt dto.password) false
    Tokens.revoke_all_for_user orm p.sha256 p.settings req.now user.id
    Users.bump_token_version orm user.id
    send (Mail.password_changed user.email)
