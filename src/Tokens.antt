-- ===== src/Tokens.antt =====
-- auth/token.service.ts
pub mod Redemption
pub mod Rotation
use mentos_backend.Common.{
  ℕ, zero, suc, ◌+◌, ◌*◌, ◌==◌, ◌&&◌, not, ltb, leb, Bool, true, false, Option, none, some, is_some,
  List, [], ◌∷◌, ◌++◌, or_else, Text, same, if◌then◌else◌,
}
use mentos_backend.Model.{
  RefreshToken, UserToken, UserTokenPurpose, same_purpose, link_invalid, refresh_invalid,
  refresh_reused, refresh_expired, World, Request,
}
use mentos_backend.Orm.{
  Orm, Exec, pure, throw, gets, modify, or_throw, throw_if, or_unique, ◌>>=◌, ◌>>◌,
}

-- the keys of ConfigService that the token service reads; a missing key has a default
pub record Settings : Type 0 where
  pub invite_ttl_minutes : Option ℕ
  pub reset_ttl_minutes : Option ℕ
  pub refresh_ttl_days : Option ℕ

pub record IssuedToken : Type 0 where
  pub token : Text
  pub expires_at : ℕ

pub record RefreshContext : Type 0 where
  pub user_agent : Option Text
  pub ip : Option Text

-- s.slice(0, n)
abbrev slice : ℕ → Text → Text
slice zero s = []
slice (suc n) [] = []
slice (suc n) (c ∷ s) = c ∷ slice n s

-- ctx.x?.slice(0, n) ?? null
abbrev cut : ℕ → Option Text → Option Text
cut n none = none
cut n (some s) = some (slice n s)

abbrev pub put_user_tokens : World → List UserToken → World
put_user_tokens w t = record w { db = record w.db { user_tokens = t } }

abbrev pub put_refresh_tokens : World → List RefreshToken → World
put_refresh_tokens w t = record w { db = record w.db { refresh_tokens = t } }

-- UserToken.isUsable, at the time `now`
abbrev pub is_usable : ℕ → UserToken → Bool
is_usable now record_ = not (is_some record_.used_at) && ltb now record_.expires_at

unfoldable pub ttl_minutes : Settings → UserTokenPurpose → ℕ
ttl_minutes config UserTokenPurpose.invite = or_else config.invite_ttl_minutes 10080
ttl_minutes config UserTokenPurpose.password_reset = or_else config.reset_ttl_minutes 60

-- `if (!record || !record.isUsable) throw`
abbrev pub usable_or_throw : ℕ → Option UserToken → Exec UserToken
usable_or_throw now none = throw link_invalid
usable_or_throw now (some r) = if is_usable now r then pure r else throw link_invalid

unfoldable pub new_user_token : Request → Text → ℕ → UserTokenPurpose → ℕ → UserToken
new_user_token req token_hash user_id purpose expires_at = record {
  id = req.new_id;
  token_hash = token_hash;
  user_id = user_id;
  purpose = purpose;
  expires_at = expires_at;
  used_at = none;
}

unfoldable pub new_refresh_token : Request → Text → ℕ → ℕ → RefreshContext → RefreshToken
new_refresh_token req token_hash user_id expires_at ctx = record {
  id = req.new_id;
  token_hash = token_hash;
  user_id = user_id;
  expires_at = expires_at;
  revoked_at = none;
  replaced_by_token_hash = none;
  user_agent = cut 255 ctx.user_agent;
  ip = cut 64 ctx.ip;
}

-- `hash` is SHA-256; the token of a new row, `randomBytes(32)`, comes from outside.
module _ (orm : Orm) (hash : Text → Text) (config : Settings) where
  unfoldable pub issue_user_token : Request → Text → ℕ → UserTokenPurpose → Exec IssuedToken
  unfolding ttl_minutes new_user_token
  issue_user_token req token user_id purpose = do
    modify (λ w. put_user_tokens w (
        orm.update
          (λ r. (r.user_id == user_id) && same_purpose r.purpose purpose && not (is_some r.used_at))
          (λ r. record r { used_at = some req.now }) w.user_tokens))
    let expires_at = req.now + ttl_minutes config purpose * 60_000
    rows ← gets (λ w.
        orm.insert (λ r. same r.token_hash (hash token))
          (new_user_token req (hash token) user_id purpose expires_at) w.user_tokens)
    saved ← or_unique rows
    modify (λ w. put_user_tokens w saved)
    pure (record { token = token; expires_at = expires_at })

  unfoldable pub redeem_user_token : ℕ → Text → UserTokenPurpose → Exec UserToken
  redeem_user_token now token purpose = do
    found ← gets (λ w.
        orm.find_one (λ r. same r.token_hash (hash token) && same_purpose r.purpose purpose)
          w.user_tokens)
    row ← usable_or_throw now found
    modify (λ w.
        put_user_tokens w
          (orm.update (λ r. r.id == row.id) (λ r. record r { used_at = some now }) w.user_tokens))
    pure (record row { used_at = some now })

  unfoldable pub issue_refresh_token : Request → Text → RefreshContext → ℕ → Exec IssuedToken
  unfolding new_refresh_token
  issue_refresh_token req token ctx user_id = do
    let expires_at = req.now + or_else config.refresh_ttl_days 7 * 86_400_000
    rows ← gets (λ w.
        orm.insert (λ r. same r.token_hash (hash token))
          (new_refresh_token req (hash token) user_id expires_at ctx) w.refresh_tokens)
    saved ← or_unique rows
    modify (λ w. put_refresh_tokens w saved)
    pure (record { token = token; expires_at = expires_at })

  unfoldable pub revoke_all_for_user : ℕ → ℕ → Exec Unit
  revoke_all_for_user now user_id = modify (λ w. put_refresh_tokens w (
      orm.update (λ r. (r.user_id == user_id) && not (is_some r.revoked_at))
        (λ r. record r { revoked_at = some now }) w.refresh_tokens))

  -- `if (record.revokedAt !== null)`
  abbrev reject_reused : ℕ → RefreshToken → Exec Unit
  reject_reused now row =
      if is_some row.revoked_at
      then revoke_all_for_user now row.user_id >> throw refresh_reused
      else pure tt

  -- the presented token, the token of the successor; returns the user with the successor
  unfoldable pub rotate_refresh_token :
      Request → Text → Text → RefreshContext → Exec (ℕ × IssuedToken)
  rotate_refresh_token req token new_token ctx = do
    found ← gets (λ w. orm.find_one (λ r. same r.token_hash (hash token)) w.refresh_tokens)
    row ← or_throw refresh_invalid found
    reject_reused req.now row
    throw_if (leb row.expires_at req.now) refresh_expired
    issued ← issue_refresh_token req new_token ctx row.user_id
    modify (λ w. put_refresh_tokens w (
        orm.update (λ r. r.id == row.id)
          (λ r. record r {
            revoked_at = some req.now;
            replaced_by_token_hash = some (hash issued.token);
          })
          w.refresh_tokens))
    pure (row.user_id, issued)

  unfoldable pub revoke_refresh_token : ℕ → Text → Exec Unit
  revoke_refresh_token now token = modify (λ w. put_refresh_tokens w (
      orm.update (λ r. same r.token_hash (hash token) && not (is_some r.revoked_at))
        (λ r. record r { revoked_at = some now }) w.refresh_tokens))

  unfoldable pub purge_expired : ℕ → Exec Unit
  purge_expired now = do
    modify (λ w. put_refresh_tokens w (orm.delete (λ r. ltb r.expires_at now) w.refresh_tokens))
    modify (λ w. put_user_tokens w (orm.delete (λ r. ltb r.expires_at now) w.user_tokens))
