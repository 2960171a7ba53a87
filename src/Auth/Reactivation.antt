-- ===== src/Auth/Reactivation.antt =====
-- What acceptInvite does to an account that has been suspended.
use mentos_backend.Common.{
  ◌==◌, ==_refl, ◌&&◌, ◌≡◌, ◌∙◌, ap, sym, inl, inr, refl, change, first, first-change, Option, some,
  Text, same, arith, Bool-cases,
}
use mentos_backend.Model.{
  User, UserStatus, UserToken, UserTokenPurpose, same_purpose, World, Request,
}
use mentos_backend.Orm.{Orm, Documented, reference, orm-eq-reference, ok, Outcome-cases}
use mentos_backend.Tokens
use mentos_backend.Tokens.{is_usable, RefreshContext, IssuedToken}
use mentos_backend.Users
use mentos_backend.Users.{is_invited, is_active, is_suspended}
use mentos_backend.Users.Inputs.{Platform, Random}
use mentos_backend.Auth.{ResetPasswordDto, AuthSession, accept_invite, issue_session}
use mentos_backend.Auth.Entry.{issue_session_ok}

abbrev pub activated : Text → User → User
activated hash u = record u { password_hash = some hash; status = UserStatus.active }

abbrev logged_in : Request → User → User
logged_in req u = record u { last_login_at = some req.now }

-- after the password has been set
abbrev redeemed : Request → Text → UserToken → World → World
redeemed req hash row w = record w {
  db = record w.db {
    user_tokens =
        change (λ r. r.id == row.id) (λ r. record r { used_at = some req.now }) w.user_tokens;
    users = change (λ x. x.id == row.user_id) (activated hash) w.users;
  };
}

-- after the login has been recorded
abbrev signed_in : Request → Text → UserToken → User → World → World
signed_in req hash row u w =
    Users.put_users (redeemed req hash row w)
      (change (λ x. x.id == u.id) (logged_in req) (redeemed req hash row w).users)

both_updates :
    (req : Request) (hash : Text) (row : UserToken) (u : User) (w : World)
    → row.user_id ≡ u.id
    → first (λ x. x.id == u.id) w.users ≡ some u
    → first (λ x. x.id == u.id) (signed_in req hash row u w).users
      ≡ some (logged_in req (activated hash u))
both_updates req hash row u w own found =
    first-change (λ x. x.id == u.id) (λ x. x.id == u.id) (logged_in req) (activated hash u)
      (redeemed req hash row w).users (λ x. refl) (==_refl u.id)
      (first-change (λ x. x.id == u.id) (λ x. x.id == row.user_id) (activated hash) u w.users
        (λ x. refl) (ground (arith, ==_refl u.id)) found)

-- the rows of the users after an invite has been accepted
accept_invite_ok :
    (p : Platform) (ttl : Option Text) (req : Request) (random : Random) (ctx : RefreshContext)
    (dto : ResetPasswordDto) (w : World) (row : UserToken) (u : User) {s : AuthSession}
    → first
        (λ r.
          same r.token_hash (p.sha256 dto.token) && same_purpose r.purpose UserTokenPurpose.invite)
        w.user_tokens
      ≡ some row
    → row.user_id ≡ u.id
    → first (λ x. x.id == u.id) w.users ≡ some u
    → (accept_invite reference p ttl req random ctx dto w).0 ≡ ok s
    → (u' : User) × (first
          (λ x. x.id == u.id)
          (accept_invite reference p ttl req random ctx dto w).1.users
        ≡ some u')
      × (u'.status ≡ UserStatus.active)
      × (s.user ≡ activated (p.bcrypt_hash random.salt dto.password) u)
unfolding accept_invite Tokens.redeem_user_token Users.set_password Users.record_login
accept_invite_ok p ttl req random ctx dto w row u {s} stored own found done =
    let hash : Text = p.bcrypt_hash random.salt dto.password in
    let here : first (λ x. x.id == row.user_id) (redeemed req hash row w).users
        ≡ some (activated hash u) =
      first-change (λ x. x.id == row.user_id) (λ x. x.id == row.user_id) (activated hash) u w.users
        (λ x. refl) (ground (arith, ==_refl u.id))
        (ap (λ n. first (λ x. x.id == n) w.users) own ∙ found) in
    elim (Bool-cases (is_usable req.now row)) [
      | inr spent ↦ absurd (ground arith)
      | inl usable ↦
          elim (Outcome-cases (
            issue_session reference p ttl req random ctx (activated hash u)
              (signed_in req hash row u w))) [
                | inr (e, w1, failed) ↦ absurd (ground arith)
                | inl (s1, w1, h1) ↦
                    let (same_user, _, same_users) =
                      issue_session_ok p ttl req random ctx (activated hash u)
                        (signed_in req hash row u w) w1 {s = s1} h1 in
                    let written : (accept_invite reference p ttl req random ctx dto w).1.users
                        ≡ w1.users =
                      ground arith in
                    let e : s1 ≡ s = ground arith in
                    (
                      logged_in req (activated hash u),
                      ap (first (λ x. x.id == u.id)) (written ∙ same_users)
                          ∙ both_updates req hash row u w own found,
                      refl,
                      ap (λ x. x.user) (sym e) ∙ same_user,
                    )
              ]
    ]

-- the account is active in the table, and the session is for that account, active and under the
-- new password
abbrev pub IsActivated : Text → User → World → AuthSession → Type 0
IsActivated hash before w s =
    (u : User) × (first (λ x. x.id == before.id) w.users ≡ some u)
    × (u.status ≡ UserStatus.active)
    × (s.user ≡ activated hash before)

accept_invite-reference :
    (p : Platform) (ttl : Option Text) (req : Request) (random : Random) (ctx : RefreshContext)
    (dto : ResetPasswordDto) (w : World) (row : UserToken) (u : User) (s : AuthSession)
    → first
        (λ r.
          same r.token_hash (p.sha256 dto.token) && same_purpose r.purpose UserTokenPurpose.invite)
        w.user_tokens
      ≡ some row
    → row.user_id ≡ u.id
    → first (λ x. x.id == u.id) w.users ≡ some u
    → u.status ≡ UserStatus.suspended
    → (accept_invite reference p ttl req random ctx dto w).0 ≡ ok s
    → IsActivated
        (p.bcrypt_hash random.salt dto.password)
        u
        (accept_invite reference p ttl req random ctx dto w).1
        s
accept_invite-reference p ttl req random ctx dto w row u s stored own found barred done =
    accept_invite_ok p ttl req random ctx dto w row u {s = s} stored own found done

-- If the account of an invite has been suspended, accepting that invite, when it returns, makes the
-- account active again and signs it in: the session's user is that account, active and with the
-- hash of the new password.
pub accept_invite-IsActivated :
    (orm : Orm)
    → Documented orm
    → (p : Platform) (ttl : Option Text) (req : Request) (random : Random) (ctx : RefreshContext)
      (dto : ResetPasswordDto) (w : World) (row : UserToken) (u : User) (s : AuthSession)
    → first
        (λ r.
          same r.token_hash (p.sha256 dto.token) && same_purpose r.purpose UserTokenPurpose.invite)
        w.user_tokens
      ≡ some row
    → row.user_id ≡ u.id
    → first (λ x. x.id == u.id) w.users ≡ some u
    → u.status ≡ UserStatus.suspended
    → (accept_invite orm p ttl req random ctx dto w).0 ≡ ok s
    → IsActivated
        (p.bcrypt_hash random.salt dto.password)
        u
        (accept_invite orm p ttl req random ctx dto w).1
        s
accept_invite-IsActivated orm documented =
    rw (orm-eq-reference orm documented) accept_invite-reference
