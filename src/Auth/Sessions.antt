-- ===== src/Auth/Sessions.antt =====
-- Which sessions the account services end: refresh tokens are revoked, and access tokens that were
-- signed before are refused by JwtStrategy.validate.
use mentos_backend.Common.{
  ℕ, ◌+◌, ◌==◌, ==_refl, ◌&&◌, ◌≡◌, ◌∙◌, ap, refl, not, is_some, change, first, first-change,
  Option, some, List, Text, arith,
}
use mentos_backend.Model.{User, RefreshToken, session_expired, World, Request}
use mentos_backend.Orm.{Orm, Documented, reference, orm-eq-reference, err}
use mentos_backend.Tokens
use mentos_backend.Tokens.Rotation.{AllRevoked, revoked}
use mentos_backend.Users.Inputs.{Platform}
use mentos_backend.Auth.{validate, logout_all}

abbrev pub revoke : ℕ → ℕ → List RefreshToken → List RefreshToken
revoke now user_id t =
    change (λ r. (r.user_id == user_id) && not (is_some r.revoked_at))
      (λ r. record r { revoked_at = some now }) t

abbrev pub bump : User → User
bump u = record u { token_version = u.token_version + 1 }

abbrev pub with_password : Text → User → User
with_password hash u = record u { password_hash = some hash }

-- no refresh token of the user is left, and an access token with this version is refused
abbrev pub IsSignedOut : Orm → ℕ → ℕ → World → Type 0
IsSignedOut orm user_id tv w =
    AllRevoked user_id w.refresh_tokens
    × ((email : Text)
        → (validate orm (record { sub = user_id; email = email; tv = tv }) w).0
          ≡ err session_expired)

stale :
    (user_id : ℕ) (email : Text) (u : User) (w : World) (tv : ℕ)
    → first (λ x. x.id == user_id) w.users ≡ some u
    → u.token_version ≡ tv + 1
    → (validate reference (record { sub = user_id; email = email; tv = tv }) w).0
      ≡ err session_expired
unfolding validate
stale user_id email u w tv found newer = ground arith

-- what the two tables must be
pub signed_out :
    (now : ℕ) (u u' : User) (w w' : World)
    → w'.refresh_tokens ≡ revoke now u.id w.refresh_tokens
    → first (λ x. x.id == u.id) w'.users ≡ some u'
    → u'.token_version ≡ u.token_version + 1
    → IsSignedOut reference u.id u.token_version w'
signed_out now u u' w w' ended found newer = (
  rw ended (revoked now u.id w.refresh_tokens),
  λ email. stale u.id email u' w' u.token_version found newer,
)

logout_all_ok :
    (p : Platform) (ttl : Option Text) (req : Request) (u : User) (w : World)
    → ((logout_all reference p ttl req u w).1.refresh_tokens ≡ revoke req.now u.id w.refresh_tokens)
      × ((logout_all reference p ttl req u w).1.users ≡ change (λ x. x.id == u.id) bump w.users)
unfolding logout_all Tokens.revoke_all_for_user
logout_all_ok p ttl req u w = (ground arith, ground arith)

logout_all-reference :
    (p : Platform) (ttl : Option Text) (req : Request) (u : User) (w : World)
    → first (λ x. x.id == u.id) w.users ≡ some u
    → IsSignedOut reference u.id u.token_version (logout_all reference p ttl req u w).1
logout_all-reference p ttl req u w found =
    let (ended, bumped) = logout_all_ok p ttl req u w in
    signed_out req.now u (bump u) w (logout_all reference p ttl req u w).1 ended
      (ap (first (λ x. x.id == u.id)) bumped
        ∙ first-change (λ x. x.id == u.id) (λ x. x.id == u.id) bump u w.users (λ x. refl)
            (==_refl u.id) found)
      refl

-- Signing out of all devices revokes every refresh token of the user, and every access token that
-- was signed for the user's token version is refused afterwards.
pub logout_all-IsSignedOut :
    (orm : Orm)
    → Documented orm
    → (p : Platform) (ttl : Option Text) (req : Request) (u : User) (w : World)
    → first (λ x. x.id == u.id) w.users ≡ some u
    → IsSignedOut orm u.id u.token_version (logout_all orm p ttl req u w).1
logout_all-IsSignedOut orm documented = rw (orm-eq-reference orm documented) logout_all-reference
