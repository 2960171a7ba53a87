-- ===== src/Auth/Suspension.antt =====
-- UsersService.toggleStatus ends the sessions of the account that it suspends.
use mentos_backend.Common.{
  ℕ, ◌+◌, ◌==◌, ==_refl, ◌≡◌, ◌∙◌, ap, inl, inr, refl, true, false, change, first, some, List, [],
  ◌∷◌, Text, same, arith, Bool-cases,
}
use mentos_backend.Model.{User, UserStatus, World, Request}
use mentos_backend.Orm.{Orm, Documented, reference, orm-eq-reference, ok}
use mentos_backend.Tokens
use mentos_backend.Tokens.{is_usable, RefreshContext, IssuedToken}
use mentos_backend.Users
use mentos_backend.Users.{is_invited, is_active, is_suspended}
use mentos_backend.Users.Inputs.{Platform}
use mentos_backend.Auth.Sessions.{revoke, IsSignedOut, signed_out}

-- the account that has been suspended
abbrev suspended : User → User
suspended u = record u { token_version = u.token_version + 1; status = UserStatus.suspended }

-- the row that is saved in place of the one with its id
replaced :
    (u u' : User) (t : List User)
    → u'.id ≡ u.id
    → first (λ x. x.id == u.id) t ≡ some u
    → first (λ x. x.id == u.id) (change (λ x. x.id == u.id) (λ x. u') t) ≡ some u'
replaced u u' [] same_id found = cc
replaced u u' (x ∷ t) same_id found = elim (Bool-cases (x.id == u.id)) [
  | inl here ↦ ground (arith, ==_refl u.id)
  | inr there ↦ ground (arith, replaced u u' t same_id)
]

toggle_ok :
    (p : Platform) (req : Request) (code : Text) (acting : ℕ) (u : User) (w : World) {r : User}
    → first (λ x. same x.code code) w.users ≡ some u
    → is_active u.status ≡ true
    → (Users.toggle_status reference p req code acting w).0 ≡ ok r
    → ((u.id == acting) ≡ false)
      × ((Users.toggle_status reference p req code acting w).1.refresh_tokens
          ≡ revoke req.now u.id w.refresh_tokens)
      × ((Users.toggle_status reference p req code acting w).1.users
          ≡ change (λ x. x.id == u.id) (λ x. suspended u) w.users)
unfolding Users.toggle_status Users.apply_status Tokens.revoke_all_for_user
toggle_ok p req code acting u w found active done = elim (Bool-cases (u.id == acting)) [
  | inl own ↦ absurd (ground arith)
  | inr other ↦ (other, ground arith, ground arith)
]

toggle_reference :
    (p : Platform) (req : Request) (code : Text) (acting : ℕ) (u : User) (w : World) (r : User)
    → first (λ x. same x.code code) w.users ≡ some u
    → first (λ x. x.id == u.id) w.users ≡ some u
    → u.status ≡ UserStatus.active
    → (Users.toggle_status reference p req code acting w).0 ≡ ok r
    → ((u.id == acting) ≡ false)
      × IsSignedOut reference u.id u.token_version
          (Users.toggle_status reference p req code acting w).1
toggle_reference p req code acting u w r found by_id active done =
    let (other, ended, written) =
      toggle_ok p req code acting u w {r = r} found (ap is_active active) done in
    let here : first (λ x. x.id == u.id) (Users.toggle_status reference p req code acting w).1.users
        ≡ some (suspended u) =
      ap (first (λ x. x.id == u.id)) written ∙ replaced u (suspended u) w.users refl by_id in
    (
      other,
      signed_out req.now u (suspended u) w (Users.toggle_status reference p req code acting w).1
          ended here refl,
    )

-- Suspending an active account by toggling its status, when it returns, has not been asked by the
-- account itself; every refresh token of the account is revoked, and access tokens of its token
-- version are refused afterwards.
pub toggle_status-IsSignedOut :
    (orm : Orm)
    → Documented orm
    → (p : Platform) (req : Request) (code : Text) (acting : ℕ) (u : User) (w : World) (r : User)
    → first (λ x. same x.code code) w.users ≡ some u
    → first (λ x. x.id == u.id) w.users ≡ some u
    → u.status ≡ UserStatus.active
    → (Users.toggle_status orm p req code acting w).0 ≡ ok r
    → ((u.id == acting) ≡ false)
      × IsSignedOut orm u.id u.token_version (Users.toggle_status orm p req code acting w).1
toggle_status-IsSignedOut orm documented = rw (orm-eq-reference orm documented) toggle_reference
