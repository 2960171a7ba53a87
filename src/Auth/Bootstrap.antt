-- ===== src/Auth/Bootstrap.antt =====
-- Registration is open once.
use mentos_backend.Common.{
  ℕ, suc, length, ltb, ==_refl, ◌≡◌, refl, sym, ap, ◌∙◌, true, Option, List, [], ◌∷◌, arith, Text,
}
use mathlib.Core.Path.{subst}
use mentos_backend.Model.{Role, User, UserStatus, registration_closed, World, Request}
use mentos_backend.Orm.{
  Orm, Documented, reference, orm-eq-reference, Result, ok, err, >>=_ok, Exec, throw_if, ◌>>◌,
}
use mentos_backend.Tokens.{RefreshContext, issue_refresh_token}
use mentos_backend.Users.Inputs.{Platform, Random}
use mentos_backend.Codes.Decimal.{show, pad_start, cast_integer}
use mentos_backend.Roles.BuiltIn.{
  ensure_built_in_roles, built_in_roles, BuiltInRole, role_of, super_admin, staff_roles,
}
use mentos_backend.Roles.Catalog.{all_perm_keys}
use mentos_backend.Auth.{AuthSession, issue_session}
use mentos_backend.Auth.Registration.{RegisterDto, open_account, register}

-- the state with no users, no roles and no sessions
abbrev pub emptied : World → World
emptied w = record w { db = record w.db { users = []; roles = []; refresh_tokens = [] } }

-- a session of a super admin, who is the only user
abbrev pub IsBootstrapped : Result AuthSession × World → Type 0
IsBootstrapped (err e, w) = ⊥
IsBootstrapped (ok s, w) =
    (s.perms ≡ all_perm_keys) × (s.user.status ≡ UserStatus.active) × (w.users ≡ s.user ∷ [])

abbrev numbered : ℕ → List BuiltInRole → List Role
numbered id [] = []
numbered id (r ∷ rs) = role_of id r ∷ numbered (suc id) rs

abbrev seeded : Request → World → World
seeded req w = record w {
  db = record w.db { users = []; roles = numbered req.new_id built_in_roles; refresh_tokens = [] };
}

ensure_fresh :
    (req : Request) (w : World)
    → ensure_built_in_roles reference req (emptied w) ≡ (ok tt, seeded req w)
unfolding ensure_built_in_roles built_in_roles super_admin staff_roles
ensure_fresh req w = refl

module _ (p : Platform) (access_ttl : Option Text) (req : Request) (random : Random)
    (ctx : RefreshContext) (dto : RegisterDto) where
  register_step :
      (w : World)
      → register reference p access_ttl req random ctx dto (emptied w)
        ≡ open_account reference p access_ttl req random ctx dto (seeded req w)
  unfolding register
  register_step w =
      >>=_ok (ensure_built_in_roles reference req)
        (λ _. open_account reference p access_ttl req random ctx dto) tt (emptied w) (seeded req w)
        (ensure_fresh req w)

  opened :
      (w : World)
      → IsBootstrapped (open_account reference p access_ttl req random ctx dto (seeded req w))
  unfolding open_account built_in_roles super_admin issue_session issue_refresh_token show pad_start
      cast_integer
  opened w = (ground (arith, ==_refl req.new_id), refl, refl)

  closed :
      (u : User) (us : List User) (w : World)
      → w.users ≡ u ∷ us
      → register reference p access_ttl req random ctx dto w ≡ (err registration_closed, w)
  unfolding register
  closed u us w h =
      let some_user : ltb 0 (length w.users) ≡ true = ap (λ l. ltb 0 (length l)) h ∙ ground arith in
      ap (λ b. (throw_if b registration_closed >> rest) w) some_user
    where
      rest : Exec AuthSession
      rest =
          ensure_built_in_roles reference req
          >> open_account reference p access_ttl req random ctx dto

  closed_after :
      (run : Result AuthSession × World)
      → IsBootstrapped run
      → register reference p access_ttl req random ctx dto run.1 ≡ (err registration_closed, run.1)
  closed_after (ok s, w) h = closed s.user [] w h.2
  closed_after (err e, w) h = absurd h

emptied-eq : (w : World) → w.users ≡ [] → w.roles ≡ [] → w.refresh_tokens ≡ [] → emptied w ≡ w
emptied-eq w u r t = λ i. record w {
  db = record w.db { users = sym u i; roles = sym r i; refresh_tokens = sym t i };
}

bootstrap-reference :
    (p : Platform) (access_ttl : Option Text) (req req' : Request) (random random' : Random)
    (ctx ctx' : RefreshContext) (dto dto' : RegisterDto) (w : World)
    → w.users ≡ []
    → w.roles ≡ []
    → w.refresh_tokens ≡ []
    → IsBootstrapped (register reference p access_ttl req random ctx dto w)
      × (register reference p access_ttl req' random' ctx' dto'
            (register reference p access_ttl req random ctx dto w).1
          ≡ (err registration_closed, (register reference p access_ttl req random ctx dto w).1))
bootstrap-reference p access_ttl req req' random random' ctx ctx' dto dto' w u r t =
    let first_run : IsBootstrapped (register reference p access_ttl req random ctx dto w) =
      subst (λ v. IsBootstrapped (register reference p access_ttl req random ctx dto v))
        (emptied-eq w u r t)
        (subst IsBootstrapped (sym (register_step p access_ttl req random ctx dto w))
          (opened p access_ttl req random ctx dto w)) in
    (
      first_run,
      closed_after p access_ttl req' random' ctx' dto'
          (register reference p access_ttl req random ctx dto w) first_run,
    )

-- On a database without users, roles and sessions, registration returns a session of an active user
-- who has every permission of the catalog and is the only user; any later attempt is refused and
-- changes nothing.
pub register-register :
    (orm : Orm)
    → Documented orm
    → (p : Platform) (access_ttl : Option Text) (req req' : Request) (random random' : Random)
      (ctx ctx' : RefreshContext) (dto dto' : RegisterDto) (w : World)
    → w.users ≡ []
    → w.roles ≡ []
    → w.refresh_tokens ≡ []
    → IsBootstrapped (register orm p access_ttl req random ctx dto w)
      × (register orm p access_ttl req' random' ctx' dto'
            (register orm p access_ttl req random ctx dto w).1
          ≡ (err registration_closed, (register orm p access_ttl req random ctx dto w).1))
register-register orm documented = rw (orm-eq-reference orm documented) bootstrap-reference
