-- ===== src/Auth/Entry.antt =====
-- Who gets in by login.
use mentos_backend.Common.{
  ◌≡◌, ◌∙◌, ap, sym, inl, inr, true, false, first, Option, some, or_else, Text, same, arith,
  Bool-cases, Option-cases, any,
}
use mentos_backend.Model.{User, UserStatus, World, Request}
use mentos_backend.Orm.{Orm, Documented, reference, orm-eq-reference, ok, Outcome-cases}
use mentos_backend.Tokens
use mentos_backend.Tokens.{is_usable, RefreshContext, IssuedToken}
use mentos_backend.Users
use mentos_backend.Users.{is_invited, is_active, is_suspended}
use mentos_backend.Users.Inputs.{Platform, Random}
use mentos_backend.Auth.{LoginDto, AuthSession, invalid_hash, login, issue_session}

-- the account that a session is for
abbrev pub Admitted : Platform → LoginDto → World → AuthSession → Type 0
Admitted p dto w s =
    (u : User) × (first (λ x. same x.email (p.to_lower_case (Users.Inputs.trim dto.email))) w.users
      ≡ some u)
    × (p.bcrypt_compare dto.password (or_else u.password_hash invalid_hash) ≡ true)
    × (u.status ≡ UserStatus.active)
    × (s.user ≡ u)
    × (s.tokens.access_token ≡ p.sign u.id u.email u.token_version)

pub issue_session_ok :
    (p : Platform) (ttl : Option Text) (req : Request) (random : Random) (ctx : RefreshContext)
    (u : User) (w w' : World) {s : AuthSession}
    → issue_session reference p ttl req random ctx u w ≡ (ok s, w')
    → (s.user ≡ u)
      × (s.tokens.access_token ≡ p.sign u.id u.email u.token_version)
      × (w'.users ≡ w.users)
unfolding issue_session Tokens.issue_refresh_token
issue_session_ok p ttl req random ctx u w w' h =
    elim (Bool-cases (any (λ r. same r.token_hash (p.sha256 random.token)) w.refresh_tokens)) [
      | inl clash ↦ absurd (ground arith)
      | inr fresh ↦ (ground arith, ground arith, ground arith)
    ]

active_status :
    (s : UserStatus) → is_suspended s ≡ false → is_invited s ≡ false → s ≡ UserStatus.active
active_status s welcome accepted = ground arith

login-reference :
    (p : Platform) (ttl : Option Text) (req : Request) (random : Random) (ctx : RefreshContext)
    (dto : LoginDto) (w : World) (s : AuthSession)
    → (login reference p ttl req random ctx dto w).0 ≡ ok s
    → Admitted p dto w s
unfolding login Users.normalize_email
login-reference p ttl req random ctx dto w s done =
    elim (Option-cases
      (first (λ x. same x.email (p.to_lower_case (Users.Inputs.trim dto.email))) w.users)) [
        | inl unknown ↦ absurd (ground arith)
        | inr (u, found) ↦
            elim (Bool-cases
              (p.bcrypt_compare dto.password (or_else u.password_hash invalid_hash))) [
                | inr wrong ↦ absurd (ground arith)
                | inl right ↦ elim (Bool-cases (is_suspended u.status)) [
                  | inl barred ↦ absurd (ground arith)
                  | inr welcome ↦ elim (Bool-cases (is_invited u.status)) [
                    | inl pending ↦ absurd (ground arith)
                    | inr accepted ↦
                        elim (Outcome-cases (
                          issue_session reference p ttl req random ctx u
                            (Users.record_login reference req u w).1)) [
                              | inr (e, w1, failed) ↦ absurd (ground arith)
                              | inl (s1, w1, h1) ↦
                                  let (same_user, same_token, same_users) =
                                    issue_session_ok p ttl req random ctx u
                                      (Users.record_login reference req u w).1 w1 {s = s1} h1 in
                                  let e : s1 ≡ s = ground arith in
                                  (
                                    u,
                                    found,
                                    right,
                                    active_status u.status welcome accepted,
                                    sym (ap (λ x. x.user) e) ∙ same_user,
                                    sym (ap (λ x. x.tokens.access_token) e) ∙ same_token,
                                  )
                            ]
                  ]
                ]
              ]
      ]

-- A login that returns a session: the e-mail address, trimmed and in lower case, is that of an
-- active account, the password matches its hash, and the session and its access token are for that
-- account at its token version.
pub login-Admitted :
    (orm : Orm)
    → Documented orm
    → (p : Platform) (ttl : Option Text) (req : Request) (random : Random) (ctx : RefreshContext)
      (dto : LoginDto) (w : World) (s : AuthSession)
    → (login orm p ttl req random ctx dto w).0 ≡ ok s
    → Admitted p dto w s
login-Admitted orm documented = rw (orm-eq-reference orm documented) login-reference
