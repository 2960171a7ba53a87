-- ===== src/Auth/Passwords.antt =====
-- A change or a reset of the password ends every session.
use mentos_backend.Common.{
  ℕ, ◌==◌, ==_refl, ◌&&◌, ◌≡◌, ◌∙◌, ap, inl, inr, refl, true, change, first, first-change, Option,
  some, List, Text, same, arith, Bool-cases, Option-cases,
}
use mentos_backend.Model.{User, UserToken, UserTokenPurpose, same_purpose, World, Request}
use mentos_backend.Orm.{Orm, Documented, reference, orm-eq-reference, ok}
use mentos_backend.Tokens
use mentos_backend.Tokens.{is_usable, RefreshContext}
use mentos_backend.Users
use mentos_backend.Users.{is_invited, is_active, is_suspended}
use mentos_backend.Users.Inputs.{Platform, Random}
use mentos_backend.Auth.{
  ResetPasswordDto, ChangePasswordDto, hash_of, matches, reset_password, change_password,
}
use mentos_backend.Auth.Sessions.{revoke, bump, with_password, IsSignedOut, signed_out}

change_password_ok :
    (p : Platform) (ttl : Option Text) (req : Request) (random : Random) (u : User)
    (dto : ChangePasswordDto) (w : World)
    → (change_password reference p ttl req random u dto w).0 ≡ ok tt
    → ((change_password reference p ttl req random u dto w).1.refresh_tokens
        ≡ revoke req.now u.id w.refresh_tokens)
      × ((change_password reference p ttl req random u dto w).1.users
          ≡ change
              (λ x. x.id == u.id)
              bump
              (change
                (λ x. x.id == u.id)
                (with_password (p.bcrypt_hash random.salt dto.password))
                w.users))
unfolding change_password Tokens.revoke_all_for_user Users.find_by_email Users.set_password
change_password_ok p ttl req random u dto w done =
    elim (Bool-cases (
      matches p dto.current_password (
        hash_of (first (λ x. same x.email (Users.normalize_email reference p u.email)) w.users)))) [
          | inl right ↦ (ground arith, ground arith)
          | inr wrong ↦ absurd (ground arith)
        ]

reset_password_ok :
    (p : Platform) (ttl : Option Text) (req : Request) (random : Random) (dto : ResetPasswordDto)
    (w : World)
    → (reset_password reference p ttl req random dto w).0 ≡ ok tt
    → (row : UserToken) × (first
          (λ r.
            same r.token_hash (p.sha256 dto.token)
            && same_purpose r.purpose UserTokenPurpose.password_reset)
          w.user_tokens
        ≡ some row)
      × (is_usable req.now row ≡ true)
      × ((reset_password reference p ttl req random dto w).1.refresh_tokens
          ≡ revoke req.now row.user_id w.refresh_tokens)
      × ((reset_password reference p ttl req random dto w).1.users
          ≡ change
              (λ x. x.id == row.user_id)
              bump
              (change
                (λ x. x.id == row.user_id)
                (with_password (p.bcrypt_hash random.salt dto.password))
                w.users))
unfolding reset_password Tokens.revoke_all_for_user Tokens.redeem_user_token Users.set_password
reset_password_ok p ttl req random dto w done =
    elim (Option-cases (
      first
        (λ r.
          same r.token_hash (p.sha256 dto.token)
          && same_purpose r.purpose UserTokenPurpose.password_reset)
        w.user_tokens)) [
          | inl missing ↦ absurd (ground arith)
          | inr (row, found) ↦ elim (Bool-cases (is_usable req.now row)) [
            | inr spent ↦ absurd (ground arith)
            | inl usable ↦ (row, found, usable, ground arith, ground arith)
          ]
        ]

-- the user that both updates have passed
updated :
    (hash : Text) (u : User) (t : List User)
    → first (λ x. x.id == u.id) t ≡ some u
    → first
        (λ x. x.id == u.id)
        (change (λ x. x.id == u.id) bump (change (λ x. x.id == u.id) (with_password hash) t))
      ≡ some (bump (with_password hash u))
updated hash u t found =
    first-change (λ x. x.id == u.id) (λ x. x.id == u.id) bump (with_password hash u)
      (change (λ x. x.id == u.id) (with_password hash) t) (λ x. refl) (==_refl u.id)
      (first-change (λ x. x.id == u.id) (λ x. x.id == u.id) (with_password hash) u t (λ x. refl)
        (==_refl u.id) found)

-- the user has the new password, and no session
abbrev pub IsRenewed : Orm → ℕ → ℕ → Text → World → Type 0
IsRenewed orm user_id tv hash w =
    ((u : User) × (first (λ x. x.id == user_id) w.users ≡ some u) × (u.password_hash ≡ some hash))
    × IsSignedOut orm user_id tv w

change_password-reference :
    (p : Platform) (ttl : Option Text) (req : Request) (random : Random) (u : User)
    (dto : ChangePasswordDto) (w : World)
    → first (λ x. x.id == u.id) w.users ≡ some u
    → (change_password reference p ttl req random u dto w).0 ≡ ok tt
    → IsRenewed reference u.id u.token_version
        (p.bcrypt_hash random.salt dto.password)
        (change_password reference p ttl req random u dto w).1
change_password-reference p ttl req random u dto w found done =
    let hash : Text = p.bcrypt_hash random.salt dto.password in
    let w1 : World = (change_password reference p ttl req random u dto w).1 in
    let (ended, written) = change_password_ok p ttl req random u dto w done in
    let here : first (λ x. x.id == u.id) w1.users ≡ some (bump (with_password hash u)) =
      ap (first (λ x. x.id == u.id)) written ∙ updated hash u w.users found in
    (
      (bump (with_password hash u), here, refl),
      signed_out req.now u (bump (with_password hash u)) w w1 ended here refl,
    )

-- A password change that returns has stored the hash of the new password, has revoked every
-- refresh token of the user, and access tokens of the user's token version are refused afterwards.
pub change_password-IsRenewed :
    (orm : Orm)
    → Documented orm
    → (p : Platform) (ttl : Option Text) (req : Request) (random : Random) (u : User)
      (dto : ChangePasswordDto) (w : World)
    → first (λ x. x.id == u.id) w.users ≡ some u
    → (change_password orm p ttl req random u dto w).0 ≡ ok tt
    → IsRenewed orm u.id u.token_version
        (p.bcrypt_hash random.salt dto.password)
        (change_password orm p ttl req random u dto w).1
change_password-IsRenewed orm documented =
    rw (orm-eq-reference orm documented) change_password-reference

reset_password-reference :
    (p : Platform) (ttl : Option Text) (req : Request) (random : Random) (dto : ResetPasswordDto)
    (w : World) (row : UserToken) (u : User)
    → first
        (λ r.
          same r.token_hash (p.sha256 dto.token)
          && same_purpose r.purpose UserTokenPurpose.password_reset)
        w.user_tokens
      ≡ some row
    → row.user_id ≡ u.id
    → first (λ x. x.id == u.id) w.users ≡ some u
    → (reset_password reference p ttl req random dto w).0 ≡ ok tt
    → IsRenewed reference u.id u.token_version
        (p.bcrypt_hash random.salt dto.password)
        (reset_password reference p ttl req random dto w).1
reset_password-reference p ttl req random dto w row u stored own found done =
    let hash : Text = p.bcrypt_hash random.salt dto.password in
    let w1 : World = (reset_password reference p ttl req random dto w).1 in
    let (row', stored', usable, ended, written) = reset_password_ok p ttl req random dto w done in
    let same_row : row' ≡ row = ground arith in
    let same_user : row'.user_id ≡ u.id = ap (λ r. r.user_id) same_row ∙ own in
    let here : first (λ x. x.id == u.id) w1.users ≡ some (bump (with_password hash u)) =
      ap (first (λ x. x.id == u.id)) (
        written
        ∙ ap
            (λ n.
              change (λ x. x.id == n) bump (change (λ x. x.id == n) (with_password hash) w.users))
            same_user)
      ∙ updated hash u w.users found in
    (
      (bump (with_password hash u), here, refl),
      signed_out req.now u (bump (with_password hash u)) w w1
          (ended ∙ ap (λ n. revoke req.now n w.refresh_tokens) same_user) here refl,
    )

-- A password reset that returns, with a token that is stored for a user, has stored the hash of
-- the new password, has revoked every refresh token of that user, and access tokens of the user's
-- token version are refused afterwards.
pub reset_password-IsRenewed :
    (orm : Orm)
    → Documented orm
    → (p : Platform) (ttl : Option Text) (req : Request) (random : Random) (dto : ResetPasswordDto)
      (w : World) (row : UserToken) (u : User)
    → first
        (λ r.
          same r.token_hash (p.sha256 dto.token)
          && same_purpose r.purpose UserTokenPurpose.password_reset)
        w.user_tokens
      ≡ some row
    → row.user_id ≡ u.id
    → first (λ x. x.id == u.id) w.users ≡ some u
    → (reset_password orm p ttl req random dto w).0 ≡ ok tt
    → IsRenewed orm u.id u.token_version
        (p.bcrypt_hash random.salt dto.password)
        (reset_password orm p ttl req random dto w).1
reset_password-IsRenewed orm documented =
    rw (orm-eq-reference orm documented) reset_password-reference
