-- ===== src/Tokens/Rotation.antt =====
-- The refresh tokens: rotation, and that a token which is presented twice ends every session.
use mathlib.Core.Path.{subst}
use mentos_backend.Common.{
  ℕ, ◌==◌, ◌+◌, ◌*◌, or_else, ==_refl, ◌&&◌, ◌≡◌, ◌∙◌, ap, inl, inr, refl, not, Bool, true, is_some,
  change, first, first-append, first-change, some, List, [], ◌∷◌, ◌++◌, Text, same, arith,
  Bool-cases, Option-cases, any, leb, All,
}
use mentos_backend.Model.{RefreshToken, refresh_reused, World, Request}
use mentos_backend.Orm.{Orm, Documented, reference, orm-eq-reference, ok, err, Outcome-cases}
use mentos_backend.Tokens.{
  Settings, IssuedToken, new_refresh_token, RefreshContext, put_refresh_tokens, issue_refresh_token,
  revoke_all_for_user, rotate_refresh_token,
}

-- no session of the user is left
abbrev pub AllRevoked : ℕ → List RefreshToken → Type 0
AllRevoked user_id t = All (λ r. (r.user_id == user_id) ≡ true → is_some r.revoked_at ≡ true) t

pub revoked :
    (now user_id : ℕ) (t : List RefreshToken)
    → AllRevoked user_id (
        change
          (λ r. (r.user_id == user_id) && not (is_some r.revoked_at))
          (λ r. record r { revoked_at = some now })
          t)
revoked now user_id [] = tt
revoked now user_id (r ∷ t) = (λ own. ground arith, revoked now user_id t)

pub revoke_all_for_user-AllRevoked :
    (hash : Text → Text) (config : Settings) (now user_id : ℕ) (w : World)
    → AllRevoked user_id (revoke_all_for_user reference hash config now user_id w).1.refresh_tokens
unfolding revoke_all_for_user
revoke_all_for_user-AllRevoked hash config now user_id w = revoked now user_id w.refresh_tokens

module _ (hash : Text → Text) (config : Settings) where
  issue_refresh_token_ok :
      (req : Request) (token : Text) (ctx : RefreshContext) (user_id : ℕ) (w w' : World)
      {i : IssuedToken}
      → issue_refresh_token reference hash config req token ctx user_id w ≡ (ok i, w')
      → (new : RefreshToken) × (i.token ≡ token)
        × (w' ≡ put_refresh_tokens w (w.refresh_tokens ++ new ∷ []))
  unfolding issue_refresh_token
  issue_refresh_token_ok req token ctx user_id w w' h =
      elim (Bool-cases (any (λ r. same r.token_hash (hash token)) w.refresh_tokens)) [
        | inl clash ↦ absurd (ground arith)
        | inr fresh ↦ (
          new_refresh_token req (hash token) user_id
              (req.now + or_else config.refresh_ttl_days 7 * 86_400_000) ctx,
          ground arith,
          ground arith,
        )
      ]

  -- the row of a token that has been rotated
  abbrev rotated : ℕ → Text → RefreshToken → RefreshToken
  rotated now token r = record r {
    revoked_at = some now;
    replaced_by_token_hash = some (hash token);
  }

  rotate_ok :
      (req : Request) (token new_token : Text) (ctx : RefreshContext) (w : World) {user_id : ℕ}
      {i : IssuedToken}
      → (rotate_refresh_token reference hash config req token new_token ctx w).0 ≡ ok (user_id, i)
      → (row : RefreshToken) × (new : RefreshToken) × (first
            (λ r. same r.token_hash (hash token))
            w.refresh_tokens
          ≡ some row)
        × (row.user_id ≡ user_id)
        × ((rotate_refresh_token reference hash config req token new_token ctx w).1
            ≡ put_refresh_tokens w (
                change
                  (λ r. r.id == row.id)
                  (rotated req.now new_token)
                  (w.refresh_tokens ++ new ∷ [])))
  unfolding rotate_refresh_token
  rotate_ok req token new_token ctx w {user_id} {i} done =
      elim (Option-cases (first (λ r. same r.token_hash (hash token)) w.refresh_tokens)) [
        | inl unknown ↦ absurd (ground arith)
        | inr (row, found) ↦ elim (Bool-cases (is_some row.revoked_at)) [
          | inl reused ↦ absurd (ground arith)
          | inr live ↦ elim (Bool-cases (leb row.expires_at req.now)) [
            | inl late ↦ absurd (ground arith)
            | inr valid ↦
                elim (Outcome-cases
                  (issue_refresh_token reference hash config req new_token ctx row.user_id w)) [
                    | inr (e, w1, failed) ↦ absurd (ground arith)
                    | inl (issued, w1, h1) ↦
                        let (new, same_token, after) =
                          issue_refresh_token_ok req new_token ctx row.user_id w w1 {i = issued}
                            h1 in
                        (row, new, found, ground arith, ground arith)
                  ]
          ]
        ]
      ]

  -- a token that is revoked is refused, and every session of its user ends
  rotate_reused :
      (req : Request) (token new_token : Text) (ctx : RefreshContext) (w : World)
      (row : RefreshToken) (at : ℕ)
      → first (λ r. same r.token_hash (hash token)) w.refresh_tokens ≡ some row
      → row.revoked_at ≡ some at
      → rotate_refresh_token reference hash config req token new_token ctx w
        ≡ (err refresh_reused, (revoke_all_for_user reference hash config req.now row.user_id w).1)
  unfolding rotate_refresh_token revoke_all_for_user
  rotate_reused req token new_token ctx w row at found dead = ground arith

module _ (orm : Orm) (hash : Text → Text) (config : Settings) (req again : Request)
    (token new1 new2 : Text) (ctx1 ctx2 : RefreshContext) (w : World) (user_id : ℕ) where
  -- the outcome of presenting the token once more
  abbrev pub Replayed : Type 0
  Replayed =
      let w1 = (rotate_refresh_token orm hash config req token new1 ctx1 w).1 in
      let second = rotate_refresh_token orm hash config again token new2 ctx2 w1 in
      (second.0 ≡ err refresh_reused) × AllRevoked user_id second.1.refresh_tokens

replayed_reference :
    (hash : Text → Text) (config : Settings) (req again : Request) (token new1 new2 : Text)
    (ctx1 ctx2 : RefreshContext) (w : World) (user_id : ℕ) (i : IssuedToken)
    → (rotate_refresh_token reference hash config req token new1 ctx1 w).0 ≡ ok (user_id, i)
    → Replayed reference hash config req again token new1 new2 ctx1 ctx2 w user_id
replayed_reference hash config req again token new1 new2 ctx1 ctx2 w user_id i done =
    let w1 : World = (rotate_refresh_token reference hash config req token new1 ctx1 w).1 in
    let (row, new, found, own, after) =
      rotate_ok hash config req token new1 ctx1 w {user_id = user_id} {i = i} done in
    let wanted : RefreshToken → Bool = λ r. same r.token_hash (hash token) in
    let gone : RefreshToken = rotated hash config req.now new1 row in
    let here : first wanted w1.refresh_tokens ≡ some gone =
      ap (λ v. first wanted v.refresh_tokens) after
      ∙ first-change wanted (λ r. r.id == row.id) (rotated hash config req.now new1) row
          (w.refresh_tokens ++ new ∷ []) (λ r. refl) (==_refl row.id)
          (first-append wanted w.refresh_tokens (new ∷ []) row found) in
    let second : rotate_refresh_token reference hash config again token new2 ctx2 w1 ≡ (
      err refresh_reused,
      (revoke_all_for_user reference hash config again.now row.user_id w1).1,
    ) =
      rotate_reused hash config again token new2 ctx2 w1 gone req.now here refl in
    rw second (
      refl,
      subst
          (λ n.
            AllRevoked n
              (revoke_all_for_user reference hash config again.now row.user_id w1).1.refresh_tokens)
          own (revoke_all_for_user-AllRevoked hash config again.now row.user_id w1),
    )

-- A refresh token that has been rotated is refused when it is presented again, at whatever time,
-- and every refresh token of its user is then revoked.
pub rotate_refresh_token-Replayed :
    (orm : Orm)
    → Documented orm
    → (hash : Text → Text) (config : Settings) (req again : Request) (token new1 new2 : Text)
      (ctx1 ctx2 : RefreshContext) (w : World) (user_id : ℕ) (i : IssuedToken)
    → (rotate_refresh_token orm hash config req token new1 ctx1 w).0 ≡ ok (user_id, i)
    → Replayed orm hash config req again token new1 new2 ctx1 ctx2 w user_id
rotate_refresh_token-Replayed orm documented =
    rw (orm-eq-reference orm documented) replayed_reference
