-- ===== src/Tokens/Redemption.antt =====
-- The tokens of invites and password resets are used once.
use mathlib.Core.Path.{subst}
use mentos_backend.Common.{
  ℕ, ◌==◌, ◌+◌, ◌*◌, if◌then◌else◌, ==_refl, ◌&&◌, ◌≡◌, ◌∙◌, ap, inl, inr, refl, not, Bool, true,
  is_some, change, first, first-append, first-change, first-change_if, some, List, [], ◌∷◌, ◌++◌,
  Text, same, arith, Bool-cases, Option-cases, any,
}
use mentos_backend.Model.{UserToken, UserTokenPurpose, same_purpose, link_invalid, World, Request}
use mentos_backend.Orm.{Orm, Documented, reference, orm-eq-reference, ok, err}
use mentos_backend.Tokens.{
  Settings, IssuedToken, new_user_token, ttl_minutes, is_usable, put_user_tokens, issue_user_token,
  redeem_user_token,
}

module _ (hash : Text → Text) (config : Settings) where
  redeem_ok :
      (now : ℕ) (token : Text) (purpose : UserTokenPurpose) (w : World) {r : UserToken}
      → (redeem_user_token reference hash config now token purpose w).0 ≡ ok r
      → (row : UserToken) × (first
            (λ r. same r.token_hash (hash token) && same_purpose r.purpose purpose)
            w.user_tokens
          ≡ some row)
        × (is_usable now row ≡ true)
        × ((redeem_user_token reference hash config now token purpose w).1
            ≡ put_user_tokens w
                (change (λ r. r.id == row.id) (λ r. record r { used_at = some now }) w.user_tokens))
  unfolding redeem_user_token
  redeem_ok now token purpose w done =
      elim (Option-cases (
        first (λ r. same r.token_hash (hash token) && same_purpose r.purpose purpose)
          w.user_tokens)) [
            | inl missing ↦ absurd (ground arith)
            | inr (row, found) ↦ elim (Bool-cases (is_usable now row)) [
              | inr spent ↦ absurd (ground arith)
              | inl usable ↦ (row, found, usable, ground arith)
            ]
          ]

  -- a token whose row is used is refused
  redeem_used :
      (now : ℕ) (token : Text) (purpose : UserTokenPurpose) (w : World) (row : UserToken) (at : ℕ)
      → first (λ r. same r.token_hash (hash token) && same_purpose r.purpose purpose) w.user_tokens
        ≡ some row
      → row.used_at ≡ some at
      → redeem_user_token reference hash config now token purpose w ≡ (err link_invalid, w)
  unfolding redeem_user_token
  redeem_used now token purpose w row at found used = ground arith

redeem_again_reference :
    (hash : Text → Text) (config : Settings) (now later : ℕ) (token : Text)
    (purpose : UserTokenPurpose) (w : World) (r : UserToken)
    → (redeem_user_token reference hash config now token purpose w).0 ≡ ok r
    → (redeem_user_token reference hash config later token purpose
        (redeem_user_token reference hash config now token purpose w).1).0
      ≡ err link_invalid
redeem_again_reference hash config now later token purpose w r done =
    let (row, found, usable, after) = redeem_ok hash config now token purpose w {r = r} done in
    let again =
      first-change (λ r. same r.token_hash (hash token) && same_purpose r.purpose purpose)
        (λ r. r.id == row.id) (λ r. record r { used_at = some now }) row w.user_tokens (λ r. refl)
        (==_refl row.id) found in
    rw after (
      ap (λ x. x.0)
        (redeem_used hash config later token purpose _ (record row { used_at = some now }) now again
          refl))

-- A token that has been redeemed is refused from then on, at whatever time it is presented again.
pub redeem_user_token-once :
    (orm : Orm)
    → Documented orm
    → (hash : Text → Text) (config : Settings) (now later : ℕ) (token : Text)
      (purpose : UserTokenPurpose) (w : World) (r : UserToken)
    → (redeem_user_token orm hash config now token purpose w).0 ≡ ok r
    → (redeem_user_token orm hash config later token purpose
        (redeem_user_token orm hash config now token purpose w).1).0
      ≡ err link_invalid
redeem_user_token-once orm documented = rw (orm-eq-reference orm documented) redeem_again_reference

abbrev wanted : (Text → Text) → Text → UserTokenPurpose → UserToken → Bool
wanted hash token purpose r = same r.token_hash (hash token) && same_purpose r.purpose purpose

abbrev is_outstanding : ℕ → UserTokenPurpose → UserToken → Bool
is_outstanding user_id purpose r =
    (r.user_id == user_id) && same_purpose r.purpose purpose && not (is_some r.used_at)

abbrev retire : ℕ → ℕ → UserTokenPurpose → UserToken → UserToken
retire now user_id purpose r =
    if is_outstanding user_id purpose r then record r { used_at = some now } else r

-- the tokens of the user, before the new one is written
abbrev retired : ℕ → ℕ → UserTokenPurpose → List UserToken → List UserToken
retired now user_id purpose t =
    change (is_outstanding user_id purpose) (λ r. record r { used_at = some now }) t

retire_used :
    (now : ℕ) (purpose : UserTokenPurpose) (r : UserToken)
    → same_purpose r.purpose purpose ≡ true
    → (at : ℕ) × ((retire now r.user_id purpose r).used_at ≡ some at)
retire_used now purpose r fits = elim (Option-cases r.used_at) [
  | inl unused ↦ (now, ground (arith, ==_refl r.user_id))
  | inr (at, used) ↦ (at, ground arith)
]

same_purpose-first :
    (hash : Text → Text) (token : Text) (purpose : UserTokenPurpose) (row : UserToken)
    (t : List UserToken)
    → first (wanted hash token purpose) t ≡ some row
    → same_purpose row.purpose purpose ≡ true
same_purpose-first hash token purpose row [] h = cc
same_purpose-first hash token purpose row (r ∷ t) h =
    elim (Bool-cases (wanted hash token purpose r)) [
      | inl here ↦
          let e : r ≡ row = ground arith in
          subst (λ x. same_purpose x.purpose purpose ≡ true) e (ground arith)
      | inr there ↦ same_purpose-first hash token purpose row t (ground arith)
    ]

issue_ok :
    (hash : Text → Text) (config : Settings) (req : Request) (token : Text) (user_id : ℕ)
    (purpose : UserTokenPurpose) (w : World) {i : IssuedToken}
    → (issue_user_token reference hash config req token user_id purpose w).0 ≡ ok i
    → (new : UserToken) × ((issue_user_token reference hash config req token user_id purpose
          w).1.user_tokens
        ≡ retired req.now user_id purpose w.user_tokens ++ new ∷ [])
unfolding issue_user_token
issue_ok hash config req token user_id purpose w done =
    elim (Bool-cases
      (any (λ r. same r.token_hash (hash token)) (retired req.now user_id purpose w.user_tokens))) [
        | inl clash ↦ absurd (ground arith)
        | inr fresh ↦ (
          new_user_token req (hash token) user_id purpose
              (req.now + ttl_minutes config purpose * 60_000),
          ground arith,
        )
      ]

superseded_reference :
    (hash : Text → Text) (config : Settings) (req : Request) (later : ℕ) (old new : Text)
    (purpose : UserTokenPurpose) (w : World) (row : UserToken) (i : IssuedToken)
    → first (λ r. same r.token_hash (hash old) && same_purpose r.purpose purpose) w.user_tokens
      ≡ some row
    → (issue_user_token reference hash config req new row.user_id purpose w).0 ≡ ok i
    → (redeem_user_token reference hash config later old purpose
        (issue_user_token reference hash config req new row.user_id purpose w).1).0
      ≡ err link_invalid
superseded_reference hash config req later old new purpose w row i found done =
    let w1 : World = (issue_user_token reference hash config req new row.user_id purpose w).1 in
    let (added, after) = issue_ok hash config req new row.user_id purpose w {i = i} done in
    let kept : first (wanted hash old purpose) (retired req.now row.user_id purpose w.user_tokens)
        ≡ some (retire req.now row.user_id purpose row) =
      first-change_if (wanted hash old purpose) (is_outstanding row.user_id purpose)
        (λ r. record r { used_at = some req.now }) row w.user_tokens (λ r. refl) found in
    let here : first (wanted hash old purpose) w1.user_tokens
        ≡ some (retire req.now row.user_id purpose row) =
      ap (first (wanted hash old purpose)) after
      ∙ first-append (wanted hash old purpose) (retired req.now row.user_id purpose w.user_tokens)
          (added ∷ []) _ kept in
    let (at, used) =
      retire_used req.now purpose row
        (same_purpose-first hash old purpose row w.user_tokens found) in
    ap (λ x. x.0)
      (redeem_used hash config later old purpose w1 (retire req.now row.user_id purpose row) at here
        used)

-- Issuing a token retires every earlier one of the same user and purpose: a token of theirs that
-- was stored before is refused afterwards.
pub issue_user_token-redeem_user_token :
    (orm : Orm)
    → Documented orm
    → (hash : Text → Text) (config : Settings) (req : Request) (later : ℕ) (old new : Text)
      (purpose : UserTokenPurpose) (w : World) (row : UserToken) (i : IssuedToken)
    → first (λ r. same r.token_hash (hash old) && same_purpose r.purpose purpose) w.user_tokens
      ≡ some row
    → (issue_user_token orm hash config req new row.user_id purpose w).0 ≡ ok i
    → (redeem_user_token orm hash config later old purpose
        (issue_user_token orm hash config req new row.user_id purpose w).1).0
      ≡ err link_invalid
issue_user_token-redeem_user_token orm documented =
    rw (orm-eq-reference orm documented) superseded_reference
