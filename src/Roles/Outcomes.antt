-- ===== src/Roles/Outcomes.antt =====
-- What a call of each of the four handlers has done.
use mathlib.Core.Path.{subst}
use mentos_backend.Common.{
  ◌==◌, ◌||◌, ◌≡◌, ◌⊎◌, inl, inr, refl, sym, not, any, ltb, Bool, true, false, Option, none, some,
  is_some, List, [], ◌∷◌, ◌++◌, length, select, first, change, or_else, Text, text, same, arith,
  All, Bool-cases, Option-cases,
}
use mentos_backend.Model.{Role, World, Request, Exception, role_built_in, role_exists}
use mentos_backend.Orm.{reference, ok, err}
use mentos_backend.Roles.{
  CreateRoleDto, UpdateRoleDto, is_known, unknown_perm_keys, dedupe, slugify, renamed, create,
  update, set_perms, remove,
}

abbrev pub IsKnown : Role → Type 0
IsKnown r = All (λ k. is_known k ≡ true) r.perms

-- all keys are in the catalog if none is unknown
known_perms :
    (ks : List Text)
    → ltb 0 (length (unknown_perm_keys ks)) ≡ false
    → All (λ k. is_known k ≡ true) ks
known_perms [] h = tt
known_perms (k ∷ ks) h = elim (Bool-cases (is_known k)) [
  | inl listed ↦ (listed, known_perms ks (ground arith))
  | inr missing ↦ absurd (ground arith)
]

All-select : (P : Text → Type 0) (p : Text → Bool) (ks : List Text) → All P ks → All P (select p ks)
All-select P p [] h = tt
All-select P p (k ∷ ks) h = elim (Bool-cases (p k)) [
  | inl kept ↦ rw kept (h.0, All-select P p ks h.1)
  | inr left ↦ rw left (All-select P p ks h.1)
]

dedupe-All : (P : Text → Type 0) (ks : List Text) → All P ks → All P (dedupe ks)
unfolding dedupe
dedupe-All P [] h = tt
dedupe-All P (k ∷ ks) h =
    (h.0, All-select P (λ l. not (same l k)) (dedupe ks) (dedupe-All P ks h.1))

pub create_cases :
    (to_lower_case : Text → Text) (req : Request) (dto : CreateRoleDto) (w : World)
    → ((create reference to_lower_case req dto w).1.db ≡ w.db)
      ⊎ ((r : Role) × IsKnown r
          × ((create reference to_lower_case req dto w).1.db
              ≡ record w.db { roles = w.roles ++ r ∷ [] }))
unfolding create
create_cases to_lower_case req dto w =
    let code : Text = slugify to_lower_case dto.name in
    elim (Option-cases (first (λ r. same r.code code || same r.name dto.name) w.roles)) [
      | inr (r, found) ↦ inl (ground arith)
      | inl free ↦ elim (Bool-cases (ltb 0 (length (unknown_perm_keys (or_else dto.perms []))))) [
        | inl bad ↦ inl (ground arith)
        | inr good ↦
            elim (Bool-cases (any (λ r. same r.code code || same r.name dto.name) w.roles)) [
              | inl clash ↦ inl (ground arith)
              | inr fresh ↦ inr (
                record {
                  id = req.new_id;
                  code = code;
                  name = dto.name;
                  description =
                      or_else dto.description
                        (text "Custom role — configure module permissions below.");
                  perms = or_else dto.perms [];
                  is_system = false;
                },
                known_perms (or_else dto.perms []) good,
                ground arith,
              )
            ]
      ]
    ]

-- the role that was found is saved with other values
abbrev pub Saved : Text → World → World → Type 0
Saved code w w' =
    (r : Role) × (r' : Role) × (first (λ x. same x.code code) w.roles ≡ some r)
    × (r'.id ≡ r.id)
    × (IsKnown r → IsKnown r')
    × (w'.db ≡ record w.db { roles = change (λ x. x.id == r'.id) (λ x. r') w.roles })

pub set_perms_cases :
    (code : Text) (perms : List Text) (w : World)
    → ((set_perms reference code perms w).1.db ≡ w.db)
      ⊎ Saved code w (set_perms reference code perms w).1
unfolding set_perms
set_perms_cases code perms w = elim (Option-cases (first (λ r. same r.code code) w.roles)) [
  | inl missing ↦ inl (ground arith)
  | inr (r, found) ↦ elim (Bool-cases (ltb 0 (length (unknown_perm_keys perms)))) [
    | inl bad ↦ inl (ground arith)
    | inr good ↦ inr (
      r,
      record r { perms = dedupe perms },
      found,
      refl,
      (λ h. dedupe-All (λ k. is_known k ≡ true) perms (known_perms perms good)),
      ground arith,
    )
  ]
]

pub remove_cases :
    (code : Text) (w : World)
    → ((remove reference code w).1.db ≡ w.db)
      ⊎ ((r : Role) × (ltb 0 (length (select (λ u. u.role_id == r.id) w.users)) ≡ false)
          × ((remove reference code w).1.db
              ≡ record w.db { roles = select (λ x. not (x.id == r.id)) w.roles }))
unfolding remove
remove_cases code w = elim (Option-cases (first (λ r. same r.code code) w.roles)) [
  | inl missing ↦ inl (ground arith)
  | inr (r, found) ↦ elim (Bool-cases r.is_system) [
    | inl built_in ↦ inl (ground arith)
    | inr custom ↦ elim (Bool-cases (ltb 0 (length (select (λ u. u.role_id == r.id) w.users)))) [
      | inl held ↦ inl (ground arith)
      | inr free ↦ inr (r, free, ground arith)
    ]
  ]
]

renamed_cases :
    (name : Option Text) (r : Role) (w : World)
    → ((e : Exception) × (renamed reference name r w ≡ (err e, w)))
      ⊎ ((r' : Role) × (r'.id ≡ r.id)
          × (r'.perms ≡ r.perms)
          × (renamed reference name r w ≡ (ok r', w)))
renamed_cases none r w = inr (r, refl, refl, refl)
renamed_cases (some []) r w = inr (r, refl, refl, refl)
renamed_cases (some (c ∷ s)) r w = elim (Bool-cases (same (c ∷ s) r.name)) [
  | inl unchanged ↦ inr (r, refl, refl, ground arith)
  | inr new ↦ elim (Bool-cases r.is_system) [
    | inl built_in ↦ inl (role_built_in, ground arith)
    | inr custom ↦ elim (Bool-cases (is_some (first (λ x. same x.name (c ∷ s)) w.roles))) [
      | inl taken ↦ inl (role_exists (c ∷ s), ground arith)
      | inr free ↦ inr (record r { name = c ∷ s }, refl, refl, ground arith)
    ]
  ]
]

pub update_cases :
    (code : Text) (dto : UpdateRoleDto) (w : World)
    → ((update reference code dto w).1.db ≡ w.db) ⊎ Saved code w (update reference code dto w).1
unfolding update
update_cases code dto w = elim (Option-cases (first (λ r. same r.code code) w.roles)) [
  | inl missing ↦ inl (ground arith)
  | inr (r, found) ↦ elim (renamed_cases dto.name r w) [
    | inl (e, failed) ↦ inl (ground arith)
    | inr (r', same_id, same_perms, done) ↦ inr (
      r,
      record r' { description = or_else dto.description r'.description },
      found,
      same_id,
      subst (All (λ k. is_known k ≡ true)) (sym same_perms),
      ground arith,
    )
  ]
]
