-- ===== src/Permissions/Denial.antt =====
-- Who gets past the guard, and what is left of an attempt that is denied.
use mentos_backend.Common.{
  suc, ◌<◌, ◌≡◌, ◌⊎◌, inl, inr, refl, ap, ◌∙◌, true, false, Option, some, List, [], ◌∷◌, ◌++◌,
  arith, if◌then◌else◌, any, leb, length, All, Bool-cases, or_else, Text, same,
}
use mentos_backend.Model.{Role, missing_permission, World, Request, RecordAuditEntry, AuditLog}
use mentos_backend.Orm.{Orm, Documented, reference, orm-eq-reference, ok, err}
use mentos_backend.Http.{Route, HttpRequest}
use mentos_backend.Audit.{fits, new_log, audit_code}
use mentos_backend.Audit.Recorded.{IsNumbered, recorded, record-reference}
use mentos_backend.Permissions.{granted_to, missing_of, denial, can_activate, id_param}

-- Every permission that the route requires is one of the role's.
abbrev pub Covers : Option Role → List Text → Type 0
Covers role required = All (λ perm. any (same perm) (granted_to role) ≡ true) required

covered :
    (role : Option Role) (required : List Text)
    → missing_of required role ≡ []
    → Covers role required
covered role [] h = tt
covered role (perm ∷ required) h = elim (Bool-cases (any (same perm) (granted_to role))) [
  | inl t ↦ (t, covered role required (ground arith))
  | inr f ↦ absurd (ground arith)
]

missing_of-Covers :
    (role : Option Role) (required : List Text)
    → Covers role required
    → missing_of required role ≡ []
missing_of-Covers role [] h = refl
missing_of-Covers role (perm ∷ required) h = rw h.0 (missing_of-Covers role required h.1)

abbrev pub required_of : Route → List Text
required_of route = or_else route.permissions []

abbrev pub denial_of : Route → HttpRequest → RecordAuditEntry
denial_of route http = denial http (required_of route) (missing_of (required_of route) http.role)

List-cases {ℓ} : {A : Type ℓ} (xs : List A) → (xs ≡ []) ⊎ ((x : A) × (ys : List A) × (xs ≡ x ∷ ys))
List-cases [] = inl refl
List-cases (x ∷ ys) = inr (x, ys, refl)

abbrev pub Decided : Orm → Request → Route → HttpRequest → World → Type 0
Decided orm req route http w =
    (Covers http.role (required_of route) × (can_activate orm req route http w ≡ (ok true, w)))
    ⊎ ((¬ Covers http.role (required_of route))
        × (can_activate orm req route http w ≡ (
          err (missing_permission (missing_of (required_of route) http.role)),
          recorded req (denial_of route http) w,
        )))

Decided-reference :
    (req : Request) (route : Route) (http : HttpRequest) (w : World)
    → IsNumbered w
    → Decided reference req route http w
unfolding can_activate
Decided-reference req route http w numbered =
    elim (List-cases (missing_of (required_of route) http.role)) [
      | inl e ↦ inl (covered http.role (required_of route) e, ground arith)
      | inr (perm, rest, e) ↦ inr (
        λ c. cc (missing_of-Covers http.role (required_of route) c),
        ground (arith, record-reference req (denial_of route http) w numbered),
      )
    ]

-- Where the codes in the trail are numbers that the sequence has given out: a request gets past the
-- guard, and nothing changes, just when the role of its user has every permission that the route
-- requires; any other is refused with the missing permissions, and the entry that says that the
-- attempt was denied takes the next number of the trail, where it is appended if it fits into its
-- row.
pub can_activate-Covers :
    (orm : Orm)
    → Documented orm
    → (req : Request) (route : Route) (http : HttpRequest) (w : World) → IsNumbered w
    → Decided orm req route http w
can_activate-Covers orm documented = rw (orm-eq-reference orm documented) Decided-reference

fits-resource_id :
    (l : AuditLog) (c : Text) → l.resource_id ≡ some c → leb (length c) 32 ≡ false → fits l ≡ false
unfolding fits
fits-resource_id l c e h = ground arith

-- the entry of such an attempt has no row
unlogged-reference :
    (req : Request) (route : Route) (http : HttpRequest) (w : World) (c : Text)
    → IsNumbered w
    → (¬ Covers http.role (required_of route))
    → id_param http.params ≡ some c
    → 32 < length c
    → (can_activate reference req route http w).1.audit_logs ≡ w.audit_logs
unfolding denial new_log
unlogged-reference req route http w c numbered refused e long =
    elim (Decided-reference req route http w numbered) [
      | inl (covers, _) ↦ absurd (refused covers)
      | inr (_, run) ↦
          let unfit : fits (new_log req (audit_code (suc w.audit_sequence)) (denial_of route http))
              ≡ false =
            fits-resource_id
              (new_log req (audit_code (suc w.audit_sequence)) (denial_of route http)) c e
              (ground arith) in
          ap (λ r. r.1.audit_logs) run
          ∙ ap
              (λ b.
                if b
                then w.audit_logs
                  ++ new_log req (audit_code (suc w.audit_sequence)) (denial_of route http) ∷ []
                else w.audit_logs)
              unfit
    ]

-- An attempt that is refused leaves no trace in the trail if the code in its path has more than 32
-- characters: the entry does not fit into its row.
pub can_activate_unlogged :
    (orm : Orm)
    → Documented orm
    → (req : Request) (route : Route) (http : HttpRequest) (w : World) (c : Text) → IsNumbered w
    → (¬ Covers http.role (required_of route))
    → id_param http.params ≡ some c
    → 32 < length c
    → (can_activate orm req route http w).1.audit_logs ≡ w.audit_logs
can_activate_unlogged orm documented = rw (orm-eq-reference orm documented) unlogged-reference
