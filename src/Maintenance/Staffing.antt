-- ===== src/Maintenance/Staffing.antt =====
-- What the handlers of maintenance requests keep: who works on a request covers its category, and
-- only a completed request has a cost.
use mathlib.Core.Path.{subst}
use mentos_backend.Common.{
  ◌==◌, ==_refl, ◌&&◌, ◌≡◌, sym, inl, inr, refl, Bool, true, false, any, first, none, some, List,
  [], ◌∷◌, ◌++◌, map, Text, same, arith, All, All-append, All-change, All-both, Distinct,
  Distinct-first, Distinct-change, Distinct-append, Bool-cases, Option-cases, ◌⊎◌,
}
use mentos_backend.Codes.Scheme.{request_codes, next_code}
use mentos_backend.Model.{
  Technician, RentalUnit, MaintenanceRequest, MaintenanceStatus, Db, World, Request,
}
use mentos_backend.Orm.{Orm, Documented, reference, reference-Documented, orm-eq-reference}
use mentos_backend.Maintenance.{CreateMaintenanceRequestDto, covers, new_request, create}
use mentos_backend.Maintenance.Moves.{
  Move, apply, Allowed, moved, Moved, Transition, target, run, run-Moved,
}

-- the assignee, if any, is a technician who covers the category
abbrev pub is_staffed : List Technician → MaintenanceRequest → Bool
is_staffed ts r = elim r.assignee_id [
  | none ↦ false
  | some id ↦ any (λ t. (t.id == id) && covers t r.category) ts
]

-- what a status says of the assignee and the cost
abbrev pub Fits : List Technician → MaintenanceRequest → MaintenanceStatus → Type 0
Fits ts r MaintenanceStatus.open_ = (r.assignee_id ≡ none) × (r.cost ≡ 0)
Fits ts r MaintenanceStatus.assigned = (is_staffed ts r ≡ true) × (r.cost ≡ 0)
Fits ts r MaintenanceStatus.in_progress = (is_staffed ts r ≡ true) × (r.cost ≡ 0)
Fits ts r MaintenanceStatus.completed = is_staffed ts r ≡ true
Fits ts r MaintenanceStatus.closed = is_staffed ts r ≡ true

pub record IsStaffed (db : Db) : Type 0 where
  pub distinct : Distinct (λ r. r.id) db.requests
  pub fits : All (λ r. Fits db.technicians r r.status) db.requests

-- the technician that was found is among the rows
any-first :
    (code category : Text) (t : Technician) (ts : List Technician)
    → first (λ r. same r.code code) ts ≡ some t
    → covers t category ≡ true
    → any (λ r. (r.id == t.id) && covers r category) ts ≡ true
any-first code category t [] found skilled = cc
any-first code category t (x ∷ ts) found skilled = elim (Bool-cases (same x.code code)) [
  | inl here ↦
      let e : x ≡ t = ground arith in
      let own : (x.id == t.id) && covers x category ≡ true =
        subst (λ y. (y.id == t.id) && covers y category ≡ true) (sym e)
          (ground (arith, ==_refl t.id)) in
      ground arith
  | inr there ↦ ground (arith, any-first code category t ts)
]

apply-Fits :
    (ts : List Technician) (m : Move) (r : MaintenanceRequest)
    → Allowed ts r m
    → Fits ts r r.status
    → Fits ts (apply m r) (apply m r).status
apply-Fits ts (Move.assigned_to id) r allowed h =
    let (code, t, known, own, active, skilled) = allowed.1 in
    (
      subst (λ n. any (λ u. (u.id == n) && covers u r.category) ts ≡ true) own
          (any-first code r.category t ts known skilled),
      (subst (Fits ts r) allowed.0 h).1,
    )
apply-Fits ts Move.started r allowed h = subst (Fits ts r) allowed h
apply-Fits ts (Move.completed_at cost) r allowed h = (subst (Fits ts r) allowed h).0
apply-Fits ts Move.closed r allowed h = subst (Fits ts r) allowed h

same_id : (m : Move) (r : MaintenanceRequest) → (apply m r).id ≡ r.id
same_id (Move.assigned_to id) r = refl
same_id Move.started r = refl
same_id (Move.completed_at cost) r = refl
same_id Move.closed r = refl

moved-IsStaffed :
    (m : Move) (code : Text) (r : MaintenanceRequest) (db : Db)
    → first (λ x. same x.code code) db.requests ≡ some r
    → Allowed db.technicians r m
    → IsStaffed db
    → IsStaffed (moved m r db)
moved-IsStaffed m code r db found allowed h = record {
  distinct =
      Distinct-change (λ x. x.id) (λ x. x.id == r.id) (apply m) db.requests (same_id m) h.distinct;
  fits =
      All-change (λ x. Fits db.technicians x x.status × ((x.id == r.id) ≡ true → x ≡ r))
        (λ x. Fits db.technicians x x.status) (λ x. x.id == r.id) (apply m) db.requests
        (λ x k e.
          apply-Fits db.technicians m x
            (subst (λ y. Allowed db.technicians y m) (sym (k.1 e)) allowed) k.0)
        (λ x k e. k.0)
        (All-both (λ x. Fits db.technicians x x.status) (λ x. (x.id == r.id) ≡ true → x ≡ r)
          db.requests h.fits
          (Distinct-first (λ x. x.id) (λ x. same x.code code) r db.requests h.distinct found));
}

Moved-IsStaffed : (code : Text) (w w' : World) → Moved code w w' → IsStaffed w.db → IsStaffed w'.db
Moved-IsStaffed code w w' (inl same_db) h = subst IsStaffed (sym same_db) h
Moved-IsStaffed code w w' (inr (r, m, found, allowed, after)) h =
    subst IsStaffed (sym after) (moved-IsStaffed m code r w.db found allowed h)

-- `create` inserts one open request, or nothing
create_cases :
    (req : Request) (dto : CreateMaintenanceRequestDto) (w : World)
    → ((create reference req dto w).1.db ≡ w.db)
      ⊎ ((c : Text) × (unit : RentalUnit) × (first (λ u. same u.code dto.unit_id) w.units
            ≡ some unit)
          × ((create reference req dto w).1.db
              ≡ record w.db { requests = w.requests ++ new_request req c unit dto ∷ [] }))
unfolding create
create_cases req dto w = elim (Option-cases (first (λ u. same u.code dto.unit_id) w.units)) [
  | inl missing ↦ inl (ground arith)
  | inr (unit, found) ↦
      elim (Option-cases (next_code request_codes (map (λ r. r.code) w.requests))) [
        | inl failed ↦ inl (ground arith)
        | inr (c, next) ↦ elim (Bool-cases (any (λ r. same r.code c) w.requests)) [
          | inl clash ↦ inl (ground arith)
          | inr fresh ↦ inr (c, unit, found, ground arith)
        ]
      ]
]

create-IsStaffed :
    (req : Request) (dto : CreateMaintenanceRequestDto) (w : World)
    → any (λ r. r.id == req.new_id) w.requests ≡ false
    → IsStaffed w.db
    → IsStaffed (create reference req dto w).1.db
unfolding new_request
create-IsStaffed req dto w fresh h = elim (create_cases req dto w) [
  | inl same_db ↦ subst IsStaffed (sym same_db) h
  | inr (c, unit, found, after) ↦ subst IsStaffed (sym after) (record {
    distinct = Distinct-append (λ r. r.id) (new_request req c unit dto) w.requests fresh h.distinct;
    fits =
        All-append (λ r. Fits w.technicians r r.status) w.requests (new_request req c unit dto ∷ [])
          h.fits ((refl, refl), tt);
  })
]

either_reference :
    (req : Request) (dto : CreateMaintenanceRequestDto) (c : Transition) (w : World)
    → any (λ r. r.id == req.new_id) w.requests ≡ false
    → IsStaffed w.db
    → IsStaffed (create reference req dto w).1.db × IsStaffed (run reference c w).1.db
either_reference req dto c w fresh h = (
  create-IsStaffed req dto w fresh h,
  Moved-IsStaffed (target c) w (run reference c w).1 (run-Moved reference reference-Documented c w)
      h,
)

-- Logging a request whose uuid is new keeps the requests in order, and so does a call of any of the
-- four handlers that move one: ids are distinct, an open request has no assignee, the others have
-- one who covers their category, and a request that is not yet completed costs nothing.
pub requests-IsStaffed :
    (orm : Orm)
    → Documented orm
    → (req : Request) (dto : CreateMaintenanceRequestDto) (c : Transition) (w : World)
    → any (λ r. r.id == req.new_id) w.requests ≡ false
    → IsStaffed w.db
    → IsStaffed (create orm req dto w).1.db × IsStaffed (run orm c w).1.db
requests-IsStaffed orm documented = rw (orm-eq-reference orm documented) either_reference
