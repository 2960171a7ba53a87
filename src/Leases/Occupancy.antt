-- ===== src/Leases/Occupancy.antt =====
-- What the operations of the leases keep: no tenant has two running leases, and a unit is marked as
-- occupied exactly when it names its tenant.
use mathlib.Core.Path.{subst}
use mentos_backend.Common.{
  ℕ, ◌==◌, ◌&&◌, ◌≡◌, ◌≤◌, refl, sym, ap, ◌∙◌, Bool, false, none, some, is_some, List, [], ◌∷◌,
  ◌++◌, first, ◌⊎◌, change, sum_by, sum_by-append, All, All-change, Text, same, arith, Bool-cases,
  Option-cases, inl, inr, if◌then◌else◌,
}
use mentos_backend.Model.{
  RentalUnit, UnitStatus, TenantStatus, is_occupied, Lease, LeaseStatus, is_ended, Db, World,
  Request,
}
use mentos_backend.Orm.{Orm, Documented, reference, orm-eq-reference, Result, ok, err, Exec}
use mentos_backend.Documents.{External}
use mentos_backend.Leases.{
  NewIds, CreateLeaseDto, UpdateLeaseDto, is_running, put_leases, new_lease, edited, create, update,
  terminate,
}
use mentos_backend.Leases.Outcomes.{seated, with_lease}
use mentos_backend.Leases.Creation.{Created, Outcome, reference_cases}

-- how many running leases a tenant has
abbrev pub running : ℕ → List Lease → ℕ
running t ls = sum_by (λ l. if (l.tenant_id == t) && is_running l.status then 1 else 0) ls

abbrev pub IsMarked : RentalUnit → Type 0
IsMarked u = is_occupied u.status ≡ is_some u.tenant_id

pub record IsLetOnce (db : Db) : Type 0 where
  pub single : (t : ℕ) → running t db.leases ≤ 1
  pub marked : All IsMarked db.units

running-change :
    (t : ℕ) (p : Lease → Bool) (f : Lease → Lease) (ls : List Lease)
    → ((l : Lease)
        → (if ((f l).tenant_id == t) && is_running (f l).status then 1 else 0)
          ≤ (if (l.tenant_id == t) && is_running l.status then 1 else 0))
    → running t (change p f ls) ≤ running t ls
running-change t p f [] h = omega arith
running-change t p f (l ∷ ls) h = ground (arith, h l, running-change t p f ls h)

running-none :
    (t : ℕ) (ls : List Lease)
    → first (λ l. (l.tenant_id == t) && is_running l.status) ls ≡ none
    → running t ls ≡ 0
running-none t [] h = refl
running-none t (l ∷ ls) h = elim (Bool-cases ((l.tenant_id == t) && is_running l.status)) [
  | inl found ↦ absurd (ground arith)
  | inr other ↦ ground (arith, running-none t ls (ground arith))
]

-- one more lease, of a tenant that had none running
running-append :
    (t : ℕ) (l : Lease) (ls : List Lease)
    → first (λ r. (r.tenant_id == l.tenant_id) && is_running r.status) ls ≡ none
    → running t ls ≤ 1
    → running t (ls ++ l ∷ []) ≤ 1
running-append t l ls free h = elim (Bool-cases (l.tenant_id == t)) [
  | inl own ↦
      let e : l.tenant_id ≡ t = ground arith in
      let zero_before : running t ls ≡ 0 =
        ap (λ n. running n ls) (sym e) ∙ running-none l.tenant_id ls free in
      ground (
        arith,
        sum_by-append (λ r. if (r.tenant_id == t) && is_running r.status then 1 else 0) ls (l ∷ []),
      )
  | inr other ↦ ground (
    arith,
    sum_by-append (λ r. if (r.tenant_id == t) && is_running r.status then 1 else 0) ls (l ∷ []),
  )
]

leased-IsLetOnce :
    (w : World) (l : Lease) (db : Db)
    → db.leases ≡ w.leases ++ l ∷ []
    → db.units ≡ change (λ u. u.id == l.unit_id) (seated l.tenant_id) w.units
    → first (λ r. (r.tenant_id == l.tenant_id) && is_running r.status) w.leases ≡ none
    → IsLetOnce w.db
    → IsLetOnce db
leased-IsLetOnce w l db more moved free h = record {
  single = λ t. rw more (running-append t l w.leases free (h.single t));
  marked = rw moved (
      All-change IsMarked IsMarked (λ u. u.id == l.unit_id) (seated l.tenant_id) w.units
        (λ u m e. refl) (λ u m e. m) h.marked);
}

created :
    (ext : External) (req : Request) (ids : NewIds) (dto : CreateLeaseDto) (w w' : World)
    (l : Lease)
    → IsLetOnce w.db
    → Created ext req ids dto w l w'
    → IsLetOnce w'.db
unfolding new_lease
created ext req ids dto w w' l h (tenant, unit, w1, found, found_unit, may_let, written, same_db) =
    let (c, ci, cd, property, fresh, is_new, found_property, after) = written in
    let own : l.tenant_id ≡ tenant.id = ap (λ r. r.tenant_id) is_new in
    let free : first (λ r. (r.tenant_id == l.tenant_id) && is_running r.status) w.leases ≡ none =
      ap (λ n. first (λ r. (r.tenant_id == n) && is_running r.status) w.leases) own ∙ may_let.2 in
    let same_tables : w'.db ≡ (with_lease ext req ids tenant unit property w ci cd l).db =
      same_db ∙ ap (λ v. v.db) after in
    leased-IsLetOnce w l w'.db (ap (λ d. d.leases) same_tables) (ap (λ d. d.units) same_tables) free
      h

Outcome-IsLetOnce :
    (ext : External) (req : Request) (ids : NewIds) (dto : CreateLeaseDto) (w : World)
    (r : Result Lease × World)
    → IsLetOnce w.db
    → Outcome ext req ids dto w r
    → IsLetOnce r.1.db
Outcome-IsLetOnce ext req ids dto w (ok l, w') h done = created ext req ids dto w w' l h done
Outcome-IsLetOnce ext req ids dto w (err e, w') h same_db = rw same_db h

edited-IsLetOnce :
    (id : ℕ) (dto : UpdateLeaseDto) (w : World)
    → IsLetOnce w.db
    → IsLetOnce (put_leases w (change (λ l. l.id == id) (edited dto) w.leases)).db
unfolding edited
edited-IsLetOnce id dto w h = record {
  single = λ t. omega (
    arith,
    h.single t,
    running-change t (λ l. l.id == id) (edited dto) w.leases (λ l. omega arith),
  );
  marked = h.marked;
}

update-IsLetOnce :
    (ext : External) (code : Text) (dto : UpdateLeaseDto) (w : World)
    → IsLetOnce w.db
    → IsLetOnce (update reference ext code dto w).1.db
unfolding update
update-IsLetOnce ext code dto w h = elim (Option-cases (first (λ l. same l.code code) w.leases)) [
  | inl missing ↦ subst IsLetOnce (ground arith) h
  | inr (lease, found) ↦ elim (Bool-cases (is_ended lease.status)) [
    | inl over ↦ subst IsLetOnce (ground arith) h
    | inr going ↦ subst IsLetOnce (ground arith) (edited-IsLetOnce lease.id dto w h)
  ]
]

abbrev pub terminated : Lease → Db → Db
terminated lease db = record db {
  leases = change (λ l. l.id == lease.id) (λ l. record l { status = LeaseStatus.ended }) db.leases;
  units =
      change (λ u. u.id == lease.unit_id)
        (λ u. record u { tenant_id = none; status = UnitStatus.vacant }) db.units;
  tenants =
      change (λ t. t.id == lease.tenant_id)
        (λ t. record t { status = TenantStatus.vacated; unit_id = none; property_id = none })
        db.tenants;
}

terminated-IsLetOnce : (lease : Lease) (db : Db) → IsLetOnce db → IsLetOnce (terminated lease db)
terminated-IsLetOnce lease db h = record {
  single = λ t. omega (
    arith,
    h.single t,
    running-change t (λ l. l.id == lease.id) (λ l. record l { status = LeaseStatus.ended })
        db.leases (λ l. ground arith),
  );
  marked =
      All-change IsMarked IsMarked (λ u. u.id == lease.unit_id)
        (λ u. record u { tenant_id = none; status = UnitStatus.vacant }) db.units (λ u m e. refl)
        (λ u m e. m) h.marked;
}

pub terminate_cases :
    (ext : External) (code : Text) (w : World)
    → ((terminate reference ext code w).1.db ≡ w.db)
      ⊎ ((lease : Lease) × (first (λ l. same l.code code) w.leases ≡ some lease)
          × (is_ended lease.status ≡ false)
          × ((terminate reference ext code w).1.db ≡ terminated lease w.db))
unfolding terminate
terminate_cases ext code w = elim (Option-cases (first (λ l. same l.code code) w.leases)) [
  | inl missing ↦ inl (ground arith)
  | inr (lease, found) ↦ elim (Bool-cases (is_ended lease.status)) [
    | inl over ↦ inl (ground arith)
    | inr going ↦ inr (lease, found, going, ground arith)
  ]
]

terminate-IsLetOnce :
    (ext : External) (code : Text) (w : World)
    → IsLetOnce w.db
    → IsLetOnce (terminate reference ext code w).1.db
terminate-IsLetOnce ext code w h = elim (terminate_cases ext code w) [
  | inl same_db ↦ subst IsLetOnce (sym same_db) h
  | inr (lease, found, going, after) ↦
      subst IsLetOnce (sym after) (terminated-IsLetOnce lease w.db h)
]

-- A call of one of the handlers that write leases.
pub data LeaseCommand : Type 0 where
  create_ : Request → NewIds → CreateLeaseDto → LeaseCommand
  update_ : Text → UpdateLeaseDto → LeaseCommand
  terminate_ : Text → LeaseCommand

abbrev pub run : Orm → External → LeaseCommand → Exec Lease
run orm ext (create_ req ids dto) = create orm ext req ids dto
run orm ext (update_ code dto) = update orm ext code dto
run orm ext (terminate_ code) = terminate orm ext code

abbrev pub run_all : Orm → External → List LeaseCommand → World → World
run_all orm ext [] w = w
run_all orm ext (c ∷ cs) w = run_all orm ext cs (run orm ext c w).1

run-IsLetOnce :
    (ext : External) (c : LeaseCommand) (w : World)
    → IsLetOnce w.db
    → IsLetOnce (run reference ext c w).1.db
run-IsLetOnce ext (create_ req ids dto) w h =
    Outcome-IsLetOnce ext req ids dto w (create reference ext req ids dto w) h
      (reference_cases ext req ids dto w)
run-IsLetOnce ext (update_ code dto) w h = update-IsLetOnce ext code dto w h
run-IsLetOnce ext (terminate_ code) w h = terminate-IsLetOnce ext code w h

all-IsLetOnce :
    (ext : External) (cs : List LeaseCommand) (w : World)
    → IsLetOnce w.db
    → IsLetOnce (run_all reference ext cs w).db
all-IsLetOnce ext [] w h = h
all-IsLetOnce ext (c ∷ cs) w h =
    all-IsLetOnce ext cs (run reference ext c w).1 (run-IsLetOnce ext c w h)

-- Whatever sequence of calls of `create`, `update` and `terminate` runs, one after the other and
-- whether or not some of them throw: if no tenant had two running leases before and every unit was
-- marked as occupied exactly when it names a tenant, both still hold afterwards.
pub run_all-IsLetOnce :
    (orm : Orm)
    → Documented orm
    → (ext : External) (cs : List LeaseCommand) (w : World) → IsLetOnce w.db
    → IsLetOnce (run_all orm ext cs w).db
run_all-IsLetOnce orm documented = rw (orm-eq-reference orm documented) all-IsLetOnce
