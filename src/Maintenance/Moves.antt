-- ===== src/Maintenance/Moves.antt =====
-- The state machine of a maintenance request, and that the four handlers implement it.
use mentos_backend.Common.{
  ℕ, ◌==◌, ◌≡◌, ◌⊎◌, inl, inr, refl, true, change, first, some, List, Text, same, arith, Bool-cases,
  Option-cases,
}
use mentos_backend.Model.{Technician, is_active, MaintenanceRequest, MaintenanceStatus, Db, World}
use mentos_backend.Orm.{Orm, Documented, reference, orm-eq-reference, Exec}
use mentos_backend.Maintenance.{covers, same_status, assign, start, complete, close}

-- What one handler writes to a request.
pub data Move : Type 0 where
  assigned_to : ℕ → Move
  started : Move
  completed_at : ℕ → Move
  closed : Move

abbrev pub apply : Move → MaintenanceRequest → MaintenanceRequest
apply (Move.assigned_to t) r = record r {
  status = MaintenanceStatus.assigned;
  assignee_id = some t;
}
apply Move.started r = record r { status = MaintenanceStatus.in_progress }
apply (Move.completed_at cost) r = record r { status = MaintenanceStatus.completed; cost = cost }
apply Move.closed r = record r { status = MaintenanceStatus.closed }

-- the technician is among the rows, is active, and covers the category
abbrev pub MaySend : List Technician → ℕ → Text → Type 0
MaySend ts id category =
    (code : Text) × (t : Technician) × (first (λ r. same r.code code) ts ≡ some t)
    × (t.id ≡ id)
    × (is_active t.status ≡ true)
    × (covers t category ≡ true)

-- the moves that the state machine allows
abbrev pub Allowed : List Technician → MaintenanceRequest → Move → Type 0
Allowed ts r (Move.assigned_to t) = (r.status ≡ MaintenanceStatus.open_) × MaySend ts t r.category
Allowed ts r Move.started = r.status ≡ MaintenanceStatus.assigned
Allowed ts r (Move.completed_at cost) = r.status ≡ MaintenanceStatus.in_progress
Allowed ts r Move.closed = r.status ≡ MaintenanceStatus.completed

abbrev pub moved : Move → MaintenanceRequest → Db → Db
moved m r db = record db { requests = change (λ x. x.id == r.id) (apply m) db.requests }

-- nothing is written, or one allowed move of the request with this code
abbrev pub Moved : Text → World → World → Type 0
Moved code w w' =
    (w'.db ≡ w.db)
    ⊎ ((r : MaintenanceRequest) × (m : Move) × (first (λ x. same x.code code) w.requests ≡ some r)
        × Allowed w.technicians r m
        × (w'.db ≡ moved m r w.db))

same_status-eq : (s t : MaintenanceStatus) → same_status s t ≡ true → s ≡ t
same_status-eq s t h = ground arith

assign-Moved :
    (code technician_id : Text) (w : World) → Moved code w (assign reference code technician_id w).1
unfolding assign
assign-Moved code technician_id w = elim (Option-cases (first (λ r. same r.code code) w.requests)) [
  | inl missing ↦ inl (ground arith)
  | inr (r, found) ↦ elim (Bool-cases (same_status r.status MaintenanceStatus.open_)) [
    | inr busy ↦ inl (ground arith)
    | inl free ↦ elim (Option-cases (first (λ t. same t.code technician_id) w.technicians)) [
      | inl unknown ↦ inl (ground arith)
      | inr (t, known) ↦ elim (Bool-cases (is_active t.status)) [
        | inr away ↦ inl (ground arith)
        | inl active ↦ elim (Bool-cases (covers t r.category)) [
          | inr unskilled ↦ inl (ground arith)
          | inl skilled ↦ inr (
            r,
            Move.assigned_to t.id,
            found,
            (
              same_status-eq r.status MaintenanceStatus.open_ free,
              (technician_id, t, known, refl, active, skilled),
            ),
            ground arith,
          )
        ]
      ]
    ]
  ]
]

start-Moved : (code : Text) (w : World) → Moved code w (start reference code w).1
unfolding start
start-Moved code w = elim (Option-cases (first (λ r. same r.code code) w.requests)) [
  | inl missing ↦ inl (ground arith)
  | inr (r, found) ↦ elim (Bool-cases (same_status r.status MaintenanceStatus.assigned)) [
    | inr other ↦ inl (ground arith)
    | inl fits ↦ inr (
      r,
      Move.started,
      found,
      same_status-eq r.status MaintenanceStatus.assigned fits,
      ground arith,
    )
  ]
]

complete-Moved :
    (code : Text) (cost : ℕ) (w : World) → Moved code w (complete reference code cost w).1
unfolding complete
complete-Moved code cost w = elim (Option-cases (first (λ r. same r.code code) w.requests)) [
  | inl missing ↦ inl (ground arith)
  | inr (r, found) ↦ elim (Bool-cases (same_status r.status MaintenanceStatus.in_progress)) [
    | inr other ↦ inl (ground arith)
    | inl fits ↦ inr (
      r,
      Move.completed_at cost,
      found,
      same_status-eq r.status MaintenanceStatus.in_progress fits,
      ground arith,
    )
  ]
]

close-Moved : (code : Text) (w : World) → Moved code w (close reference code w).1
unfolding close
close-Moved code w = elim (Option-cases (first (λ r. same r.code code) w.requests)) [
  | inl missing ↦ inl (ground arith)
  | inr (r, found) ↦ elim (Bool-cases (same_status r.status MaintenanceStatus.completed)) [
    | inr other ↦ inl (ground arith)
    | inl fits ↦ inr (
      r,
      Move.closed,
      found,
      same_status-eq r.status MaintenanceStatus.completed fits,
      ground arith,
    )
  ]
]

-- A call of one of the four handlers.
pub data Transition : Type 0 where
  to_assign : Text → Text → Transition
  to_start : Text → Transition
  to_complete : Text → ℕ → Transition
  to_close : Text → Transition

abbrev pub target : Transition → Text
target (Transition.to_assign code t) = code
target (Transition.to_start code) = code
target (Transition.to_complete code cost) = code
target (Transition.to_close code) = code

abbrev pub run : Orm → Transition → Exec MaintenanceRequest
run orm (Transition.to_assign code t) = assign orm code t
run orm (Transition.to_start code) = start orm code
run orm (Transition.to_complete code cost) = complete orm code cost
run orm (Transition.to_close code) = close orm code

run-reference : (c : Transition) (w : World) → Moved (target c) w (run reference c w).1
run-reference (Transition.to_assign code t) w = assign-Moved code t w
run-reference (Transition.to_start code) w = start-Moved code w
run-reference (Transition.to_complete code cost) w = complete-Moved code cost w
run-reference (Transition.to_close code) w = close-Moved code w

-- A call of `assign`, `start`, `complete` or `close` changes no table, or makes one move of the
-- state machine open → assigned → in progress → completed → closed on the request with that code,
-- where an assignment needs an active technician who covers the category of the request.
pub run-Moved :
    (orm : Orm) → Documented orm → (c : Transition) (w : World) → Moved (target c) w (run orm c w).1
run-Moved orm documented = rw (orm-eq-reference orm documented) run-reference
