-- ===== src/Maintenance.antt =====
-- maintenance/maintenance.service.ts
pub mod Moves
pub mod Staffing
use mentos_backend.Common.{
  ℕ, ◌==◌, Bool, true, false, not, any, Option, none, some, List, [], ◌∷◌, ◌++◌, map, Text, text,
  same,
}
use mentos_backend.Codes.Scheme.{request_codes}
use mentos_backend.Model.{
  RentalUnit, Tenant, Technician, is_active, MaintenanceRequest, MaintenanceStatus, Priority, Table,
  not_found, wrong_status, technician_not_active, skill_missing, NotificationType, World, Request,
}
use mentos_backend.Orm.{
  Orm, Exec, pure, gets, modify, or_throw, throw_if, or_unique, allocate_code, fire_trigger, ◌>>=◌,
  ◌>>◌,
}
use mentos_backend.Units
use mentos_backend.Units.{or_default}
use mentos_backend.Technicians

pub record CreateMaintenanceRequestDto : Type 0 where
  pub unit_id : Text
  pub category : Text
  pub title : Text
  pub description : Text
  pub priority : Priority
  pub preferred : Option Text

unfoldable pub status_label : MaintenanceStatus → Text
status_label MaintenanceStatus.open_ = text "Open"
status_label MaintenanceStatus.assigned = text "Assigned"
status_label MaintenanceStatus.in_progress = text "In progress"
status_label MaintenanceStatus.completed = text "Completed"
status_label MaintenanceStatus.closed = text "Closed"

-- `===` on the enum
abbrev pub same_status : MaintenanceStatus → MaintenanceStatus → Bool
same_status MaintenanceStatus.open_ MaintenanceStatus.open_ = true
same_status MaintenanceStatus.assigned MaintenanceStatus.assigned = true
same_status MaintenanceStatus.in_progress MaintenanceStatus.in_progress = true
same_status MaintenanceStatus.completed MaintenanceStatus.completed = true
same_status MaintenanceStatus.closed MaintenanceStatus.closed = true
same_status _ _ = false

abbrev pub put_requests : World → List MaintenanceRequest → World
put_requests w t = record w { db = record w.db { requests = t } }

unfoldable pub new_request :
    Request → Text → RentalUnit → CreateMaintenanceRequestDto → MaintenanceRequest
new_request req code unit dto = record {
  id = req.new_id;
  code = code;
  unit_id = unit.id;
  property_id = unit.property_id;
  tenant_id = unit.tenant_id;
  category = dto.category;
  title = dto.title;
  description = dto.description;
  priority = dto.priority;
  status = MaintenanceStatus.open_;
  assignee_id = none;
  cost = 0;
  preferred = or_default dto.preferred (text "Any time");
}

-- technician.skills.includes(category)
abbrev pub covers : Technician → Text → Bool
covers technician category = any (λ s. same s category) technician.skills

-- request.tenant?.name ?? ''
abbrev name_of : Option Tenant → Text
name_of none = text ""
name_of (some t) = t.name

module _ (orm : Orm) where
  -- the relation `tenant` of a request
  abbrev tenant_of : Option ℕ → Exec (Option Tenant)
  tenant_of none = pure none
  tenant_of (some id) = gets (λ w. orm.find_one (λ t. t.id == id) w.tenants)

  unfoldable pub fire_status_changed : MaintenanceRequest → MaintenanceStatus → Exec Unit
  unfolding status_label
  fire_status_changed request status = do
    tenant ← tenant_of request.tenant_id
    fire_trigger (record {
      key = text "maintenance-status";
      vars =
          (text "tenant_name", name_of tenant)
          ∷ (text "request_title", request.title)
          ∷ (text "status", status_label status)
          ∷ [];
      type = NotificationType.maintenance;
      icon = text "wrench";
    })

  -- the body of the transaction of `create`
  unfoldable pub write_request :
      Request → RentalUnit → CreateMaintenanceRequestDto → Exec MaintenanceRequest
  unfolding new_request allocate_code
  write_request req unit dto = do
    codes ← gets (λ w. map (λ r. r.code) w.requests)
    code ← allocate_code request_codes codes
    let request = new_request req code unit dto
    rows ← gets (λ w. orm.insert (λ r. same r.code code) request w.requests)
    saved ← or_unique rows
    modify (λ w. put_requests w saved)
    pure request

  unfoldable pub create : Request → CreateMaintenanceRequestDto → Exec MaintenanceRequest
  unfolding write_request Units.find_by_code_or_fail
  create req dto = do
    unit ← Units.find_by_code_or_fail orm dto.unit_id
    orm.transaction (write_request req unit dto)

  unfoldable pub find_by_code_or_fail : Text → Exec MaintenanceRequest
  find_by_code_or_fail code = do
    found ← gets (λ w. orm.find_one (λ r. same r.code code) w.requests)
    or_throw (not_found Table.request code) found

  -- repository.update(id, patch)
  unfoldable pub update_row : ℕ → (MaintenanceRequest → MaintenanceRequest) → Exec Unit
  update_row id patch = modify (λ w. put_requests w (orm.update (λ r. r.id == id) patch w.requests))

  unfoldable pub assign : Text → Text → Exec MaintenanceRequest
  unfolding find_by_code_or_fail Technicians.find_by_code_or_fail update_row fire_status_changed
  assign code technician_id = do
    request ← find_by_code_or_fail code
    throw_if (not (same_status request.status MaintenanceStatus.open_))
        (wrong_status request.status)
    technician ← Technicians.find_by_code_or_fail orm technician_id
    throw_if (not (is_active technician.status)) (technician_not_active technician.name)
    throw_if (not (covers technician request.category))
        (skill_missing technician.name request.category)
    update_row request.id
        (λ r. record r { status = MaintenanceStatus.assigned; assignee_id = some technician.id })
    fire_status_changed request MaintenanceStatus.assigned
    find_by_code_or_fail code

  unfoldable pub start : Text → Exec MaintenanceRequest
  unfolding find_by_code_or_fail update_row fire_status_changed
  start code = do
    request ← find_by_code_or_fail code
    throw_if (not (same_status request.status MaintenanceStatus.assigned))
        (wrong_status request.status)
    update_row request.id (λ r. record r { status = MaintenanceStatus.in_progress })
    fire_status_changed request MaintenanceStatus.in_progress
    find_by_code_or_fail code

  unfoldable pub complete : Text → ℕ → Exec MaintenanceRequest
  unfolding find_by_code_or_fail update_row fire_status_changed
  complete code cost = do
    request ← find_by_code_or_fail code
    throw_if (not (same_status request.status MaintenanceStatus.in_progress))
        (wrong_status request.status)
    update_row request.id (λ r. record r { status = MaintenanceStatus.completed; cost = cost })
    fire_status_changed request MaintenanceStatus.completed
    find_by_code_or_fail code

  unfoldable pub close : Text → Exec MaintenanceRequest
  unfolding find_by_code_or_fail update_row fire_status_changed
  close code = do
    request ← find_by_code_or_fail code
    throw_if (not (same_status request.status MaintenanceStatus.completed))
        (wrong_status request.status)
    update_row request.id (λ r. record r { status = MaintenanceStatus.closed })
    fire_status_changed request MaintenanceStatus.closed
    find_by_code_or_fail code
