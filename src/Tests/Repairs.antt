-- ===== src/Tests/Repairs.antt =====
-- Maintenance requests.
use mentos_backend.Common.{refl, none, some, [], ◌∷◌, text, Bool}
use mentos_backend.Model.{
  MaintenanceRequest, MaintenanceStatus, Priority, Technician, TechnicianStatus, World, empty_db,
  empty_world,
}
use mentos_backend.Orm.{reference, reference-Documented}
use mentos_backend.Maintenance.{CreateMaintenanceRequestDto, create}
use mentos_backend.Maintenance.Moves.{Transition, Moved, run, run-Moved}
use mentos_backend.Maintenance.Staffing.{IsStaffed, requests-IsStaffed}
use mentos_backend.Tests.Sample.{req, july, flat, house, asha}

abbrev fitter : Technician
fitter = record {
  id = 51;
  code = text "TECH-01";
  name = text "Hamisi";
  phone = text "2";
  email = text "";
  skills = text "Electrical" ∷ text "Plumbing" ∷ [];
  status = TechnicianStatus.active;
  company = Bool.false;
  since = july;
}

abbrev leak : MaintenanceRequest
leak = record {
  id = 61;
  code = text "MR-01";
  unit_id = 5;
  property_id = 1;
  tenant_id = some 11;
  category = text "Plumbing";
  title = text "Leak";
  description = text "";
  priority = Priority.high;
  status = MaintenanceStatus.open_;
  assignee_id = none;
  cost = 0;
  preferred = text "Any time";
}

abbrev leaking : World
leaking = record empty_world {
  db = record empty_db {
    properties = house ∷ [];
    units = flat ∷ [];
    tenants = asha ∷ [];
    requests = leak ∷ [];
    technicians = fitter ∷ [];
  };
}

abbrev dto : CreateMaintenanceRequestDto
dto = record {
  unit_id = text "U-101";
  category = text "Electrical";
  title = text "Socket";
  description = text "";
  priority = Priority.low;
  preferred = none;
}

abbrev send_fitter : Transition
send_fitter = Transition.to_assign (text "MR-01") (text "TECH-01")

run-Moved_example : Moved (text "MR-01") leaking (run reference send_fitter leaking).1
run-Moved_example = run-Moved reference reference-Documented send_fitter leaking

leaking-IsStaffed : IsStaffed leaking.db
leaking-IsStaffed = record { distinct = (refl, tt); fits = ((refl, refl), tt) }

requests-IsStaffed_example :
    IsStaffed (create reference req dto leaking).1.db
    × IsStaffed (run reference send_fitter leaking).1.db
requests-IsStaffed_example =
    requests-IsStaffed reference reference-Documented req dto send_fitter leaking refl
      leaking-IsStaffed
