-- ===== src/Model/Works.antt =====
-- maintenance requests and technicians (src/maintenance/entities, src/technicians/entities)
use mentos_backend.Common.{ℕ, Bool, true, false, Option, List, Text}
use mentos_backend.Calendar.{Date}

pub data MaintenanceStatus : Type 0 where
  open_ assigned in_progress completed closed : MaintenanceStatus

pub data Priority : Type 0 where
  urgent high medium low : Priority

pub record MaintenanceRequest : Type 0 where
  pub id : ℕ
  pub code : Text
  pub unit_id : ℕ
  pub property_id : ℕ
  pub tenant_id : Option ℕ
  pub category : Text
  pub title : Text
  pub description : Text
  pub priority : Priority
  pub status : MaintenanceStatus
  pub assignee_id : Option ℕ
  pub cost : ℕ
  pub preferred : Text

pub data TechnicianStatus : Type 0 where
  active on_leave inactive : TechnicianStatus

abbrev pub is_active : TechnicianStatus → Bool
is_active TechnicianStatus.active = true
is_active _ = false

pub record Technician : Type 0 where
  pub id : ℕ
  pub code : Text
  pub name : Text
  pub phone : Text
  pub email : Text
  pub skills : List Text
  pub status : TechnicianStatus
  pub company : Bool
  pub since : Date
