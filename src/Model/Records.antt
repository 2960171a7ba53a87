-- ===== src/Model/Records.antt =====
-- The audit trail (src/audit/entities, the interface RecordAuditEntry of src/audit/audit.service.ts),
-- and what handlers return as JSON.
use mentos_backend.Common.{ℕ, Bool, Option, Text}

mutual
  -- a value of unknown type, as it is printed as JSON
  pub data Json : Type 0 where
    undefined null : Json
    boolean : Bool → Json
    number : ℕ → Json
    string : Text → Json
    array : Fields → Json
    object : Fields → Json

  -- the fields of an object in their order, or the elements of an array with their indices
  pub data Fields : Type 0 where
    end : Fields
    field : Text → Json → Fields → Fields

pub data AuditOutcome : Type 0 where
  success denied error : AuditOutcome

pub record AuditLog : Type 0 where
  pub id : ℕ
  pub created_at : ℕ
  pub code : Text
  pub actor_user_id : Option ℕ
  pub actor_name : Text
  pub actor_email : Option Text
  pub resource : Text
  pub action : Text
  pub resource_id : Option Text
  pub resource_name : Option Text
  pub description : Text
  pub method : Text
  pub path : Text
  pub status_code : Option ℕ
  pub outcome : AuditOutcome
  pub ip_address : Option Text
  pub user_agent : Option Text
  pub icon : Text
  pub metadata : Option Json

pub record RecordAuditEntry : Type 0 where
  pub actor_user_id : Option ℕ
  pub actor_name : Option Text
  pub actor_email : Option Text
  pub resource : Text
  pub action : Text
  pub resource_id : Option Text
  pub resource_name : Option Text
  pub description : Text
  pub method : Text
  pub path : Text
  pub status_code : Option ℕ
  pub outcome : Option AuditOutcome
  pub ip_address : Option Text
  pub user_agent : Option Text
  pub metadata : Option Json
