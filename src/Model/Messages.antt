-- ===== src/Model/Messages.antt =====
-- documents, notifications and the tasks and mails that handlers send off
-- (src/documents/entities, src/notifications/entities)
use mentos_backend.Common.{ℕ, Bool, Option, List, Text}
use mentos_backend.Model.Records.{Json}

pub data GeneratedBy : Type 0 where
  upload system : GeneratedBy

pub record Document : Type 0 where
  pub id : ℕ
  pub code : Text
  pub name : Text
  pub category : Text
  pub property_id : Option ℕ
  pub unit_id : Option ℕ
  pub tenant_id : Option ℕ
  pub lease_id : Option ℕ
  pub invoice_id : Option ℕ
  pub payment_id : Option ℕ
  pub maintenance_request_id : Option ℕ
  pub storage_key : Text
  pub mime_type : Text
  pub size_bytes : ℕ
  pub original_file_name : Option Text
  pub version : ℕ
  pub generated_by : GeneratedBy
  pub uploaded_by_user_id : Option ℕ

pub data NotificationType : Type 0 where
  payment lease maintenance billing system : NotificationType

pub record Notification : Type 0 where
  pub id : ℕ
  pub code : Text
  pub type : NotificationType
  pub read : Bool
  pub title : Text
  pub body : Text
  pub icon : Text

pub data TemplateLanguage : Type 0 where
  english swahili : TemplateLanguage

pub record NotificationTemplate : Type 0 where
  pub id : ℕ
  pub code : Text
  -- the code of the English row
  pub pair_code : Text
  pub name : Text
  pub trigger_key : Text
  pub language : TemplateLanguage
  pub subject : Text
  pub body : Text

pub record NotificationPreference : Type 0 where
  pub id : ℕ
  pub prefs : Json

-- a call of NotificationsService.fireTrigger, handed to the background task tracker
pub record Trigger : Type 0 where
  pub key : Text
  pub vars : List (Text × Text)
  pub type : NotificationType
  pub icon : Text

-- an object of the file storage
pub record StoredFile : Type 0 where
  pub key : Text
  pub body : List ℕ
  pub mime_type : Text

-- a call of MailService
pub data Mail : Type 0 where
  -- to, full name, role name, token
  invite : Text → Text → Text → Text → Mail
  -- to, full name, token
  password_reset : Text → Text → Text → Mail
  password_changed : Text → Mail
