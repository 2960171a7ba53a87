-- ===== src/Model/State.antt =====
-- The tables, and what lies outside of a transaction: background tasks, stored files, mails.
use mentos_backend.Common.{ℕ, List, []}
use mentos_backend.Calendar.{Date}
use mentos_backend.Model.Portfolio.{Property, RentalUnit, Tenant, Lease}
use mentos_backend.Model.Billing.{Invoice, Payment}
use mentos_backend.Model.Works.{MaintenanceRequest, Technician}
use mentos_backend.Model.Accounts.{Role, User, RefreshToken, UserToken}
use mentos_backend.Model.Records.{AuditLog, RecordAuditEntry}
use mentos_backend.Model.Messages.{
  Document, Notification, NotificationTemplate, NotificationPreference, Trigger, StoredFile, Mail,
}

pub record Db : Type 0 where
  pub properties : List Property
  pub units : List RentalUnit
  pub tenants : List Tenant
  pub leases : List Lease
  pub invoices : List Invoice
  pub payments : List Payment
  pub requests : List MaintenanceRequest
  pub technicians : List Technician
  pub documents : List Document
  pub roles : List Role
  pub users : List User
  pub refresh_tokens : List RefreshToken
  pub user_tokens : List UserToken
  pub notifications : List Notification
  pub templates : List NotificationTemplate
  pub preferences : List NotificationPreference
  pub audit_logs : List AuditLog

pub record World : Type 0 where
  pub db : Db
  pub open db use *
  pub tasks : List Trigger
  pub audit_tasks : List RecordAuditEntry
  -- the last value of the sequence audit_log_code_seq, which no transaction puts back
  pub audit_sequence : ℕ
  pub files : List StoredFile
  pub mails : List Mail

abbrev pub empty_db : Db
empty_db = record {
  properties = [];
  units = [];
  tenants = [];
  leases = [];
  invoices = [];
  payments = [];
  requests = [];
  technicians = [];
  documents = [];
  roles = [];
  users = [];
  refresh_tokens = [];
  user_tokens = [];
  notifications = [];
  templates = [];
  preferences = [];
  audit_logs = [];
}

abbrev pub empty_world : World
empty_world = record {
  db = empty_db;
  tasks = [];
  audit_tasks = [];
  audit_sequence = 0;
  files = [];
  mails = [];
}

-- What a handler takes from outside while it runs: the clock, the current date (UTC), and the uuid
-- that the new row gets.
pub record Request : Type 0 where
  pub now : ℕ
  pub today : Date
  pub new_id : ℕ
