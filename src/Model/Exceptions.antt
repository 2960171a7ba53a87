-- ===== src/Model/Exceptions.antt =====
-- What the services throw: one constructor for each throw, with what its message is made of.
use mentos_backend.Common.{ℕ, List, Text}
use mentos_backend.Model.Works.{MaintenanceStatus}

pub data Table : Type 0 where
  property unit tenant lease invoice payment request technician document user role notification
        notification_template audit_entry :
      Table

pub data Exception : Type 0 where
  -- NotFoundException: `${table} "${code}" not found`
  not_found : Table → Text → Exception
  -- ConflictException
  unit_occupied : Text → Exception
  already_leased : Text → Text → Exception
  unit_exists : Text → Exception
  email_registered : Text → Exception
  role_exists : Text → Exception
  role_in_use : Text → ℕ → Exception
  registration_closed : Exception
  -- BadRequestException
  tenant_blacklisted : Text → Exception
  already_blacklisted : Text → Exception
  lease_ended : Exception
  invoice_voided : Exception
  payment_recorded : Exception
  already_paid : Exception
  bad_amount : Exception
  not_a_tuple : ℕ → Exception
  negative_amount : ℕ → Exception
  wrong_status : MaintenanceStatus → Exception
  technician_not_active : Text → Exception
  skill_missing : Text → Text → Exception
  file_required : Exception
  link_invalid : Exception
  refresh_invalid : Exception
  refresh_reused : Exception
  refresh_expired : Exception
  invite_accepted : Exception
  invite_pending : Exception
  own_role : Exception
  own_account : Exception
  not_accepted : Exception
  role_built_in : Exception
  unknown_perms : Exception
  unknown_report : Text → Exception
  bad_preferences : Exception
  -- UnauthorizedException
  bad_credentials : Exception
  account_suspended : Exception
  account_invited : Exception
  account_inactive : Exception
  account_gone : Exception
  session_expired : Exception
  -- ForbiddenException
  missing_permission : List Text → Exception
  -- errors of the database driver and of the file storage, no HttpException
  unique_violation : Exception
  query_failed : Exception
  storage_failed : Exception
