-- ===== src/Documents/Owners.antt =====
-- documents/entities/document.entity.ts and DocumentsService.ownerColumn: the seven kinds of owner,
-- each with its column.
use mentos_backend.Common.{ℕ, Option, some}
use mentos_backend.Model.{Document}

pub data OwnerType : Type 0 where
  property unit tenant lease invoice payment maintenance : OwnerType

-- `[DocumentsService.ownerColumn(ownerType)]: entityId`
abbrev pub owned : OwnerType → ℕ → Document → Document
owned OwnerType.property id d = record d { property_id = some id }
owned OwnerType.unit id d = record d { unit_id = some id }
owned OwnerType.tenant id d = record d { tenant_id = some id }
owned OwnerType.lease id d = record d { lease_id = some id }
owned OwnerType.invoice id d = record d { invoice_id = some id }
owned OwnerType.payment id d = record d { payment_id = some id }
owned OwnerType.maintenance id d = record d { maintenance_request_id = some id }

abbrev pub owner_column : OwnerType → Document → Option ℕ
owner_column OwnerType.property d = d.property_id
owner_column OwnerType.unit d = d.unit_id
owner_column OwnerType.tenant d = d.tenant_id
owner_column OwnerType.lease d = d.lease_id
owner_column OwnerType.invoice d = d.invoice_id
owner_column OwnerType.payment d = d.payment_id
owner_column OwnerType.maintenance d = d.maintenance_request_id
