-- ===== src/Tests/Sample.antt =====
-- A small portfolio: one property with two units, two tenants, one lease with its first invoice.
use mentos_backend.Documents.{External}
use mentos_backend.Leases.{NewIds, CreateLeaseDto}
use mentos_backend.Common.{true, none, some, [], ◌∷◌, text}
use mentos_backend.Calendar.{Date}
use mentos_backend.Model.{
  Property, PropertyType, PropertyStatus, RentalUnit, UnitStatus, Tenant, TenantStatus, Invoice,
  InvoiceStatus, Payment, Lease, LeaseStatus, World, Request, empty_db, empty_world,
}

abbrev pub july : Date
july = record { year = 2026; month = 7; day = 1 }

abbrev pub req : Request
req = record { now = 1_000; today = july; new_id = 77 }

abbrev pub house : Property
house = record {
  id = 1;
  code = text "P-01";
  name = text "Palm Court";
  type = PropertyType.apartment;
  area = text "Mikocheni";
  city = text "Dar es Salaam";
  owner = text "A";
  status = PropertyStatus.active;
  description = text "";
  amenities = [];
}

abbrev pub flat : RentalUnit
flat = record {
  id = 5;
  code = text "U-101";
  property_id = 1;
  no = text "A-1";
  floor = 1;
  type = text "1BR";
  size = 10000;
  rent = 500;
  deposit = 1000;
  status = UnitStatus.vacant;
  tenant_id = none;
  beds = some 1;
  bathrooms = some 1;
  block = none;
  min_tenure = some 12;
  amenities = [];
}

abbrev pub asha : Tenant
asha = record {
  id = 11;
  code = text "T-01";
  name = text "Asha";
  phone = text "1";
  email = text "";
  status = TenantStatus.prospective;
  since = july;
  unit_id = none;
  property_id = none;
  org = text "";
  occupation = text "";
  employer = text "";
  id_type = text "NIDA";
  id_number = text "";
  kin = text "-";
  comms = text "SMS";
}

abbrev pub invoice : Invoice
invoice = record {
  id = 21;
  code = text "INV-1015";
  tenant_id = 11;
  lease_id = 31;
  property_id = 1;
  issued = july;
  due = july;
  amount = 1500;
  balance = 1000;
  status = InvoiceStatus.partial;
  items = [];
  overdue_notified_at = none;
}

abbrev pub receipt : Payment
receipt = record {
  id = 41;
  code = text "RC-1015";
  invoice_id = 21;
  tenant_id = 11;
  amount = 500;
  method = text "Cash";
  date = july;
}

abbrev pub billed : World
billed = record empty_world {
  db = record empty_db {
    properties = house ∷ [];
    units = flat ∷ [];
    tenants = asha ∷ [];
    invoices = invoice ∷ [];
    payments = receipt ∷ [];
  };
}

abbrev pub letting : Lease
letting = record {
  id = 31;
  code = text "L-01";
  tenant_id = 11;
  unit_id = 5;
  property_id = 1;
  start = july;
  end = july;
  rent = 500;
  deposit = 1000;
  frequency = text "Monthly";
  status = LeaseStatus.active;
  billing = none;
  grace = none;
  penalty = none;
  renewal = none;
  notes = none;
}

-- the flat is let to Asha
abbrev pub occupied : World
occupied = record empty_world {
  db = record empty_db {
    properties = house ∷ [];
    units = record flat { status = UnitStatus.occupied; tenant_id = some 11 } ∷ [];
    tenants =
        record asha { status = TenantStatus.active; unit_id = some 5; property_id = some 1 } ∷ [];
    leases = letting ∷ [];
  };
}

abbrev pub new_lease_dto : CreateLeaseDto
new_lease_dto = record {
  tenant_id = text "T-01";
  unit_id = text "U-101";
  start = july;
  duration = 12;
  rent = none;
  deposit = none;
  frequency = none;
  billing = none;
  grace = none;
  penalty = none;
  renewal = none;
  notes = none;
}

-- a file storage that takes everything, and a renderer of empty files
abbrev pub storage : External
storage = record {
  accepts = λ f. true;
  deletes = λ k. true;
  serves = λ key. true;
  render = λ l t u p. [];
}

abbrev pub ids : NewIds
ids = record { lease = 32; invoice = 22; document = 62 }

-- the invoice before any payment
abbrev pub unpaid : World
unpaid = record empty_world {
  db = record empty_db {
    properties = house ∷ [];
    units = flat ∷ [];
    tenants = asha ∷ [];
    invoices = record invoice { balance = 1500; status = InvoiceStatus.due } ∷ [];
  };
}
