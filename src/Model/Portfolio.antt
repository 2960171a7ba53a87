-- ===== src/Model/Portfolio.antt =====
-- properties, units, tenants and leases (src/*/entities). An id is the row's uuid as a number; the
-- relation objects are looked up by their ids where the code reads them. Money is in cents, the
-- unit of the columns decimal(12, 2).
use mentos_backend.Common.{ℕ, Bool, true, false, Option, List, Text}
use mentos_backend.Calendar.{Date}

pub data PropertyType : Type 0 where
  apartment office hostel house commercial : PropertyType

pub data PropertyStatus : Type 0 where
  active archived : PropertyStatus

pub record Property : Type 0 where
  pub id : ℕ
  pub code : Text
  pub name : Text
  pub type : PropertyType
  pub area : Text
  pub city : Text
  pub owner : Text
  pub status : PropertyStatus
  pub description : Text
  pub amenities : List Text

pub data UnitStatus : Type 0 where
  vacant occupied : UnitStatus

abbrev pub is_occupied : UnitStatus → Bool
is_occupied UnitStatus.occupied = true
is_occupied UnitStatus.vacant = false

pub record RentalUnit : Type 0 where
  pub id : ℕ
  pub code : Text
  pub property_id : ℕ
  pub no : Text
  pub floor : ℕ
  pub type : Text
  pub size : ℕ
  pub rent : ℕ
  pub deposit : ℕ
  pub status : UnitStatus
  pub tenant_id : Option ℕ
  pub beds : Option ℕ
  pub bathrooms : Option ℕ
  pub block : Option Text
  pub min_tenure : Option ℕ
  pub amenities : List Text

pub data TenantStatus : Type 0 where
  active prospective notice vacated blacklisted : TenantStatus

abbrev pub is_blacklisted : TenantStatus → Bool
is_blacklisted TenantStatus.blacklisted = true
is_blacklisted _ = false

pub record Tenant : Type 0 where
  pub id : ℕ
  pub code : Text
  pub name : Text
  pub phone : Text
  pub email : Text
  pub status : TenantStatus
  pub since : Date
  pub unit_id : Option ℕ
  pub property_id : Option ℕ
  pub org : Text
  pub occupation : Text
  pub employer : Text
  pub id_type : Text
  pub id_number : Text
  pub kin : Text
  pub comms : Text

pub data LeaseStatus : Type 0 where
  active ending ended : LeaseStatus

abbrev pub is_ended : LeaseStatus → Bool
is_ended LeaseStatus.ended = true
is_ended _ = false

pub record Lease : Type 0 where
  pub id : ℕ
  pub code : Text
  pub tenant_id : ℕ
  pub unit_id : ℕ
  pub property_id : ℕ
  pub start : Date
  pub end : Date
  pub rent : ℕ
  pub deposit : ℕ
  pub frequency : Text
  pub status : LeaseStatus
  pub billing : Option Text
  pub grace : Option Text
  pub penalty : Option Text
  pub renewal : Option Text
  pub notes : Option Text
