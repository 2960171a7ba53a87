-- ===== src/Units.antt =====
-- units/units.service.ts
use mentos_backend.Common.{
  ℕ, ◌+◌, ◌*◌, ◌==◌, ◌&&◌, ◌||◌, not, Bool, ltb, if◌then◌else◌, Option, none, some, List, [], ◌∷◌,
  ◌++◌, length, or_else, Text, text, same,
}
use mentos_backend.Codes.Decimal.{show, pad_start, cast_integer}
use mentos_backend.Model.{
  Property, RentalUnit, UnitStatus, Table, not_found, unit_exists, World, Request,
}
use mentos_backend.Orm.{Orm, Exec, pure, gets, modify, or_throw, ◌>>=◌, ◌>>◌}

-- the defaults of the bed count; `map[type] ?? 0`
unfoldable pub beds_from_type : Text → ℕ
beds_from_type type =
    if same type (text "Studio") || same type (text "1BR")
    then 1
    else if same type (text "2BR")
    then 2
    else if same type (text "3BR")
    then 3
    else 0

abbrev is_digit : ℕ → Bool
is_digit c = not (ltb c b'0' || ltb b'9' c)

-- propertyCode.replace(/^\D+/, '')
abbrev strip : Text → Text
strip [] = []
strip (c ∷ s) = if is_digit c then c ∷ s else strip s

abbrev leading_digits : Text → Text
leading_digits [] = []
leading_digits (c ∷ s) = if is_digit c then c ∷ leading_digits s else []

-- `${parseInt(…, 10)}`
unfoldable pub property_number : Text → Text
unfolding show cast_integer
property_number code = elim (cast_integer (leading_digits (strip code))) [
  | none ↦ text "NaN"
  | some n ↦ show n
]

pub record CreateUnitDto : Type 0 where
  pub no : Text
  pub rent : ℕ
  pub floor : Option ℕ
  pub type : Option Text
  pub size : Option ℕ
  pub beds : Option ℕ
  pub bathrooms : Option ℕ
  pub block : Option Text
  pub min_tenure : Option ℕ
  pub amenities : Option (List Text)

pub record UpdateUnitDto : Type 0 where
  pub no : Option Text
  pub floor : Option ℕ
  pub type : Option Text
  pub size : Option ℕ
  pub rent : Option ℕ
  pub beds : Option ℕ
  pub bathrooms : Option ℕ
  pub block : Option Text
  pub min_tenure : Option ℕ
  pub amenities : Option (List Text)

-- `a || b` on a text: the empty text counts as missing
abbrev pub or_default : Option Text → Text → Text
or_default none d = d
or_default (some []) d = d
or_default (some (c ∷ s)) d = c ∷ s

-- `if (dto.x !== undefined) row.x = dto.x` for a nullable column
abbrev pub patched {ℓ} : {A : Type ℓ} → Option A → Option A → Option A
patched none old = old
patched (some a) old = some a

abbrev pub put_units : World → List RentalUnit → World
put_units w t = record w { db = record w.db { units = t } }

unfoldable pub new_unit : Request → Property → Text → CreateUnitDto → RentalUnit
unfolding beds_from_type
new_unit req property code dto =
    let type = or_default dto.type (text "1BR") in
    record {
      id = req.new_id;
      code = code;
      property_id = property.id;
      no = dto.no;
      floor = or_else dto.floor 1;
      type = type;
      size = or_else dto.size 10000;
      rent = dto.rent;
      deposit = dto.rent * 2;
      status = UnitStatus.vacant;
      tenant_id = none;
      beds = some (or_else dto.beds (beds_from_type type));
      bathrooms = some (or_else dto.bathrooms 1);
      block = dto.block;
      min_tenure = some (or_else dto.min_tenure 12);
      amenities = or_else dto.amenities [];
    }

-- the deposit follows the rent
abbrev pub deposit_for : Option ℕ → ℕ → ℕ
deposit_for none old = old
deposit_for (some rent) old = rent * 2

unfoldable pub edited : UpdateUnitDto → RentalUnit → RentalUnit
edited dto u = record u {
  no = or_else dto.no u.no;
  floor = or_else dto.floor u.floor;
  type = or_else dto.type u.type;
  size = or_else dto.size u.size;
  beds = patched dto.beds u.beds;
  bathrooms = patched dto.bathrooms u.bathrooms;
  block = patched dto.block u.block;
  min_tenure = patched dto.min_tenure u.min_tenure;
  amenities = or_else dto.amenities u.amenities;
  rent = or_else dto.rent u.rent;
  deposit = deposit_for dto.rent u.deposit;
}

module _ (orm : Orm) where
  -- PropertiesService.findByCodeOrFail
  unfoldable pub find_property_or_fail : Text → Exec Property
  find_property_or_fail code = do
    found ← gets (λ w. orm.find_one (λ p. same p.code code) w.properties)
    or_throw (not_found Table.property code) found

  unfoldable pub find_by_code_or_fail : Text → Exec RentalUnit
  find_by_code_or_fail code = do
    found ← gets (λ w. orm.find_one (λ u. same u.code code) w.units)
    or_throw (not_found Table.unit code) found

  -- the body of the transaction of `create`
  unfoldable pub write_unit : Request → Property → Text → CreateUnitDto → Exec RentalUnit
  unfolding new_unit show pad_start property_number
  write_unit req property property_code dto = do
    siblings ← gets (λ w. orm.find (λ u. u.property_id == property.id) w.units)
    let seq = length siblings + 1
    let code = text "U-" ++ property_number property_code ++ pad_start 2 (show seq)
    let unit = new_unit req property code dto
    rows ←
        gets
          (λ w. orm.insert (λ u. (u.property_id == property.id) && same u.no dto.no) unit w.units)
    saved ← or_throw (unit_exists dto.no) rows
    modify (λ w. put_units w saved)
    pure unit

  unfoldable pub create : Request → Text → CreateUnitDto → Exec RentalUnit
  unfolding find_property_or_fail write_unit
  create req property_code dto = do
    property ← find_property_or_fail property_code
    orm.transaction (write_unit req property property_code dto)

  unfoldable pub update : Text → UpdateUnitDto → Exec RentalUnit
  unfolding find_by_code_or_fail edited
  update code dto = do
    unit ← find_by_code_or_fail code
    let no = or_else dto.no unit.no
    rows ← gets (λ w.
        orm.update_unique
          (λ u. not (u.id == unit.id) && (u.property_id == unit.property_id) && same u.no no)
          (λ u. u.id == unit.id) (edited dto) w.units)
    saved ← or_throw (unit_exists no) rows
    modify (λ w. put_units w saved)
    find_by_code_or_fail code

  -- called by LeasesService.create in its transaction
  unfoldable pub occupy : ℕ → ℕ → Exec Unit
  occupy unit_id tenant_id = modify (λ w. put_units w (
      orm.update (λ u. u.id == unit_id)
        (λ u. record u { tenant_id = some tenant_id; status = UnitStatus.occupied }) w.units))

  -- called by TenantsService.blacklist and LeasesService.terminate in their transactions
  unfoldable pub vacate : ℕ → Exec Unit
  vacate unit_id = modify (λ w. put_units w (
      orm.update (λ u. u.id == unit_id)
        (λ u. record u { tenant_id = none; status = UnitStatus.vacant }) w.units))

  -- all units of one property
  unfoldable pub find_by_property_code : Text → Exec (List RentalUnit)
  unfolding find_property_or_fail
  find_by_property_code property_code = do
    property ← find_property_or_fail property_code
    gets (λ w. orm.find (λ u. u.property_id == property.id) w.units)
