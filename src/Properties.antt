-- ===== src/Properties.antt =====
-- properties/properties.service.ts
use mentos_backend.Common.{
  ℕ, ◌==◌, Option, none, some, List, [], ◌∷◌, map, or_else, Text, text, same,
}
use mentos_backend.Codes.Scheme.{property_codes}
use mentos_backend.Model.{Property, PropertyType, PropertyStatus, World, Request}
use mentos_backend.Orm.{Orm, Exec, pure, gets, modify, or_unique, allocate_code, ◌>>=◌, ◌>>◌}
use mentos_backend.Units.{or_default, find_property_or_fail}

pub record CreatePropertyDto : Type 0 where
  pub name : Text
  pub type : PropertyType
  pub area : Option Text
  pub city : Option Text
  pub owner : Option Text
  pub description : Option Text
  pub amenities : Option (List Text)

pub record UpdatePropertyDto : Type 0 where
  pub name : Option Text
  pub type : Option PropertyType
  pub area : Option Text
  pub city : Option Text
  pub owner : Option Text
  pub status : Option PropertyStatus
  pub description : Option Text
  pub amenities : Option (List Text)

abbrev default_amenities : List Text
default_amenities = text "Parking" ∷ text "24/7 security" ∷ []

-- `dto.amenities?.length ? dto.amenities : DEFAULT_AMENITIES`
abbrev amenities_or_default : Option (List Text) → List Text
amenities_or_default none = default_amenities
amenities_or_default (some []) = default_amenities
amenities_or_default (some (a ∷ rest)) = a ∷ rest

abbrev pub put_properties : World → List Property → World
put_properties w t = record w { db = record w.db { properties = t } }

unfoldable pub new_property : Request → Text → CreatePropertyDto → Property
new_property req code dto = record {
  id = req.new_id;
  code = code;
  name = dto.name;
  type = dto.type;
  area = or_default dto.area (text "—");
  city = or_default dto.city (text "Dar es Salaam");
  owner = or_default dto.owner (text "—");
  status = PropertyStatus.active;
  description = or_else dto.description (text "");
  amenities = amenities_or_default dto.amenities;
}

unfoldable pub edited : UpdatePropertyDto → Property → Property
edited dto p = record p {
  name = or_else dto.name p.name;
  type = or_else dto.type p.type;
  area = or_else dto.area p.area;
  city = or_else dto.city p.city;
  owner = or_else dto.owner p.owner;
  status = or_else dto.status p.status;
  description = or_else dto.description p.description;
  amenities = or_else dto.amenities p.amenities;
}

module _ (orm : Orm) where
  -- the body of the transaction of `create`
  unfoldable pub write_property : Request → CreatePropertyDto → Exec Property
  unfolding new_property allocate_code
  write_property req dto = do
    codes ← gets (λ w. map (λ p. p.code) w.properties)
    code ← allocate_code property_codes codes
    let property = new_property req code dto
    rows ← gets (λ w. orm.insert (λ p. same p.code code) property w.properties)
    saved ← or_unique rows
    modify (λ w. put_properties w saved)
    pure property

  unfoldable pub create : Request → CreatePropertyDto → Exec Property
  unfolding write_property
  create req dto = orm.transaction (write_property req dto)

  -- save of the loaded row
  unfoldable pub update_row : ℕ → (Property → Property) → Exec Unit
  update_row id patch =
      modify (λ w. put_properties w (orm.update (λ p. p.id == id) patch w.properties))

  unfoldable pub update : Text → UpdatePropertyDto → Exec Property
  unfolding find_property_or_fail update_row edited
  update code dto = do
    property ← find_property_or_fail orm code
    update_row property.id (edited dto)
    pure (edited dto property)

  unfoldable pub archive : Text → Exec Property
  unfolding find_property_or_fail update_row
  archive code = do
    property ← find_property_or_fail orm code
    update_row property.id (λ p. record p { status = PropertyStatus.archived })
    pure (record property { status = PropertyStatus.archived })
