-- ===== src/Technicians.antt =====
-- technicians/technicians.service.ts
use mentos_backend.Common.{Bool, List, map, Text, same}
use mentos_backend.Codes.Scheme.{technician_codes}
use mentos_backend.Model.{Technician, TechnicianStatus, Table, not_found, World, Request}
use mentos_backend.Orm.{
  Orm, Exec, pure, gets, modify, or_throw, or_unique, allocate_code, ◌>>=◌, ◌>>◌,
}

pub record CreateTechnicianDto : Type 0 where
  pub name : Text
  pub phone : Text
  pub email : Text
  pub skills : List Text
  pub company : Bool

abbrev pub put_technicians : World → List Technician → World
put_technicians w t = record w { db = record w.db { technicians = t } }

unfoldable pub new_technician : Request → Text → CreateTechnicianDto → Technician
new_technician req code dto = record {
  id = req.new_id;
  code = code;
  name = dto.name;
  phone = dto.phone;
  email = dto.email;
  skills = dto.skills;
  status = TechnicianStatus.active;
  company = dto.company;
  since = req.today;
}

module _ (orm : Orm) where
  -- the body of the transaction of `create`
  unfoldable pub write_technician : Request → CreateTechnicianDto → Exec Technician
  unfolding new_technician allocate_code
  write_technician req dto = do
    codes ← gets (λ w. map (λ t. t.code) w.technicians)
    code ← allocate_code technician_codes codes
    let technician = new_technician req code dto
    rows ← gets (λ w. orm.insert (λ t. same t.code code) technician w.technicians)
    saved ← or_unique rows
    modify (λ w. put_technicians w saved)
    pure technician

  unfoldable pub create : Request → CreateTechnicianDto → Exec Technician
  unfolding write_technician
  create req dto = orm.transaction (write_technician req dto)

  unfoldable pub find_all : Exec (List Technician)
  find_all = gets (λ w. w.technicians)

  unfoldable pub find_by_code_or_fail : Text → Exec Technician
  find_by_code_or_fail code = do
    found ← gets (λ w. orm.find_one (λ t. same t.code code) w.technicians)
    or_throw (not_found Table.technician code) found
