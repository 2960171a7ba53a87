-- ===== src/Orm/Repository.antt =====
-- The interface, the behaviour that TypeORM and PostgreSQL document for it, and the reference
-- implementation by lists that has that behaviour.
use mentos_backend.Common.{
  ◌≡◌, refl, Bool, Option, none, some, List, [], ◌∷◌, ◌++◌, any, select, first, change, not,
  if◌then◌else◌,
}
use mentos_backend.Model.{World}
use mentos_backend.Orm.Actions.{Result, ok, err, Exec}

pub record Orm : Type 1 where
  -- repository.find: the rows that a condition selects, in the order of creation
  pub find : {R : Type 0} → (R → Bool) → List R → List R
  -- repository.findOne
  pub find_one : {R : Type 0} → (R → Bool) → List R → Option R
  -- repository.update, and repository.save of a row that was loaded
  pub update : {R : Type 0} → (R → Bool) → (R → R) → List R → List R
  -- repository.save of a new row; the first argument says which rows clash with it in a unique
  -- index, and `none` is the error of the unique constraint
  pub insert : {R : Type 0} → (R → Bool) → R → List R → Option (List R)
  -- repository.save of a row that was loaded, where its new values may clash with another row
  pub update_unique : {R : Type 0} → (R → Bool) → (R → Bool) → (R → R) → List R → Option (List R)
  -- repository.remove, repository.delete
  pub delete : {R : Type 0} → (R → Bool) → List R → List R
  -- dataSource.transaction
  pub transaction : {A : Type 0} → Exec A → Exec A

abbrev insert_row : {R : Type 0} → (R → Bool) → R → List R → Option (List R)
insert_row clash r t = if any clash t then none else some (t ++ r ∷ [])

abbrev update_rows : {R : Type 0} → (R → Bool) → (R → Bool) → (R → R) → List R → Option (List R)
update_rows clash p f t = if any clash t then none else some (change p f t)

-- the tables of a transaction that throws are those from before it
abbrev settle : {A : Type 0} → World → Result A × World → Result A × World
settle before (ok a, w) = (ok a, w)
settle before (err e, w) = (err e, record w { db = before.db })

abbrev run_transaction : {A : Type 0} → Exec A → Exec A
run_transaction m w = settle w (m w)

abbrev pub reference : Orm
reference = record {
  find = λ {R} p t. select p t;
  find_one = λ {R} p t. first p t;
  update = λ {R} p f t. change p f t;
  insert = λ {R} clash r t. insert_row clash r t;
  update_unique = λ {R} clash p f t. update_rows clash p f t;
  delete = λ {R} p t. select (λ r. not (p r)) t;
  transaction = λ {A} m w. run_transaction m w;
}

-- The documented behaviour, verb by verb.
pub record Documented (orm : Orm) : Type 1 where
  pub find_lem : (R : Type 0) (p : R → Bool) (t : List R) → orm.find p t ≡ select p t
  pub find_one_lem : (R : Type 0) (p : R → Bool) (t : List R) → orm.find_one p t ≡ first p t
  pub update_lem :
      (R : Type 0) (p : R → Bool) (f : R → R) (t : List R) → orm.update p f t ≡ change p f t
  pub insert_lem :
      (R : Type 0) (clash : R → Bool) (r : R) (t : List R)
      → orm.insert clash r t ≡ insert_row clash r t
  pub update_unique_lem :
      (R : Type 0) (clash : R → Bool) (p : R → Bool) (f : R → R) (t : List R)
      → orm.update_unique clash p f t ≡ update_rows clash p f t
  pub delete_lem :
      (R : Type 0) (p : R → Bool) (t : List R) → orm.delete p t ≡ select (λ r. not (p r)) t
  pub transaction_lem :
      (A : Type 0) (m : Exec A) (w : World) → orm.transaction m w ≡ run_transaction m w

pub reference-Documented : Documented reference
reference-Documented = record {
  find_lem = λ R p t. refl;
  find_one_lem = λ R p t. refl;
  update_lem = λ R p f t. refl;
  insert_lem = λ R clash r t. refl;
  update_unique_lem = λ R clash p f t. refl;
  delete_lem = λ R p t. refl;
  transaction_lem = λ A m w. refl;
}

-- The documented behaviour leaves no freedom, so what holds of the reference holds of every
-- implementation.
pub orm-eq-reference : (orm : Orm) → Documented orm → orm ≡ reference
orm-eq-reference orm h = λ i. record {
  find = λ {R} p t. h.find_lem R p t i;
  find_one = λ {R} p t. h.find_one_lem R p t i;
  update = λ {R} p f t. h.update_lem R p f t i;
  insert = λ {R} clash r t. h.insert_lem R clash r t i;
  update_unique = λ {R} clash p f t. h.update_unique_lem R clash p f t i;
  delete = λ {R} p t. h.delete_lem R p t i;
  transaction = λ {A} m w. h.transaction_lem A m w i;
}
