-- ===== src/Reports/Sums.antt =====
-- Sums over what the reports count.
use mentos_backend.Common.{
  ℕ, ◌+◌, ◌-◌, ◌≡◌, refl, ap, ◌∙◌, fun_ext, Bool, true, false, not, List, [], ◌∷◌, arith, map,
  select, sum_by, length, Text, same, Bool-cases, inl, inr,
}
use mentos_backend.Money.{Signed, difference, less, money_short_label}
use mentos_backend.Model.{MaintenanceRequest, MaintenanceStatus, RentalUnit, is_occupied, Payment}
use mentos_backend.Reports.Shape.{Bar}
use mentos_backend.Reports.Financial.{put, costs_from}
use mentos_backend.Reports.Trends.{Bucket, add_payment, add_payments, bars_of}
use mentos_backend.Reports.Operational.{
  CategoryBucket, count_request, empty_bucket, categories_from, occupied_units, is_vacant, is_open,
  one_if,
}

-- neither completed nor closed
abbrev pub is_unfinished : MaintenanceStatus → Bool
is_unfinished MaintenanceStatus.completed = false
is_unfinished MaintenanceStatus.closed = false
is_unfinished _ = true

pub less-difference : (e o : ℕ) → less e (difference e o) ≡ Signed.plus o
less-difference e o = ground arith

module _ {ℓ} {A : Type ℓ} (m : A → ℕ) (key : Text) (f : A → A) (fresh : A) (d : ℕ)
    (adds : (a : A) → m (f a) ≡ m a + d) where
  sum_by-put :
      (acc : List (Text × A))
      → m fresh ≡ 0
      → sum_by (λ e. m e.1) (put key f fresh acc) ≡ sum_by (λ e. m e.1) acc + d
  sum_by-put [] h = omega (arith, adds fresh)
  sum_by-put ((k, v) ∷ acc) h = elim (Bool-cases (same k key)) [
    | inl t ↦ rw t (omega (arith, adds v))
    | inr f ↦ rw f (omega (arith, sum_by-put acc h))
  ]

pub sum_by-costs_from :
    (acc : List (Text × ℕ)) (rs : List MaintenanceRequest)
    → sum_by (λ e. e.1) (costs_from acc rs) ≡ sum_by (λ e. e.1) acc + sum_by (λ r. r.cost) rs
sum_by-costs_from acc [] = omega arith
sum_by-costs_from acc (r ∷ rs) =
    sum_by-costs_from (put r.category (λ c. c + r.cost) 0 acc) rs
    ∙ omega (arith, sum_by-put (λ c. c) r.category (λ c. c + r.cost) 0 r.cost (λ c. refl) acc refl)

sum_by-categories_from :
    (m : CategoryBucket → ℕ) (d : MaintenanceRequest → ℕ)
    → m empty_bucket ≡ 0
    → ((r : MaintenanceRequest) (b : CategoryBucket) → m (count_request r b) ≡ m b + d r)
    → (acc : List (Text × CategoryBucket)) (rs : List MaintenanceRequest)
    → sum_by (λ e. m e.1) (categories_from acc rs) ≡ sum_by (λ e. m e.1) acc + sum_by d rs
sum_by-categories_from m d h adds acc [] = omega arith
sum_by-categories_from m d h adds acc (r ∷ rs) =
    sum_by-categories_from m d h adds (put r.category (count_request r) empty_bucket acc) rs
    ∙ omega (arith, sum_by-put m r.category (count_request r) empty_bucket (d r) (adds r) acc h)

length-occupied_units :
    (us : List RentalUnit) → length (occupied_units us) + length (select is_vacant us) ≡ length us
length-occupied_units [] = refl
length-occupied_units (u ∷ us) = ground (arith, length-occupied_units us)

pub vacant_units :
    (us : List RentalUnit)
    → length us - length (occupied_units us) ≡ length (select (λ u. not (is_occupied u.status)) us)
vacant_units us = omega (arith, length-occupied_units us)

sum_by-one_if :
    (rs : List MaintenanceRequest)
    → sum_by (λ r. one_if (is_open r.status)) rs ≡ length (select (λ r. is_open r.status) rs)
sum_by-one_if [] = refl
sum_by-one_if (r ∷ rs) = elim (Bool-cases (is_open r.status)) [
  | inl t ↦ rw t (omega (arith, sum_by-one_if rs))
  | inr f ↦ rw f (omega (arith, sum_by-one_if rs))
]

sum_by-one : (rs : List MaintenanceRequest) → sum_by (λ r. 1) rs ≡ length rs
sum_by-one [] = refl
sum_by-one (r ∷ rs) = omega (arith, sum_by-one rs)

pub is_unfinished-is_open : (s : MaintenanceStatus) → is_open s ≡ is_unfinished s
is_unfinished-is_open MaintenanceStatus.open_ = refl
is_unfinished-is_open MaintenanceStatus.assigned = refl
is_unfinished-is_open MaintenanceStatus.in_progress = refl
is_unfinished-is_open MaintenanceStatus.completed = refl
is_unfinished-is_open MaintenanceStatus.closed = refl

pub open_total :
    (rs : List MaintenanceRequest)
    → sum_by (λ e. e.1.open_) (categories_from [] rs)
      ≡ length (select (λ r. is_unfinished r.status) rs)
open_total rs =
    sum_by-categories_from (λ b. b.open_) (λ r. one_if (is_open r.status)) refl (λ r b. refl) [] rs
    ∙ omega (arith, sum_by-one_if rs)
    ∙ ap (λ p. length (select p rs))
        (fun_ext (λ (r : MaintenanceRequest). is_unfinished-is_open r.status))

pub count_total :
    (rs : List MaintenanceRequest) → sum_by (λ e. e.1.count) (categories_from [] rs) ≡ length rs
count_total rs =
    sum_by-categories_from (λ b. b.count) (λ r. 1) refl (λ r b. refl) [] rs
    ∙ omega (arith, sum_by-one rs)

pub cost_total :
    (rs : List MaintenanceRequest)
    → sum_by (λ e. e.1.cost) (categories_from [] rs) ≡ sum_by (λ r. r.cost) rs
cost_total rs =
    sum_by-categories_from (λ b. b.cost) (λ r. r.cost) refl (λ r b. refl) [] rs ∙ omega arith

pub bars-buckets :
    (m : ℕ) (bs : List Bucket)
    → map (λ (b : Bar). b.value_fmt) (bars_of m bs) ≡ map (λ b. money_short_label b.total) bs
bars-buckets m [] = refl
bars-buckets m (b ∷ bs) = ap (λ t. money_short_label b.total ∷ t) (bars-buckets m bs)

length-add_payment : (p : Payment) (bs : List Bucket) → length (add_payment p bs) ≡ length bs
length-add_payment p [] = refl
length-add_payment p (b ∷ bs) = ground (arith, length-add_payment p bs)

pub length-add_payments :
    (ps : List Payment) (bs : List Bucket) → length (add_payments ps bs) ≡ length bs
length-add_payments [] bs = refl
length-add_payments (p ∷ ps) bs =
    length-add_payments ps (add_payment p bs) ∙ length-add_payment p bs
