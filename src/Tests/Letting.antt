-- ===== src/Tests/Letting.antt =====
-- Leases.
use mentos_backend.Common.{List, some, text, [], ◌∷◌, refl, arith}
use mentos_backend.Orm.{reference, reference-Documented}
use mentos_backend.Leases.{create}
use mentos_backend.Leases.Creation.{Outcome, create-Outcome}
use mentos_backend.Leases.Occupancy.{
  IsLetOnce, LeaseCommand, create_, terminate_, run_all, run_all-IsLetOnce,
}
use mentos_backend.Leases.Eviction.{Forgotten, blacklist-Forgotten}
use mentos_backend.Tests.Sample.{req, billed, occupied, letting, asha, storage, ids, new_lease_dto}
use mentos_backend.Model.{Tenant, TenantStatus}

create-Outcome_example :
    Outcome storage req ids new_lease_dto billed
      (create reference storage req ids new_lease_dto billed)
create-Outcome_example =
    create-Outcome reference reference-Documented storage req ids new_lease_dto billed

-- the flat is let, and taken back
abbrev calls : List LeaseCommand
calls =
    create_ req ids new_lease_dto ∷ terminate_ (text "L-01") ∷ create_ req ids new_lease_dto ∷ []

occupied-IsLetOnce : IsLetOnce occupied.db
occupied-IsLetOnce = record { single = λ t. ground arith; marked = (refl, tt) }

run_all-IsLetOnce_example : IsLetOnce (run_all reference storage calls occupied).db
run_all-IsLetOnce_example =
    run_all-IsLetOnce reference reference-Documented storage calls occupied occupied-IsLetOnce

abbrev lodger : Tenant
lodger = record asha { status = TenantStatus.active; unit_id = some 5; property_id = some 1 }

blacklist-Forgotten_example :
    Forgotten reference storage (text "T-01") (text "L-01") occupied lodger letting
blacklist-Forgotten_example =
    blacklist-Forgotten reference reference-Documented storage (text "T-01") (text "L-01") occupied
      lodger letting refl refl refl refl refl
