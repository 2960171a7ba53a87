-- ===== src/Tests/Figures.antt =====
-- Reports.
use mentos_backend.Common.{◌≡◌, refl, [], ◌∷◌, text}
use mentos_backend.Calendar.{month_name}
use mentos_backend.Codes.Decimal.{show}
use mentos_backend.Money.{Signed, money_label, signed_label, quotient_label}
use mentos_backend.Reports.Shape.{percent}
use mentos_backend.Reports.Financial.{rent_collection}
use mentos_backend.Reports.Trends.{payment_trends}
use mentos_backend.Reports.Operational.{days_until}
use mentos_backend.Reports.Sorting.{BalancesShown, DaysShown, reports-IsSorted}
use mentos_backend.Tests.Sample.{req, july, billed}

reports-IsSorted_example : BalancesShown req billed × DaysShown req billed
reports-IsSorted_example = reports-IsSorted req billed

rent_collection_kpis :
    (rent_collection req billed).kpis
    ≡ (text "Expected", text "TSh 15")
      ∷ (text "Collected", text "TSh 5")
      ∷ (text "Collection rate", text "33%")
      ∷ (text "Outstanding", text "TSh 10")
      ∷ []
unfolding rent_collection money_label signed_label percent show
rent_collection_kpis = refl

payment_trends_kpis :
    (payment_trends req billed).kpis
    ≡ (text "Average monthly", text "TSh 0") ∷ (text "Peak month", text "Jul") ∷ []
unfolding payment_trends quotient_label month_name show
payment_trends_kpis = refl

days_left : days_until july (record { year = 2027; month = 6; day = 30 }) ≡ Signed.plus 364
unfolding days_until
days_left = refl
