-- ===== src/Money.antt =====
-- common/money.util.ts: an amount in cents as "TSh 420,000".
use mentos_backend.Common.{
  ℕ, zero, suc, ◌+◌, ◌-◌, ◌*◌, ◌/◌, ◌%◌, ◌==◌, ◌≡◌, refl, [], ◌++◌, leb, ltb, if◌then◌else◌, Text,
  text,
}
use mentos_backend.Codes.Decimal.{show, pad_start}

-- n.toLocaleString('en-US'), a round for each group of three digits
grouped : ℕ → ℕ → Text
grouped zero n = []
grouped (suc f) n =
    let rest = grouped f (n / 1000) in
    if ltb n 1000 then show n else rest ++ text "," ++ pad_start 3 (show (n % 1000))

-- Math.round of an amount that is not negative: halves go up
unfoldable pub money_label : ℕ → Text
unfolding grouped show pad_start
money_label cents = text "TSh " ++ grouped (cents + 1) ((cents + 50) / 100)

label_420000 : money_label 42000000 ≡ text "TSh 420,000"
unfolding money_label
label_420000 = refl

-- A difference of amounts.
pub data Signed : Type 0 where
  plus minus : ℕ → Signed

abbrev pub difference : ℕ → ℕ → Signed
difference a b = if leb b a then Signed.plus (a - b) else Signed.minus (b - a)

abbrev pub less : ℕ → Signed → Signed
less a (Signed.plus b) = difference a b
less a (Signed.minus b) = Signed.plus (a + b)

-- the label of a difference: Math.round takes halves up, and what is rounded to zero from below is
-- printed as -0
unfoldable pub signed_label : Signed → Text
unfolding money_label grouped
signed_label (Signed.plus cents) = money_label cents
signed_label (Signed.minus cents) = text "TSh -" ++ grouped (cents + 1) ((cents + 49) / 100)

-- the label of the quotient of an amount
unfoldable pub quotient_label : ℕ → ℕ → Text
unfolding grouped
quotient_label cents parts =
    text "TSh " ++ grouped (cents + 1) ((cents + 50 * parts) / (100 * parts))

-- String(v) of a number with two decimal places
unfoldable pub decimal_label : ℕ → Text
unfolding show pad_start
decimal_label hundredths =
    if hundredths % 100 == 0
    then show (hundredths / 100)
    else if hundredths % 10 == 0
    then show (hundredths / 100) ++ text "." ++ show (hundredths % 100 / 10)
    else show (hundredths / 100) ++ text "." ++ pad_start 2 (show (hundredths % 100))

-- moneyShortLabel; (v / 1e6).toFixed(1) takes halves up
unfoldable pub money_short_label : ℕ → Text
unfolding decimal_label show
money_short_label cents =
    if leb 100_000_000 cents
    then (let tenths : ℕ = (cents + 5_000_000) / 10_000_000 in
        text "TSh " ++ show (tenths / 10) ++ text "." ++ show (tenths % 10) ++ text "M")
    else if leb 100_000 cents
    then text "TSh " ++ show ((cents + 50_000) / 100_000) ++ text "k"
    else text "TSh " ++ decimal_label cents

short_1500000 : money_short_label 150_000_000 ≡ text "TSh 1.5M"
unfolding money_short_label
short_1500000 = refl

short_42000 : money_short_label 4_200_000 ≡ text "TSh 42k"
unfolding money_short_label
short_42000 = refl

below_zero : signed_label (difference 100 250_050) ≡ text "TSh -2,499"
unfolding signed_label
below_zero = refl
