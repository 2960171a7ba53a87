-- ===== src/Codes/Decimal.antt =====
-- Decimal numbers as text: JavaScript's String(n), padStart, and SQL's cast of a text to an integer.
pub mod RoundTrip
use mentos_backend.Common.{
  ℕ, zero, suc, ◌+◌, ◌-◌, ◌*◌, ◌/◌, ◌%◌, ◌≡◌, refl, ◌||◌, Option, none, some, [], ◌∷◌, ◌++◌, ltb,
  if◌then◌else◌, length, Text, text,
}

-- String(n), by the digits from the last. A round for each digit; n + 1 rounds are enough.
show_fuel : ℕ → ℕ → Text
show_fuel zero n = []
show_fuel (suc f) n =
    let rest = show_fuel f (n / 10) in
    if ltb n 10 then (b'0' + n) ∷ [] else rest ++ ((b'0' + n % 10) ∷ [])

unfoldable pub show : ℕ → Text
unfolding show_fuel
show n = show_fuel (n + 1) n

zeros : ℕ → Text
zeros zero = []
zeros (suc n) = b'0' ∷ zeros n

-- s.padStart(width, '0')
unfoldable pub pad_start : ℕ → Text → Text
unfolding zeros
pad_start width s = zeros (width - length s) ++ s

-- the digits of a text after those that make up `n`
digits_from : ℕ → Text → Option ℕ
digits_from n [] = some n
digits_from n (c ∷ s) =
    let rest = digits_from (n * 10 + (c - b'0')) s in
    if ltb c b'0' || ltb b'9' c then none else rest

-- CAST(s AS INTEGER), for a text of decimal digits. `none` is PostgreSQL's error for another text;
-- that it also reads a sign or spaces plays no part in the codes. INTEGER ends at
-- 2 ^ 31 - 1, which no table reaches; that the cast fails beyond it is left out.
unfoldable pub cast_integer : Text → Option ℕ
unfolding digits_from
cast_integer [] = none
cast_integer (c ∷ s) = digits_from 0 (c ∷ s)

show-cast : cast_integer (pad_start 3 (show 42)) ≡ some 42
unfolding cast_integer pad_start show
show-cast = refl

show_padded : pad_start 2 (show 7) ≡ text "07"
unfolding pad_start show
show_padded = refl
