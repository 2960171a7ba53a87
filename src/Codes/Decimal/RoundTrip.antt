-- ===== src/Codes/Decimal/RoundTrip.antt =====
-- A number that is printed, with any number of leading zeros, is read back by the cast.
use mathlib.Core.List.{append_assoc, append-nil}
use native.Mathlib.Numerals.{add-one}
use mentos_backend.Common.{
  ℕ, zero, suc, ◌+◌, ◌-◌, ◌*◌, ◌/◌, ◌%◌, ◌<◌, ◌≡◌, refl, sym, ap, ◌∙◌, ◌≢◌, none, some, [], ◌∷◌,
  ◌++◌, arith, ltb, length, Text, if◌then◌else◌, ◌==◌, Bool-cases, inl, inr,
}
use mentos_backend.Codes.Decimal.{show, show_fuel, zeros, pad_start, digits_from, cast_integer}

-- One more digit.
digits_from-digit :
    (n d : ℕ) (rest : Text)
    → d < 10
    → digits_from n ((b'0' + d) ∷ rest) ≡ digits_from (n * 10 + d) rest
unfolding digits_from
digits_from-digit n d rest h = let e : b'0' + d - b'0' ≡ d = omega arith in rw e (ground arith)

-- The digits read after a printed number go on from that number.
digits_from-show :
    (f n : ℕ) (rest : Text) → n < f → digits_from 0 (show_fuel f n ++ rest) ≡ digits_from n rest
unfolding show_fuel
digits_from-show zero n rest h = absurd (omega arith)
digits_from-show (suc f) n rest h = elim (Bool-cases (ltb n 10)) [
  | inl small ↦
      let e : 0 * 10 + n ≡ n = omega arith in
      rw small (digits_from-digit 0 n rest (ground arith) ∙ ap (λ k. digits_from k rest) e)
  | inr large ↦
      let e : n / 10 * 10 + n % 10 ≡ n = omega arith in
      rw (large, append_assoc)
        (digits_from-show f (n / 10) ((b'0' + n % 10) ∷ rest) (ground arith)
          ∙ digits_from-digit (n / 10) (n % 10) rest (omega arith)
          ∙ ap (λ k. digits_from k rest) e)
]

digits_from-zeros : (k : ℕ) (s : Text) → digits_from 0 (zeros k ++ s) ≡ digits_from 0 s
unfolding digits_from zeros
digits_from-zeros zero s = refl
digits_from-zeros (suc k) s = digits_from-zeros k s

append-ne_nil : (s t : Text) → t ≢ [] → s ++ t ≢ []
append-ne_nil [] t h = h
append-ne_nil (c ∷ s) t h = λ e. cc

show_fuel-ne_nil : (f n : ℕ) → show_fuel (suc f) n ≢ []
unfolding show_fuel
show_fuel-ne_nil f n = elim (Bool-cases (ltb n 10)) [
  | inl small ↦ rw small (λ e. cc)
  | inr large ↦ rw large (append-ne_nil (show_fuel f (n / 10)) ((b'0' + n % 10) ∷ []) (λ e. cc))
]

cast_integer-digits_from : (s : Text) → s ≢ [] → cast_integer s ≡ digits_from 0 s
unfolding cast_integer
cast_integer-digits_from [] h = absurd (h refl)
cast_integer-digits_from (c ∷ s) h = refl

digits_from-show_nil : (f n : ℕ) → n < f → digits_from 0 (show_fuel f n) ≡ some n
unfolding digits_from
digits_from-show_nil f n h =
    ap (digits_from 0) (sym (append-nil (show_fuel f n))) ∙ digits_from-show f n [] h

-- CAST(… AS INTEGER) reads back every number that has been printed and padded with zeros, whatever
-- the width of the padding.
pub cast_integer-pad_start : (w n : ℕ) → cast_integer (pad_start w (show n)) ≡ some n
unfolding pad_start show
cast_integer-pad_start w n =
    let s : Text = show_fuel (n + 1) n in
    let k : ℕ = w - length s in
    let full : show_fuel (n + 1) n ≢ [] = rw add-one (show_fuel-ne_nil n n) in
    cast_integer-digits_from (zeros k ++ s) (append-ne_nil (zeros k) s full)
    ∙ digits_from-zeros k s
    ∙ digits_from-show_nil (n + 1) n (omega arith)

pub cast_integer-show : (n : ℕ) → cast_integer (show n) ≡ some n
unfolding show
cast_integer-show n =
    cast_integer-digits_from (show_fuel (n + 1) n) (rw add-one (show_fuel-ne_nil n n))
    ∙ digits_from-show_nil (n + 1) n (omega arith)

-- A text with a dash is no number.
digits_from-dash : (k : ℕ) (s t : Text) → digits_from k (s ++ b'-' ∷ t) ≡ none
unfolding digits_from
digits_from-dash k [] t = refl
digits_from-dash k (c ∷ s) t = ground (arith, digits_from-dash (k * 10 + (c - b'0')) s t)

pub cast_integer-dash : (s t : Text) → cast_integer (s ++ b'-' ∷ t) ≡ none
unfolding cast_integer
cast_integer-dash [] t = digits_from-dash 0 [] t
cast_integer-dash (c ∷ s) t = digits_from-dash 0 (c ∷ s) t

-- s.split(c)[0]
abbrev pub before : ℕ → Text → Text
before c [] = []
before c (d ∷ s) = if d == c then [] else d ∷ before c s

-- A number ends where a slash stands.
before-digits_from :
    (k n : ℕ) (s rest : Text) → digits_from k s ≡ some n → before b'/' (s ++ b'/' ∷ rest) ≡ s
unfolding digits_from
before-digits_from k n [] rest h = refl
before-digits_from k n (c ∷ s) rest h =
    ground (arith, before-digits_from (k * 10 + (c - b'0')) n s rest)

pub before-cast_integer :
    (n : ℕ) (s rest : Text) → cast_integer s ≡ some n → before b'/' (s ++ b'/' ∷ rest) ≡ s
unfolding cast_integer
before-cast_integer n [] rest h = cc
before-cast_integer n (c ∷ s) rest h = before-digits_from 0 n (c ∷ s) rest h
