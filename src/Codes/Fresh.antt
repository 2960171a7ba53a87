-- ===== src/Codes/Fresh.antt =====
-- The code that the query allocates clashes with no row: without a cap always, with a cap as long
-- as the cap itself has not been given out.
use mentos_backend.Common.{
  ℕ, ◌+◌, ◌<◌, ◌≡◌, refl, sym, ap, ◌∙◌, false, Option, none, some, List, [], ◌∷◌, ◌++◌, map, arith,
  ltb, ◌==◌, any, select, Text, same, same_iff,
}
use mentos_backend.Codes.Decimal.{show, pad_start, cast_integer}
use mentos_backend.Codes.Decimal.RoundTrip.{cast_integer-pad_start}
use mentos_backend.Codes.Scheme.{
  Scheme, substring, numbers, larger, max_of, coalesce_max, capped, print_code, next_code,
}

-- The number is read from behind the prefix.
abbrev pub IsReadable : Scheme → Type 0
IsReadable s = (t : Text) → substring (s.prefix ++ t) s.from ≡ t

module _ (s : Scheme) (readable : IsReadable s) where
  cast-print_code : (n : ℕ) → cast_integer (substring (print_code s n) s.from) ≡ some n
  unfolding print_code
  cast-print_code n = rw (readable (pad_start s.width (show n))) (cast_integer-pad_start s.width n)

  -- Two numbers never share a code.
  pub print_code-injective : (m n : ℕ) → print_code s m ≡ print_code s n → m ≡ n
  print_code-injective m n e =
      let same_cast : some m ≡ some n =
        sym (cast-print_code m)
        ∙ ap (λ c. cast_integer (substring c s.from)) e
        ∙ cast-print_code n in
      cc

  numbers-print_code : (ns : List ℕ) → numbers s.from (map (print_code s) ns) ≡ some ns
  unfolding numbers
  numbers-print_code [] = refl
  numbers-print_code (n ∷ ns) = ground (arith, cast-print_code n, numbers-print_code ns)

  pub next_code-print_code :
      (ns : List ℕ)
      → next_code s (map (print_code s) ns)
        ≡ some (print_code s (coalesce_max (capped s.cap ns) s.start + 1))
  unfolding next_code
  next_code-print_code ns = ground (arith, numbers-print_code ns)

  pub same-print_code : (m n : ℕ) → same (print_code s m) (print_code s n) ≡ (n == m)
  same-print_code m n = ground (
    arith,
    same_iff (print_code s m) (print_code s n),
    print_code-injective m n,
    ap (print_code s) {x = m} {y = n},
  )

  pub any-print_code :
      (m : ℕ) (ns : List ℕ)
      → any (same (print_code s m)) (map (print_code s) ns) ≡ any (λ n. n == m) ns
  any-print_code m [] = refl
  any-print_code m (n ∷ ns) = rw (same-print_code m n, any-print_code m ns)

-- Nothing at or above what exceeds the maximum stands in the column.
max_of-above : (k n : ℕ) (ns : List ℕ) → max_of n ns < k → (n < k) × (any (λ m. m == k) ns ≡ false)
max_of-above k n [] h = (h, refl)
max_of-above k n (m ∷ ms) h = ground (arith, max_of-above k (larger n m) ms)

pub any-above : (d k : ℕ) (ns : List ℕ) → coalesce_max ns d < k → any (λ m. m == k) ns ≡ false
any-above d k [] h = refl
any-above d k (n ∷ ns) h = ground (arith, max_of-above k n ns)

pub coalesce_max-above : (d : ℕ) (ns : List ℕ) → any (λ m. m == coalesce_max ns d + 1) ns ≡ false
coalesce_max-above d ns = any-above d (coalesce_max ns d + 1) ns (omega arith)

max_of-lt : (cap n : ℕ) (ns : List ℕ) → n < cap → max_of n (select (λ m. ltb m cap) ns) < cap
max_of-lt cap n [] h = h
max_of-lt cap n (m ∷ ms) h = ground (arith, max_of-lt cap n ms, max_of-lt cap (larger n m) ms)

pub coalesce_max-lt :
    (cap d : ℕ) (ns : List ℕ) → d < cap → coalesce_max (select (λ m. ltb m cap) ns) d < cap
coalesce_max-lt cap d [] h = h
coalesce_max-lt cap d (n ∷ ns) h = ground (arith, coalesce_max-lt cap d ns, max_of-lt cap n ns)

-- Below the cap the query looks at every row.
pub any-select :
    (cap k : ℕ) (ns : List ℕ)
    → k < cap
    → any (λ n. n == k) (select (λ m. ltb m cap) ns) ≡ any (λ n. n == k) ns
any-select cap k [] h = refl
any-select cap k (n ∷ ns) h = ground (arith, any-select cap k ns)

-- There is no cap, or the number of the cap has not been given out yet.
abbrev pub IsBelow : Option ℕ → ℕ → List ℕ → Type 0
IsBelow none start ns = Unit
IsBelow (some cap) start ns = (start < cap) × (any (λ n. n == cap) ns ≡ false)

seq-unused :
    (cap : Option ℕ) (start : ℕ) (ns : List ℕ)
    → IsBelow cap start ns
    → any (λ n. n == coalesce_max (capped cap ns) start + 1) ns ≡ false
seq-unused none start ns h = coalesce_max-above start ns
seq-unused (some cap) start ns h =
    let k : ℕ = coalesce_max (select (λ m. ltb m cap) ns) start + 1 in
    ground (
      arith,
      coalesce_max-lt cap start ns,
      coalesce_max-above start (select (λ m. ltb m cap) ns),
      any-select cap k ns,
    )

-- The query succeeds on a column of printed codes, and the code that it allocates is that of no
-- row, if there is no cap or the cap's own number has not been given out.
pub next_code-fresh :
    (s : Scheme) (ns : List ℕ)
    → IsReadable s
    → IsBelow s.cap s.start ns
    → (c : Text) × (next_code s (map (print_code s) ns) ≡ some c)
      × (any (same c) (map (print_code s) ns) ≡ false)
next_code-fresh s ns r h = (
  print_code s (coalesce_max (capped s.cap ns) s.start + 1),
  next_code-print_code s r ns,
  any-print_code s r (coalesce_max (capped s.cap ns) s.start + 1) ns
      ∙ seq-unused s.cap s.start ns h,
)
