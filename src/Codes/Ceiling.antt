-- ===== src/Codes/Ceiling.antt =====
-- The cap in the query of invoices.service.ts and payments.service.ts is also a ceiling.
use mentos_backend.Common.{
  ℕ, ◌+◌, ◌-◌, ◌<◌, ◌≡◌, ap, ◌∙◌, true, some, List, map, arith, ltb, ◌==◌, any, select, same,
}
use mentos_backend.Codes.Scheme.{Scheme, coalesce_max, capped, print_code, next_code}
use mentos_backend.Codes.Fresh.{
  IsReadable, next_code-print_code, any-print_code, any-above, coalesce_max-lt, any-select,
}

-- Just below the cap the maximum stands still.
coalesce_max-stuck :
    (cap d : ℕ) (ns : List ℕ)
    → d < cap
    → any (λ n. n == cap - 1) ns ≡ true
    → coalesce_max (select (λ m. ltb m cap) ns) d + 1 ≡ cap
coalesce_max-stuck cap d ns h last = ground (
  arith,
  coalesce_max-lt cap d ns,
  any-above d (cap - 1) (select (λ m. ltb m cap) ns),
  any-select cap (cap - 1) ns,
)

-- Once the numbers cap - 1 and cap have been given out, the query allocates the cap's code again,
-- which a row already has.
pub next_code-clashes :
    (s : Scheme) (cap : ℕ) (ns : List ℕ)
    → IsReadable s
    → s.cap ≡ some cap
    → s.start < cap
    → any (λ n. n == cap - 1) ns ≡ true
    → any (λ n. n == cap) ns ≡ true
    → (next_code s (map (print_code s) ns) ≡ some (print_code s cap))
      × (any (same (print_code s cap)) (map (print_code s) ns) ≡ true)
next_code-clashes s cap ns r e h below at_cap = (
  next_code-print_code s r ns
      ∙ ap (λ o. some (print_code s (coalesce_max (capped o ns) s.start + 1))) e
      ∙ ap (λ n. some (print_code s n)) (coalesce_max-stuck cap s.start ns h below),
  any-print_code s r cap ns ∙ at_cap,
)
