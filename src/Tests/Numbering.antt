-- ===== src/Tests/Numbering.antt =====
-- The codes of new rows.
use mentos_backend.Common.{◌≡◌, refl, some, true, false, any, same, map, Text, [], ◌∷◌, arith}
use mentos_backend.Codes.Scheme.{lease_codes, invoice_codes, print_code, next_code}
use mentos_backend.Codes.Fresh.{next_code-fresh}
use mentos_backend.Codes.Ceiling.{next_code-clashes}

next_code-fresh_example :
    (c : Text) × (next_code lease_codes (map (print_code lease_codes) (1 ∷ 7 ∷ [])) ≡ some c)
    × (any (same c) (map (print_code lease_codes) (1 ∷ 7 ∷ [])) ≡ false)
next_code-fresh_example = next_code-fresh lease_codes (1 ∷ 7 ∷ []) (λ t. refl) tt

next_code-clashes_example :
    (next_code invoice_codes (map (print_code invoice_codes) (4999 ∷ 5000 ∷ []))
      ≡ some (print_code invoice_codes 5000))
    × (any
          (same (print_code invoice_codes 5000))
          (map (print_code invoice_codes) (4999 ∷ 5000 ∷ []))
        ≡ true)
next_code-clashes_example =
    next_code-clashes invoice_codes 5000 (4999 ∷ 5000 ∷ []) (λ t. refl) refl (omega arith) refl refl
