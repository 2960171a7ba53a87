-- ===== src/Codes/Scheme.antt =====
-- SELECT COALESCE(MAX(CAST(SUBSTRING(code FROM k) AS INTEGER)), d) [WHERE the number < cap], and
-- the code that is printed from it.
use mentos_backend.Common.{
  ℕ, zero, suc, ◌+◌, ◌-◌, ◌≡◌, refl, Option, none, some, List, [], ◌∷◌, ◌++◌, ltb, if◌then◌else◌,
  select, Text, text,
}
use mentos_backend.Codes.Decimal.{show, pad_start, cast_integer}

-- What differs between the services: the prefix, the position from which the number is read, the
-- width that it is padded to, the number of an empty table, and the cap of the WHERE clause.
pub record Scheme : Type 0 where
  pub prefix : Text
  pub from : ℕ
  pub width : ℕ
  pub start : ℕ
  pub cap : Option ℕ

abbrev pub drop : ℕ → Text → Text
drop zero s = s
drop (suc n) [] = []
drop (suc n) (c ∷ s) = drop n s

-- SUBSTRING(s FROM k), which counts from 1
abbrev pub substring : Text → ℕ → Text
substring s k = drop (k - 1) s

-- The numbers of all rows; a text that is no number fails the query.
unfoldable pub numbers : ℕ → List Text → Option (List ℕ)
numbers k [] = some []
numbers k (c ∷ cs) =
    let rest = numbers k cs in
    elim (cast_integer (substring c k)) [
      | none ↦ none
      | some n ↦ elim rest [ none ↦ none | some ns ↦ some (n ∷ ns) ]
    ]

abbrev pub larger : ℕ → ℕ → ℕ
larger a b = if ltb a b then b else a

-- MAX over a non-empty column, and COALESCE(MAX(…), d)
abbrev pub max_of : ℕ → List ℕ → ℕ
max_of n [] = n
max_of n (m ∷ ms) = max_of (larger n m) ms

abbrev pub coalesce_max : List ℕ → ℕ → ℕ
coalesce_max [] d = d
coalesce_max (n ∷ ns) d = max_of n ns

abbrev pub capped : Option ℕ → List ℕ → List ℕ
capped none ns = ns
capped (some cap) ns = select (λ n. ltb n cap) ns

-- `const seq = parseInt(row.max) + 1`
unfoldable pub next_seq : Scheme → List Text → Option ℕ
unfolding numbers
next_seq s cs = elim (numbers s.from cs) [
  | none ↦ none
  | some ns ↦ some (coalesce_max (capped s.cap ns) s.start + 1)
]

unfoldable pub print_code : Scheme → ℕ → Text
print_code s n = s.prefix ++ pad_start s.width (show n)

-- The code of the next row, `none` if the query fails.
unfoldable pub next_code : Scheme → List Text → Option Text
unfolding next_seq print_code
next_code s cs = elim (next_seq s cs) [ none ↦ none | some n ↦ some (print_code s n) ]

-- the codes of leases.service.ts and invoices.service.ts
abbrev pub lease_codes : Scheme
lease_codes = record { prefix = text "L-"; from = 3; width = 2; start = 0; cap = none }

abbrev pub invoice_codes : Scheme
invoice_codes = record { prefix = text "INV-"; from = 5; width = 0; start = 1014; cap = some 5000 }

abbrev pub payment_codes : Scheme
payment_codes = record { prefix = text "RC-"; from = 4; width = 0; start = 1014; cap = some 5000 }

abbrev pub tenant_codes : Scheme
tenant_codes = record { prefix = text "T-"; from = 3; width = 2; start = 0; cap = none }

abbrev pub property_codes : Scheme
property_codes = record { prefix = text "P-"; from = 3; width = 2; start = 0; cap = none }

abbrev pub request_codes : Scheme
request_codes = record { prefix = text "MR-"; from = 4; width = 2; start = 0; cap = none }

abbrev pub technician_codes : Scheme
technician_codes = record { prefix = text "TECH-"; from = 6; width = 2; start = 0; cap = none }

abbrev pub user_codes : Scheme
user_codes = record { prefix = text "US-"; from = 4; width = 0; start = 0; cap = none }

abbrev pub document_codes : Scheme
document_codes = record { prefix = text "D-"; from = 3; width = 0; start = 0; cap = none }

abbrev pub notification_codes : Scheme
notification_codes = record { prefix = text "NOTIF-"; from = 7; width = 2; start = 0; cap = none }

next_code_first : next_code lease_codes [] ≡ some (text "L-01")
unfolding next_code show pad_start
next_code_first = refl

next_code_skips_legacy :
    next_code invoice_codes (text "INV-1014" ∷ text "INV-9001" ∷ []) ≡ some (text "INV-1015")
unfolding next_code show pad_start cast_integer
next_code_skips_legacy = refl

next_code_fails : next_code lease_codes (text "L-01" ∷ text "L-1x" ∷ []) ≡ none
unfolding next_code show pad_start cast_integer
next_code_fails = refl
