-- ===== src/Codes/Column.antt =====
-- The codes of a table as a column of printed numbers: the next code is unused, and becomes the
-- greatest.
use mentos_backend.Common.{
  ℕ, ◌+◌, ◌≡◌, refl, sym, ap, ◌∙◌, Bool, false, none, some, List, [], ◌∷◌, ◌++◌, map, arith, ◌==◌,
  any, Text, same,
}
use mentos_backend.Codes.Scheme.{
  Scheme, larger, max_of, coalesce_max, capped, print_code, next_code,
}
use mentos_backend.Codes.Fresh.{
  IsReadable, same-print_code, next_code-print_code, coalesce_max-above,
}

pub ==_sym : (m n : ℕ) → (m == n) ≡ (n == m)
==_sym m n = ground arith

any-map {ℓ κ} :
    {A : Type ℓ} {B : Type κ} (p : B → Bool) (f : A → B) (xs : List A)
    → any p (map f xs) ≡ any (λ x. p (f x)) xs
any-map p f [] = refl
any-map p f (x ∷ xs) = ground (arith, any-map p f xs)

pub map-append {ℓ κ} :
    {A : Type ℓ} {B : Type κ} (f : A → B) (xs ys : List A) → map f (xs ++ ys) ≡ map f xs ++ map f ys
map-append f [] ys = refl
map-append f (x ∷ xs) ys = ap (λ t. f x ∷ t) (map-append f xs ys)

max_of-append : (n k : ℕ) (ns : List ℕ) → max_of n (ns ++ k ∷ []) ≡ larger (max_of n ns) k
max_of-append n k [] = refl
max_of-append n k (m ∷ ms) = max_of-append (larger n m) k ms

-- The number that was allocated becomes the greatest.
pub coalesce_max-append :
    (d : ℕ) (ns : List ℕ)
    → coalesce_max (ns ++ (coalesce_max ns d + 1) ∷ []) d ≡ coalesce_max ns d + 1
coalesce_max-append d [] = refl
coalesce_max-append d (n ∷ ns) = ground (arith, max_of-append n (max_of n ns + 1) ns)

-- the number of the next row, without a cap
abbrev pub next_number : Scheme → List ℕ → ℕ
next_number s ns = coalesce_max ns s.start + 1

-- The rows of a table have printed numbers as their codes.
abbrev pub IsColumn {ℓ} : {R : Type ℓ} → (R → Text) → Scheme → List ℕ → List R → Type 0
IsColumn code s ns rows = map code rows ≡ map (print_code s) ns

module _ (s : Scheme) (readable : IsReadable s) (uncapped : s.cap ≡ none) where
  any-same :
      (k : ℕ) (ns : List ℕ)
      → any (λ t. same t (print_code s k)) (map (print_code s) ns) ≡ any (λ n. n == k) ns
  any-same k [] = refl
  any-same k (n ∷ ns) = rw (same-print_code s readable n k, ==_sym k n, any-same k ns)

  module _ {ℓ} {R : Type ℓ} (code : R → Text) (rows : List R) (ns : List ℕ)
      (column : IsColumn code s ns rows) where
    -- The query finds the next code, and no row has it.
    pub next_code-IsColumn : next_code s (map code rows) ≡ some (print_code s (next_number s ns))
    next_code-IsColumn =
        ap (next_code s) column
        ∙ next_code-print_code s readable ns
        ∙ ap (λ c. some (print_code s (coalesce_max (capped c ns) s.start + 1))) uncapped

    pub unused-IsColumn : any (λ r. same (code r) (print_code s (next_number s ns))) rows ≡ false
    unused-IsColumn =
        sym (any-map (λ t. same t (print_code s (next_number s ns))) code rows)
        ∙ ap (any (λ t. same t (print_code s (next_number s ns)))) column
        ∙ any-same (next_number s ns) ns
        ∙ coalesce_max-above s.start ns

    -- The table with the new row is such a table again.
    pub append-IsColumn :
        (r : R)
        → code r ≡ print_code s (next_number s ns)
        → IsColumn code s (ns ++ next_number s ns ∷ []) (rows ++ r ∷ [])
    append-IsColumn r e =
        map-append code rows (r ∷ [])
        ∙ ap (λ t. t ++ code r ∷ []) column
        ∙ ap (λ c. map (print_code s) ns ++ c ∷ []) e
        ∙ sym (map-append (print_code s) ns (next_number s ns ∷ []))
