-- ===== src/Reports/Sorting.antt =====
-- The reports that sort list each row once, in order.
use mathlib.Core.List.{Perm}
use mathlib.Core.List.Perm
use mentos_backend.Common.{
  ℕ, zero, suc, ◌≡◌, refl, ap, Bool, true, false, Option, none, some, List, [], ◌∷◌, ◌++◌, arith,
  ltb, map, select, Bool-cases, inl, inr, Text, text,
}
use mentos_backend.Calendar.{day_number}
use mentos_backend.Codes.Decimal.{show}
use mentos_backend.Money.{Signed, difference, money_label}
use mentos_backend.Model.{Invoice, Lease, World, Request}
use mentos_backend.Reports.Shape.{insert_sorted, sort_by}
use mentos_backend.Reports.Financial.{
  has_balance, outstanding, outstanding_row, outstanding_balances,
}
use mentos_backend.Reports.Operational.{
  signed_ltb, days_until, expirations, expiration_row, lease_expirations,
}

module _ {ℓ} {A : Type ℓ} (goes_before : A → A → Bool) where
  -- no element of the list goes before the one in front of it
  abbrev pub IsSortedFrom : A → List A → Type 0
  IsSortedFrom x [] = Unit
  IsSortedFrom x (y ∷ ys) = (goes_before y x ≡ false) × IsSortedFrom y ys

  abbrev pub IsSorted : List A → Type 0
  IsSorted [] = Unit
  IsSorted (x ∷ xs) = IsSortedFrom x xs

  insert_sorted-perm : (x : A) (ys : List A) → Perm (insert_sorted goes_before x ys) (x ∷ ys)
  insert_sorted-perm x [] = Perm.rfl
  insert_sorted-perm x (y ∷ ys) = elim (Bool-cases (goes_before y x)) [
    | inl t ↦ rw t (Perm.trans (Perm.cons y (insert_sorted-perm x ys)) (Perm.swap x y ys))
    | inr f ↦ rw f Perm.rfl
  ]

  pub sort_by-perm : (xs : List A) → Perm (sort_by goes_before xs) xs
  sort_by-perm [] = Perm.rfl
  sort_by-perm (x ∷ xs) =
      Perm.trans (insert_sorted-perm x (sort_by goes_before xs)) (Perm.cons x (sort_by-perm xs))

  module _ (asymmetric : (a b : A) → goes_before a b ≡ true → goes_before b a ≡ false) where
    insert_sorted-IsSortedFrom :
        (z x : A) (ys : List A)
        → IsSortedFrom z ys
        → goes_before x z ≡ false
        → IsSortedFrom z (insert_sorted goes_before x ys)
    insert_sorted-IsSortedFrom z x [] h below = (below, tt)
    insert_sorted-IsSortedFrom z x (y ∷ ys) h below = elim (Bool-cases (goes_before y x)) [
      | inl t ↦ rw t (h.0, insert_sorted-IsSortedFrom y x ys h.1 (asymmetric y x t))
      | inr f ↦ rw f (below, (f, h.1))
    ]

    insert_sorted-IsSorted :
        (x : A) (ys : List A) → IsSorted ys → IsSorted (insert_sorted goes_before x ys)
    insert_sorted-IsSorted x [] h = tt
    insert_sorted-IsSorted x (y ∷ ys) h = elim (Bool-cases (goes_before y x)) [
      | inl t ↦ rw t (insert_sorted-IsSortedFrom y x ys h (asymmetric y x t))
      | inr f ↦ rw f (f, h)
    ]

    pub sort_by-IsSorted : (xs : List A) → IsSorted (sort_by goes_before xs)
    sort_by-IsSorted [] = tt
    sort_by-IsSorted (x ∷ xs) =
        insert_sorted-IsSorted x (sort_by goes_before xs) (sort_by-IsSorted xs)

signed_ltb-asymmetric : (a b : Signed) → signed_ltb a b ≡ true → signed_ltb b a ≡ false
signed_ltb-asymmetric (Signed.plus a) (Signed.plus b) h = ground arith
signed_ltb-asymmetric (Signed.plus a) (Signed.minus b) h = ground arith
signed_ltb-asymmetric (Signed.minus a) (Signed.plus b) h = refl
signed_ltb-asymmetric (Signed.minus a) (Signed.minus b) h = ground arith

-- a cell of a row
abbrev pub cell : ℕ → List Text → Option Text
cell n [] = none
cell zero (c ∷ row) = some c
cell (suc n) (c ∷ row) = cell n row

map-map :
    {A B C : Type 0} (f : B → C) (g : A → B) (xs : List A)
    → map f (map g xs) ≡ map (λ x. f (g x)) xs
map-map f g [] = refl
map-map f g (x ∷ xs) = ap (λ ys. f (g x) ∷ ys) (map-map f g xs)

-- the number of days, with its sign
abbrev pub days_shown : Signed → Text
days_shown (Signed.plus d) = show d ++ text "d"
days_shown (Signed.minus d) = text "-" ++ show d ++ text "d"

module _ (req : Request) (w : World) where
  -- what the report of outstanding balances has in the cells for the code and the balance
  abbrev pub BalancesShown : Type 0
  BalancesShown =
      (list : List Invoice) × (map (λ row. cell 2 row ∷ cell 4 row ∷ [])
          (outstanding_balances req w).rows
        ≡ map (λ i. some i.code ∷ some (money_label i.balance) ∷ []) list)
      × Perm list (select (λ i. ltb 0 i.balance) w.invoices)
      × IsSorted (λ (a : Invoice) b. ltb b.balance a.balance) list

  -- what the lease expirations have in the cells for the code and the days left
  abbrev pub DaysShown : Type 0
  DaysShown =
      (list : List (Lease × Signed)) × (map (λ row. cell 0 row ∷ cell 4 row ∷ [])
          (lease_expirations req w).rows
        ≡ map (λ e. some e.0.code ∷ some (days_shown e.1) ∷ []) list)
      × Perm list (map (λ l. (l, difference (day_number l.end) (day_number req.today))) w.leases)
      × IsSorted (λ (a : Lease × Signed) b. signed_ltb a.1 b.1) list

  balances_shown : BalancesShown
  unfolding outstanding_balances
  balances_shown = (
    outstanding w.invoices,
    map-map (λ row. cell 2 row ∷ cell 4 row ∷ []) (outstanding_row req w) (outstanding w.invoices),
    sort_by-perm (λ (a : Invoice) b. ltb b.balance a.balance) (select has_balance w.invoices),
    sort_by-IsSorted (λ (a : Invoice) b. ltb b.balance a.balance) (λ a b h. ground arith)
        (select has_balance w.invoices),
  )

  days_rows :
      (list : List (Lease × Signed))
      → map (λ row. cell 0 row ∷ cell 4 row ∷ []) (map (expiration_row w) list)
        ≡ map (λ e. some e.0.code ∷ some (days_shown e.1) ∷ []) list
  days_rows [] = refl
  days_rows ((l, Signed.plus d) ∷ list) =
      ap (λ t. (some l.code ∷ some (days_shown (Signed.plus d)) ∷ []) ∷ t) (days_rows list)
  days_rows ((l, Signed.minus d) ∷ list) =
      ap (λ t. (some l.code ∷ some (days_shown (Signed.minus d)) ∷ []) ∷ t) (days_rows list)

  days_left_shown : DaysShown
  unfolding lease_expirations days_until
  days_left_shown =
      let left : List (Lease × Signed) = map (λ l. (l, days_until req.today l.end)) w.leases in
      (
        expirations req.today w.leases,
        days_rows (expirations req.today w.leases),
        sort_by-perm (λ (a : Lease × Signed) b. signed_ltb a.1 b.1) left,
        sort_by-IsSorted (λ (a : Lease × Signed) b. signed_ltb a.1 b.1)
            (λ a b h. signed_ltb-asymmetric a.1 b.1 h) left,
      )

-- The rows of the report of outstanding balances show code and balance of each invoice that has a
-- balance, once, a greater balance never behind a smaller one. The rows of the lease expirations
-- show code and days left of each lease, once, the days counted from today to the end of its term,
-- and one with fewer days left never behind one with more.
pub reports-IsSorted : (req : Request) (w : World) → BalancesShown req w × DaysShown req w
reports-IsSorted req w = (balances_shown req w, days_left_shown req w)
