-- ===== src/Invoices/Books.antt =====
-- Editing and voiding invoices keeps their books in order.
use mathlib.Core.Path.{subst}
use mentos_backend.Common.{
  ℕ, ◌+◌, ◌==◌, ◌≡◌, ◌⊎◌, inl, inr, refl, sym, true, false, change, some, List, [], ◌∷◌, first,
  Text, same, arith, All-change, All-both, Distinct-first, Distinct-change, Option-cases,
  Bool-cases,
}
use mentos_backend.Model.{
  Invoice, InvoiceLineItem, InvoiceStatus, is_void, Payment, Db, World, Exception,
}
use mentos_backend.Orm.{Orm, Documented, reference, orm-eq-reference, Result, ok, err}
use mentos_backend.Invoices.{total, put_invoices, update, void}
use mentos_backend.Invoices.Items.{
  Json, str, num, minus, array, nil, cons, parse_item, parse_from, parse_items,
}
use mentos_backend.Payments.Ledger.{received, Fits, IsInOrder, IsBalanced}

-- a change of the one row that was found
module _ (db : Db) (inv : Invoice) (code : Text) (f : Invoice → Invoice)
    (found : first (λ i. same i.code code) db.invoices ≡ some inv)
    (same_id : (i : Invoice) → (f i).id ≡ i.id)
    (keeps : IsInOrder db.payments inv → IsInOrder db.payments (f inv)) where
  change_row-IsBalanced :
      IsBalanced db
      → IsBalanced (record db { invoices = change (λ i. i.id == inv.id) f db.invoices })
  change_row-IsBalanced h = record {
    distinct = Distinct-change (λ i. i.id) (λ i. i.id == inv.id) f db.invoices same_id h.distinct;
    in_order =
        All-change (λ i. IsInOrder db.payments i × ((i.id == inv.id) ≡ true → i ≡ inv))
          (IsInOrder db.payments) (λ i. i.id == inv.id) f db.invoices
          (λ i k e.
            subst (λ j. IsInOrder db.payments (f j)) (sym (k.1 e))
              (keeps (subst (IsInOrder db.payments) (k.1 e) k.0)))
          (λ i k e. k.0)
          (All-both (IsInOrder db.payments) (λ i. (i.id == inv.id) ≡ true → i ≡ inv) db.invoices
            h.in_order
            (Distinct-first (λ i. i.id) (λ i. same i.code code) inv db.invoices h.distinct found));
  }

parse_item_state : (i : ℕ) (row : Json) (w : World) → (parse_item i row w).1 ≡ w
unfolding parse_item
parse_item_state i (array (cons (str label) (cons (num amount) nil))) w = refl
parse_item_state i (array (cons (str label) (cons (minus n) nil))) w = refl
parse_item_state i row w = refl

parse_from_state : (i : ℕ) (rows : List Json) (w : World) → (parse_from i rows w).1 ≡ w
unfolding parse_from
parse_from_state i [] w = refl
parse_from_state i (row ∷ rows) w =
    ground (arith, parse_item_state i row w, parse_from_state (i + 1) rows w)

Result-cases :
    {A : Type 0} (r : Result A) → ((a : A) × (r ≡ ok a)) ⊎ ((e : Exception) × (r ≡ err e))
Result-cases (ok a) = inl (a, refl)
Result-cases (err e) = inr (e, refl)

-- The check reads the request alone.
parse_items_cases :
    (raw : List Json) (w : World)
    → ((items : List InvoiceLineItem) × (parse_items raw w ≡ (ok items, w)))
      ⊎ ((e : Exception) × (parse_items raw w ≡ (err e, w)))
unfolding parse_items
parse_items_cases raw w = elim (Result-cases (parse_from 0 raw w).0) [
  | inl (items, e) ↦ inl (items, λ i. (e i, parse_from_state 0 raw w i))
  | inr (x, e) ↦ inr (x, λ i. (e i, parse_from_state 0 raw w i))
]

-- An operation on one invoice has changed nothing, or has put the invoice that it found through
-- one change while no receipt stood against it.
abbrev Touched : Text → World → World → Type 0
Touched code w w' =
    (inv : Invoice) × (f : Invoice → Invoice) × (first (λ i. same i.code code) w.invoices
      ≡ some inv)
    × (is_void inv.status ≡ false)
    × (inv.balance ≡ inv.amount)
    × (w' ≡ put_invoices w (change (λ i. i.id == inv.id) f w.invoices))
    × ((i : Invoice) → (f i).id ≡ i.id)
    × ((ps : List Payment)
        → received inv.id ps ≡ 0
        → Fits inv.status inv.balance inv.amount
        → IsInOrder ps (f inv))

due_of_untouched :
    (s : InvoiceStatus) (b a : ℕ) → is_void s ≡ false → b ≡ a → Fits s b a → s ≡ InvoiceStatus.due
due_of_untouched InvoiceStatus.due b a v e h = refl
due_of_untouched InvoiceStatus.partial b a v e h = absurd (omega arith)
due_of_untouched InvoiceStatus.paid b a v e h = absurd (omega arith)
due_of_untouched InvoiceStatus.void b a v e h = cc

update_cases :
    (code : Text) (raw : List Json) (w : World)
    → ((update reference code raw w).1 ≡ w) ⊎ Touched code w (update reference code raw w).1
unfolding update
update_cases code raw w = elim (Option-cases (first (λ i. same i.code code) w.invoices)) [
  | inl missing ↦ inl (ground arith)
  | inr (inv, found) ↦ elim (Bool-cases (is_void inv.status)) [
    | inl voided ↦ inl (ground arith)
    | inr valid ↦ elim (Bool-cases (inv.balance == inv.amount)) [
      | inr paid ↦ inl (ground arith)
      | inl open_ ↦ elim (parse_items_cases raw w) [
        | inr (x, e) ↦ inl (ground arith)
        | inl (items, e) ↦ inr (
          inv,
          λ i. record i { items = items; amount = total items; balance = total items },
          found,
          valid,
          ground arith,
          ground arith,
          λ i. refl,
          λ ps zero_received h. ground (arith, due_of_untouched inv.status inv.balance inv.amount),
        )
      ]
    ]
  ]
]

void_cases :
    (code : Text) (w : World)
    → ((void reference code w).1 ≡ w) ⊎ Touched code w (void reference code w).1
unfolding void
void_cases code w = elim (Option-cases (first (λ i. same i.code code) w.invoices)) [
  | inl missing ↦ inl (ground arith)
  | inr (inv, found) ↦ elim (Bool-cases (is_void inv.status)) [
    | inl voided ↦ inl (ground arith)
    | inr valid ↦ elim (Bool-cases (inv.balance == inv.amount)) [
      | inr paid ↦ inl (ground arith)
      | inl open_ ↦ inr (
        inv,
        λ i. record i { status = InvoiceStatus.void },
        found,
        valid,
        ground arith,
        ground arith,
        λ i. refl,
        λ ps zero_received h. ground arith,
      )
    ]
  ]
]

Touched-IsBalanced :
    (code : Text) (w w' : World) → IsBalanced w.db → (w' ≡ w) ⊎ Touched code w w' → IsBalanced w'.db
Touched-IsBalanced code w w' h (inl same_world) = rw same_world h
Touched-IsBalanced code w w' h (inr (inv, f, found, valid, full, new, same_id, keeps)) = rw new (
    change_row-IsBalanced w.db inv code f found same_id
      (λ books. keeps w.payments (omega arith) books.1) h)

update_reference :
    (code : Text) (raw : List Json) (w : World)
    → IsBalanced w.db
    → IsBalanced (update reference code raw w).1.db
update_reference code raw w h =
    Touched-IsBalanced code w (update reference code raw w).1 h (update_cases code raw w)

void-reference :
    (code : Text) (w : World) → IsBalanced w.db → IsBalanced (void reference code w).1.db
void-reference code w h = Touched-IsBalanced code w (void reference code w).1 h (void_cases code w)

-- Editing the line items of an invoice keeps the books of every invoice in order, also when it
-- throws.
pub update-IsBalanced :
    (orm : Orm)
    → Documented orm
    → (code : Text) (raw : List Json) (w : World) → IsBalanced w.db
    → IsBalanced (update orm code raw w).1.db
update-IsBalanced orm documented = rw (orm-eq-reference orm documented) update_reference

-- Voiding an invoice keeps the books of every invoice in order, also when it throws.
pub void-IsBalanced :
    (orm : Orm)
    → Documented orm
    → (code : Text) (w : World) → IsBalanced w.db
    → IsBalanced (void orm code w).1.db
void-IsBalanced orm documented = rw (orm-eq-reference orm documented) void-reference
