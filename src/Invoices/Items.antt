-- ===== src/Invoices/Items.antt =====
-- InvoicesService.parseItems: the request's rows [label, amount] are checked one by one.
use mentos_backend.Common.{ℕ, ◌+◌, ◌≡◌, refl, List, [], ◌∷◌, Text, text}
use mentos_backend.Model.{InvoiceLineItem, not_a_tuple, negative_amount, empty_world}
use mentos_backend.Orm.{Exec, err, pure, throw, ◌>>=◌}

-- A JSON value, as far as the check tells them apart. A number is in cents, and `minus n` is
-- -(n + 1).
mutual
  pub data Json : Type 0 where
    str : Text → Json
    num : ℕ → Json
    minus : ℕ → Json
    array : Jsons → Json
    other : Json

  pub data Jsons : Type 0 where
    nil : Jsons
    cons : Json → Jsons → Jsons

-- the row at index `i`
unfoldable pub parse_item : ℕ → Json → Exec InvoiceLineItem
parse_item i (array (cons (str label) (cons (num amount) nil))) =
    pure (record { label = label; amount = amount })
parse_item i (array (cons (str label) (cons (minus n) nil))) = throw (negative_amount i)
parse_item i _ = throw (not_a_tuple i)

-- `raw.map`, from index `i` on: the first row that is refused throws
unfoldable pub parse_from : ℕ → List Json → Exec (List InvoiceLineItem)
unfolding parse_item
parse_from i [] = pure []
parse_from i (row ∷ rows) = do
  item ← parse_item i row
  items ← parse_from (i + 1) rows
  pure (item ∷ items)

unfoldable pub parse_items : List Json → Exec (List InvoiceLineItem)
unfolding parse_from
parse_items raw = parse_from 0 raw

-- the wire shape of a line item (InvoiceResponseDto.items)
abbrev pub to_json : InvoiceLineItem → Json
to_json item = array (cons (str item.label) (cons (num item.amount) nil))

second_row_refused :
    parse_items
      (to_json (record { label = text "Rent"; amount = 5 }) ∷ str (text "x") ∷ [])
      empty_world
    ≡ (err (not_a_tuple 1), empty_world)
unfolding parse_items
second_row_refused = refl
