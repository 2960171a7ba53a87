-- ===== src/Notifications/Reading.antt =====
-- What is unread: after all has been marked as read, what a trigger adds.
use mentos_backend.Common.{
  ℕ, ◌+◌, ◌≡◌, refl, ap, ◌∙◌, not, true, List, [], ◌∷◌, ◌++◌, arith, select, change, map,
  select-append, length, All, Bool-cases, inl, inr,
}
use mentos_backend.Codes.Scheme.{notification_codes}
use mentos_backend.Codes.Column.{next_number}
use mentos_backend.Model.{Notification, NotificationTemplate, Trigger, World, Request}
use mentos_backend.Orm.{Orm, Documented, reference, reference-Documented, orm-eq-reference, ok}
use mentos_backend.Notifications.{
  mark_all_read, do_fire_trigger, next_request, put_notifications, fits_title,
}
use mentos_backend.Notifications.Rendering.{render}
use mentos_backend.Notifications.Templates.{RowOrder}
use mentos_backend.Notifications.Delivery.{
  IsNumbered, delivered, matching, fitting, dispatched, do_fire_trigger-delivered,
}

abbrev read_row : Notification → Notification
read_row n = record n { read = true }

abbrev pub unread : List Notification → List Notification
unread = select (λ n. not n.read)

unread-change : (rows : List Notification) → unread (change (λ n. not n.read) read_row rows) ≡ []
unread-change [] = refl
unread-change (n ∷ rows) = elim (Bool-cases n.read) [
  | inl t ↦ ground (arith, unread-change rows)
  | inr f ↦ ground (arith, unread-change rows)
]

change_idle :
    (rows : List Notification) → unread rows ≡ [] → change (λ n. not n.read) read_row rows ≡ rows
change_idle [] h = refl
change_idle (n ∷ rows) h = ground (arith, change_idle rows)

same_codes :
    (rows : List Notification)
    → map (λ (n : Notification). n.code) (change (λ n. not n.read) read_row rows)
      ≡ map (λ n. n.code) rows
same_codes [] = refl
same_codes (n ∷ rows) = ground (arith, same_codes rows)

length-delivered :
    (req : Request) (k : ℕ) (t : Trigger) (templates : List NotificationTemplate)
    → length (unread (delivered req k t templates)) ≡ length templates
length-delivered req k t [] = refl
length-delivered req k t (m ∷ ms) = omega (arith, length-delivered (next_request req) (k + 1) t ms)

fitting-All :
    (t : Trigger) (ms : List NotificationTemplate)
    → All (λ m. fits_title (render m.subject t.vars) ≡ true) ms
    → fitting t ms ≡ ms
fitting-All t [] h = refl
fitting-All t (m ∷ ms) h = rw h.0 (ap (λ rest. m ∷ rest) (fitting-All t ms h.1))

module _ (order : RowOrder) (t : Trigger) (w : World) where
  -- the rows that the query returns for the trigger
  abbrev pub returned_rows : List NotificationTemplate
  returned_rows = order (matching t.key w.templates)

  module _ (req : Request) (ns : List ℕ) (numbered : IsNumbered ns w.notifications) where
    abbrev cleared : World
    cleared = (mark_all_read reference w).1

    abbrev added : List Notification
    added = delivered req (next_number notification_codes ns) t (dispatched order t w)

    fired :
        do_fire_trigger reference order req t cleared
        ≡ (ok tt, put_notifications cleared (cleared.notifications ++ added))
    unfolding mark_all_read
    fired =
        do_fire_trigger-delivered reference reference-Documented order t cleared req ns
          (same_codes w.notifications ∙ numbered)

    unread-fired : unread (cleared.notifications ++ added) ≡ unread added
    unfolding mark_all_read
    unread-fired =
        select-append (λ (n : Notification). not n.read) cleared.notifications added
        ∙ ap (λ r. r ++ unread added) (unread-change w.notifications)

    news-reference :
        length returned_rows ≡ length (matching t.key w.templates)
        → All (λ m. fits_title (render m.subject t.vars) ≡ true) returned_rows
        → ((mark_all_read reference (do_fire_trigger reference order req t cleared).1).0
            ≡ ok (length (matching t.key w.templates)))
          × (unread
                (mark_all_read reference
                  (do_fire_trigger reference order req t cleared).1).1.notifications
              ≡ [])
    unfolding mark_all_read
    news-reference size fit = rw fired (
      ap (λ r. ok (length r)) unread-fired
          ∙ ap ok (
              length-delivered req (next_number notification_codes ns) t (dispatched order t w)
              ∙ ap length (fitting-All t returned_rows fit)
              ∙ size),
      unread-change (cleared.notifications ++ added),
    )

-- Once everything has been marked as read, where the codes of the notifications are printed
-- numbers: after one trigger, marking all as read again returns the number of the English templates
-- that have the key of the trigger, and leaves nothing unread. The query returns as many rows as
-- match, in any order, and the rendered title of each has at most 200 characters.
pub mark_all_read-do_fire_trigger :
    (orm : Orm)
    → Documented orm
    → (order : RowOrder) (t : Trigger) (w : World) (req : Request) (ns : List ℕ)
    → IsNumbered ns w.notifications
    → length (returned_rows order t w) ≡ length (matching t.key w.templates)
    → All (λ m. fits_title (render m.subject t.vars) ≡ true) (returned_rows order t w)
    → ((mark_all_read orm (do_fire_trigger orm order req t (mark_all_read orm w).1).1).0
        ≡ ok (length (matching t.key w.templates)))
      × (unread
            (mark_all_read orm
              (do_fire_trigger orm order req t (mark_all_read orm w).1).1).1.notifications
          ≡ [])
mark_all_read-do_fire_trigger orm documented = rw (orm-eq-reference orm documented) news-reference
