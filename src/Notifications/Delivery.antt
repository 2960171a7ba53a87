-- ===== src/Notifications/Delivery.antt =====
-- A trigger makes one notification for each English template.
use mentos_backend.Common.{
  ℕ, ◌+◌, ◌&&◌, ◌≡◌, refl, sym, ap, ◌∙◌, true, false, if◌then◌else◌, Bool-cases, inl, inr, List, [],
  ◌∷◌, ◌++◌, arith, select, Text, text, same,
}
use mathlib.Core.List.{append_assoc, append-nil}
use mentos_backend.Codes.Scheme.{print_code, notification_codes}
use mentos_backend.Codes.Column.{
  IsColumn, next_number, next_code-IsColumn, unused-IsColumn, append-IsColumn, coalesce_max-append,
}
use mentos_backend.Model.{Notification, NotificationTemplate, Trigger, World, Request, query_failed}
use mentos_backend.Orm.{Orm, Documented, reference, orm-eq-reference, ok, err, continue, >>=_ok}
use mentos_backend.Notifications.{
  NewNotification, fits_title, new_notification, put_notifications, insert, insert_all, rendered,
  next_request, do_fire_trigger,
}
use mentos_backend.Notifications.Rendering.{render}
use mentos_backend.Notifications.Templates.{RowOrder, is_english, or_text}

-- the codes of the notifications are printed numbers
abbrev pub IsNumbered : List ℕ → List Notification → Type 0
IsNumbered = IsColumn (λ n. n.code) notification_codes

module _ (req : Request) (input : NewNotification) (w : World) (ns : List ℕ)
    (numbered : IsNumbered ns w.notifications) where
  abbrev inserted : Notification
  inserted =
      new_notification req (print_code notification_codes (next_number notification_codes ns)) input

  insert_lem :
      fits_title input.title ≡ true
      → insert reference req input w
        ≡ (ok inserted, put_notifications w (w.notifications ++ inserted ∷ []))
  unfolding insert
  insert_lem fits = ground (
    arith,
    next_code-IsColumn notification_codes (λ t. refl) refl (λ (n : Notification). n.code)
        w.notifications ns numbered,
    unused-IsColumn notification_codes (λ t. refl) refl (λ (n : Notification). n.code)
        w.notifications ns numbered,
  )

  insert_unfit :
      fits_title input.title ≡ false → insert reference req input w ≡ (err query_failed, w)
  unfolding insert
  insert_unfit long = ground (
    arith,
    next_code-IsColumn notification_codes (λ t. refl) refl (λ (n : Notification). n.code)
        w.notifications ns numbered,
  )

-- the notification for a template, and those for all templates, numbered from `k` on
abbrev pub delivered_one : Request → ℕ → Trigger → NotificationTemplate → Notification
delivered_one req k t template = record {
  id = req.new_id;
  code = print_code notification_codes k;
  type = t.type;
  read = false;
  title = render template.subject t.vars;
  body = render template.body t.vars;
  icon = or_text t.icon (text "bell");
}

abbrev pub delivered : Request → ℕ → Trigger → List NotificationTemplate → List Notification
delivered req k t [] = []
delivered req k t (template ∷ rest) =
    delivered_one req k t template ∷ delivered (next_request req) (k + 1) t rest

insert_all_step :
    (req : Request) (t : Trigger) (template : NotificationTemplate)
    (rest : List NotificationTemplate) (w w' : World) (n : Notification)
    → insert reference req (rendered t template) w ≡ (ok n, w')
    → insert_all reference req t (template ∷ rest) w
      ≡ insert_all reference (next_request req) t rest w'
unfolding insert_all
insert_all_step req t template rest w w' n h =
    >>=_ok (insert reference req (rendered t template))
      (λ _. insert_all reference (next_request req) t rest) n w w' h

insert_all_stops :
    (req : Request) (t : Trigger) (template : NotificationTemplate)
    (rest : List NotificationTemplate) (w : World)
    → insert reference req (rendered t template) w ≡ (err query_failed, w)
    → (insert_all reference req t (template ∷ rest) w).1 ≡ w
unfolding insert_all
insert_all_stops req t template rest w h =
    ap (λ r. (continue (λ _. insert_all reference (next_request req) t rest) r).1) h

-- the templates before the first whose title, once rendered, does not fit
abbrev pub fitting : Trigger → List NotificationTemplate → List NotificationTemplate
fitting t [] = []
fitting t (template ∷ rest) =
    if fits_title (render template.subject t.vars) then template ∷ fitting t rest else []

insert_all_lem :
    (req : Request) (t : Trigger) (templates : List NotificationTemplate) (w : World) (ns : List ℕ)
    → IsNumbered ns w.notifications
    → (insert_all reference req t templates w).1
      ≡ put_notifications w (
          w.notifications
          ++ delivered req (next_number notification_codes ns) t (fitting t templates))
unfolding insert_all new_notification rendered
insert_all_lem req t [] w ns h = ap (put_notifications w) (sym (append-nil _))
insert_all_lem req t (template ∷ rest) w ns h =
    elim (Bool-cases (fits_title (render template.subject t.vars))) [
      | inr long ↦
          let none_left : fitting t (template ∷ rest) ≡ [] = rw long refl in
          insert_all_stops req t template rest w
            (insert_unfit req (rendered t template) w ns h long)
          ∙ ap (put_notifications w) (sym (append-nil _))
          ∙ ap
              (λ ms.
                put_notifications w
                  (w.notifications ++ delivered req (next_number notification_codes ns) t ms))
              (sym none_left)
      | inl fits ↦
          let one : Notification = inserted req (rendered t template) w ns h in
          let w' : World = put_notifications w (w.notifications ++ one ∷ []) in
          let ns' : List ℕ = ns ++ next_number notification_codes ns ∷ [] in
          let numbered : IsNumbered ns' w'.notifications =
            append-IsColumn notification_codes (λ t. refl) refl (λ (n : Notification). n.code)
              w.notifications ns h one refl in
          let kept : fitting t (template ∷ rest) ≡ template ∷ fitting t rest = rw fits refl in
          ap (λ r. r.1)
            (insert_all_step req t template rest w w' one
              (insert_lem req (rendered t template) w ns h fits))
          ∙ insert_all_lem (next_request req) t rest w' ns' numbered
          ∙ ap
              (λ k. put_notifications w (
                (w.notifications ++ one ∷ []) ++ delivered (next_request req) k t (fitting t rest)))
              (ap (λ k. k + 1) (coalesce_max-append 0 ns))
          ∙ ap (put_notifications w) (append_assoc w.notifications (one ∷ []) _)
          ∙ ap
              (λ ms.
                put_notifications w
                  (w.notifications ++ delivered req (next_number notification_codes ns) t ms))
              (sym kept)
    ]

abbrev pub matching : Text → List NotificationTemplate → List NotificationTemplate
matching key templates = select (λ m. same m.trigger_key key && is_english m.language) templates

module _ (order : RowOrder) (t : Trigger) (w : World) where
  -- the templates that the loop gets through, in the order in which the query returned them
  abbrev pub dispatched : List NotificationTemplate
  dispatched = fitting t (order (matching t.key w.templates))

  fire-reference :
      (req : Request) (ns : List ℕ)
      → IsNumbered ns w.notifications
      → do_fire_trigger reference order req t w ≡ (
        ok tt,
        put_notifications w
            (w.notifications ++ delivered req (next_number notification_codes ns) t dispatched),
      )
  unfolding do_fire_trigger
  fire-reference req ns h =
      ap (λ v. (ok tt, v)) (insert_all_lem req t (order (matching t.key w.templates)) w ns h)

-- Where the codes of the notifications are printed numbers, a trigger goes through the English
-- templates that have its key, in whatever order the query returns them, up to the first whose
-- rendered title has more than 200 characters. It adds one notification for each template before
-- that one, unread, in that order and numbered without a gap from the first free number on, with
-- subject and body rendered from the variables of the trigger; it changes nothing else and throws
-- nothing.
pub do_fire_trigger-delivered :
    (orm : Orm)
    → Documented orm
    → (order : RowOrder) (t : Trigger) (w : World) (req : Request) (ns : List ℕ)
    → IsNumbered ns w.notifications
    → do_fire_trigger orm order req t w ≡ (
      ok tt,
      put_notifications w (
          w.notifications
          ++ delivered req (next_number notification_codes ns) t (dispatched order t w)),
    )
do_fire_trigger-delivered orm documented = rw (orm-eq-reference orm documented) fire-reference
