-- ===== src/Notifications.antt =====
-- notifications/notifications.service.ts
pub mod Rendering
pub mod Templates
pub mod Preferences
pub mod Delivery
pub mod Reading
use mentos_backend.Common.{
  suc, ℕ, ◌==◌, leb, Bool, not, Option, none, some, List, [], ◌∷◌, ◌++◌, length, select, map,
  or_else, Text, text, same,
}
use mathlib.Core.List.{reverse}
use mentos_backend.Codes.Scheme.{notification_codes}
use mentos_backend.Model.{
  Notification, NotificationTemplate, NotificationType, Trigger, Table, not_found, query_failed,
  World, Request,
}
use mentos_backend.Orm.{
  Orm, Exec, ok, err, pure, gets, modify, or_throw, throw_if, or_unique, allocate_code, ◌>>=◌, ◌>>◌,
}
use Rendering.{render}
use Templates.{RowOrder, find_by_trigger, trimmed_or, or_text}

pub record NewNotification : Type 0 where
  pub type : NotificationType
  pub title : Text
  pub body : Text
  pub icon : Option Text

-- `input.icon || 'bell'`
abbrev pub icon_or_bell : Option Text → Text
icon_or_bell icon = or_text (or_else icon []) (text "bell")

abbrev pub put_notifications : World → List Notification → World
put_notifications w t = record w { db = record w.db { notifications = t } }

unfoldable pub new_notification : Request → Text → NewNotification → Notification
new_notification req code input = record {
  id = req.new_id;
  code = code;
  type = input.type;
  read = Bool.false;
  title = input.title;
  body = input.body;
  icon = icon_or_bell input.icon;
}

-- the title is a varchar(200)
abbrev pub fits_title : Text → Bool
fits_title title = leb (length title) 200

-- the request from which the next row takes its uuid
abbrev pub next_request : Request → Request
next_request req = record req { new_id = suc req.new_id }

-- `try { … } catch { log }`
abbrev pub swallow : Exec Unit → Exec Unit
swallow m w = let (r, w') = m w in (ok tt, w')

-- what is written for one template of a trigger
unfoldable pub rendered : Trigger → NotificationTemplate → NewNotification
rendered t template = record {
  type = t.type;
  title = render template.subject t.vars;
  body = render template.body t.vars;
  icon = some t.icon;
}

module _ (orm : Orm) where
  -- the newest first
  unfoldable pub find_all : Exec (List Notification)
  find_all = gets (λ w. reverse w.notifications)

  -- the body of the transaction of `insert`
  unfoldable pub write_notification : Request → NewNotification → Exec Notification
  unfolding new_notification allocate_code
  write_notification req input = do
    codes ← gets (λ w. map (λ n. n.code) w.notifications)
    code ← allocate_code notification_codes codes
    let notification = new_notification req code input
    throw_if (not (fits_title input.title)) query_failed
    rows ← gets (λ w. orm.insert (λ n. same n.code code) notification w.notifications)
    saved ← or_unique rows
    modify (λ w. put_notifications w saved)
    pure notification

  unfoldable pub insert : Request → NewNotification → Exec Notification
  unfolding write_notification
  insert req input = orm.transaction (write_notification req input)

  unfoldable pub send : Request → NewNotification → Exec Notification
  unfolding insert
  send req dto = insert req dto

  -- the loop over the templates
  unfoldable pub insert_all : Request → Trigger → List NotificationTemplate → Exec Unit
  unfolding rendered
  insert_all req t [] = pure tt
  insert_all req t (template ∷ rest) = do
    _ ← insert req (rendered t template)
    insert_all (next_request req) t rest

  -- a template that fails ends the loop
  unfoldable pub do_fire_trigger : RowOrder → Request → Trigger → Exec Unit
  unfolding find_by_trigger insert_all
  do_fire_trigger order req t = swallow (find_by_trigger orm order t.key >>= insert_all req t)

  unfoldable pub mark_read : Text → Exec Notification
  mark_read code = do
    found ← gets (λ w. orm.find_one (λ n. same n.code code) w.notifications)
    notification ← or_throw (not_found Table.notification code) found
    modify (λ w. put_notifications w (
        orm.update (λ n. n.id == notification.id) (λ n. record n { read = Bool.true })
          w.notifications))
    pure (record notification { read = Bool.true })

  -- the number of the rows that the update affects
  unfoldable pub mark_all_read : Exec ℕ
  mark_all_read = do
    unread ← gets (λ w. select (λ n. not n.read) w.notifications)
    modify (λ w.
        put_notifications w
          (orm.update (λ n. not n.read) (λ n. record n { read = Bool.true }) w.notifications))
    pure (length unread)
