-- ===== src/Notifications/Preferences.antt =====
-- notifications/notification-preferences.service.ts, and the check of the body in
-- dto/notification-preference.dto.ts that the controller makes before `set`
pub mod Shape
pub mod Stored
use mentos_backend.Common.{◌==◌, Bool, true, false, List, [], ◌∷◌, if◌then◌else◌, Text, text}
use mentos_backend.Model.{Json, Fields, NotificationPreference, bad_preferences, World, Request}
use mentos_backend.Orm.{Orm, Exec, pure, throw, gets, modify, or_unique, ◌>>=◌, ◌>>◌}
use Shape.{NotifPrefsShape, Channels, to_json, is_valid_prefs_shape}

abbrev channels : Text → Bool → Channels
channels label sms = record { label = label; email = true; sms = sms; inapp = true }

unfoldable pub default_prefs : NotifPrefsShape
default_prefs =
    (text "rentDue", channels (text "Rent due reminders") true)
    ∷ (text "overdue", channels (text "Overdue payment alerts") true)
    ∷ (text "leaseExpiry", channels (text "Lease expiry reminders") false)
    ∷ (text "maintenance", channels (text "Maintenance updates") false)
    ∷ (text "announcements", channels (text "Announcements") false)
    ∷ []

abbrev pub put_preferences : World → List NotificationPreference → World
put_preferences w t = record w { db = record w.db { preferences = t } }

module _ (orm : Orm) where
  -- the first of the rows, or a new one
  abbrev first_or_new : Request → List NotificationPreference → Exec NotificationPreference
  first_or_new req (existing ∷ _) = pure existing
  first_or_new req [] = do
    let created : NotificationPreference = record { id = req.new_id; prefs = to_json default_prefs }
    rows ← gets (λ w. orm.insert (λ r. false) created w.preferences)
    saved ← or_unique rows
    modify (λ w. put_preferences w saved)
    pure created

  unfoldable pub row : Request → Exec NotificationPreference
  unfolding default_prefs to_json
  row req = gets (λ w. w.preferences) >>= first_or_new req

  unfoldable pub get : Request → Exec Json
  unfolding row
  get req = do r ← row req; pure r.prefs

  unfoldable pub set : Request → Json → Exec Json
  unfolding row
  set req next = do
    r ← row req
    modify (λ w.
        put_preferences w
          (orm.update (λ p. p.id == r.id) (λ p. record p { prefs = next }) w.preferences))
    pure next

  -- NotificationPreferencesController.set
  unfoldable pub set_checked : Request → Json → Exec Json
  unfolding set is_valid_prefs_shape
  set_checked req body = if is_valid_prefs_shape body then set req body else throw bad_preferences
