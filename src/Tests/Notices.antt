-- ===== src/Tests/Notices.antt =====
-- Notifications, their templates and preferences, and the background tasks.
use mentos_backend.Common.{
  ℕ, any, false, All, ◌≡◌, refl, ◌↔◌, map, true, none, some, List, [], ◌∷◌, ◌++◌, length, text,
}
use mentos_backend.Codes.Decimal.{show, pad_start, cast_integer}
use mentos_backend.Model.{
  Notification, NotificationType, NotificationTemplate, TemplateLanguage, Trigger, World, empty_db,
  empty_world,
}
use mentos_backend.Orm.{reference, reference-Documented, ok}
use mentos_backend.Notifications.{
  do_fire_trigger, insert, mark_all_read, put_notifications, fits_title,
}
use mentos_backend.Notifications.Delivery.{
  dispatched, delivered, matching, do_fire_trigger-delivered,
}
use mentos_backend.Notifications.Reading.{returned_rows, unread, mark_all_read-do_fire_trigger}
use mentos_backend.Notifications.Rendering.{render, fill, property_of, inherited}
use mentos_backend.Notifications.Rendering.Pieces.{
  literal, token, Piece, IsPiece, print_pieces, filled, render-print_pieces,
}
use mentos_backend.Notifications.Templates.{RowOrder, CreateTemplateDto}
use mentos_backend.Notifications.Templates.Pairs.{IsPaired}
use mentos_backend.Notifications.Templates.Creation.{
  create_pair, run_all, Creates, run_all-IsPaired,
}
use mentos_backend.Notifications.Preferences.{get, set_checked, default_prefs}
use mentos_backend.Notifications.Preferences.Shape.{
  NotifPrefsShape, HasShape, is_valid_prefs_shape, is_valid_prefs_shape_iff, to_json,
}
use mentos_backend.Notifications.Preferences.Stored.{set_checked-get}
use mentos_backend.Background.{Event, steps, in_flight, before_application_shutdown}
use mentos_backend.Background.Drained.{is_timer}
use mentos_backend.Background.Progress.{before_application_shutdown-drains}
use mentos_backend.Tests.Sample.{req}

abbrev welcome : NotificationTemplate
welcome = record {
  id = 91;
  code = text "TPL-01";
  pair_code = text "TPL-01";
  name = text "Welcome";
  trigger_key = text "tenant-onboarded";
  language = TemplateLanguage.english;
  subject = text "Karibu {{tenant_name}}";
  body = text "{{unit}}";
}

abbrev onboarded : Trigger
onboarded = record {
  key = text "tenant-onboarded";
  vars = (text "tenant_name", text "Asha") ∷ [];
  type = NotificationType.system;
  icon = text "";
}

abbrev templated : World
templated = record empty_world {
  db = record empty_db { templates = welcome ∷ [] };
  tasks = onboarded ∷ [];
}

-- the rows as they are
abbrev in_order : RowOrder
in_order templates = templates

do_fire_trigger-delivered_example : do_fire_trigger reference in_order req onboarded templated ≡ (
  ok tt,
  put_notifications templated
      ([] ++ delivered req 1 onboarded (dispatched in_order onboarded templated)),
)
do_fire_trigger-delivered_example =
    do_fire_trigger-delivered reference reference-Documented in_order onboarded templated req []
      refl

title_fits :
    All
      (λ m. fits_title (render m.subject onboarded.vars) ≡ true)
      (returned_rows in_order onboarded templated)
unfolding render fill property_of
title_fits = (refl, tt)

mark_all_read-do_fire_trigger_example :
    ((mark_all_read reference
        (do_fire_trigger reference in_order req onboarded
          (mark_all_read reference templated).1).1).0
      ≡ ok (length (matching (text "tenant-onboarded") (welcome ∷ []))))
    × (unread
          (mark_all_read reference
            (do_fire_trigger reference in_order req onboarded
              (mark_all_read reference templated).1).1).1.notifications
        ≡ [])
mark_all_read-do_fire_trigger_example =
    mark_all_read-do_fire_trigger reference reference-Documented in_order onboarded templated req []
      refl refl title_fits

-- what is written is one notification with its name filled in
welcome_text :
    map
      (λ (n : Notification). n.title)
      (do_fire_trigger reference in_order req onboarded templated).1.notifications
    ≡ text "Karibu Asha" ∷ []
unfolding do_fire_trigger insert render fill property_of show pad_start cast_integer
welcome_text = refl

abbrev pieces : List Piece
pieces = literal (text "Hi ") ∷ token (text "name") ∷ token (text "unit") ∷ []

pieces-All : All IsPiece pieces
unfolding inherited
pieces-All = (
  (refl, (refl, (refl, tt))),
  (((refl, (refl, (refl, (refl, tt)))), refl), (((refl, (refl, (refl, (refl, tt)))), refl), tt)),
)

render-print_pieces_example :
    render (print_pieces pieces) ((text "name", text "A{{unit}}") ∷ [])
    ≡ filled ((text "name", text "A{{unit}}") ∷ []) pieces
render-print_pieces_example =
    render-print_pieces ((text "name", text "A{{unit}}") ∷ []) pieces pieces-All

abbrev welcome_dto : CreateTemplateDto
welcome_dto = record {
  name_en = text " ";
  name_sw = none;
  trigger_key = text "manual";
  subject_en = text "Hi";
  body_en = text "Hi";
  subject_sw = text "Habari";
  body_sw = text "Habari";
}

run_all-IsPaired_example :
    (ns : List ℕ) × IsPaired ns
      (run_all reference (create_pair req welcome_dto ∷ []) empty_world).templates
    × Creates reference req welcome_dto
        (run_all reference (create_pair req welcome_dto ∷ []) empty_world)
        ns
run_all-IsPaired_example =
    run_all-IsPaired reference reference-Documented (create_pair req welcome_dto ∷ []) req
      welcome_dto empty_world [] tt

is_valid_prefs_shape_iff_example :
    (is_valid_prefs_shape (to_json default_prefs) ≡ true)
    ↔ ((s : NotifPrefsShape) × HasShape (to_json default_prefs) s)
is_valid_prefs_shape_iff_example = is_valid_prefs_shape_iff (to_json default_prefs)

set_checked-get_example :
    get reference req (set_checked reference req (to_json default_prefs) empty_world).1 ≡ (
      ok (to_json default_prefs),
      (set_checked reference req (to_json default_prefs) empty_world).1,
    )
unfolding is_valid_prefs_shape to_json default_prefs
set_checked-get_example =
    set_checked-get reference reference-Documented req req (to_json default_prefs) empty_world refl

-- the trigger takes three steps: its query, its insert, and the end of the loop
abbrev three_steps : List Event
three_steps = steps 0 req ∷ steps 0 req ∷ steps 0 req ∷ []

before_application_shutdown-drains_example :
    (events : List Event) × (any is_timer events ≡ false)
    × (w' : World) × (before_application_shutdown reference in_order events
          (in_flight templated)
          templated
        ≡ (some 0, [], w'))
before_application_shutdown-drains_example =
    before_application_shutdown-drains reference in_order req (in_flight templated) templated

drained :
    (before_application_shutdown reference in_order three_steps (in_flight templated) templated).0
    ≡ some 0
unfolding before_application_shutdown insert render fill property_of show pad_start cast_integer
drained = refl
