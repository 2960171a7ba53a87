-- ===== src/Notifications/Templates.antt =====
-- notifications/notification-templates.service.ts, and the labels of
-- common/notification-triggers.ts
pub mod Pairs
pub mod Creation
use mentos_backend.Common.{
  ◌+◌, ◌==◌, Bool, true, false, ◌&&◌, Option, none, some, is_some, List, [], ◌∷◌, ◌++◌, map, select,
  if◌then◌else◌, Text, text, same, starts_with,
}
use mentos_backend.Codes.Decimal.{cast_integer}
use mentos_backend.Codes.Scheme.{Scheme, drop}
use mentos_backend.Model.{NotificationTemplate, TemplateLanguage, Table, not_found, World, Request}
use mentos_backend.Orm.{
  Orm, Exec, pure, gets, modify, or_throw, or_unique, allocate_code, ◌>>=◌, ◌>>◌,
}
use mentos_backend.Users.Inputs.{trim}

pub record CreateTemplateDto : Type 0 where
  pub name_en : Text
  pub name_sw : Option Text
  pub trigger_key : Text
  pub subject_en : Text
  pub body_en : Text
  pub subject_sw : Text
  pub body_sw : Text

pub record UpdateTemplateDto : Type 0 where
  pub subject : Text
  pub body : Text

-- key and the labels in English and Swahili
pub record NotificationTrigger : Type 0 where
  pub key : Text
  pub en : Text
  pub sw : Text

abbrev listed : Text → Text → Text → NotificationTrigger
listed key en sw = record { key = key; en = en; sw = sw }

unfoldable pub manual_trigger : NotificationTrigger
manual_trigger = listed (text "manual") (text "Manual send") (text "Kutumwa kwa mkono")

-- NOTIFICATION_TRIGGERS but for its last entry
unfoldable pub event_triggers : List NotificationTrigger
event_triggers =
    listed (text "rent-due") (text "3 days before rent is due") (text "Siku 3 kabla ya kodi kuiva")
    ∷ listed (text "invoice-overdue") (text "When an invoice becomes overdue")
        (text "Ankara inapopita muda")
    ∷ listed (text "payment-received") (text "When a payment is received")
        (text "Malipo yanapopokelewa")
    ∷ listed (text "lease-created") (text "When a lease is created") (text "Mkataba unapoundwa")
    ∷ listed (text "lease-expiry") (text "60 days before lease ends")
        (text "Siku 60 kabla ya mkataba kuisha")
    ∷ listed (text "maintenance-status") (text "When a maintenance request changes status")
        (text "Ombi la matengenezo linapobadilisha hali")
    ∷ listed (text "tenant-onboarded") (text "When a tenant is onboarded")
        (text "Mpangaji anaposajiliwa")
    ∷ []

unfoldable pub notification_triggers : List NotificationTrigger
unfolding event_triggers manual_trigger
notification_triggers = event_triggers ++ manual_trigger ∷ []

-- the last entry stands in for a key that is not listed
unfoldable pub trigger_by_key : Text → NotificationTrigger
unfolding notification_triggers manual_trigger
trigger_by_key key = find notification_triggers
  where
    find : List NotificationTrigger → NotificationTrigger
    find [] = manual_trigger
    find (t ∷ ts) = if same t.key key then t else find ts

abbrev pub is_english : TemplateLanguage → Bool
is_english TemplateLanguage.english = true
is_english TemplateLanguage.swahili = false

-- the display label of TemplateResponseDto.from
unfoldable pub trigger_label : NotificationTemplate → Text
unfolding trigger_by_key
trigger_label t =
    if is_english t.language
    then (trigger_by_key t.trigger_key).en
    else (trigger_by_key t.trigger_key).sw

-- s || t
abbrev pub or_text : Text → Text → Text
or_text [] t = t
or_text (c ∷ s) t = c ∷ s

-- s?.trim() || t
abbrev pub trimmed_or : Option Text → Text → Text
trimmed_or none t = t
trimmed_or (some s) t = or_text (trim s) t

abbrev pub template_codes : Scheme
template_codes = record { prefix = text "TPL-"; from = 5; width = 2; start = 0; cap = none }

-- template.code ~ '^TPL-[0-9]+$': what stands behind the prefix is a text of digits, which is when
-- the cast has a value
unfoldable pub is_pair_code : Text → Bool
is_pair_code code = starts_with (text "TPL-") code && is_some (cast_integer (drop 4 code))

abbrev pub swahili_code : Text → Text
swahili_code code = code ++ text "-SW"

unfoldable pub english_row : Request → Text → CreateTemplateDto → NotificationTemplate
english_row req code dto = record {
  id = req.new_id;
  code = code;
  pair_code = code;
  name = or_text (trim dto.name_en) (text "Untitled template");
  trigger_key = dto.trigger_key;
  language = TemplateLanguage.english;
  subject = dto.subject_en;
  body = dto.body_en;
}

unfoldable pub swahili_row : Request → Text → CreateTemplateDto → NotificationTemplate
unfolding english_row
swahili_row req code dto = record {
  id = req.new_id + 1;
  code = swahili_code code;
  pair_code = code;
  name = trimmed_or dto.name_sw (english_row req code dto).name;
  trigger_key = dto.trigger_key;
  language = TemplateLanguage.swahili;
  subject = dto.subject_sw;
  body = dto.body_sw;
}

abbrev pub put_templates : World → List NotificationTemplate → World
put_templates w t = record w { db = record w.db { templates = t } }

-- the order in which a query without ORDER BY returns its rows
abbrev pub RowOrder : Type 0
RowOrder = List NotificationTemplate → List NotificationTemplate

module _ (orm : Orm) where
  -- repository.save of one new row
  abbrev save_row : NotificationTemplate → Exec Unit
  save_row t = do
    rows ← gets (λ w. orm.insert (λ r. same r.code t.code) t w.templates)
    saved ← or_unique rows
    modify (λ w. put_templates w saved)

  -- the body of the transaction of `create`
  unfoldable pub write_pair : Request → CreateTemplateDto → Exec NotificationTemplate
  unfolding allocate_code is_pair_code
  write_pair req dto = do
    codes ← gets (λ w. select is_pair_code (map (λ t. t.code) w.templates))
    code ← allocate_code template_codes codes
    save_row (english_row req code dto)
    save_row (swahili_row req code dto)
    pure (english_row req code dto)

  unfoldable pub create : Request → CreateTemplateDto → Exec NotificationTemplate
  unfolding write_pair
  create req dto = orm.transaction (write_pair req dto)

  unfoldable pub update : Text → UpdateTemplateDto → Exec NotificationTemplate
  update code dto = do
    found ← gets (λ w. orm.find_one (λ t. same t.code code) w.templates)
    template ← or_throw (not_found Table.notification_template code) found
    let saved = record template { subject = dto.subject; body = dto.body }
    modify (λ w. put_templates w (
        orm.update (λ t. t.id == template.id)
          (λ t. record t { subject = dto.subject; body = dto.body }) w.templates))
    pure saved

  -- the English templates of a trigger
  unfoldable pub find_by_trigger : RowOrder → Text → Exec (List NotificationTemplate)
  find_by_trigger order key =
      gets
        (λ w. order (orm.find (λ t. same t.trigger_key key && is_english t.language) w.templates))
