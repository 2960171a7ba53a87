-- ===== src/Notifications/Preferences/Shape.antt =====
-- The type NotifPrefsShape of notifications/dto/notification-preference.dto.ts and its type guard.
use mentos_backend.Common.{
  ◌≡◌, refl, ◌↔◌, Bool, true, false, ◌&&◌, List, [], ◌∷◌, if◌then◌else◌, arith, Text, text, same,
}
use mentos_backend.Model.{Json, Fields}

pub record Channels : Type 0 where
  pub label : Text
  pub email : Bool
  pub sms : Bool
  pub inapp : Bool

-- Record<string, { label, email, sms, inapp }>
abbrev pub NotifPrefsShape : Type 0
NotifPrefsShape = List (Text × Channels)

-- `obj[key]`; the names of an object's fields are distinct
unfoldable pub field_of : Text → Fields → Json
field_of key Fields.end = Json.undefined
field_of key (Fields.field k v rest) = if same k key then v else field_of key rest

abbrev is_string : Json → Bool
is_string (Json.string s) = true
is_string _ = false

abbrev is_boolean : Json → Bool
is_boolean (Json.boolean b) = true
is_boolean _ = false

-- a value that is an object and not null may be an array
abbrev members : Json → Fields
members (Json.object f) = f
members (Json.array f) = f
members _ = Fields.end

unfoldable pub is_entry : Json → Bool
unfolding field_of
is_entry v =
    is_string (field_of (text "label") (members v))
    && is_boolean (field_of (text "email") (members v))
    && is_boolean (field_of (text "sms") (members v))
    && is_boolean (field_of (text "inapp") (members v))

-- Object.values(body).every(…)
every_entry : Fields → Bool
unfolding is_entry
every_entry Fields.end = true
every_entry (Fields.field k v rest) = is_entry v && every_entry rest

unfoldable pub is_valid_prefs_shape : Json → Bool
unfolding every_entry
is_valid_prefs_shape (Json.object f) = every_entry f
is_valid_prefs_shape _ = false

abbrev entry_json : Channels → Json
entry_json c = Json.object (
    Fields.field (text "label") (Json.string c.label) (
      Fields.field (text "email") (Json.boolean c.email) (
        Fields.field (text "sms") (Json.boolean c.sms)
          (Fields.field (text "inapp") (Json.boolean c.inapp) Fields.end))))

shape_fields : NotifPrefsShape → Fields
shape_fields [] = Fields.end
shape_fields ((k, c) ∷ s) = Fields.field k (entry_json c) (shape_fields s)

-- a shape as a JSON value
unfoldable pub to_json : NotifPrefsShape → Json
unfolding shape_fields
to_json s = Json.object (shape_fields s)

-- A value has the four fields of an entry, with their types; it may have others.
abbrev pub HasChannels : Json → Channels → Type 0
unfolding field_of
HasChannels v c =
    (field_of (text "label") (members v) ≡ Json.string c.label)
    × (field_of (text "email") (members v) ≡ Json.boolean c.email)
    × (field_of (text "sms") (members v) ≡ Json.boolean c.sms)
    × (field_of (text "inapp") (members v) ≡ Json.boolean c.inapp)

abbrev pub HasEntries : Fields → NotifPrefsShape → Type 0
HasEntries Fields.end [] = Unit
HasEntries Fields.end (e ∷ s) = ⊥
HasEntries (Fields.field k v rest) [] = ⊥
HasEntries (Fields.field k v rest) ((key, c) ∷ s) = (k ≡ key) × HasChannels v c × HasEntries rest s

-- A JSON value is of the type NotifPrefsShape.
abbrev pub HasShape : Json → NotifPrefsShape → Type 0
HasShape (Json.object f) s = HasEntries f s
HasShape _ s = ⊥

string_value : (v : Json) → is_string v ≡ true → (s : Text) × (v ≡ Json.string s)
string_value (Json.string s) h = (s, refl)
string_value _ h = cc

boolean_value : (v : Json) → is_boolean v ≡ true → (b : Bool) × (v ≡ Json.boolean b)
boolean_value (Json.boolean b) h = (b, refl)
boolean_value _ h = cc

is_entry-HasChannels : (v : Json) → is_entry v ≡ true → (c : Channels) × HasChannels v c
unfolding is_entry
is_entry-HasChannels v h =
    let (label, l) = string_value (field_of (text "label") (members v)) (ground arith) in
    let (email, e) = boolean_value (field_of (text "email") (members v)) (ground arith) in
    let (sms, s) = boolean_value (field_of (text "sms") (members v)) (ground arith) in
    let (inapp, i) = boolean_value (field_of (text "inapp") (members v)) (ground arith) in
    (record { label = label; email = email; sms = sms; inapp = inapp }, (l, e, s, i))

HasChannels-is_entry : (v : Json) (c : Channels) → HasChannels v c → is_entry v ≡ true
unfolding is_entry
HasChannels-is_entry v c h = rw (h.0, h.1, h.2, h.3)

every_entry-HasEntries :
    (f : Fields) → every_entry f ≡ true → (s : NotifPrefsShape) × HasEntries f s
unfolding every_entry
every_entry-HasEntries Fields.end h = ([], tt)
every_entry-HasEntries (Fields.field k v rest) h =
    let (c, entry) = is_entry-HasChannels v (ground arith) in
    let (s, entries) = every_entry-HasEntries rest (ground arith) in
    ((k, c) ∷ s, (refl, entry, entries))

HasEntries-every_entry : (f : Fields) (s : NotifPrefsShape) → HasEntries f s → every_entry f ≡ true
unfolding every_entry
HasEntries-every_entry Fields.end s h = refl
HasEntries-every_entry (Fields.field k v rest) [] h = absurd h
HasEntries-every_entry (Fields.field k v rest) ((key, c) ∷ s) h =
    ground (arith, HasChannels-is_entry v c h.1, HasEntries-every_entry rest s h.2)

-- The type guard is exact: it accepts a body just when the body is an object all of whose fields
-- have a label that is a string and the three channels as booleans.
pub is_valid_prefs_shape_iff :
    (body : Json) → (is_valid_prefs_shape body ≡ true) ↔ ((s : NotifPrefsShape) × HasShape body s)
unfolding is_valid_prefs_shape
is_valid_prefs_shape_iff (Json.object f) =
    (every_entry-HasEntries f, λ (s, h). HasEntries-every_entry f s h)
is_valid_prefs_shape_iff _ = (λ h. cc, λ (s, h). absurd h)
