-- ===== src/Audit/Values.antt =====
-- audit/audit.interceptor.ts: what is read from the value of a response and from an error.
use mentos_backend.Common.{
  ◌&&◌, ◌||◌, Bool, true, false, Option, none, some, [], ◌++◌, if◌then◌else◌, Text, text, same,
}
use mentos_backend.Codes.Decimal.{show}
use mentos_backend.Model.{Json, Fields}
use mentos_backend.Http.{Thrown, http_exception, error, other}
use mentos_backend.Notifications.Preferences.Shape.{field_of}

abbrev pub members : Json → Fields
members (Json.object f) = f
members _ = Fields.end

abbrev has_field : Text → Fields → Bool
has_field key Fields.end = false
has_field key (Fields.field k v rest) = same k key || has_field key rest

-- the payload that ResponseInterceptor has wrapped
unfoldable pub unwrap : Json → Json
unfolding field_of
unwrap value =
    if has_field (text "success") (members value) && has_field (text "data") (members value)
    then field_of (text "data") (members value)
    else value

abbrev pub string_of : Json → Option Text
string_of (Json.string s) = some s
string_of _ = none

unfoldable pub extract_id : Json → Option Text
unfolding field_of
extract_id value = string_of (field_of (text "id") (members value))

unfoldable pub extract_name : Json → Option Text
unfolding field_of
extract_name value = named (string_of (field_of (text "name") (members value)))
  where
    named : Option Text → Option Text
    named none = string_of (field_of (text "title") (members value))
    named (some name) = some name

unfoldable mutual
  -- String(value), given the texts for undefined and null, which are empty inside of an array
  pub print_json : Text → Text → Json → Text
  print_json u n Json.undefined = u
  print_json u n Json.null = n
  print_json u n (Json.boolean true) = text "true"
  print_json u n (Json.boolean false) = text "false"
  print_json u n (Json.number k) = show k
  print_json u n (Json.string s) = s
  print_json u n (Json.array elements) = join_elements (text ",") elements
  print_json u n (Json.object f) = text "[object Object]"

  -- elements.join(separator)
  pub join_elements : Text → Fields → Text
  join_elements separator Fields.end = []
  join_elements separator (Fields.field k v Fields.end) = print_json [] [] v
  join_elements separator (Fields.field k v (Fields.field l x rest)) =
      print_json [] [] v ++ separator ++ join_elements separator (Fields.field l x rest)

-- the message of an HttpException: its response if that is a text, else the `message` of it
unfoldable pub error_message : Thrown → Text
unfolding print_json field_of
error_message (http_exception status (Json.string s) message) = s
error_message (http_exception status (Json.object f) message) =
    if has_field (text "message") f then printed (field_of (text "message") f) else message
  where
    printed : Json → Text
    printed (Json.array elements) = join_elements (text "; ") elements
    printed m = print_json (text "undefined") (text "null") m
error_message (http_exception status _ message) = message
error_message (error message) = message
error_message other = text "Unknown error"
