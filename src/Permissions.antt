-- ===== src/Permissions.antt =====
-- auth/guards/permissions.guard.ts
pub mod Denial
use mentos_backend.Common.{
  ℕ, not, any, ltb, Bool, true, Option, none, some, List, [], ◌∷◌, ◌++◌, if◌then◌else◌, length,
  select, or_else, Text, text, same,
}
use mentos_backend.Model.{
  AuditOutcome, RecordAuditEntry, Json, Fields, User, Role, missing_permission, World, Request,
}
use mentos_backend.Orm.{Orm, Exec, pure, throw, ◌>>=◌, ◌>>◌}
use mentos_backend.Http.{Route, HttpRequest, param, before_dot, after_dot, join}
use mentos_backend.Audit.{record_entry}

-- req.user?.role?.perms ?? []
abbrev pub granted_to : Option Role → List Text
granted_to none = []
granted_to (some role) = role.perms

abbrev pub missing_of : List Text → Option Role → List Text
missing_of required role = select (λ perm. not (any (same perm) (granted_to role))) required

-- a ?? b
abbrev first_of : Option Text → Option Text → Option Text
first_of none b = b
first_of (some a) b = some a

-- the record that the route names
unfoldable pub id_param : List (Text × Text) → Option Text
id_param params =
    first_of (param (text "code") params)
      (first_of (param (text "invoiceCode") params) (param (text "propertyCode") params))

abbrev user_id : Option User → Option ℕ
user_id none = none
user_id (some u) = some u.id

abbrev user_name : Option User → Text
user_name none = text "Anonymous"
user_name (some u) = u.full_name

abbrev user_email : Option User → Option Text
user_email none = none
user_email (some u) = some u.email

abbrev spaced : Option Text → Text
spaced none = []
spaced (some []) = []
spaced (some (c ∷ s)) = text " " ++ c ∷ s

-- the elements of an array
abbrev strings : List Text → Fields
strings [] = Fields.end
strings (s ∷ t) = Fields.field (text "") (Json.string s) (strings t)

-- required[0].split('.')
abbrev head_key : List Text → Text
head_key [] = []
head_key (key ∷ _) = key

-- the entry for an attempt that is denied
unfoldable pub denial : HttpRequest → List Text → List Text → RecordAuditEntry
unfolding id_param
denial http required missing =
    let resource = before_dot (head_key required) in
    let action = after_dot (head_key required) in
    let id = id_param http.params in
    record {
      actor_user_id = user_id http.user;
      actor_name = some (user_name http.user);
      actor_email = user_email http.user;
      resource = resource;
      action = action;
      resource_id = id;
      resource_name = none;
      description =
          text "attempted to "
          ++ action
          ++ text " "
          ++ resource
          ++ spaced id
          ++ text " — missing permission: "
          ++ join (text ", ") missing;
      method = http.method;
      path = or_else http.route_path http.path;
      status_code = some 403;
      outcome = some AuditOutcome.denied;
      ip_address = http.ip;
      user_agent = http.user_agent;
      metadata = some (
          Json.object
            (Fields.field (text "missingPermissions") (Json.array (strings missing)) Fields.end));
    }

module _ (orm : Orm) where
  unfoldable pub can_activate : Request → Route → HttpRequest → Exec Bool
  unfolding denial record_entry
  can_activate req route http = decide (or_else route.permissions [])
    where
      decide : List Text → Exec Bool
      decide required =
          let missing = missing_of required http.role in
          if ltb 0 (length missing)
          then (do
            record_entry orm req (denial http required missing)
            throw (missing_permission missing))
          else pure true
