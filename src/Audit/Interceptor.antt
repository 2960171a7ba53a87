-- ===== src/Audit/Interceptor.antt =====
-- audit/audit.interceptor.ts: the entry that a request leaves.
pub mod Intercepted
use mathlib.Core.List.{reverse}
use mentos_backend.Common.{
  ℕ, ◌==◌, ◌&&◌, ◌||◌, not, any, Bool, true, false, Option, none, some, is_some, List, [], ◌∷◌,
  ◌++◌, map, if◌then◌else◌, or_else, Text, text, same, includes,
}
use mentos_backend.Codes.Decimal.{show}
use mentos_backend.Model.{AuditOutcome, RecordAuditEntry, Json, Fields, User, World}
use mentos_backend.Http.{
  Route, HttpRequest, Thrown, http_exception, error, other, Handled, returned, thrown, Handler,
  param, before_dot, after_dot,
}
use mentos_backend.Notifications.Preferences.Shape.{field_of}
use mentos_backend.Audit.Context.{ActionContext, replaced, resolve_action_context}
use mentos_backend.Audit.Values.{
  members, string_of, unwrap, extract_id, extract_name, error_message,
}

abbrev Verbs : Type 0
Verbs = List (Text × Text)

unfoldable pub verbs : Verbs
verbs =
    (text "create", text "created")
    ∷ (text "update", text "updated")
    ∷ (text "delete", text "deleted")
    ∷ (text "read", text "viewed")
    ∷ (text "terminate", text "terminated")
    ∷ (text "blacklist", text "blacklisted")
    ∷ (text "assign", text "assigned")
    ∷ (text "close", text "closed")
    ∷ (text "export", text "exported")
    ∷ (text "void", text "voided")
    ∷ (text "send", text "sent")
    ∷ (text "configure", text "configured")
    ∷ (text "login", text "signed in")
    ∷ (text "register", text "registered")
    ∷ (text "logout", text "signed out")
    ∷ (text "logout_all", text "signed out of every device")
    ∷ (text "forgot_password", text "requested a password reset")
    ∷ (text "reset_password", text "reset their password")
    ∷ (text "accept_invite", text "accepted an invite")
    ∷ (text "change_password", text "changed their password")
    ∷ []

abbrev verb_in : Verbs → Text → Text
verb_in [] action = action
verb_in ((k, verb) ∷ rest) action = if same k action then verb else verb_in rest action

unfoldable pub resolve_resource_id : HttpRequest → Json → Option Text
unfolding extract_id
resolve_resource_id http value = given (param (text "code") http.params)
  where
    given : Option Text → Option Text
    given (some (c ∷ code)) = some (c ∷ code)
    given _ = extract_id value

pub record Actor : Type 0 where
  pub id : Option ℕ
  pub name : Text
  pub email : Option Text

abbrev anonymous : Actor
anonymous = record { id = none; name = text "Anonymous"; email = none }

-- the user in the body of a response
abbrev body_actor : Fields → Actor
unfolding field_of
body_actor u = named (string_of (field_of (text "name") u))
  where
    named : Option Text → Actor
    named (some (c ∷ name)) = record {
      id = none;
      name = c ∷ name;
      email = string_of (field_of (text "email") u);
    }
    named _ = anonymous

unfoldable pub resolve_actor : HttpRequest → ActionContext → Json → Actor
unfolding field_of body_actor
resolve_actor http ctx value = signed_in http.user
  where
    signed_in : Option User → Actor
    signed_in (some u) = record { id = some u.id; name = u.full_name; email = some u.email }
    signed_in none =
        if ctx.is_auth_action
        then body_actor (members (field_of (text "user") (members value)))
        else anonymous

abbrev infinitive : Text → Text
infinitive action = replaced b'_' b' ' action

-- `${prefix}${value}${suffix}` if there is a value that is not empty
abbrev wrapped : Text → Option Text → Text → Text
wrapped prefix (some (c ∷ s)) suffix = prefix ++ (c ∷ s) ++ suffix
wrapped prefix _ suffix = []

unfoldable pub build_description : ActionContext → Option Text → Json → Option Thrown → Text
unfolding verbs extract_name error_message
build_description ctx resource_id value failure =
    if ctx.is_auth_action then auth failure else gated failure
  where
    verb : Text
    verb = verb_in verbs ctx.action

    target : Text
    target = ctx.resource ++ wrapped (text " ") resource_id []

    suffix : Text
    suffix = wrapped (text " (") (extract_name value) (text ")")

    auth : Option Thrown → Text
    auth none = verb
    auth (some e) = text "attempted to " ++ infinitive ctx.action ++ text " — " ++ error_message e

    gated : Option Thrown → Text
    gated none = verb ++ text " " ++ target ++ suffix
    gated (some e) =
        text "attempted to "
        ++ infinitive ctx.action
        ++ text " "
        ++ target
        ++ suffix
        ++ text " — "
        ++ error_message e

abbrev status_of : ℕ → Option Thrown → ℕ
status_of status none = status
status_of status (some (http_exception s body message)) = s
status_of status (some _) = 500

abbrev outcome_of : Option Thrown → AuditOutcome
outcome_of none = AuditOutcome.success
outcome_of (some e) = AuditOutcome.error

abbrev metadata_of : Option Thrown → Option Json
unfolding error_message
metadata_of none = none
metadata_of (some e) =
    some (Json.object (Fields.field (text "error") (Json.string (error_message e)) Fields.end))

-- The entry of logOutcome; `failure` is what was thrown, and makes the outcome an error.
unfoldable pub logged : HttpRequest → ℕ → ActionContext → Json → Option Thrown → RecordAuditEntry
unfolding resolve_resource_id resolve_actor build_description metadata_of
logged http status ctx value failure =
    let resource_id = resolve_resource_id http value in
    let actor = resolve_actor http ctx value in
    record {
      actor_user_id = actor.id;
      actor_name = some actor.name;
      actor_email = actor.email;
      resource = ctx.resource;
      action = ctx.action;
      resource_id = resource_id;
      resource_name = extract_name value;
      description = build_description ctx resource_id value failure;
      method = http.method;
      path = or_else http.route_path http.path;
      status_code = some (status_of status failure);
      outcome = some (outcome_of failure);
      ip_address = http.ip;
      user_agent = http.user_agent;
      metadata = metadata_of failure;
    }

-- tracker.track of a write to the trail
abbrev pub track : RecordAuditEntry → World → World
track entry w = record w { audit_tasks = w.audit_tasks ++ entry ∷ [] }

-- the entry is made from what the handler returns or throws, with the status of the response
unfoldable pub log_run : HttpRequest → ℕ → ActionContext → Handled × World → Handled × World
unfolding logged unwrap
log_run http status ctx (returned value, w) =
    (returned value, track (logged http status ctx (unwrap value) none) w)
log_run http status ctx (thrown e, w) =
    (thrown e, track (logged http status ctx Json.undefined (some e)) w)

unfoldable pub observe : HttpRequest → ℕ → ActionContext → Handler → Handler
unfolding log_run
observe http status ctx next w = log_run http status ctx (next w)

unfoldable pub intercept : Bool → Route → HttpRequest → ℕ → Handler → Handler
unfolding resolve_action_context observe
intercept is_http route http status next =
    if not is_http || route.audit_skip then next else elim (resolve_action_context route http) [
      | none ↦ next
      | some ctx ↦ observe http status ctx next
    ]
