-- ===== src/Serving.antt =====
-- A request on its way: auth/guards/permissions.guard.ts, then audit/audit.interceptor.ts, which
-- app.module.ts registers before main.ts registers common/interceptors/response.interceptor.ts,
-- then the handler with its pipes, and common/filters/all-exceptions.filter.ts for what is thrown.
pub mod Traced
use mentos_backend.Common.{
  ℕ, ◌++◌, Bool, true, false, Option, List, or_else, if◌then◌else◌, Text, text,
}
use mentos_backend.Codes.Decimal.{show}
use mentos_backend.Model.{Exception, missing_permission, Json, Fields, World, Request}
use mentos_backend.Orm.{Orm, Result, ok, err}
use mentos_backend.Http.{
  Route, HttpRequest, Thrown, http_exception, error, other, Handled, returned, thrown, Handler,
  join,
}
use mentos_backend.Notifications.Preferences.Shape.{field_of}
use mentos_backend.Permissions.{can_activate}
use mentos_backend.Audit.Interceptor.{intercept}

-- What Nest and the clock give: the names of its enum HttpStatus, and the time of the response.
pub record Environment : Type 0 where
  pub status_name : ℕ → Option Text
  pub timestamp : Text

-- { success: true, data, timestamp }
unfoldable pub wrap : Text → Json → Json
wrap timestamp value = Json.object (
    Fields.field (text "success") (Json.boolean true) (
      Fields.field (text "data") value
        (Fields.field (text "timestamp") (Json.string timestamp) Fields.end)))

unfoldable pub wrap_handled : Text → Handled → Handled
unfolding wrap
wrap_handled timestamp (returned value) = returned (wrap timestamp value)
wrap_handled timestamp (thrown e) = thrown e

-- ResponseInterceptor.intercept
abbrev pub respond : Text → Handler → Handler
respond timestamp next w = let (r, w') = next w in (wrap_handled timestamp r, w')

abbrev failure : Environment → Text → Text → Json → Json → Json
failure env url code message details = Json.object (
    Fields.field (text "success") (Json.boolean false) (
      Fields.field (text "error")
        (Json.object (
          Fields.field (text "code") (Json.string code) (
            Fields.field (text "message") message
              (Fields.field (text "details") details Fields.end))))
        (Fields.field (text "timestamp") (Json.string env.timestamp)
          (Fields.field (text "path") (Json.string url) Fields.end))))

-- a ?? b
abbrev or_value : Json → Json → Json
or_value Json.undefined b = b
or_value Json.null b = b
or_value a b = a

abbrev code_of : Environment → ℕ → Text
code_of env status = or_else (env.status_name status) (text "ERROR")

-- AllExceptionsFilter.catch: the status and the body
unfoldable pub catch_all : Environment → Text → Thrown → ℕ × Json
unfolding field_of
catch_all env url (http_exception status (Json.string s) message) =
    (status, failure env url (code_of env status) (Json.string s) Json.undefined)
catch_all env url (http_exception status (Json.object f) message) = (
  status,
  failure env url (code_of env status)
      (or_value (field_of (text "message") f) (Json.string message)) (field_of (text "message") f),
)
catch_all env url (http_exception status (Json.array f) message) =
    (status, failure env url (code_of env status) (Json.string message) Json.undefined)
catch_all env url (http_exception status _ message) = (
  status,
  failure env url (code_of env status) (Json.string (text "Internal server error")) Json.undefined,
)
catch_all env url (error message) =
    (500, failure env url (text "INTERNAL_SERVER_ERROR") (Json.string message) Json.undefined)
catch_all env url other = (
  500,
  failure env url (text "INTERNAL_SERVER_ERROR") (Json.string (text "Internal server error"))
      Json.undefined,
)

-- the ForbiddenException of the guard
abbrev forbidden : List Text → Thrown
forbidden missing =
    let message : Text = text "Missing permission: " ++ join (text ", ") missing in
    http_exception 403
      (Json.object (
        Fields.field (text "message") (Json.string message) (
          Fields.field (text "error") (Json.string (text "Forbidden"))
            (Fields.field (text "statusCode") (Json.number 403) Fields.end))))
      message

abbrev refusal : Exception → Thrown
refusal (missing_permission missing) = forbidden missing
refusal _ = other

unfoldable pub answer : Environment → Text → ℕ → Handled → ℕ × Json
unfolding catch_all
answer env url status (returned value) = (status, value)
answer env url status (thrown e) = catch_all env url e

-- what follows the guard
abbrev pub admitted :
    Environment → Route → HttpRequest → ℕ → Handler → Result Bool × World → (ℕ × Json) × World
unfolding answer wrap_handled
admitted env route http status handler (err e, w) = (catch_all env http.url (refusal e), w)
admitted env route http status handler (ok allowed, w) =
    let (r, w') = intercept true route http status (respond env.timestamp handler) w in
    (answer env http.url status r, w')

-- A request of a user who is signed in, with the status of a successful response.
unfoldable pub serve :
    Orm → Environment → Request → Route → HttpRequest → ℕ → Handler → World → (ℕ × Json) × World
unfolding admitted
serve orm env req route http status handler w =
    admitted env route http status handler (can_activate orm req route http w)
