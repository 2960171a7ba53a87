-- ===== src/Serving/Traced.antt =====
-- What a request that is audited leaves in the trail, and what its user gets.
use mentos_backend.Common.{ℕ, ◌≡◌, ◌⊎◌, none, some, [], ◌∷◌}
use mentos_backend.Model.{RecordAuditEntry, World, Request, Json}
use mentos_backend.Orm.{Orm}
use mentos_backend.Http.{Route, HttpRequest, Handled, returned, thrown}
use mentos_backend.Audit.Context.{ActionContext}
use mentos_backend.Audit.Recorded.{recorded}
use mentos_backend.Audit.Interceptor.{logged}
use mentos_backend.Audit.Interceptor.Intercepted.{with_entries}
use mentos_backend.Permissions.{missing_of}
use mentos_backend.Permissions.Denial.{Covers, required_of, denial_of}
use mentos_backend.Serving.{Environment, wrap, forbidden, answer, catch_all}

-- the entry for what the handler returned or threw
abbrev pub entry_of : HttpRequest → ℕ → ActionContext → Handled → RecordAuditEntry
entry_of http status ctx (returned value) = logged http status ctx value none
entry_of http status ctx (thrown e) = logged http status ctx Json.undefined (some e)

-- the response of a request that gets past the guard
abbrev pub response_of : Environment → HttpRequest → ℕ → Handled → ℕ × Json
response_of env http status (returned value) = (status, wrap env.timestamp value)
response_of env http status (thrown e) = catch_all env http.url e

abbrev answer_run : Environment → HttpRequest → ℕ → Handled × World → (ℕ × Json) × World
answer_run env http status run = (answer env http.url status run.0, run.1)

-- the request was let through, or refused
abbrev pub Served :
    Environment
    → Request
    → Route
    → HttpRequest
    → ℕ
    → ActionContext
    → Handled × World
    → World
    → (ℕ × Json) × World
    → Type 0
Served env req route http status ctx handled w run =
    (Covers http.role (required_of route)
      × (run ≡ (
        response_of env http status handled.0,
        with_entries handled.1 (entry_of http status ctx handled.0 ∷ []),
      )))
    ⊎ ((¬ Covers http.role (required_of route))
        × (run ≡ (
          catch_all env http.url (forbidden (missing_of (required_of route) http.role)),
          recorded req (denial_of route http) w,
        ))
        × (run.0.0 ≡ 403))
