-- ===== src/Tests/Trail.antt =====
-- The audit trail and the guard.
use mentos_backend.Common.{◌≡◌, refl, true, false, none, some, [], ◌∷◌, ◌++◌, arith, Text, text}
use mentos_backend.Model.{RecordAuditEntry, empty_world, Json, Trigger, NotificationType}
use mentos_backend.Orm.{reference, reference-Documented, ok}
use mentos_backend.Http.{Route, HttpRequest, Handler, thrown, error, returned}
use mentos_backend.Audit.{record_entry}
use mentos_backend.Audit.Recorded.{IsNumbered, recorded, record_entry-recorded}
use mentos_backend.Audit.Interceptor.{intercept}
use mentos_backend.Audit.Interceptor.Intercepted.{Observed, intercept-Observed}
use mentos_backend.Permissions.{denial, can_activate, id_param}
use mentos_backend.Permissions.Denial.{Decided, can_activate-Covers, can_activate_unlogged, Covers}
use mentos_backend.Audit.Context.{ActionContext}
use mentos_backend.Serving.{Environment}
use mentos_backend.Tests.Sample.{req}
use mentos_backend.Tests.Access.{neema}
use mentos_backend.Tests.Permissions.{clerk}

abbrev gate : Route
gate = record { permissions = some (text "lease.terminate" ∷ []); audit_skip = false }

-- a clerk asks for the termination of a lease with the given code
abbrev asked_for : Text → HttpRequest
asked_for code = record {
  method = text "POST";
  path = text "/api/leases/x/terminate";
  url = text "/api/leases/x/terminate";
  route_path = none;
  params = (text "code", code) ∷ [];
  user = some neema;
  role = some clerk;
  ip = none;
  user_agent = none;
}

abbrev long_code : Text
long_code = text "L-000000000000000000000000000000001"

abbrev attempt : RecordAuditEntry
unfolding denial
attempt =
    denial (asked_for (text "L-01")) (text "lease.terminate" ∷ []) (text "lease.terminate" ∷ [])

record_entry-recorded_example :
    (record_entry reference req attempt empty_world ≡ (ok tt, recorded req attempt empty_world))
    × IsNumbered (recorded req attempt empty_world)
record_entry-recorded_example =
    record_entry-recorded reference reference-Documented req attempt empty_world tt

abbrev failing : Handler
failing w = (thrown (error (text "boom")), w)

intercept-Observed_example :
    Observed true gate
      (asked_for (text "L-01"))
      (failing empty_world)
      (intercept true gate (asked_for (text "L-01")) 201 failing empty_world)
intercept-Observed_example =
    intercept-Observed true gate (asked_for (text "L-01")) 201 failing empty_world

can_activate-Covers_example : Decided reference req gate (asked_for (text "L-01")) empty_world
can_activate-Covers_example =
    can_activate-Covers reference reference-Documented req gate (asked_for (text "L-01"))
      empty_world tt

not_covered : ¬ Covers (some clerk) (text "lease.terminate" ∷ [])
not_covered c = cc c.0

can_activate_unlogged_example :
    (can_activate reference req gate (asked_for long_code) empty_world).1.audit_logs ≡ []
unfolding id_param
can_activate_unlogged_example =
    can_activate_unlogged reference reference-Documented req gate (asked_for long_code) empty_world
      long_code tt not_covered refl (omega arith)

-- the office may end leases, and the handler tells the tenant
abbrev may_end : HttpRequest
may_end = record (asked_for (text "L-01")) {
  role = some (record clerk { perms = text "lease.terminate" ∷ [] });
}

abbrev ended : Trigger
ended = record {
  key = text "lease-terminated";
  vars = [];
  type = NotificationType.system;
  icon = text "";
}

abbrev ending : Handler
ending w = (returned (Json.string (text "L-01")), record w { tasks = w.tasks ++ ended ∷ [] })

abbrev noon : Environment
noon = record { status_name = λ n. none; timestamp = text "2025-06-01T12:00:00.000Z" }

abbrev termination_context : ActionContext
termination_context = record {
  resource = text "lease";
  action = text "terminate";
  is_auth_action = false;
}
