-- ===== src/Audit/Interceptor/Intercepted.antt =====
-- The interceptor changes nothing about the request that it observes.
use mathlib.Core.Path.{subst}
use mathlib.Core.List.{append-nil}
use mentos_backend.Common.{
  ℕ, ◌≡◌, refl, sym, ap, Bool, true, false, ◌&&◌, ◌||◌, not, none, some, is_some, List, [], ◌∷◌,
  ◌++◌, arith, if◌then◌else◌, length, All, Bool-cases, Option-cases, inl, inr,
}
use mentos_backend.Model.{AuditOutcome, RecordAuditEntry, World, Json}
use mentos_backend.Http.{Route, HttpRequest, Handled, returned, thrown, Handler}
use mentos_backend.Audit.Context.{ActionContext, resolve_action_context}
use mentos_backend.Audit.Interceptor.{logged, log_run, observe, intercept}
use mentos_backend.Audit.Values.{unwrap}

-- the outcome that the trail is to show
abbrev pub outcome_shown : Handled → AuditOutcome
outcome_shown (returned value) = AuditOutcome.success
outcome_shown (thrown e) = AuditOutcome.error

abbrev pub is_audited : Bool → Route → HttpRequest → Bool
is_audited is_http route http =
    is_http && not route.audit_skip && is_some (resolve_action_context route http)

abbrev pub with_entries : World → List RecordAuditEntry → World
with_entries w entries = record w { audit_tasks = w.audit_tasks ++ entries }

-- what a run of the handler leaves, with and without the interceptor
abbrev pub Observed : Bool → Route → HttpRequest → Handled × World → Handled × World → Type 0
Observed is_http route http plain run =
    (entries : List RecordAuditEntry) × (run ≡ (plain.0, with_entries plain.1 entries))
    × (length entries ≡ (if is_audited is_http route http then 1 else 0))
    × All (λ e. e.outcome ≡ some (outcome_shown plain.0)) entries

unobserved :
    (is_http : Bool) (route : Route) (http : HttpRequest) (plain : Handled × World)
    → is_audited is_http route http ≡ false
    → Observed is_http route http plain plain
unobserved is_http route http plain h = (
  [],
  ap (λ t. (plain.0, record plain.1 { audit_tasks = t })) (sym (append-nil plain.1.audit_tasks)),
  rw h refl,
  tt,
)

log_run-Observed :
    (is_http : Bool) (route : Route) (http : HttpRequest) (status : ℕ) (ctx : ActionContext)
    (plain : Handled × World)
    → is_audited is_http route http ≡ true
    → Observed is_http route http plain (log_run http status ctx plain)
unfolding log_run logged
log_run-Observed is_http route http status ctx (returned v, w) h =
    (logged http status ctx (unwrap v) none ∷ [], refl, rw h refl, (refl, tt))
log_run-Observed is_http route http status ctx (thrown e, w) h =
    (logged http status ctx Json.undefined (some e) ∷ [], refl, rw h refl, (refl, tt))

-- A handler returns or throws under the interceptor what it does without it, and leaves the same
-- state but for one more write to the trail that is under way, with the outcome that the handler
-- had; there is none if the request is not HTTP, is marked to be skipped, or is about nothing that
-- the trail has a name for.
pub intercept-Observed :
    (is_http : Bool) (route : Route) (http : HttpRequest) (status : ℕ) (next : Handler) (w : World)
    → Observed is_http route http (next w) (intercept is_http route http status next w)
unfolding intercept observe
intercept-Observed is_http route http status next w =
    elim (Bool-cases (not is_http || route.audit_skip)) [
      | inl t ↦
          let e : intercept is_http route http status next w ≡ next w = ground arith in
          subst observed (sym e) (unobserved is_http route http (next w) (ground arith))
      | inr f ↦ elim (Option-cases (resolve_action_context route http)) [
        | inl none_found ↦
            let e : intercept is_http route http status next w ≡ next w = rw (f, none_found) refl in
            subst observed (sym e) (unobserved is_http route http (next w) (ground arith))
        | inr (ctx, found) ↦
            let e : intercept is_http route http status next w ≡ log_run http status ctx (next w) =
              rw (f, found) refl in
            subst observed (sym e)
              (log_run-Observed is_http route http status ctx (next w) (ground arith))
      ]
    ]
  where
    observed : Handled × World → Type 0
    observed = Observed is_http route http (next w)
