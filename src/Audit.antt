-- ===== src/Audit.antt =====
-- audit/audit.service.ts, with the icons of audit/audit-icons.ts
pub mod Recorded
pub mod Context
pub mod Values
pub mod Interceptor
use mentos_backend.Common.{
  ℕ, zero, suc, ◌+◌, ◌*◌, ◌/◌, ◌==◌, ◌&&◌, not, leb, ltb, Bool, true, Option, none, some, List, [],
  ◌∷◌, ◌++◌, if◌then◌else◌, or_else, select, first, length, Text, text, same,
}
use mathlib.Core.List.{reverse}
use mentos_backend.Codes.Decimal.{show}
use mentos_backend.Model.{
  AuditLog, AuditOutcome, RecordAuditEntry, User, Table, not_found, query_failed, World, Request,
}
use mentos_backend.Orm.{Orm, Exec, pure, gets, modify, or_throw, or_unique, throw_if, ◌>>=◌, ◌>>◌}
use mentos_backend.Notifications.{swallow}

abbrev Icons : Type 0
Icons = List (Text × Text)

-- the icons of permResources
unfoldable pub catalog_icons : Icons
catalog_icons =
    (text "dashboard", text "layout-dashboard")
    ∷ (text "property", text "building-2")
    ∷ (text "unit", text "door-open")
    ∷ (text "tenant", text "users-round")
    ∷ (text "lease", text "file-text")
    ∷ (text "invoice", text "receipt-text")
    ∷ (text "payment", text "banknote")
    ∷ (text "report", text "chart-no-axes-column")
    ∷ (text "maintenance", text "wrench")
    ∷ (text "document", text "folder")
    ∷ (text "notification", text "bell")
    ∷ (text "template", text "mail")
    ∷ (text "user", text "shield-check")
    ∷ (text "role", text "lock")
    ∷ (text "audit", text "history")
    ∷ []

unfoldable pub fallback_icons : Icons
fallback_icons = (text "technician", text "hard-hat") ∷ (text "auth", text "log-in") ∷ []

abbrev icon_in : Icons → Text → Text → Text
icon_in [] resource rest = rest
icon_in ((k, icon) ∷ icons) resource rest =
    if same k resource then icon else icon_in icons resource rest

unfoldable pub icon_for_resource : Text → Text
unfolding catalog_icons fallback_icons
icon_for_resource resource =
    icon_in catalog_icons resource (icon_in fallback_icons resource (text "history"))

abbrev take {ℓ} : {A : Type ℓ} → ℕ → List A → List A
take zero xs = []
take (suc n) [] = []
take (suc n) (x ∷ xs) = x ∷ take n xs

abbrev sliced : Option Text → Option Text
sliced none = none
sliced (some s) = some (take 255 s)

-- logs.create(…)
unfoldable pub new_log : Request → Text → RecordAuditEntry → AuditLog
unfolding icon_for_resource
new_log req code e = record {
  id = req.new_id;
  created_at = req.now;
  code = code;
  actor_user_id = e.actor_user_id;
  actor_name = or_else e.actor_name (text "System");
  actor_email = e.actor_email;
  resource = e.resource;
  action = e.action;
  resource_id = e.resource_id;
  resource_name = e.resource_name;
  description = e.description;
  method = e.method;
  path = e.path;
  status_code = e.status_code;
  outcome = or_else e.outcome AuditOutcome.success;
  ip_address = e.ip_address;
  user_agent = sliced e.user_agent;
  icon = icon_for_resource e.resource;
  metadata = e.metadata;
}

abbrev within : ℕ → Text → Bool
within n s = leb (length s) n

abbrev within_or_null : ℕ → Option Text → Bool
within_or_null n none = true
within_or_null n (some s) = within n s

-- the lengths of the columns of audit_logs; a longer text is an error of PostgreSQL
unfoldable pub fits : AuditLog → Bool
fits l =
    within 32 l.code
    && within 160 l.actor_name
    && within_or_null 255 l.actor_email
    && within 40 l.resource
    && within 40 l.action
    && within_or_null 32 l.resource_id
    && within_or_null 255 l.resource_name
    && within 10 l.method
    && within 255 l.path
    && within_or_null 64 l.ip_address
    && within_or_null 255 l.user_agent
    && within 40 l.icon

abbrev pub put_logs : World → List AuditLog → World
put_logs w t = record w { db = record w.db { audit_logs = t } }

abbrev pub audit_code : ℕ → Text
audit_code n = text "A-" ++ show n

pub record QueryAuditLogDto : Type 0 where
  pub resource : Option Text
  pub action : Option Text
  pub resource_id : Option Text
  pub actor_id : Option Text
  pub outcome : Option AuditOutcome
  -- milliseconds
  pub from : Option ℕ
  pub to : Option ℕ
  pub limit : Option ℕ

abbrev pub day_ms : ℕ
day_ms = 86_400_000

abbrev same_outcome : AuditOutcome → AuditOutcome → Bool
same_outcome AuditOutcome.success AuditOutcome.success = true
same_outcome AuditOutcome.denied AuditOutcome.denied = true
same_outcome AuditOutcome.error AuditOutcome.error = true
same_outcome _ _ = Bool.false

-- `if (value) andWhere(column = value)`, where a null in the column matches nothing
abbrev asked : Option Text → Option Text → Bool
asked none column = true
asked (some []) column = true
asked (some (c ∷ s)) none = Bool.false
asked (some (c ∷ s)) (some v) = same v (c ∷ s)

abbrev asked_outcome : Option AuditOutcome → AuditOutcome → Bool
asked_outcome none o = true
asked_outcome (some asked_for) o = same_outcome o asked_for

abbrev asked_from : Option ℕ → ℕ → Bool
asked_from none t = true
asked_from (some from) t = leb from t

-- created before the end of the day
abbrev asked_to : Option ℕ → ℕ → Bool
asked_to none t = true
asked_to (some to) t = ltb t ((to / day_ms) * day_ms + day_ms)

-- the code of the actor, by the left join
abbrev actor_code : List User → Option ℕ → Option Text
actor_code users none = none
actor_code users (some id) = code_of (first (λ u. u.id == id) users)
  where
    code_of : Option User → Option Text
    code_of none = none
    code_of (some u) = some u.code

unfoldable pub is_asked : List User → QueryAuditLogDto → AuditLog → Bool
is_asked users q l =
    asked q.resource (some l.resource)
    && asked q.action (some l.action)
    && asked q.resource_id l.resource_id
    && asked_outcome q.outcome l.outcome
    && asked q.actor_id (actor_code users l.actor_user_id)
    && asked_from q.from l.created_at
    && asked_to q.to l.created_at

module _ (orm : Orm) where
  -- nextval
  unfoldable pub next_audit_code : Exec Text
  next_audit_code = do
    modify (λ w. record w { audit_sequence = suc w.audit_sequence })
    gets (λ w. audit_code w.audit_sequence)

  -- what `record` tries
  unfoldable pub save_log : Request → RecordAuditEntry → Exec Unit
  unfolding next_audit_code new_log fits
  save_log req entry = do
    code ← next_audit_code
    let log = new_log req code entry
    throw_if (not (fits log)) query_failed
    rows ← gets (λ w. orm.insert (λ l. same l.code code) log w.audit_logs)
    saved ← or_unique rows
    modify (λ w. put_logs w saved)

  unfoldable pub record_entry : Request → RecordAuditEntry → Exec Unit
  unfolding save_log
  record_entry req entry = swallow (save_log req entry)

  -- the newest first
  unfoldable pub find_all : QueryAuditLogDto → Exec (List AuditLog)
  unfolding is_asked
  find_all q =
      gets (λ w. take (or_else q.limit 200) (reverse (orm.find (is_asked w.users q) w.audit_logs)))

  unfoldable pub find_by_code_or_fail : Text → Exec AuditLog
  find_by_code_or_fail code = do
    found ← gets (λ w. orm.find_one (λ l. same l.code code) w.audit_logs)
    or_throw (not_found Table.audit_entry code) found
