-- ===== src/Orm/Service.antt =====
-- What every service does with its repository.
use mentos_backend.Common.{Option, List, [], ◌∷◌, ◌++◌, Text}
use mentos_backend.Model.{query_failed, unique_violation, Trigger}
use mentos_backend.Codes.Scheme.{Scheme, next_code}
use mentos_backend.Orm.Actions.{Exec, or_throw, modify}

-- the next code of a table, from the codes of its rows
unfoldable pub allocate_code : Scheme → List Text → Exec Text
unfolding next_code
allocate_code s cs = or_throw query_failed (next_code s cs)

-- the result of an insert
abbrev pub or_unique : {T : Type 0} → Option T → Exec T
or_unique o = or_throw unique_violation o

-- NotificationsService.fireTrigger: the task is handed to the background task tracker, and runs
-- after the handler
abbrev pub fire_trigger : Trigger → Exec Unit
fire_trigger t = modify (λ w. record w { tasks = w.tasks ++ t ∷ [] })
