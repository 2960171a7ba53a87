-- ===== src/Background.antt =====
-- common/background-task-tracker.service.ts: the writes that requests leave under way, and the wait
-- for them before the application shuts down. The promises make their steps in any order, and the
-- timer fires between them; a step is the query for the templates, one insert with its transaction,
-- a write to the trail, or the end of the loop.
pub mod Drained
pub mod Progress
use mentos_backend.Common.{ℕ, zero, suc, Option, none, some, List, [], ◌∷◌, ◌++◌, map, length}
use mentos_backend.Model.{NotificationTemplate, Trigger, RecordAuditEntry, World, Request}
use mentos_backend.Orm.{Orm, Result, ok, err}
use mentos_backend.Audit.{record_entry}
use mentos_backend.Notifications.{insert, rendered}
use mentos_backend.Notifications.Templates.{RowOrder, find_by_trigger}

-- a promise of doFireTrigger that waits for its templates, or that has still to insert for some of
-- them, or a promise of a write to the trail
pub data Flight : Type 0 where
  awaiting : Trigger → Flight
  inserting : Trigger → List NotificationTemplate → Flight
  recording : RecordAuditEntry → Flight

-- pendingCount
abbrev pending_count : List Flight → ℕ
pending_count flights = length flights

-- the set of promises, before any has made a step
abbrev pub in_flight : World → List Flight
in_flight w = map awaiting w.tasks ++ map recording w.audit_tasks

-- the k-th promise makes a step, or the timer of drainTimeoutMs fires
pub data Event : Type 0 where
  steps : ℕ → Request → Event
  fires : Event

-- what is left of a promise, `none` once it has settled and left the set
abbrev after_insert :
    {N : Type 0} → Trigger → List NotificationTemplate → Result N × World → Option Flight × World
after_insert t rest (ok _, w) = (some (inserting t rest), w)
after_insert t rest (err _, w) = (none, w)

abbrev found : Trigger → Result (List NotificationTemplate) × World → Option Flight × World
found t (ok templates, w) = (some (inserting t templates), w)
found t (err _, w) = (none, w)

abbrev put_back : Option Flight × World → List Flight → List Flight × World
put_back (none, w) flights = (flights, w)
put_back (some f, w) flights = (f ∷ flights, w)

module _ (orm : Orm) (order : RowOrder) where
  unfoldable pub step : Request → Flight → World → Option Flight × World
  unfolding find_by_trigger insert rendered record_entry
  step req (awaiting t) w = found t (find_by_trigger orm order t.key w)
  step req (inserting t []) w = (none, w)
  step req (inserting t (m ∷ ms)) w = after_insert t ms (insert orm req (rendered t m) w)
  step req (recording entry) w = (none, (record_entry orm req entry w).1)

  unfoldable pub step_at : ℕ → Request → List Flight → World → List Flight × World
  unfolding step
  step_at k req [] w = ([], w)
  step_at zero req (f ∷ flights) w = put_back (step req f w) flights
  step_at (suc k) req (f ∷ flights) w = let (rest, w') = step_at k req flights w in (f ∷ rest, w')

  -- beforeApplicationShutdown: it returns once the set is empty, or once the timer has fired; what it
  -- returns here is the number of promises that are then unresolved, which it logs. `none` is that it
  -- still waits at the end of the events.
  unfoldable pub before_application_shutdown :
      List Event → List Flight → World → Option ℕ × List Flight × World
  unfolding step_at
  before_application_shutdown events [] w = (some 0, [], w)
  before_application_shutdown [] (f ∷ flights) w = (none, f ∷ flights, w)
  before_application_shutdown (fires ∷ events) (f ∷ flights) w =
      (some (pending_count (f ∷ flights)), f ∷ flights, w)
  before_application_shutdown (steps k req ∷ events) (f ∷ flights) w =
      let (rest, w') = step_at k req (f ∷ flights) w in before_application_shutdown events rest w'
