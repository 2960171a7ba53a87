-- ===== src/Background/Progress.antt =====
-- Nothing but the promises' own steps keeps the wait from ending: whatever is under way can settle.
use mentos_backend.Common.{
  ℕ, zero, ◌≡◌, refl, ap, ◌∙◌, false, any-append, arith, Option, none, some, List, [], ◌∷◌, ◌++◌,
  any, inl, inr,
}
use mentos_backend.Model.{NotificationTemplate, Trigger, World, Request}
use mentos_backend.Orm.{Orm, Outcome-cases}
use mentos_backend.Notifications.{insert, rendered}
use mentos_backend.Notifications.Templates.{RowOrder, find_by_trigger}
use mentos_backend.Background.{
  Flight, awaiting, inserting, recording, Event, steps, put_back, found, after_insert, step,
  before_application_shutdown,
}
use mentos_backend.Background.Drained.{is_timer}

module _ (orm : Orm) (order : RowOrder) (req : Request) where
  -- the wait after the first promise has made a step
  abbrev resume : List Event → List Flight → Option Flight × World → Option ℕ × List Flight × World
  resume events flights run =
      let (rest, w) = put_back run flights in before_application_shutdown orm order events rest w

  resume-step :
      (events : List Event) (f : Flight) (flights : List Flight) (w : World)
      → before_application_shutdown orm order (steps zero req ∷ events) (f ∷ flights) w
        ≡ resume events flights (step orm order req f w)
  unfolding before_application_shutdown
  resume-step events f flights w = refl

  -- some steps of the first promise, after which it has left the set
  abbrev Settles : Flight → List Flight → World → Type 0
  Settles f flights w =
      (events : List Event) × (any is_timer events ≡ false)
      × (w' : World) × ((more : List Event)
          → before_application_shutdown orm order (events ++ more) (f ∷ flights) w
            ≡ before_application_shutdown orm order more flights w')

  Settles-at_once :
      (f : Flight) (flights : List Flight) (w w' : World)
      → step orm order req f w ≡ (none, w')
      → Settles f flights w
  Settles-at_once f flights w w' e = (
    steps zero req ∷ [],
    refl,
    w',
    λ more. resume-step more f flights w ∙ ap (resume more flights) e,
  )

  Settles-later :
      (f g : Flight) (flights : List Flight) (w w' : World)
      → step orm order req f w ≡ (some g, w')
      → Settles g flights w'
      → Settles f flights w
  Settles-later f g flights w w' e (events, quiet, done, run) = (
    steps zero req ∷ events,
    quiet,
    done,
    λ more.
        resume-step (events ++ more) f flights w
        ∙ ap (resume (events ++ more) flights) e
        ∙ run more,
  )

  inserting-Settles :
      (t : Trigger) (ms : List NotificationTemplate) (flights : List Flight) (w : World)
      → Settles (inserting t ms) flights w
  unfolding step
  inserting-Settles t [] flights w = Settles-at_once (inserting t []) flights w w refl
  inserting-Settles t (m ∷ ms) flights w = elim (Outcome-cases (insert orm req (rendered t m) w)) [
    | inl (n, w', e) ↦
        Settles-later (inserting t (m ∷ ms)) (inserting t ms) flights w w'
          (ap (after_insert t ms) e) (inserting-Settles t ms flights w')
    | inr (x, w', e) ↦
        Settles-at_once (inserting t (m ∷ ms)) flights w w' (ap (after_insert t ms) e)
  ]

  flight-Settles : (f : Flight) (flights : List Flight) (w : World) → Settles f flights w
  unfolding step
  flight-Settles (inserting t ms) flights w = inserting-Settles t ms flights w
  flight-Settles (recording entry) flights w = Settles-at_once (recording entry) flights w _ refl
  flight-Settles (awaiting t) flights w = elim (Outcome-cases (find_by_trigger orm order t.key w)) [
    | inl (ms, w', e) ↦
        Settles-later (awaiting t) (inserting t ms) flights w w' (ap (found t) e)
          (inserting-Settles t ms flights w')
    | inr (x, w', e) ↦ Settles-at_once (awaiting t) flights w w' (ap (found t) e)
  ]

-- Whatever is under way when the shutdown begins, a template that cannot be inserted and an entry
-- that cannot be recorded included: some steps of the promises let the wait return before the timer
-- fires, with none unresolved.
pub before_application_shutdown-drains :
    (orm : Orm) (order : RowOrder) (req : Request) (flights : List Flight) (w : World)
    → (events : List Event) × (any is_timer events ≡ false)
      × (w' : World) × (before_application_shutdown orm order events flights w ≡ (some 0, [], w'))
unfolding before_application_shutdown
before_application_shutdown-drains orm order req [] w = ([], refl, w, refl)
before_application_shutdown-drains orm order req (f ∷ flights) w =
    let (events, quiet, w1, run) = flight-Settles orm order req f flights w in
    let (later, quiet', w2, rest) = before_application_shutdown-drains orm order req flights w1 in
    (events ++ later, ground (arith, any-append is_timer events later), w2, run later ∙ rest)
