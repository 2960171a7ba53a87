-- ===== src/Background/Drained.antt =====
-- The wait ends: with the timer at the latest, and before it only if every promise has settled.
use mentos_backend.Common.{
  ℕ, ◌≤◌, ◌<◌, ◌≡◌, ◌⊎◌, Bool, true, false, Option, none, some, List, any, length,
}
use mentos_backend.Model.{World}
use mentos_backend.Orm.{Orm}
use mentos_backend.Background.{Flight, Event, steps, fires}

abbrev pub is_timer : Event → Bool
is_timer (steps k req) = false
is_timer fires = true

-- how the wait stands after some events
abbrev pub Waited : List Event → List Flight → Option ℕ × List Flight × World → Type 0
Waited events flights (result, left, w) =
    ((result ≡ none)
      × (any is_timer events ≡ false)
      × (0 < length left)
      × (length left ≤ length flights))
    ⊎ ((n : ℕ) × (result ≡ some n)
        × (length left ≡ n)
        × (n ≤ length flights)
        × ((n ≡ 0) ⊎ (any is_timer events ≡ true)))
