-- ===== src/Notifications/Preferences/Stored.antt =====
-- What is set is what is read.
use mentos_backend.Common.{==_refl, true, ◌≡◌, refl, List, [], ◌∷◌, arith}
use mentos_backend.Model.{Json, NotificationPreference, World, Request}
use mentos_backend.Orm.{Orm, Documented, reference, orm-eq-reference, ok}
use mentos_backend.Notifications.Preferences.{get, set_checked}
use mentos_backend.Notifications.Preferences.Shape.{is_valid_prefs_shape}

reads_back :
    (first_run second_run : Request) (body : Json) (rows : List NotificationPreference) (w : World)
    → w.preferences ≡ rows
    → is_valid_prefs_shape body ≡ true
    → get reference second_run (set_checked reference first_run body w).1
      ≡ (ok body, (set_checked reference first_run body w).1)
unfolding set_checked get
reads_back first_run second_run body [] w e h = ground (arith, ==_refl first_run.new_id)
reads_back first_run second_run body (p ∷ ps) w e h = ground (arith, ==_refl p.id)

-- Preferences that pass the check are what the next read returns, and that read changes nothing,
-- whether or not there was a row before.
pub set_checked-get :
    (orm : Orm)
    → Documented orm
    → (first_run second_run : Request) (body : Json) (w : World) → is_valid_prefs_shape body ≡ true
    → get orm second_run (set_checked orm first_run body w).1
      ≡ (ok body, (set_checked orm first_run body w).1)
set_checked-get orm documented =
    rw (orm-eq-reference orm documented)
      (λ first_run second_run body w. reads_back first_run second_run body w.preferences w refl)
