-- ===== src/Tests/Opening.antt =====
-- The bootstrap registration.
use mentos_backend.Common.{◌≡◌, refl, none, text}
use mentos_backend.Model.{registration_closed, empty_world}
use mentos_backend.Orm.{reference, reference-Documented, err}
use mentos_backend.Auth.Registration.{RegisterDto, register}
use mentos_backend.Auth.Bootstrap.{IsBootstrapped, register-register}
use mentos_backend.Tests.Sample.{req}
use mentos_backend.Tests.Access.{platform, random, ctx}

abbrev samira : RegisterDto
samira = record { full_name = text "Samira"; email = text "s@x.co"; password = text "pw" }

register-register_example :
    IsBootstrapped (register reference platform none req random ctx samira empty_world)
    × (register reference platform none req random ctx samira
          (register reference platform none req random ctx samira empty_world).1
        ≡ (
          err registration_closed,
          (register reference platform none req random ctx samira empty_world).1,
        ))
register-register_example =
    register-register reference reference-Documented platform none req req random random ctx ctx
      samira samira empty_world refl refl refl
