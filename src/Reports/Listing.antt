-- ===== src/Reports/Listing.antt =====
-- The reports that are listed are those that are built.
use mentos_backend.Common.{
  ◌≡◌, refl, Bool, true, false, [], ◌∷◌, any, Text, same, Bool-cases, inl, inr, ◌⊎◌,
}
use mentos_backend.Model.{unknown_report, World, Request}
use mentos_backend.Orm.{Orm, ok, err}
use mentos_backend.Reports.{report_defs, builders, switch, Builders, build}
use mentos_backend.Reports.Shape.{BuiltReport}

abbrev pub is_listed : Text → Bool
unfolding report_defs
is_listed id = any (λ d. same id d.id) report_defs

-- the report is built and nothing changes, or the id is refused
abbrev Built : Orm → Request → Text → World → Type 0
Built orm req id w =
    ((is_listed id ≡ true) × (r : BuiltReport) × (build orm req id w ≡ (ok r, w)))
    ⊎ ((is_listed id ≡ false) × (build orm req id w ≡ (err (unknown_report id), w)))

switch-any :
    (id : Text) (bs : Builders) (w : World)
    → ((any (λ e. same id e.0) bs ≡ true) × (r : BuiltReport) × (switch id bs w ≡ (ok r, w)))
      ⊎ ((any (λ e. same id e.0) bs ≡ false) × (switch id bs w ≡ (err (unknown_report id), w)))
switch-any id [] w = inr (refl, refl)
switch-any id ((k, builder) ∷ bs) w = elim (Bool-cases (same id k)) [
  | inl t ↦ rw t (inl (refl, builder w, refl))
  | inr f ↦ rw f (switch-any id bs w)
]

-- A report is built, and nothing changes, just when its id is one of those listed; any other id is
-- refused.
build-Built : (orm : Orm) (req : Request) (id : Text) (w : World) → Built orm req id w
unfolding build report_defs
build-Built orm req id w = switch-any id (builders orm req) w
