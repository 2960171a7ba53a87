-- ===== src/Leases/Eviction.antt =====
-- TenantsService.blacklist followed by LeasesService.terminate of the lease that it left running.
use mentos_backend.Common.{
  ◌==◌, ◌≡◌, refl, ap, ◌∙◌, false, none, some, first, first-change, change, Text, same, arith,
  ==_refl, inl, inr, Option-cases,
}
use mentos_backend.Model.{Tenant, TenantStatus, is_blacklisted, Lease, is_ended, World}
use mentos_backend.Orm.{Orm, Documented, reference, orm-eq-reference}
use mentos_backend.Tenants
use mentos_backend.Documents.{External}
use mentos_backend.Leases.{terminate}
use mentos_backend.Leases.Occupancy.{terminated}

abbrev pub barred : Tenant → Tenant
barred t = record t { status = TenantStatus.blacklisted; unit_id = none; property_id = none }

abbrev pub moved_out : Tenant → Tenant
moved_out t = record t { status = TenantStatus.vacated; unit_id = none; property_id = none }

blacklist_ok :
    (code : Text) (w : World) (t : Tenant)
    → first (λ t. same t.code code) w.tenants ≡ some t
    → is_blacklisted t.status ≡ false
    → ((Tenants.blacklist reference code w).1.leases ≡ w.leases)
      × ((Tenants.blacklist reference code w).1.tenants
          ≡ change (λ r. r.id == t.id) barred w.tenants)
unfolding Tenants.blacklist
blacklist_ok code w t found welcome = elim (Option-cases t.unit_id) [
  | inl homeless ↦ (ground arith, ground arith)
  | inr (u, housed) ↦ (ground arith, ground arith)
]

terminate_ok :
    (ext : External) (code : Text) (w : World) (l : Lease)
    → first (λ l. same l.code code) w.leases ≡ some l
    → is_ended l.status ≡ false
    → (terminate reference ext code w).1.db ≡ terminated l w.db
unfolding terminate
terminate_ok ext code w l found going = ground arith

module _ (orm : Orm) (ext : External) (code lease_code : Text) (w : World) (t : Tenant)
    (l : Lease) where
  abbrev pub Forgotten : Type 0
  Forgotten =
      let w1 = (Tenants.blacklist orm code w).1 in
      let w2 = (terminate orm ext lease_code w1).1 in
      (first (λ r. same r.code code) w1.tenants ≡ some (barred t))
      × (first (λ r. same r.code lease_code) w1.leases ≡ some l)
      × (first (λ r. same r.code code) w2.tenants ≡ some (moved_out t))

forgotten_reference :
    (ext : External) (code lease_code : Text) (w : World) (t : Tenant) (l : Lease)
    → first (λ r. same r.code code) w.tenants ≡ some t
    → is_blacklisted t.status ≡ false
    → first (λ r. same r.code lease_code) w.leases ≡ some l
    → is_ended l.status ≡ false
    → l.tenant_id ≡ t.id
    → Forgotten reference ext code lease_code w t l
forgotten_reference ext code lease_code w t l found welcome has_lease going own =
    let w1 : World = (Tenants.blacklist reference code w).1 in
    let (same_leases, new_tenants) = blacklist_ok code w t found welcome in
    let kept : first (λ r. same r.code lease_code) w1.leases ≡ some l =
      ap (λ ls. first (λ r. same r.code lease_code) ls) same_leases ∙ has_lease in
    let once : first (λ r. same r.code code) w1.tenants ≡ some (barred t) =
      ap (λ ts. first (λ r. same r.code code) ts) new_tenants
      ∙ first-change (λ r. same r.code code) (λ r. r.id == t.id) barred t w.tenants (λ r. refl)
          (==_refl t.id) found in
    let twice : first (λ r. same r.code code)
          (change (λ r. r.id == l.tenant_id) moved_out w1.tenants)
        ≡ some (moved_out (barred t)) =
      first-change (λ r. same r.code code) (λ r. r.id == l.tenant_id) moved_out (barred t)
        w1.tenants (λ r. refl) (ground arith) once in
    (
      once,
      kept,
      ap (λ d. first (λ r. same r.code code) d.tenants)
            (terminate_ok ext lease_code w1 l kept going)
          ∙ twice,
    )

-- Blacklisting a tenant leaves their running lease as it is; terminating that lease afterwards
-- takes the tenant off the blacklist: the status becomes Vacated.
pub blacklist-Forgotten :
    (orm : Orm)
    → Documented orm
    → (ext : External) (code lease_code : Text) (w : World) (t : Tenant) (l : Lease)
    → first (λ r. same r.code code) w.tenants ≡ some t
    → is_blacklisted t.status ≡ false
    → first (λ r. same r.code lease_code) w.leases ≡ some l
    → is_ended l.status ≡ false
    → l.tenant_id ≡ t.id
    → Forgotten orm ext code lease_code w t l
blacklist-Forgotten orm documented = rw (orm-eq-reference orm documented) forgotten_reference
