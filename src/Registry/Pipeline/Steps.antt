-- ===== src/Registry/Pipeline/Steps.antt =====
-- What `submit` and `publish` do to the store, on every branch.
use enterprise_mcp_service_b.Base.{
  ◌∙◌, Bool, true, false, Bool-cases, String, ◌≡◌, refl, ap, ◌≢◌, ◌⊎◌, inl, inr, ◌==◌, eq_refl,
  List, [], ◌∷◌, ok, err, arith, Result-cases, if◌then◌else◌,
}
use enterprise_mcp_service_b.Registry.Models.{
  CapabilityManifest, LifecycleStatus, nominate, review, register, active, with_status,
}
use enterprise_mcp_service_b.Registry.Lifecycle.{validate_transition, not_allowed}
use enterprise_mcp_service_b.Registry.Store.{
  RegistryStore, RegistryError, capability_not_found, invalid_transition, publishing_rejected,
  upsert, fetch, set_lifecycle_status,
}
use enterprise_mcp_service_b.Registry.Store.Rows.{
  fetch-upsert, IsConsistent, name-of_fetch, fetch-err,
}
use enterprise_mcp_service_b.Registry.Pipeline.{run_gates, submit, publish, transition}

fetch-upsert_self : (m : CapabilityManifest) (s : RegistryStore) → fetch m.name (upsert m s) ≡ ok m
fetch-upsert_self m s = simp (fetch-upsert, eq_refl)

pub set_lifecycle_status_lem :
    (name : String) (status : LifecycleStatus) (s : RegistryStore) (m : CapabilityManifest)
    → fetch name s ≡ ok m
    → set_lifecycle_status name status s ≡ (ok tt, upsert (with_status status m) s)
unfolding set_lifecycle_status
set_lifecycle_status_lem name status s m h = rw (h, set_lifecycle_status)

pub set_lifecycle_status_missing :
    (name : String) (status : LifecycleStatus) (s : RegistryStore) (e : RegistryError)
    → fetch name s ≡ err e
    → set_lifecycle_status name status s ≡ (err e, s)
unfolding set_lifecycle_status
set_lifecycle_status_missing name status s e h = rw (h, set_lifecycle_status)

-- The store that a successful `submit` leaves.
abbrev pub submitted : CapabilityManifest → RegistryStore → RegistryStore
submitted m s =
    upsert (with_status register m)
      (upsert (with_status review m) (upsert (with_status nominate m) s))

pub promoted :
    (m : CapabilityManifest) (s : RegistryStore)
    → run_gates m ≡ []
    → submit m s ≡ (ok (with_status register m), submitted m s)
unfolding submit transition validate_transition
promoted m s h =
    let s1 = upsert (with_status nominate m) s in
    let s2 = upsert (with_status review m) s1 in
    rw h (
      rw
        (set_lifecycle_status_lem m.name review s1 (with_status nominate m)
          (fetch-upsert_self (with_status nominate m) s))
        (rw
          (set_lifecycle_status_lem m.name register s2 (with_status review m)
            (fetch-upsert_self (with_status review m) s1))
          (rw (fetch-upsert_self (with_status register m) s2))))

pub fetch-submitted :
    (m : CapabilityManifest) (s : RegistryStore) (name : String)
    → fetch name (submitted m s)
      ≡ (if m.name == name then ok (with_status register m) else fetch name s)
fetch-submitted m s name = ground (
  arith,
  fetch-upsert (with_status register m)
      (upsert (with_status review m) (upsert (with_status nominate m) s)) name,
  fetch-upsert (with_status review m) (upsert (with_status nominate m) s) name,
  fetch-upsert (with_status nominate m) s name,
)

-- What `submit` does: past the gates it answers the manifest at REGISTER, which the store then holds
-- under that name, and every other name reads as before; else it raises the reasons of the gates and
-- the store is untouched.
pub submit_lem :
    (m : CapabilityManifest) (s : RegistryStore)
    → ((run_gates m ≡ [])
        × ((submit m s).0 ≡ ok (with_status register m))
        × ((name : String)
            → fetch name (submit m s).1
              ≡ (if m.name == name then ok (with_status register m) else fetch name s)))
      ⊎ ((run_gates m ≢ []) × (submit m s ≡ (err (publishing_rejected (run_gates m)), s)))
unfolding submit
submit_lem m s = go (run_gates m) refl
  where
    go :
        (reasons : List String)
        → run_gates m ≡ reasons
        → ((run_gates m ≡ [])
            × ((submit m s).0 ≡ ok (with_status register m))
            × ((name : String)
                → fetch name (submit m s).1
                  ≡ (if m.name == name then ok (with_status register m) else fetch name s)))
          ⊎ ((run_gates m ≢ []) × (submit m s ≡ (err (publishing_rejected (run_gates m)), s)))
    go [] e = inl (
      e,
      ap (λ p. p.0) (promoted m s e),
      λ name. ap (λ p. fetch name p.1) (promoted m s e) ∙ fetch-submitted m s name,
    )
    go (r ∷ rs) e = inr (λ p. cc, rw e)

-- The statuses from which `publish` may go on to ACTIVE.
abbrev pub is_publishable : LifecycleStatus → Bool
is_publishable register = true
is_publishable active = true
is_publishable _ = false

transition-active :
    (t : LifecycleStatus) (s : RegistryStore)
    → transition t active s ≡ (
        if is_publishable t
        then (ok tt, s)
        else (err (invalid_transition (not_allowed t active)), s))
unfolding transition validate_transition
transition-active nominate s = refl
transition-active _ s = refl

pub publish_found :
    (name : String) (s : RegistryStore) (m : CapabilityManifest)
    → fetch name s ≡ ok m
    → m.name ≡ name
    → publish name s ≡ (
        if is_publishable m.lifecycle.status
        then (ok (with_status active m), upsert (with_status active m) s)
        else (err (invalid_transition (not_allowed m.lifecycle.status active)), s))
unfolding publish
publish_found name s m h same = elim (Bool-cases (is_publishable m.lifecycle.status)) [
  | inl e ↦ rw h (
      rw transition-active (
        rw e (
          rw (set_lifecycle_status_lem name active s m h)
            (rw (← same) (rw (fetch-upsert_self (with_status active m) s))))))
  | inr e ↦ rw h (rw transition-active (rw e))
]

-- The capability was at REGISTER or ACTIVE, and is answered and stored as ACTIVE.
abbrev pub Published : String → RegistryStore → Type 0
Published name s =
    (m : CapabilityManifest) × (fetch name s ≡ ok m)
    × (is_publishable m.lifecycle.status ≡ true)
    × ((publish name s).0 ≡ ok (with_status active m))
    × ((other : String)
        → fetch other (publish name s).1
          ≡ (if name == other then ok (with_status active m) else fetch other s))

-- The capability was at another status, and nothing changed.
abbrev pub Unpublishable : String → RegistryStore → Type 0
Unpublishable name s =
    (m : CapabilityManifest) × (fetch name s ≡ ok m)
    × (is_publishable m.lifecycle.status ≡ false)
    × (publish name s ≡ (err (invalid_transition (not_allowed m.lifecycle.status active)), s))

-- What `publish` does in a consistent store: a capability at REGISTER or ACTIVE is answered and
-- stored as ACTIVE and every other name reads as before; one at any other status, or an unknown
-- name, raises and leaves the store untouched.
pub publish_lem :
    (name : String) (s : RegistryStore)
    → IsConsistent s
    → Published name s
      ⊎ Unpublishable name s
      ⊎ (publish name s ≡ (err (capability_not_found name), s))
unfolding publish
publish_lem name s h = elim (Result-cases (fetch name s)) [
  | inl (m, f) ↦ found m f (Bool-cases (is_publishable m.lifecycle.status))
  | inr (e, f) ↦ inr (inr (rw f (rw (fetch-err s name e f))))
]
  where
    found :
        (m : CapabilityManifest)
        → fetch name s ≡ ok m
        → (is_publishable m.lifecycle.status ≡ true) ⊎ (is_publishable m.lifecycle.status ≡ false)
        → Published name s
          ⊎ Unpublishable name s
          ⊎ (publish name s ≡ (err (capability_not_found name), s))
    found m f (inl e) =
        let same = name-of_fetch s name m h f in
        let done : publish name s ≡ (ok (with_status active m), upsert (with_status active m) s) =
          publish_found name s m f same ∙ rw e in
        inl (
          m,
          f,
          e,
          ap (λ p. p.0) done,
          λ other.
              ap (λ p. fetch other p.1) done
              ∙ rw (← same) (fetch-upsert (with_status active m) s other),
        )
    found m f (inr e) =
        inr (inl (m, f, e, publish_found name s m f (name-of_fetch s name m h f) ∙ rw e))
