-- ===== src/Fabric/Routes.antt =====
-- Where a call is routed.
use enterprise_mcp_service_b.Base.{
  String, ◌≡◌, ◌≢◌, sym, subst, ◌==◌, eq_iff, inl, inr, none, some, List, [], ◌∷◌, ok, Result-cases,
  arith, Option-cases, Bool-cases, Member, some_inj,
}
use enterprise_mcp_service_b.Json.{Runtime}
use enterprise_mcp_service_b.Registry.Models.{CapabilityManifest, active}
use enterprise_mcp_service_b.Registry.Store.{RegistryStore, list_active, fetch}
use enterprise_mcp_service_b.Registry.Store.Rows.{IsConsistent, list_active_lem}
use enterprise_mcp_service_b.Downstream.{Provider, Surroundings, BackendCredential, credential_for}
use enterprise_mcp_service_b.Fabric.{BackendRoute, find_named, active_manifest, route, route_of}

find_named-found :
    (tool : String) (ms : List CapabilityManifest) (m : CapabilityManifest)
    → find_named tool ms ≡ some m
    → Member m ms × (m.name ≡ tool)
unfolding find_named
find_named-found tool [] m h = cc
find_named-found tool (x ∷ xs) m h = elim (Bool-cases (x.name == tool)) [
  | inl e ↦
      let same : x ≡ m = some_inj (rw e at h) in
      (
        inl (sym same),
        subst (λ (m : CapabilityManifest). m.name ≡ tool) same ((eq_iff x.name tool).0 e),
      )
  | inr e ↦ let r = find_named-found tool xs m (rw e at h) in (inr r.0, r.1)
]

find_named-absent :
    (tool : String) (ms : List CapabilityManifest)
    → find_named tool ms ≡ none
    → (m : CapabilityManifest) → Member m ms
    → m.name ≢ tool
unfolding find_named
find_named-absent tool [] h m mem = absurd mem
find_named-absent tool (x ∷ xs) h m (inl same) = λ e. ground (arith, h, same, e, eq_iff x.name tool)
find_named-absent tool (x ∷ xs) h m (inr mem) = elim (Bool-cases (x.name == tool)) [
  | inl e ↦ absurd (ground (arith, h, e))
  | inr e ↦ find_named-absent tool xs (rw e at h) m mem
]

-- The registry holds the manifest under the tool's name with status ACTIVE.
abbrev pub Serves : RegistryStore → String → CapabilityManifest → Type 0
Serves s tool m = (fetch tool s ≡ ok m) × (m.name ≡ tool) × (m.lifecycle.status ≡ active)

pub active_manifest-Serves :
    (s : RegistryStore) (tool : String) (m : CapabilityManifest)
    → IsConsistent s
    → active_manifest tool s ≡ some m
    → Serves s tool m
unfolding active_manifest
active_manifest-Serves s tool m c h =
    let (mem, named) = find_named-found tool (list_active s) m h in
    let (f, on) = (list_active_lem s m c).0 mem in
    (subst (λ n. fetch n s ≡ ok m) named f, named, on)

pub active_manifest-none :
    (s : RegistryStore) (tool : String)
    → IsConsistent s
    → active_manifest tool s ≡ none
    → (m : CapabilityManifest) → ¬ Serves s tool m
unfolding active_manifest
active_manifest-none s tool c h m (f, named, on) =
    find_named-absent tool (list_active s) h m
      ((list_active_lem s m c).1 (subst (λ n. fetch n s ≡ ok m) (sym named) f, on)) named

module _ (rt : Runtime) (around : Surroundings) (tool : String) (s : RegistryStore)
    (p : Provider) where
  -- A route leads to the backend of an ACTIVE manifest of that very name, with the credential of that
  -- backend.
  pub route_lem :
      (r : BackendRoute)
      → IsConsistent s
      → (route rt around tool s p).0 ≡ ok r
      → (m : CapabilityManifest) × (c : BackendCredential) × Serves s tool m
        × ((credential_for rt around m.backend.service p).0 ≡ ok c)
        × (r ≡ route_of tool m c)
  unfolding route
  route_lem r k h = elim (Option-cases (active_manifest tool s)) [
    | inl e ↦ absurd (ground (arith, e, h))
    | inr (m, e) ↦ elim (Result-cases (credential_for rt around m.backend.service p).0) [
      | inr (x, f) ↦ absurd (ground (arith, e, f, h))
      | inl (c, f) ↦ (m, c, active_manifest-Serves s tool m k e, f, ground (arith, e, f, h))
    ]
  ]

  pub route-of_manifest :
      (m : CapabilityManifest) (c : BackendCredential)
      → active_manifest tool s ≡ some m
      → (credential_for rt around m.backend.service p).0 ≡ ok c
      → (route rt around tool s p).0 ≡ ok (route_of tool m c)
  unfolding route
  route-of_manifest m c e f = ground (arith, e, f)
