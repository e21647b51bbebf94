-- ===== src/Fabric/Backends.antt =====
-- The backends that serve a set of tools.
use enterprise_mcp_service_b.Base.{
  String, ◌≡◌, refl, ap, ◌∙◌, ◌==◌, eq_iff, ◌⊎◌, inl, inr, ◌↔◌, true, List, [], ◌∷◌, arith,
  Bool-cases, Member, contains, Member-select, Member-of_select,
}
use enterprise_mcp_service_b.Base.Sort.{Member-sort_by, Member-of_sort_by}
use enterprise_mcp_service_b.Registry.Models.{CapabilityManifest}
use enterprise_mcp_service_b.Registry.Store.{RegistryStore, list_active}
use enterprise_mcp_service_b.Fabric.{
  add_service, services, active_capabilities_for, distinct_backends_for, sorted_names,
}

pub contains-of_Member : (x : String) (xs : List String) → Member x xs → contains x xs ≡ true
contains-of_Member x [] h = absurd h
contains-of_Member x (y ∷ ys) (inl e) = ground (arith, (eq_iff x y).1 e)
contains-of_Member x (y ∷ ys) (inr m) = ground (arith, contains-of_Member x ys m)

pub Member-of_contains : (x : String) (xs : List String) → contains x xs ≡ true → Member x xs
Member-of_contains x [] h = absurd (ground (arith, h))
Member-of_contains x (y ∷ ys) h = elim (Bool-cases (x == y)) [
  | inl e ↦ inl ((eq_iff x y).0 e)
  | inr e ↦ inr (Member-of_contains x ys (rw e at h))
]

Member-add_service :
    (b name : String) (names : List String)
    → Member b (add_service name names)
    → (b ≡ name) ⊎ Member b names
Member-add_service b name names h = elim (Bool-cases (contains name names)) [
  | inl e ↦ inr (rw e at h)
  | inr e ↦ rw e at h
]

add_service-Member :
    (b name : String) (names : List String)
    → (b ≡ name) ⊎ Member b names
    → Member b (add_service name names)
add_service-Member b name names h = elim (Bool-cases (contains name names)) [
  | inl e ↦ rw e (elim h [ inl q ↦ rw q (Member-of_contains name names e) | inr m ↦ m ])
  | inr e ↦ rw e h
]

abbrev pub ServedBy : String → List CapabilityManifest → Type 0
ServedBy b ms = (m : CapabilityManifest) × Member m ms × (b ≡ m.backend.service)

services-of : (b : String) (ms : List CapabilityManifest) → Member b (services ms) → ServedBy b ms
unfolding services
services-of b [] h = absurd h
services-of b (m ∷ ms) h = elim (Member-add_service b m.backend.service (services ms) h) [
  | inl e ↦ (m, inl refl, e)
  | inr r ↦ let (n, there, e) = services-of b ms r in (n, inr there, e)
]

services-has : (b : String) (ms : List CapabilityManifest) → ServedBy b ms → Member b (services ms)
unfolding services
services-has b [] (m, there, e) = absurd there
services-has b (n ∷ ms) (m, inl same, e) =
    add_service-Member b n.backend.service (services ms)
      (inl (e ∙ ap (λ (m : CapabilityManifest). m.backend.service) same))
services-has b (n ∷ ms) (m, inr there, e) =
    add_service-Member b n.backend.service (services ms) (inr (services-has b ms (m, there, e)))

-- The backends that are asked for their tools are those that serve an ACTIVE capability whose name
-- is among the allowed tools, and all of those.
pub backends_iff :
    (b : String) (allowed : List String) (s : RegistryStore)
    → Member b (sorted_names (distinct_backends_for allowed s)) ↔ (
        (m : CapabilityManifest) × Member m (list_active s)
        × (contains m.name allowed ≡ true)
        × (b ≡ m.backend.service))
unfolding sorted_names distinct_backends_for active_capabilities_for
backends_iff b allowed s = (
  λ h.
      let (m, there, e) =
        services-of b (active_capabilities_for allowed s) (Member-of_sort_by _ b _ h) in
      let (at, ok) = Member-of_select _ m (list_active s) there in (m, at, ok, e),
  λ (m, at, ok, e). Member-sort_by _ b _ (
      services-has b (active_capabilities_for allowed s)
        (m, Member-select _ m (list_active s) at ok, e)),
)
