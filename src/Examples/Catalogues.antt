-- ===== src/Examples/Catalogues.antt =====
-- The registry against its contract, and agents that share a client.
use mathlib.Core.List.{List, [], ◌∷◌}
use enterprise_mcp_service_b.Base.{◌≡◌, refl, ◌↔◌, inl, ok, Member, get, put}
use enterprise_mcp_service_b.Base.Sort.{sort_by, insert}
use enterprise_mcp_service_b.Registry.Models.{retired}
use enterprise_mcp_service_b.Registry.Pipeline.Governance.{empty-IsSound}
use enterprise_mcp_service_b.Registry.Catalogue.{
  Op, submits, publishes, sets, apply_all, promise_all, view, apply_all_refines,
}
use enterprise_mcp_service_b.Identity.{ClientRegistration, production}
use enterprise_mcp_service_b.Identity.SharedClients.{
  profiles_by_client, find_shared_client_violations, find_shared_client_violations_iff,
}
use enterprise_mcp_service_b.Entitlement.{load_registrations, entitled, resolve}
use enterprise_mcp_service_b.Entitlement.Shared.{shared_client_resolves}
use enterprise_mcp_service_b.Examples.Samples.{rt, manifest, manager, registration, profile}

abbrev operations : List Op
operations =
    publishes "crm.read" ∷ submits manifest ∷ publishes "crm.read" ∷ sets "crm.read" retired ∷ []

apply_all_refines_example :
    ((apply_all operations []).0 ≡ (promise_all operations (view [])).0)
    × (view (apply_all operations []).1 ≡ (promise_all operations (view [])).1)
apply_all_refines_example = apply_all_refines operations [] empty-IsSound.consistent

abbrev elsewhere : ClientRegistration
elsewhere = record registration { profile = "Other.Profile" }

find_shared_client_violations_iff_example :
    (find_shared_client_violations rt (registration ∷ elsewhere ∷ []) ≡ []) ↔ (
      (r r' : ClientRegistration)
      → Member r (registration ∷ elsewhere ∷ [])
      → Member r' (registration ∷ elsewhere ∷ [])
      → r.client_id ≡ r'.client_id
      → r.profile ≡ r'.profile)
find_shared_client_violations_iff_example =
    find_shared_client_violations_iff rt (registration ∷ elsewhere ∷ [])

abbrev twin : ClientRegistration
twin = record registration { environment = production }

clean : find_shared_client_violations rt (registration ∷ twin ∷ []) ≡ []
unfolding find_shared_client_violations profiles_by_client get put sort_by insert
clean = refl

shared_client_resolves_example :
    (resolve rt "agent" (load_registrations (registration ∷ twin ∷ []) manager)).0
    ≡ ok (entitled rt "v1" "agent" profile)
unfolding get
shared_client_resolves_example =
    shared_client_resolves rt (registration ∷ twin ∷ []) manager registration profile clean
      (inl refl) refl
