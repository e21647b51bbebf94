-- ===== src/Entitlement/Shared.antt =====
-- Agents that share an MCP Client resolve to the profile that each of them is registered against.
use enterprise_mcp_service_b.Base.{String, ◌≡◌, refl, some, ok, List, [], Member, get, get-dict_of}
use enterprise_mcp_service_b.Json.{Runtime}
use enterprise_mcp_service_b.Identity.{ClientRegistration}
use enterprise_mcp_service_b.Identity.SharedClients.{
  find_shared_client_violations, find_shared_client_violations_iff,
}
use enterprise_mcp_service_b.Entitlement.{
  ClientProfile, EntitlementManager, registration_key, load_registrations, entitled, resolve,
}

resolve_found :
    (rt : Runtime) (client_id : String) (m : EntitlementManager) (k : ClientRegistration)
    (p : ClientProfile)
    → get m.registrations client_id ≡ some k
    → get m.profiles k.profile ≡ some p
    → (resolve rt client_id m).0 ≡ ok (entitled rt m.policy_version client_id p)
unfolding resolve
resolve_found rt client_id m k p e f = rw (e, resolve) (rw f refl)

module _ (rt : Runtime) (rs : List ClientRegistration) (m : EntitlementManager) where
  loaded :
      (r : ClientRegistration)
      → find_shared_client_violations rt rs ≡ []
      → Member r rs
      → (k : ClientRegistration) × (get (load_registrations rs m).registrations r.client_id
          ≡ some k)
        × (k.profile ≡ r.profile)
  unfolding load_registrations
  loaded r clean held =
      get-dict_of registration_key r.client_id (λ k. k.profile ≡ r.profile) rs r held refl
        (λ k there e. (find_shared_client_violations_iff rt rs).0 clean k r there held e)

  -- Where the lint passes, each agent's client resolves to the profile of that agent's own
  -- registration, whichever registrations of the client stand beside it and in whatever order.
  pub shared_client_resolves :
      (r : ClientRegistration) (p : ClientProfile)
      → find_shared_client_violations rt rs ≡ []
      → Member r rs
      → get m.profiles r.profile ≡ some p
      → (resolve rt r.client_id (load_registrations rs m)).0
        ≡ ok (entitled rt m.policy_version r.client_id p)
  unfolding load_registrations
  shared_client_resolves r p clean held at =
      let (k, e, same) = loaded r clean held in
      resolve_found rt r.client_id (load_registrations rs m) k p e (rw same at)
