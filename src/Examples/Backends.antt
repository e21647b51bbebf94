-- ===== src/Examples/Backends.antt =====
-- Policies, entitlements, routes and backend credentials on the samples.
use mathlib.Core.List.{[], ◌∷◌}
use enterprise_mcp_service_b.Base.{
  String, ◌≡◌, ◌≢◌, refl, ◌⊎◌, true, none, some, ok, err, get, put, Dict, Every, Every-put, values,
}
use enterprise_mcp_service_b.Base.Sort.{sort_by, insert}
use enterprise_mcp_service_b.Json.{str, get_field}
use enterprise_mcp_service_b.Registry.Store.{list_active, upsert}
use enterprise_mcp_service_b.Registry.Store.Rows.{IsConsistent, upsert-IsConsistent}
use enterprise_mcp_service_b.Registry.Pipeline.Governance.{empty-IsSound}
use enterprise_mcp_service_b.Downstream.{
  BackendConfig, TokenExchangeClient, accepts, credential_for, exchange, fresh_exchange,
  looks_like_an_env_var_name,
}
use enterprise_mcp_service_b.Downstream.Exchange.{Hit, Renewed, exchange_lem}
use enterprise_mcp_service_b.Pdp.{PdpDecision, allow}
use enterprise_mcp_service_b.Entitlement.{
  ClientProfile, ResolvedEntitlement, EntitlementManager, unknown_client, resolve, cached,
  revoke_client, revoke_profile, drop_profile,
}
use enterprise_mcp_service_b.Entitlement.Resolution.{
  Registered, Entitles, resolve_lem, revoke_client_lem,
}
use enterprise_mcp_service_b.Fabric.{route, route_of, active_manifest, find_named}
use enterprise_mcp_service_b.Examples.Samples.{
  rt, manager, resolved, registry, live, provider, around, config, credential, idp,
}

abbrev decision : PdpDecision
decision = record { outcome = allow; policy_version = "v1"; reason_code = "ALLOWED" }

resolves : (resolve rt "agent" manager).0 ≡ ok resolved
unfolding resolve get
resolves = refl

resolve_lem_example :
    ((p : ClientProfile) × (r : ResolvedEntitlement) × Registered rt "agent" manager p
      × Entitles rt "agent" manager p r
      × ((other : Dict ResolvedEntitlement)
          → resolve rt "agent" (record manager { cache = other })
            ≡ (ok r, record manager { cache = put other "agent" r })))
    ⊎ (((p : ClientProfile) → ¬ Registered rt "agent" manager p)
        × (resolve rt "agent" manager ≡ (err (unknown_client "agent"), manager)))
resolve_lem_example = resolve_lem rt "agent" manager

revoke_client_lem_example :
    ((resolve rt "agent" (revoke_client "agent" manager)).0 ≡ err (unknown_client "agent"))
    × (cached "agent" (revoke_client "agent" manager) ≡ none)
    × (◌≢◌ {A = String} "agent" "other"
        → (get (revoke_client "agent" manager).registrations "other"
            ≡ get manager.registrations "other")
          × (cached "other" (revoke_client "agent" manager) ≡ cached "other" manager))
revoke_client_lem_example = revoke_client_lem rt "agent" "other" manager

abbrev warm : EntitlementManager
warm = record manager { cache = ("agent", resolved) ∷ [] }

still_cached : cached "agent" (revoke_profile "Other.Profile" warm) ≡ some resolved
unfolding cached revoke_profile drop_profile get
still_cached = refl

consistent : IsConsistent registry
consistent = upsert-IsConsistent live [] empty-IsSound.consistent

routed : (route rt around "crm.read" registry provider).0 ≡ ok (route_of "crm.read" live credential)
unfolding route active_manifest find_named list_active upsert put get values sort_by insert
    credential_for
routed = refl

accepted : Every (λ (c : BackendConfig). accepts c ≡ true) provider.configs
unfolding put get accepts looks_like_an_env_var_name
accepted =
    Every-put (λ (c : BackendConfig). accepts c ≡ true) [] "crm-server" config (λ k v e. cc) refl

abbrev client : TokenExchangeClient
client = record { expiry_margin_seconds = 10; cache = [] }

exchanged : (exchange rt idp 0 "http://idp" "crm-server" "crm" "read" client).0 ≡ ok (str "theirs")
unfolding exchange fresh_exchange get get_field
exchanged = refl

exchange_lem_example :
    Hit rt idp 0 "http://idp" "crm-server" "crm" "read" client
      (str "theirs")
      (exchange rt idp 0 "http://idp" "crm-server" "crm" "read" client).1
    ⊎ Renewed rt idp 0 "http://idp" "crm-server" "crm" "read" client
        (str "theirs")
        (exchange rt idp 0 "http://idp" "crm-server" "crm" "read" client).1
exchange_lem_example =
    exchange_lem rt idp 0 "http://idp" "crm-server" "crm" "read" client (str "theirs") exchanged
