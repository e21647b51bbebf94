-- ===== src/Examples/Starts.antt =====
-- A Gateway that starts and runs, and a journey that ends.
use mathlib.Core.List.{List, [], ◌∷◌}
use enterprise_mcp_service_b.Base.{◌≡◌, refl, true, ok, put, get, dict_of}
use enterprise_mcp_service_b.Registry.Lifecycle.{validate_transition, allowed_transitions}
use enterprise_mcp_service_b.Registry.Store.{set_lifecycle_status, fetch, upsert, RegistryStore}
use enterprise_mcp_service_b.Registry.Pipeline.{
  is_blank, run_gates, transition, submit, publish, publish_all,
}
use enterprise_mcp_service_b.Pdp.{ProfileDocuments, push_client_profile}
use enterprise_mcp_service_b.Entitlement.{
  profile_document, load_registrations, load_profiles, sync_profiles_to_pdp,
}
use enterprise_mcp_service_b.Gateway.{Gateway}
use enterprise_mcp_service_b.Gateway.Histories.{Happening, calls, revokes_client, after, Accounted}
use enterprise_mcp_service_b.Gateway.Startup.{
  GatewayConfig, ConfigFiles, from_env, gateway_of, manager_of, lifespan,
}
use enterprise_mcp_service_b.Gateway.Startup.Started.{Started, lifespan_lem, history-Accounted}
use enterprise_mcp_service_b.Examples.Samples.{
  rt, manifest, registration, profile, config, around, world, params,
}

abbrev files : ConfigFiles
files = record {
  policies = record { name = "transaction.rego"; contents = "package emcp" } ∷ [];
  registrations = ok (registration ∷ []);
  profiles = ok (profile ∷ []);
  backends = ok (config ∷ []);
  capabilities = ok (manifest ∷ []);
}

abbrev settings : GatewayConfig
settings = from_env around.environ "/repo/config"

abbrev seeded : RegistryStore
seeded = (publish_all (manifest ∷ []) []).1

abbrev started : Gateway
started =
    gateway_of rt files (λ name document. true) settings [] []
      (manager_of rt files (λ name document. true) (registration ∷ []) (profile ∷ [])) (config ∷ [])
      seeded

abbrev documents : ProfileDocuments
documents = ("Sales.Read", profile_document true profile) ∷ []

starts : lifespan rt files (λ name document. true) settings [] [] [] ≡ (ok started, documents)
unfolding lifespan load_registrations load_profiles sync_profiles_to_pdp push_client_profile
    publish_all submit publish run_gates is_blank transition validate_transition allowed_transitions
    set_lifecycle_status fetch upsert put get dict_of
starts = refl

lifespan_lem_example : Started rt files (λ name document. true) [] started documents
lifespan_lem_example =
    lifespan_lem rt files (λ name document. true) settings [] [] [] documents started starts

abbrev history : List Happening
history = calls world params ∷ revokes_client "agent" ∷ calls world params ∷ []

history-Accounted_example : Accounted rt started history (after rt history started).sent
history-Accounted_example =
    history-Accounted rt files (λ name document. true) settings [] [] [] documents started starts
      history
