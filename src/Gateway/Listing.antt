-- ===== src/Gateway/Listing.antt =====
-- RI/src/emcp_bus/gateway/server.py and cache.py: the handler of `tools/list`. A backend's catalogue
-- is an argument. The list of the credentials with which backends were asked is kept beside the
-- tools.
pub mod Visible
use mathlib.Core.List.{List, [], ◌∷◌, ◌++◌}
use enterprise_mcp_service_b.Base.{
  String, Bool, true, false, if◌then◌else◌, Option, none, some, Result, ok, err, contains, select,
  length,
}
use enterprise_mcp_service_b.Json.{ℤ, str, Json, Runtime}
use enterprise_mcp_service_b.Identity.{AccessToken}
use enterprise_mcp_service_b.Audit.Events.{client_authenticated, tools_list_filtered}
use enterprise_mcp_service_b.Downstream.{
  Provider, Surroundings, BackendCredential, CredentialError, unknown_backend,
  credential_unavailable, credential_for,
}
use enterprise_mcp_service_b.Entitlement.{
  EntitlementManager, EntitlementError, ResolvedEntitlement, resolve,
}
use enterprise_mcp_service_b.Fabric.{distinct_backends_for, sorted_names}
use enterprise_mcp_service_b.Gateway.{Gateway, World, emit_audit}

pub record Tool : Type 0 where
  pub name : String
  pub definition : Json

-- What `session.list_tools` comes back with, for a URL and a token.
pub data Catalogue : Type 0 where
  raised : String → Catalogue
  tools : List Tool → Catalogue

abbrev pub Catalogues : Type 0
Catalogues = String → String → Catalogue

pub data ListError : Type 0 where
  credential_raised : CredentialError → ListError
  downstream_raised : String → ListError
  -- `int` of the environment variable raised
  bad_ttl : ListError

pub record CacheHint : Type 0 where
  pub ttl_ms : ℤ
  pub scope : String

-- `ListToolsResult`; without a hint the two fields are the SDK's defaults.
pub record ListResult : Type 0 where
  pub tools : List Tool
  pub hint : Option CacheHint

abbrev or_default : Option String → String
or_default none = "5000"
or_default (some value) = value

-- `except (UnknownBackendError, BackendCredentialUnavailableError): continue`
abbrev pub is_skipped : CredentialError → Bool
is_skipped (unknown_backend b) = true
is_skipped (credential_unavailable reason) = true
is_skipped _ = false

-- The tools so far, and the credentials with which backends were asked.
abbrev pub Gathered : Type 0
Gathered = List Tool × List BackendCredential

module _ (rt : Runtime) where
  unfoldable pub tools_list_cache_hint : (String → Option String) → Result ListError CacheHint
  tools_list_cache_hint environ =
      elim (rt.int_of (str (or_default (environ "EMCP_TOOLS_LIST_CACHE_TTL_MS")))) [
        | none ↦ err bad_ttl
        | some ttl_ms ↦ ok (record { ttl_ms = ttl_ms; scope = "private" })
      ]

  module _ (around : Surroundings) (catalogues : Catalogues) (allowed : List String) where
    abbrev pub is_allowed : Tool → Bool
    is_allowed t = contains t.name allowed

    -- The loop over the backends
    unfoldable pub gather : List String → Gathered → Provider → Result ListError Gathered × Provider
    gather [] acc p = (ok acc, p)
    gather (backend_id ∷ rest) acc p =
        let (answer, p') = credential_for rt around backend_id p in
        elim answer [
          | ok c ↦ elim (catalogues c.url c.token) [
            | raised reason ↦ (err (downstream_raised reason), p')
            | tools ts ↦ gather rest (acc.0 ++ select is_allowed ts, acc.1 ++ c ∷ []) p'
          ]
          | err e ↦ if is_skipped e then gather rest acc p' else (err (credential_raised e), p')
        ]

  abbrev pub with_hint : List Tool → Result ListError CacheHint → Result ListError ListResult
  with_hint ts (err e) = err e
  with_hint ts (ok hint) = ok (record { tools = ts; hint = some hint })

  -- `w` is the world of the first event, `later` that of the second.
  module _ (w later : World) (catalogues : Catalogues) where
    abbrev pub on_gathered :
        ResolvedEntitlement
        → Gateway
        → Result ListError Gathered × Provider
        → Result ListError ListResult × Gateway
    on_gathered resolved g (err e, p) = (err e, record g { provider = p })
    on_gathered resolved g (ok (ts, asked), p) = (
      with_hint ts (tools_list_cache_hint w.around.environ),
      emit_audit rt later
          (tools_list_filtered resolved.client_id resolved.profile_name resolved.entitlement_version
            (length ts) (length resolved.allowed_tools))
          (record g { provider = p }),
    )

    abbrev pub list_for : ResolvedEntitlement → Gateway → Result ListError ListResult × Gateway
    list_for resolved g = on_gathered resolved g (
        gather w.around catalogues resolved.allowed_tools
          (sorted_names (distinct_backends_for resolved.allowed_tools g.registry)) ([], [])
          g.provider)

    abbrev pub on_resolve :
        Gateway
        → Result EntitlementError ResolvedEntitlement × EntitlementManager
        → Result ListError ListResult × Gateway
    on_resolve g (err e, m) = (ok (record { tools = []; hint = none }), record g { manager = m })
    on_resolve g (ok resolved, m) = list_for resolved (
        emit_audit rt w (client_authenticated resolved.client_id w.request_id)
          (record g { manager = m }))

    unfoldable pub on_list_tools : Gateway → Result ListError ListResult × Gateway
    unfolding emit_audit
    on_list_tools g = elim w.access [
      | none ↦ (ok (record { tools = []; hint = none }), g)
      | some token ↦ on_resolve g (resolve rt token.client_id g.manager)
    ]
