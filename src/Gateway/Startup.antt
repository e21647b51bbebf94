-- ===== src/Gateway/Startup.antt =====
-- RI/src/emcp_bus/gateway/server.py: the configuration, and how `lifespan` builds the state. What the
-- files of the configuration hold is an argument, as is which documents OPA takes.
pub mod Started
use mathlib.Core.List.{List, [], ◌∷◌}
use enterprise_mcp_service_b.Base.{
  String, Bool, true, false, not, ◌&&◌, Option, none, some, Result, ok, err, Dict, dict_of, ◌==◌,
  ◌<>◌, if◌then◌else◌,
}
use enterprise_mcp_service_b.Base.Exec.{Exec, ◌>>=◌, ◌>>◌, pure, lift}
use enterprise_mcp_service_b.Json.{Fields, Runtime}
use enterprise_mcp_service_b.Identity.{ClientRegistration}
use enterprise_mcp_service_b.Registry.Models.{CapabilityManifest}
use enterprise_mcp_service_b.Registry.Store.{RegistryStore, RegistryError}
use enterprise_mcp_service_b.Registry.Pipeline.{publish_all}
use enterprise_mcp_service_b.Audit.Correlation.{Span}
use enterprise_mcp_service_b.Audit.Events.{AuditLog}
use enterprise_mcp_service_b.Downstream.{BackendConfig, Provider, TokenExchangeClient}
use enterprise_mcp_service_b.Pdp.{PdpError, PolicyFile, ProfileDocuments, compute_policy_version}
use enterprise_mcp_service_b.Entitlement.{
  ClientProfile, EntitlementManager, load_registrations, load_profiles, sync_profiles_to_pdp,
}
use enterprise_mcp_service_b.Gateway.{Gateway}

pub record GatewayConfig : Type 0 where
  pub opa_url : String
  pub config_dir : String
  pub oidc_jwks_url : String
  pub oidc_issuer : String
  pub oidc_audience : String
  pub audit_log_path : String
  pub token_exchange_client_id : String
  pub token_exchange_client_secret : String

-- `os.environ.get(name, default)`
abbrev or_default : Option String → String → String
or_default none default = default
or_default (some value) default = value

-- `GatewayConfig.from_env`; the directory `config` of the repository is an argument.
unfoldable pub from_env : (String → Option String) → String → GatewayConfig
from_env environ repo_config = record {
  opa_url = or_default (environ "OPA_URL") "http://127.0.0.1:8181";
  config_dir = or_default (environ "EMCP_CONFIG_DIR") repo_config;
  oidc_jwks_url = or_default (environ "OIDC_JWKS_URL") "";
  oidc_issuer = or_default (environ "OIDC_ISSUER") "";
  oidc_audience = or_default (environ "OIDC_AUDIENCE") "emcp-gateway";
  audit_log_path = or_default (environ "EMCP_AUDIT_LOG_PATH") "/tmp/emcp-audit.jsonl";
  token_exchange_client_id = or_default (environ "GATEWAY_TOKEN_EXCHANGE_CLIENT_ID") "";
  token_exchange_client_secret = or_default (environ "GATEWAY_TOKEN_EXCHANGE_CLIENT_SECRET") "";
}

-- What the loaders read under the configuration's directory; each may raise.
pub record ConfigFiles : Type 0 where
  pub policies : List PolicyFile
  pub registrations : Result String (List ClientRegistration)
  pub profiles : Result String (List ClientProfile)
  pub backends : Result String (List BackendConfig)
  pub capabilities : Result String (List CapabilityManifest)

pub data StartupError : Type 0 where
  config_error : String → StartupError
  pdp_failed : PdpError → StartupError
  registry_failed : RegistryError → StartupError

abbrev is_set : String → Bool
is_set text = not (text == "")

-- The token exchange client, only where both its id and its secret are set
unfoldable pub exchange_client : GatewayConfig → Option TokenExchangeClient
exchange_client config =
    if is_set config.token_exchange_client_id && is_set config.token_exchange_client_secret
    then some (record { expiry_margin_seconds = 5; cache = [] })
    else none

abbrev config_key : BackendConfig → String
config_key c = c.backend

abbrev reading : {A : Type 0} → Result String A → Result StartupError A
reading (ok a) = ok a
reading (err e) = err (config_error e)

abbrev pushing :
    Result PdpError Unit × ProfileDocuments → Result StartupError Unit × ProfileDocuments
pushing (ok u, docs) = (ok u, docs)
pushing (err e, docs) = (err (pdp_failed e), docs)

abbrev seeded : Result RegistryError Unit × RegistryStore → Result StartupError RegistryStore
seeded (ok u, s) = ok s
seeded (err e, s) = err (registry_failed e)

module _ (rt : Runtime) (files : ConfigFiles) (accepts : String → Fields → Bool) where
  -- The manager before anything is loaded
  abbrev empty_manager : EntitlementManager
  empty_manager = record {
    policy_version = compute_policy_version rt files.policies;
    registrations = [];
    profiles = [];
    cache = [];
  }

  abbrev pub manager_of : List ClientRegistration → List ClientProfile → EntitlementManager
  manager_of registrations profiles =
      load_profiles profiles (load_registrations registrations empty_manager)

  abbrev pub gateway_of :
      GatewayConfig
      → AuditLog
      → Span
      → EntitlementManager
      → List BackendConfig
      → RegistryStore
      → Gateway
  gateway_of config log span manager backends registry = record {
    manager = manager;
    registry = registry;
    provider = record {
      configs = dict_of config_key backends;
      token_exchange_client = exchange_client config;
    };
    approvals = record { requests = []; audited = true; log = log };
    span = span;
    sent = [];
  }

  -- `lifespan`, up to its `yield`: the log is what the audit file holds, and the span what is current.
  unfoldable pub lifespan :
      GatewayConfig → AuditLog → Span → Exec ProfileDocuments StartupError Gateway
  lifespan config log span = do
    registrations ← lift (reading files.registrations)
    profiles ← lift (reading files.profiles)
    λ docs. pushing (sync_profiles_to_pdp accepts (manager_of registrations profiles).profiles docs)
    backends ← lift (reading files.backends)
    capabilities ← lift (reading files.capabilities)
    registry ← lift (seeded (publish_all capabilities []))
    pure (gateway_of config log span (manager_of registrations profiles) backends registry)

-- `_current_state`, and `get_current_state`
unfoldable pub get_current_state : Option Gateway → Result String Gateway
get_current_state none = err "Gateway is not running (lifespan has not started)"
get_current_state (some state) = ok state

pub record AuthSettings : Type 0 where
  pub issuer_url : String
  pub resource_server_url : String
  pub validate_token_resource : Bool

-- The token verifier, by what it is built from
pub record Verifier : Type 0 where
  pub jwks_url : String
  pub issuer : String
  pub audience : String
  pub resource : String

-- `build_auth`, where the configured issuer is a URL
unfoldable pub build_auth : GatewayConfig → Option AuthSettings × Option Verifier
build_auth config =
    if is_set config.oidc_jwks_url && is_set config.oidc_issuer
    then (
      some (record {
        issuer_url = config.oidc_issuer;
        resource_server_url = "https://emcp-bus.internal/" <> config.oidc_audience;
        validate_token_resource = false;
      }),
      some (record {
        jwks_url = config.oidc_jwks_url;
        issuer = config.oidc_issuer;
        audience = config.oidc_audience;
        resource = config.oidc_audience;
      }),
    )
    else (none, none)
