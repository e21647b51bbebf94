-- ===== src/Examples/Samples.antt =====
-- Concrete inputs for the examples.
use mathlib.Core.List.{[], ◌∷◌}
use enterprise_mcp_service_b.Base.{Bool, true, false, Option, none, some, if◌then◌else◌, ◌==◌}
use enterprise_mcp_service_b.Risk.{r1}
use enterprise_mcp_service_b.Json.{
  ℤ, Json, int, str, bool, obj, field, end, pos, Runtime, HttpReply, http_error, answered,
}
use enterprise_mcp_service_b.Registry.Models.{
  CapabilityManifest, active, mcp, standard, internal, default_lifecycle, with_status,
}
use enterprise_mcp_service_b.Registry.Store.{RegistryStore, upsert}
use enterprise_mcp_service_b.Audit.Events.{Stamp}
use enterprise_mcp_service_b.Approval.{ApprovalService, Operation}
use enterprise_mcp_service_b.Identity.{dev, ClientRegistration, AccessToken}
use enterprise_mcp_service_b.Downstream.{
  BackendConfig, service_account, BackendCredential, Provider, Surroundings, Idp,
}
use enterprise_mcp_service_b.Pdp.{Opa}
use enterprise_mcp_service_b.Entitlement.{
  ClientProfile, EntitlementManager, ResolvedEntitlement, entitled,
}
use enterprise_mcp_service_b.Entitlement as Entitlement
use enterprise_mcp_service_b.Gateway.{Gateway, World, CallParams, Sent, ToolResult, tool_result}

abbrev read_int : Json → Option ℤ
read_int (int n) = some n
read_int (str s) = if s == "5000" then some (pos 5_000) else none
read_int _ = none

abbrev pub rt : Runtime
rt = record {
  sha256 = λ s. s;
  str_of = λ j. "text";
  repr_of = λ j. "repr";
  dumps = λ j. "document";
  model_json = λ j. "model";
  int_of = read_int;
}

abbrev pub manifest : CapabilityManifest
manifest = record {
  name = "crm.read";
  version = "1.0.0";
  domain = "crm";
  owner = "sales";
  risk_tier = r1;
  side_effects = false;
  idempotent = true;
  data_classification = internal ∷ [];
  entitlements = "Sales.Read" ∷ [];
  backend = record { type = mcp; service = "crm-server"; operation = none };
  approval = record { required = false };
  observability = record { audit_level = standard };
  lifecycle = default_lifecycle;
}

abbrev pub live : CapabilityManifest
live = with_status active manifest

abbrev pub registry : RegistryStore
registry = upsert live []

abbrev pub stamp : Stamp
stamp = record { event_id = "e1"; timestamp = 7; trace_id = none }

abbrev pub no_approvals : ApprovalService
no_approvals = record { requests = []; audited = true; log = [] }

abbrev pub operation : Operation
operation = record { client_profile = "Sales.Read"; tool = "crm.read"; arguments = end }

abbrev pub profile : ClientProfile
profile = record {
  name = "Sales.Read";
  owner = "sales";
  environment = dev;
  risk_ceiling = r1;
  allowed_tools = "crm.read" ∷ [];
  restrictions = record {
    max_transaction_value = none;
    allowed_regions = none;
    approval_threshold = none;
  };
  credential_policy = record { workload_identity = true; short_lived = true };
  audit = record { level = Entitlement.standard };
}

abbrev pub registration : ClientRegistration
registration = record {
  client_id = "agent";
  profile = "Sales.Read";
  environment = dev;
  description = none;
}

abbrev pub manager : EntitlementManager
manager = record {
  policy_version = "v1";
  registrations = ("agent", registration) ∷ [];
  profiles = ("Sales.Read", profile) ∷ [];
  cache = [];
}

abbrev pub resolved : ResolvedEntitlement
resolved = entitled rt "v1" "agent" profile

abbrev pub config : BackendConfig
config = record {
  backend = "crm-server";
  url = "http://crm";
  audience = "crm";
  credential_mode = service_account;
  service_account_token_env_var = some "CRM_TOKEN";
  token_exchange_endpoint = none;
  token_exchange_scope = none;
}

abbrev pub credential : BackendCredential
credential = record { backend = "crm-server"; url = "http://crm"; token = "s3"; audience = "crm" }

abbrev pub provider : Provider
provider = record { configs = ("crm-server", config) ∷ []; token_exchange_client = none }

abbrev pub idp : Idp
idp = record {
  client_credentials = λ endpoint. answered (obj (field "access_token" (str "own") end));
  exchange =
      λ endpoint subject audience scope. answered (obj (field "access_token" (str "theirs") end));
}

abbrev pub around : Surroundings
around = record {
  environ = λ name. if name == "CRM_TOKEN" then some "s3" else none;
  monotonic = 0;
  idp = idp;
}

abbrev reply_to : Bool → HttpReply
reply_to true = answered (obj (field "result" (bool true) end))
reply_to false = answered (obj (field "result" (obj (field "allow" (bool true) end)) end))

abbrev pub opa : Opa
opa path body = reply_to (path == "/v1/data/emcp/entitlement/allow")

abbrev pub opa_down : Opa
opa_down path body = http_error

abbrev pub access : AccessToken
access = record {
  token = "jwt";
  client_id = "agent";
  scopes = [];
  expires_at = pos 99;
  resource = "gateway";
}

abbrev pub sent : Sent
sent = record { url = "http://crm"; token = "s3"; tool = "crm.read"; arguments = end }

abbrev pub result : ToolResult
result = record { is_error = false; text = "42" }

abbrev pub world : World
world = record {
  access = some access;
  request_id = some "1";
  decision_id = "d1";
  approval_id = "a1";
  now = 1_000;
  opa = opa;
  around = around;
  stamp = stamp;
  sink_works = true;
  call = λ x. tool_result result;
}

abbrev pub params : CallParams
params = record { name = "crm.read"; arguments = none }

abbrev pub gateway : Gateway
gateway = record {
  manager = manager;
  registry = registry;
  provider = provider;
  approvals = no_approvals;
  span = [];
  sent = [];
}
