-- ===== src/Fabric.antt =====
-- RI/src/emcp_bus/fabric/router.py: the route from a tool to the backend that serves it.
pub mod Routes
pub mod Backends
pub mod Rest
use mathlib.Core.List.{map}
use enterprise_mcp_service_b.Base.{
  String, Bool, true, false, Option, none, some, List, [], ◌∷◌, Result, ok, err, ◌==◌,
  if◌then◌else◌, contains, select, str_leb, ◌++◌,
}
use enterprise_mcp_service_b.Base.Sort.{sort_by}
use enterprise_mcp_service_b.Json.{Runtime}
use enterprise_mcp_service_b.Registry.Models.{CapabilityManifest, BackendType}
use enterprise_mcp_service_b.Registry.Store.{RegistryStore, list_active}
use enterprise_mcp_service_b.Downstream.{
  Provider, Surroundings, BackendCredential, CredentialError, unknown_backend, credential_for,
}

pub data RouteError : Type 0 where
  unroutable_capability : String → RouteError
  -- an exception of `credential_for` that `route` does not catch
  uncaught : CredentialError → RouteError

pub record BackendRoute : Type 0 where
  pub tool : String
  pub backend_id : String
  pub backend_type : BackendType
  pub url : String
  pub credential_token : String
  pub credential_audience : String

unfoldable pub find_named : String → List CapabilityManifest → Option CapabilityManifest
find_named tool [] = none
find_named tool (m ∷ ms) = if m.name == tool then some m else find_named tool ms

-- `_active_manifest`
unfoldable pub active_manifest : String → RegistryStore → Option CapabilityManifest
active_manifest tool s = find_named tool (list_active s)

abbrev pub route_of : String → CapabilityManifest → BackendCredential → BackendRoute
route_of tool m c = record {
  tool = tool;
  backend_id = m.backend.service;
  backend_type = m.backend.type;
  url = c.url;
  credential_token = c.token;
  credential_audience = c.audience;
}

abbrev route_error : String → CredentialError → RouteError
route_error tool (unknown_backend backend) = unroutable_capability tool
route_error tool e = uncaught e

abbrev pub answer_route :
    String
    → CapabilityManifest
    → Result CredentialError BackendCredential × Provider
    → Result RouteError BackendRoute × Provider
answer_route tool m (ok c, p) = (ok (route_of tool m c), p)
answer_route tool m (err e, p) = (err (route_error tool e), p)

module _ (rt : Runtime) where
  unfoldable pub route :
      Surroundings → String → RegistryStore → Provider → Result RouteError BackendRoute × Provider
  route around tool s p = elim (active_manifest tool s) [
    | none ↦ (err (unroutable_capability tool), p)
    | some m ↦ answer_route tool m (credential_for rt around m.backend.service p)
  ]

abbrev named_in : List String → CapabilityManifest → Bool
named_in tool_names m = contains m.name tool_names

unfoldable pub active_capabilities_for : List String → RegistryStore → List CapabilityManifest
active_capabilities_for tool_names s = select (named_in tool_names) (list_active s)

abbrev pub add_service : String → List String → List String
add_service name names = if contains name names then names else name ∷ names

-- A set of the services, each once.
unfoldable pub services : List CapabilityManifest → List String
services [] = []
services (m ∷ ms) = add_service m.backend.service (services ms)

unfoldable pub distinct_backends_for : List String → RegistryStore → List String
unfolding active_capabilities_for services
distinct_backends_for tool_names s = services (active_capabilities_for tool_names s)

-- `sorted(...)` of a set of names
unfoldable pub sorted_names : List String → List String
sorted_names = sort_by str_leb
