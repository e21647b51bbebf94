-- ===== src/Registry/Store.antt =====
-- RI/src/emcp_bus/registry/store.py: the table of capabilities, keyed by name. A row holds the
-- manifest itself: what `model_validate_json` reads back is what `model_dump_json` wrote.
pub mod Rows
use mathlib.Core.List.{map}
use enterprise_mcp_service_b.Base.{
  String, Bool, true, Option, none, some, List, [], ◌∷◌, Result, ok, err, Dict, get, put, values,
  select, ◌==◌, str_leb,
}
use enterprise_mcp_service_b.Base.Exec.{Exec, ◌>>=◌, gets, lift}
use enterprise_mcp_service_b.Base.Sort.{sort_by}
use enterprise_mcp_service_b.Registry.Models.{
  CapabilityManifest, LifecycleStatus, active, status_eq, with_status,
}
use enterprise_mcp_service_b.Registry.Lifecycle.{InvalidLifecycleTransition}

pub data RegistryError : Type 0 where
  capability_not_found : String → RegistryError
  invalid_transition : InvalidLifecycleTransition → RegistryError
  publishing_rejected : List String → RegistryError

-- A row of the table `capabilities`; `name` is the primary key.
pub record Row : Type 0 where
  pub domain : String
  pub manifest_json : CapabilityManifest
  pub lifecycle_status : LifecycleStatus

abbrev pub RegistryStore : Type 0
RegistryStore = Dict Row

abbrev pub row_of : CapabilityManifest → Row
row_of m = record { domain = m.domain; manifest_json = m; lifecycle_status = m.lifecycle.status }

unfoldable pub upsert : CapabilityManifest → RegistryStore → RegistryStore
upsert m s = put s m.name (row_of m)

unfoldable pub fetch : String → RegistryStore → Result RegistryError CapabilityManifest
fetch name s = elim (get s name) [
  | none ↦ err (capability_not_found name)
  | some row ↦ ok row.manifest_json
]

-- `ORDER BY name`
abbrev pub by_name : CapabilityManifest → CapabilityManifest → Bool
by_name a b = str_leb a.name b.name

abbrev pub row_manifest : Row → CapabilityManifest
row_manifest row = row.manifest_json

unfoldable pub list_by_domain : String → RegistryStore → List CapabilityManifest
list_by_domain domain s =
    sort_by by_name (map row_manifest (select (λ row. row.domain == domain) (values s)))

abbrev pub is_active_row : Row → Bool
is_active_row row = status_eq row.lifecycle_status active

unfoldable pub list_active : RegistryStore → List CapabilityManifest
list_active s = sort_by by_name (map row_manifest (select is_active_row (values s)))

unfoldable pub set_lifecycle_status :
    String → LifecycleStatus → Exec RegistryStore RegistryError Unit
set_lifecycle_status name status s = elim (fetch name s) [
  | err e ↦ (err e, s)
  | ok manifest ↦ (ok tt, upsert (with_status status manifest) s)
]
