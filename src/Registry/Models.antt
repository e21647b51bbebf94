-- ===== src/Registry/Models.antt =====
-- RI/src/emcp_bus/registry/models.py: the capability manifest and its validators.
use text.Mathlib.Text.{starts_with, find?}
use enterprise_mcp_service_b.Base.{
  String, Bool, true, false, ◌&&◌, Option, none, List, [], ◌∷◌, is_some, ◌<>◌,
}
use enterprise_mcp_service_b.Risk.{RiskTier}

pub data DataClassification : Type 0 where
  public internal confidential restricted : DataClassification

pub data LifecycleStatus : Type 0 where
  nominate review register active deprecated retired : LifecycleStatus

-- `current == target` on statuses
abbrev pub status_eq : LifecycleStatus → LifecycleStatus → Bool
status_eq nominate nominate = true
status_eq review review = true
status_eq register register = true
status_eq active active = true
status_eq deprecated deprecated = true
status_eq retired retired = true
status_eq _ _ = false

-- `backend.type`
pub data BackendType : Type 0 where
  rest mcp grpc : BackendType

pub record BackendRef : Type 0 where
  pub type : BackendType
  pub service : String
  pub operation : Option String

pub record ApprovalPolicy : Type 0 where
  pub required : Bool

pub data AuditLevel : Type 0 where
  nothing standard full : AuditLevel

pub record ObservabilityPolicy : Type 0 where
  pub audit_level : AuditLevel

-- `sunset_after` is the ISO text of the date.
pub record LifecycleInfo : Type 0 where
  pub status : LifecycleStatus
  pub sunset_after : Option String

pub record CapabilityManifest : Type 0 where
  pub name : String
  pub version : String
  pub domain : String
  pub owner : String
  pub risk_tier : RiskTier
  pub side_effects : Bool
  pub idempotent : Bool
  pub data_classification : List DataClassification
  pub entitlements : List String
  pub backend : BackendRef
  pub approval : ApprovalPolicy
  pub observability : ObservabilityPolicy
  pub lifecycle : LifecycleInfo

abbrev pub default_lifecycle : LifecycleInfo
default_lifecycle = record { status = nominate; sunset_after = none }

abbrev nonempty {ℓ} : {A : Type ℓ} → List A → Bool
nonempty [] = false
nonempty (x ∷ xs) = true

-- The validators: a manifest that fails one is not constructed.
unfoldable pub name_is_canonical : String → Bool
name_is_canonical value = is_some (find? value ".")

unfoldable pub domain_matches_name_prefix : String → String → Bool
domain_matches_name_prefix name value = starts_with name (value <> ".")

unfoldable pub accepts : CapabilityManifest → Bool
unfolding name_is_canonical domain_matches_name_prefix
accepts m =
    name_is_canonical m.name
    && domain_matches_name_prefix m.name m.domain
    && nonempty m.entitlements

-- `model_copy(update={"lifecycle": ...copy(update={"status": status})})`
abbrev pub with_status : LifecycleStatus → CapabilityManifest → CapabilityManifest
with_status status m = record m { lifecycle = record m.lifecycle { status = status } }
