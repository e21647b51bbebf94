-- ===== src/Entitlement.antt =====
-- RI/src/emcp_bus/entitlement/: client profiles, and the manager that resolves a client's maximum
-- entitlement.
pub mod Resolution
pub mod Shared
use Prim.Native.String.{slice}
use text.Mathlib.Text.{find?}
use mathlib.Core.List.{foldl}
use enterprise_mcp_service_b.Base.Exec.{Exec, ◌>>=◌, ◌>>◌, pure}
use enterprise_mcp_service_b.Pdp.{PdpError, ProfileDocuments, push_client_profile}
use enterprise_mcp_service_b.Base.{
  ℕ, String, Bool, true, false, not, ◌&&◌, Option, none, some, List, [], ◌∷◌, Result, ok, err, Dict,
  get, put, pop, dict_of, ◌<>◌, ◌==◌, if◌then◌else◌, is_some, set_of,
}
use enterprise_mcp_service_b.Risk.{RiskTier, tier_value}
use enterprise_mcp_service_b.Json.{
  Json, Fields, ℤ, pos, null, bool, int, str, arr, obj, field, end, items_of, str_or_null, Runtime,
}
use enterprise_mcp_service_b.Identity.{Environment, dev, ci, production, ClientRegistration}

pub record TransactionRestrictions : Type 0 where
  pub max_transaction_value : Option ℕ
  pub allowed_regions : Option (List String)
  pub approval_threshold : Option ℕ

pub record CredentialPolicy : Type 0 where
  pub workload_identity : Bool
  pub short_lived : Bool

pub data AuditLevel : Type 0 where
  nothing standard full : AuditLevel

pub record AuditPolicy : Type 0 where
  pub level : AuditLevel

pub record ClientProfile : Type 0 where
  pub name : String
  pub owner : String
  pub environment : Environment
  pub risk_ceiling : RiskTier
  pub allowed_tools : List String
  pub restrictions : TransactionRestrictions
  pub credential_policy : CredentialPolicy
  pub audit : AuditPolicy

abbrev has_dot : String → Bool
has_dot text = is_some (find? text ".")

abbrev all_have_dots : List String → Bool
all_have_dots [] = true
all_have_dots (t ∷ ts) = has_dot t && all_have_dots ts

abbrev nonempty : List String → Bool
nonempty [] = false
nonempty (t ∷ ts) = true

-- The validators: a profile that fails one is not constructed.
unfoldable pub accepts : ClientProfile → Bool
accepts p = has_dot p.name && nonempty p.allowed_tools && all_have_dots p.allowed_tools

abbrev environment_value : Environment → String
environment_value dev = "dev"
environment_value ci = "ci"
environment_value production = "production"

abbrev level_value : AuditLevel → String
level_value nothing = "none"
level_value standard = "standard"
level_value full = "full"

abbrev nat_or_null : Option ℕ → Json
nat_or_null none = null
nat_or_null (some n) = int (pos n)

abbrev names_or_null : Option (List String) → Json
names_or_null none = null
names_or_null (some names) = arr (items_of names)

-- A field of a dump; `exclude_none` drops one that is None.
abbrev dumped : Bool → String → Json → Fields → Fields
dumped true key null fs = fs
dumped exclude_none key value fs = field key value fs

abbrev restrictions_document : Bool → TransactionRestrictions → Fields
restrictions_document exclude_none r =
    dumped exclude_none "max_transaction_value" (nat_or_null r.max_transaction_value) (
      dumped exclude_none "allowed_regions" (names_or_null r.allowed_regions)
        (dumped exclude_none "approval_threshold" (nat_or_null r.approval_threshold) end))

-- `model_dump(mode="json", exclude={"name"}, exclude_none=...)`
unfoldable pub profile_document : Bool → ClientProfile → Fields
unfolding tier_value
profile_document exclude_none p = field "owner" (str p.owner) (
    field "environment" (str (environment_value p.environment)) (
      field "risk_ceiling" (str (tier_value p.risk_ceiling)) (
        field "allowed_tools" (arr (items_of p.allowed_tools)) (
          field "restrictions" (obj (restrictions_document exclude_none p.restrictions)) (
            field "credential_policy"
              (obj (
                field "workload_identity" (bool p.credential_policy.workload_identity)
                  (field "short_lived" (bool p.credential_policy.short_lived) end)))
              (field "audit" (obj (field "level" (str (level_value p.audit.level)) end)) end))))))

-- `model_dump_json()` of the whole profile
unfoldable pub profile_json : Runtime → ClientProfile → String
profile_json rt p = rt.model_json (obj (field "name" (str p.name) (profile_document false p)))

-- `UnknownClientError`
pub data EntitlementError : Type 0 where
  unknown_client : String → EntitlementError

-- `allowed_tools` is a set.
pub record ResolvedEntitlement : Type 0 where
  pub client_id : String
  pub profile_name : String
  pub entitlement_version : String
  pub allowed_tools : List String
  pub risk_ceiling : RiskTier
  pub provenance : String

-- `policy_version` is that of the PDP client.
pub record EntitlementManager : Type 0 where
  pub policy_version : String
  pub registrations : Dict ClientRegistration
  pub profiles : Dict ClientProfile
  pub cache : Dict ResolvedEntitlement

abbrev pub registration_key : ClientRegistration → String
registration_key r = r.client_id

abbrev pub profile_key : ClientProfile → String
profile_key p = p.name

unfoldable pub load_registrations :
    List ClientRegistration → EntitlementManager → EntitlementManager
load_registrations rs m = record m { registrations = dict_of registration_key rs }

unfoldable pub load_profiles : List ClientProfile → EntitlementManager → EntitlementManager
load_profiles ps m = record m { profiles = dict_of profile_key ps }

-- `sync_profiles_to_pdp`: the first push that fails raises.
unfoldable pub sync_profiles_to_pdp :
    (String → Fields → Bool) → Dict ClientProfile → Exec ProfileDocuments PdpError Unit
sync_profiles_to_pdp accepts [] = pure tt
sync_profiles_to_pdp accepts ((key, p) ∷ ps) = do
  push_client_profile accepts p.name (profile_document true p)
  sync_profiles_to_pdp accepts ps

module _ (rt : Runtime) where
  -- `_compute_version`
  unfoldable pub compute_version : String → ClientProfile → String
  compute_version policy_version p = slice (rt.sha256 (policy_version <> profile_json rt p)) 0 12

  abbrev pub entitled : String → String → ClientProfile → ResolvedEntitlement
  entitled policy_version client_id p = record {
    client_id = client_id;
    profile_name = p.name;
    entitlement_version = compute_version policy_version p;
    allowed_tools = set_of p.allowed_tools;
    risk_ceiling = p.risk_ceiling;
    provenance = "client_profile:" <> p.name;
  }

  unfoldable pub resolve :
      String → EntitlementManager → Result EntitlementError ResolvedEntitlement × EntitlementManager
  resolve client_id m = elim (get m.registrations client_id) [
    | none ↦ (err (unknown_client client_id), m)
    | some registration ↦ elim (get m.profiles registration.profile) [
      | none ↦ (err (unknown_client client_id), m)
      | some p ↦
          let resolved = entitled m.policy_version client_id p in
          (ok resolved, record m { cache = put m.cache client_id resolved })
    ]
  ]

unfoldable pub cached : String → EntitlementManager → Option ResolvedEntitlement
cached client_id m = get m.cache client_id

unfoldable pub revoke_client : String → EntitlementManager → EntitlementManager
revoke_client client_id m = record m {
  registrations = pop m.registrations client_id;
  cache = pop m.cache client_id;
}

unfoldable pub drop_profile : String → Dict ResolvedEntitlement → Dict ResolvedEntitlement
drop_profile profile_name [] = []
drop_profile profile_name ((client_id, resolved) ∷ rest) =
    let kept = drop_profile profile_name rest in
    if resolved.profile_name == profile_name then kept else (client_id, resolved) ∷ kept

unfoldable pub revoke_profile : String → EntitlementManager → EntitlementManager
unfolding drop_profile
revoke_profile profile_name m = record m { cache = drop_profile profile_name m.cache }
