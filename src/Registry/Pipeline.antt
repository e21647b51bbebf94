-- ===== src/Registry/Pipeline.antt =====
-- RI/src/emcp_bus/registry/pipeline.py and seed.py: the gates, `submit`, `publish`, and the
-- publication of a list of manifests. The manifests that seed.py reads from files are an argument.
pub mod Steps
pub mod Governance
use enterprise_mcp_service_b.Base.{
  String, Bool, true, false, not, ◌&&◌, ◌||◌, ◌++◌, List, [], ◌∷◌, Result, ok, err, codes, ltb, leb,
  if◌then◌else◌, any, ℕ, ◌<>◌,
}
use enterprise_mcp_service_b.Base.Exec.{Exec, ◌>>=◌, ◌>>◌, raise, pure, lift}
use enterprise_mcp_service_b.Risk.{RiskTier, r0, r1, r2, r3, r4, tier_value}
use enterprise_mcp_service_b.Registry.Models.{
  CapabilityManifest, LifecycleStatus, nominate, review, register, active, with_status,
}
use enterprise_mcp_service_b.Registry.Lifecycle.{validate_transition}
use enterprise_mcp_service_b.Registry.Store.{
  RegistryStore, RegistryError, invalid_transition, publishing_rejected, upsert, fetch,
  set_lifecycle_status,
}

-- `_HIGH_IMPACT_TIERS`
abbrev pub is_high_impact : RiskTier → Bool
is_high_impact r3 = true
is_high_impact r4 = true
is_high_impact _ = false

-- Python's white space, which `strip` takes off.
unfoldable pub is_space : ℕ → Bool
is_space c =
    leb 9 c && leb c 13
    || leb 28 c && leb c 32
    || leb 133 c && leb c 133
    || leb 160 c && leb c 160
    || leb 5760 c && leb c 5760
    || leb 8192 c && leb c 8202
    || leb 8232 c && leb c 8233
    || leb 8239 c && leb c 8239
    || leb 8287 c && leb c 8287
    || leb 12288 c && leb c 12288

all_space : List ℕ → Bool
unfolding is_space
all_space [] = true
all_space (c ∷ cs) = is_space c && all_space cs

-- `not text.strip()`
unfoldable pub is_blank : String → Bool
unfolding all_space
is_blank text = all_space (codes text)

abbrev when : Bool → String → List String
when true reason = reason ∷ []
when false reason = []

-- `_run_gates`
unfoldable pub run_gates : CapabilityManifest → List String
run_gates m =
    when (is_blank m.owner) "owner is required"
    ++ when (is_blank m.backend.service) "backend.service is required"
    ++ when (is_high_impact m.risk_tier && not m.approval.required) (
        "risk tier "
        <> tier_value m.risk_tier
        <> " requires approval.required=true (README.md §17)")

unfoldable pub transition :
    LifecycleStatus → LifecycleStatus → Exec RegistryStore RegistryError Unit
transition current target s = elim (validate_transition current target) [
  | ok u ↦ (ok u, s)
  | err e ↦ (err (invalid_transition e), s)
]

abbrev pub read : String → Exec RegistryStore RegistryError CapabilityManifest
read name s = (fetch name s, s)

abbrev write : CapabilityManifest → Exec RegistryStore RegistryError Unit
write m s = (ok tt, upsert m s)

-- NOMINATE, REVIEW, REGISTER
abbrev pub promote : CapabilityManifest → Exec RegistryStore RegistryError CapabilityManifest
promote m = do
  write (with_status nominate m)
  transition nominate review
  set_lifecycle_status m.name review
  transition review register
  set_lifecycle_status m.name register
  read m.name

abbrev pub gated :
    List String → CapabilityManifest → Exec RegistryStore RegistryError CapabilityManifest
gated [] m = promote m
gated (r ∷ reasons) m = raise (publishing_rejected (r ∷ reasons))

unfoldable pub submit : CapabilityManifest → Exec RegistryStore RegistryError CapabilityManifest
submit m = gated (run_gates m) m

unfoldable pub publish : String → Exec RegistryStore RegistryError CapabilityManifest
publish name = do
  manifest ← read name
  transition manifest.lifecycle.status active
  set_lifecycle_status name active
  read name

-- `publish_all`: an exception ends the loop.
unfoldable pub publish_all : List CapabilityManifest → Exec RegistryStore RegistryError Unit
publish_all [] = pure tt
publish_all (m ∷ ms) = do submit m; publish m.name; publish_all ms
