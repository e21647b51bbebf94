-- ===== src/Orchestrator.antt =====
-- RI/src/emcp_bus/orchestrator/: the context of a decision, the reference model that picks the next
-- best action, what happens after a denial, and the nodes of the journey that build on them. A model
-- is a function from a context to a decision. Times are counts of microseconds.
pub mod Choice
pub mod Denial
pub mod Journey
use Prim.Native.Nat.{◌*◌}
use enterprise_mcp_service_b.Base.{
  ℕ, ◌+◌, String, Bool, true, false, not, ◌&&◌, Option, none, some, List, [], ◌∷◌, ◌++◌, Result, ok,
  err, ◌==◌, ◌<>◌, str_leb, if◌then◌else◌, select, any, contains, is_some,
}
use enterprise_mcp_service_b.Base.Sort.{sort_by}
use enterprise_mcp_service_b.Risk.{RiskTier, tier_value}
use enterprise_mcp_service_b.Json.{Fields, str, arr, field, end, items_of, Runtime}
use enterprise_mcp_service_b.Registry.Models.{CapabilityManifest}
use enterprise_mcp_service_b.Audit.Events.{
  Stamp, AuditLog, Content, base, emit, nba_recalculated, journey_ended_after_denial,
}

-- A score is a text, the `repr` of a float.
pub record Segment : Type 0 where
  pub id : String
  pub score : String

pub record ProfileView : Type 0 where
  pub subject_ref : String
  pub profile_version : String
  pub segments : List Segment
  pub attributes : List (String × String)
  pub reason_codes : List String
  pub expires_at : ℕ

pub record RuntimeContext : Type 0 where
  pub channel : String
  pub consent_purposes : List String

pub record DecisionContext : Type 0 where
  pub client_id : String
  pub entitlement_version : String
  pub risk_ceiling : RiskTier
  pub allowed_tools : List String
  pub profile : ProfileView
  pub filtered_offerings : List CapabilityManifest
  pub runtime_context : RuntimeContext
  pub resolved_at : ℕ

pub record NbaDecision : Type 0 where
  pub decision_id : String
  pub action : String
  pub capability_version : String
  pub subject_ref : String
  pub channel : String
  pub agent : String
  pub reason_codes : List String
  pub policy_context : Fields
  pub expires_at : ℕ

-- `NBADecisionModel`
abbrev pub NbaDecisionModel : Type 0
NbaDecisionModel = DecisionContext → Option NbaDecision

-- `a < b` on texts, by code points
abbrev pub str_ltb : String → String → Bool
str_ltb a b = not (str_leb b a)

-- The order of the keys `(m.risk_tier.value, m.name)`
unfoldable pub key_ltb : CapabilityManifest → CapabilityManifest → Bool
key_ltb a b =
    if tier_value a.risk_tier == tier_value b.risk_tier
    then str_ltb a.name b.name
    else str_ltb (tier_value a.risk_tier) (tier_value b.risk_tier)

-- `min` keeps the first of the least.
unfoldable pub min_by_key : CapabilityManifest → List CapabilityManifest → CapabilityManifest
min_by_key best [] = best
min_by_key best (m ∷ ms) = min_by_key (if key_ltb m best then m else best) ms

-- `hex` is the first twelve digits of the `uuid4`.
abbrev pub decision_for : String → ℕ → DecisionContext → CapabilityManifest → NbaDecision
decision_for hex now context offering = record {
  decision_id = "dec-" <> hex;
  action = offering.name;
  capability_version = offering.version;
  subject_ref = context.profile.subject_ref;
  channel = context.runtime_context.channel;
  agent = "engagement-assistant";
  reason_codes = "ELIGIBLE" ∷ context.profile.reason_codes;
  policy_context = field "entitlementVersion" (str context.entitlement_version) (
      field "consentPurposes"
        (arr (items_of (sort_by str_leb context.runtime_context.consent_purposes))) end);
  expires_at = now + 3_600_000_000;
}

-- `RuleBasedNBADecisionModel.decide`
unfoldable pub decide : String → ℕ → NbaDecisionModel
decide hex now context = elim context.filtered_offerings [
  | [] ↦ none
  | m ∷ ms ↦ some (decision_for hex now context (min_by_key m ms))
]

pub data DenialOutcome : Type 0 where
  recalculated ended : DenialOutcome

pub record FallbackResult : Type 0 where
  pub outcome : DenialOutcome
  pub nba : Option NbaDecision

-- `audit_sink`, which may be None; an exception of `emit` leaves `handle_denial`.
pub record Sink : Type 0 where
  pub audited : Bool
  pub works : Bool
  pub stamp : Stamp

abbrev record_event : Runtime → Sink → Content → AuditLog → Result String Unit × AuditLog
record_event rt sink content log =
    if sink.audited then emit sink.works (base rt sink.stamp content) log else (ok tt, log)

abbrev pub with_result :
    FallbackResult → Result String Unit × AuditLog → Result String FallbackResult × AuditLog
with_result r (ok u, log) = (ok r, log)
with_result r (err e, log) = (err e, log)

abbrev action_of : Option NbaDecision → Option String
action_of none = none
action_of (some nba) = some nba.action

abbrev pub outcome_of : Option NbaDecision → FallbackResult
outcome_of none = record { outcome = ended; nba = none }
outcome_of (some nba) = record { outcome = recalculated; nba = some nba }

-- `[o for o in offerings if o.name != action]`
abbrev pub without : String → List CapabilityManifest → List CapabilityManifest
without action offerings = select (λ o. not (o.name == action)) offerings

abbrev pub narrowed : List CapabilityManifest → DecisionContext → DecisionContext
narrowed offerings context = record context { filtered_offerings = offerings }

module _ (rt : Runtime) (sink : Sink) where
  unfoldable pub handle_denial :
      DecisionContext
      → String
      → NbaDecisionModel
      → AuditLog
      → Result String FallbackResult × AuditLog
  unfolding emit
  handle_denial context denied_action model log =
      elim (without denied_action context.filtered_offerings) [
        | [] ↦ with_result (outcome_of none) (
            record_event rt sink
              (journey_ended_after_denial context.profile.subject_ref denied_action) log)
        | o ∷ os ↦
            let new_nba = model (narrowed (o ∷ os) context) in
            with_result (outcome_of new_nba) (
              record_event rt sink
                (nba_recalculated context.profile.subject_ref denied_action (action_of new_nba))
                log)
      ]

-- `requires_approval` of hitl_node.py
abbrev needs : String → CapabilityManifest → Bool
needs action o = o.name == action && o.approval.required

unfoldable pub requires_approval : List CapabilityManifest → String → Bool
requires_approval offerings action = any (needs action) offerings
