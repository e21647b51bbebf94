-- ===== src/Audit/Correlation.antt =====
-- RI/src/emcp_bus/audit/correlation.py: the ids that tie the events of one decision together.
use Prim.Native.String.{slice}
use enterprise_mcp_service_b.Base.{String, Option, none, some, ◌<>◌, Dict, put}
use enterprise_mcp_service_b.Json.{Fields, end, field, Runtime}
use enterprise_mcp_service_b.Json.Keys.{sort_fields}

module _ (rt : Runtime) where
  -- The texts that the loop over `sorted(arguments)` adds to the digest.
  unfoldable pub argument_texts : Fields → String
  argument_texts end = ""
  argument_texts (field key value fs) = key <> "=" <> rt.repr_of value <> argument_texts fs

  -- The calls of `digest.update` add up to the hash of the joined texts.
  unfoldable pub compute_policy_decision_id :
      (policy_version client_profile tool : String) → Fields → String
  unfolding argument_texts sort_fields
  compute_policy_decision_id policy_version client_profile tool arguments =
      slice
        (rt.sha256
          (policy_version <> client_profile <> tool <> argument_texts (sort_fields arguments)))
        0 16

pub record DecisionCorrelation : Type 0 where
  pub decision_id : String
  pub policy_decision_id : String
  pub entitlement_version : Option String
  pub policy_version : Option String
  pub mcp_request_id : Option String

-- The attributes of the current span.
abbrev pub Span : Type 0
Span = Dict String

abbrev set_attribute : String → Option String → Span → Span
set_attribute key none span = span
set_attribute key (some value) span = put span key value

unfoldable pub record_on_current_span : DecisionCorrelation → Span → Span
record_on_current_span c span = set_attribute "emcp.mcp_request_id" c.mcp_request_id (
    set_attribute "emcp.policy_version" c.policy_version (
      set_attribute "emcp.entitlement_version" c.entitlement_version (
        put (put span "emcp.decision_id" c.decision_id) "emcp.policy_decision_id"
          c.policy_decision_id)))
