-- ===== src/Audit/Events.antt =====
-- RI/src/emcp_bus/audit/events.py and sink.py: one function for each type of event, and the sinks
-- that append events.
use enterprise_mcp_service_b.Base.{
  ℕ, String, Bool, Option, none, some, List, [], ◌∷◌, ◌++◌, Result, ok, err, if◌then◌else◌,
}
use enterprise_mcp_service_b.Json.{
  Fields, str, int, pos, arr, end, field, items_of, str_or_null, Runtime,
}
use enterprise_mcp_service_b.Audit.Sanitize.{
  EventEnvelope, EventCategory, ic, noc, grl, model_post_init,
}
use enterprise_mcp_service_b.Audit.Correlation.{DecisionCorrelation}

-- What the construction of an event takes from the outside: `uuid4().hex`, the clock, and the trace.
pub record Stamp : Type 0 where
  pub event_id : String
  pub timestamp : ℕ
  pub trace_id : Option String

-- What a factory passes to `_base`.
pub record Content : Type 0 where
  pub event_type : String
  pub category : EventCategory
  pub client_id : Option String
  pub profile_name : Option String
  pub tool : Option String
  pub reason_code : Option String
  pub correlation : Option DecisionCorrelation
  pub payload : Fields

abbrev pub via {ℓ} :
    {A : Type ℓ} → (DecisionCorrelation → Option A) → Option DecisionCorrelation → Option A
via f none = none
via f (some c) = f c

-- `_base`
unfoldable pub base : Runtime → Stamp → Content → EventEnvelope
unfolding model_post_init
base rt stamp c = model_post_init rt (record {
  event_id = stamp.event_id;
  event_type = c.event_type;
  category = c.category;
  timestamp = stamp.timestamp;
  client_id = c.client_id;
  profile_name = c.profile_name;
  tool = c.tool;
  reason_code = c.reason_code;
  decision_id = via (λ k. some k.decision_id) c.correlation;
  policy_decision_id = via (λ k. some k.policy_decision_id) c.correlation;
  entitlement_version = via (λ k. k.entitlement_version) c.correlation;
  policy_version = via (λ k. k.policy_version) c.correlation;
  mcp_request_id = via (λ k. k.mcp_request_id) c.correlation;
  trace_id = stamp.trace_id;
  payload = c.payload;
})

-- `_base` with only the two required arguments
abbrev bare : String → EventCategory → Content
bare event_type category = record {
  event_type = event_type;
  category = category;
  client_id = none;
  profile_name = none;
  tool = none;
  reason_code = none;
  correlation = none;
  payload = end;
}

unfoldable pub client_authenticated : String → Option String → Content
client_authenticated client_id mcp_request_id = record (bare "client_authenticated" ic) {
  client_id = some client_id;
  payload = field "mcp_request_id" (str_or_null mcp_request_id) end;
}

unfoldable pub tools_list_filtered :
    (client_id profile_name entitlement_version : String) (allowed total : ℕ) → Content
tools_list_filtered client_id profile_name entitlement_version allowed total =
    record (bare "tools_list_filtered" grl) {
      client_id = some client_id;
      profile_name = some profile_name;
      payload =
          field "entitlement_version" (str entitlement_version)
            (field "allowed" (int (pos allowed)) (field "total" (int (pos total)) end));
    }

unfoldable pub tool_call_allowed :
    (client_id profile_name tool : String) → DecisionCorrelation → Content
tool_call_allowed client_id profile_name tool correlation = record (bare "tool_call_allowed" ic) {
  client_id = some client_id;
  profile_name = some profile_name;
  tool = some tool;
  correlation = some correlation;
}

unfoldable pub tool_call_denied :
    (client_id profile_name tool : Option String) → String → Option DecisionCorrelation → Content
tool_call_denied client_id profile_name tool reason_code correlation =
    record (bare "tool_call_denied" grl) {
      client_id = client_id;
      profile_name = profile_name;
      tool = tool;
      reason_code = some reason_code;
      correlation = correlation;
    }

unfoldable pub tool_call_require_approval :
    (client_id profile_name tool approval_id : String) → DecisionCorrelation → Content
tool_call_require_approval client_id profile_name tool approval_id correlation =
    record (bare "tool_call_require_approval" grl) {
      client_id = some client_id;
      profile_name = some profile_name;
      tool = some tool;
      correlation = some correlation;
      payload = field "approval_id" (str approval_id) end;
    }

unfoldable pub approval_granted : (approval_id client_profile tool : String) → Content
approval_granted approval_id client_profile tool = record (bare "approval_granted" grl) {
  profile_name = some client_profile;
  tool = some tool;
  payload = field "approval_id" (str approval_id) end;
}

unfoldable pub pdp_unavailable : (client_id tool : String) → Content
pdp_unavailable client_id tool = record (bare "pdp_unavailable" noc) {
  client_id = some client_id;
  tool = some tool;
}

unfoldable pub backend_credential_unavailable : (client_id tool backend : String) → Content
backend_credential_unavailable client_id tool backend =
    record (bare "backend_credential_unavailable" noc) {
      client_id = some client_id;
      tool = some tool;
      payload = field "backend" (str backend) end;
    }

unfoldable pub bypass_attempt_detected : (backend reason : String) → Content
bypass_attempt_detected backend reason = record (bare "bypass_attempt_detected" grl) {
  payload = field "backend" (str backend) (field "reason" (str reason) end);
}

unfoldable pub nba_recalculated : (subject_ref denied_action : String) → Option String → Content
nba_recalculated subject_ref denied_action new_action = record (bare "nba_recalculated" ic) {
  payload =
      field "subject_ref" (str subject_ref) (
        field "denied_action" (str denied_action)
          (field "new_action" (str_or_null new_action) end));
}

unfoldable pub agent_turn_completed :
    String → (tools_attempted tools_denied : List String) → Content
agent_turn_completed agent tools_attempted tools_denied = record (bare "agent_turn_completed" ic) {
  client_id = some agent;
  payload =
      field "tools_attempted" (arr (items_of tools_attempted))
        (field "tools_denied" (arr (items_of tools_denied)) end);
}

unfoldable pub journey_ended_after_denial : (subject_ref denied_action : String) → Content
journey_ended_after_denial subject_ref denied_action =
    record (bare "journey_ended_after_denial" grl) {
      payload =
          field "subject_ref" (str subject_ref) (field "denied_action" (str denied_action) end);
    }

-- The events that a sink has taken, oldest first.
abbrev pub AuditLog : Type 0
AuditLog = List EventEnvelope

-- `emit` of the sinks: append only. `works` tells whether the write succeeds or raises.
unfoldable pub emit : Bool → EventEnvelope → AuditLog → Result String Unit × AuditLog
emit works event log = if works then (ok tt, log ++ event ∷ []) else (err "sink failure", log)
