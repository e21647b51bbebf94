-- ===== src/Gateway.antt =====
-- RI/src/emcp_bus/gateway/server.py: the handler of `tools/call`. The handler of `tools/list` is in
-- Gateway/Listing. One value of `World` holds what one request reads from the outside: its token and
-- ids, the clock, the replies of OPA, of the identity provider and of the backend, and whether the
-- audit sink works. The sink that the Gateway and its approval service share is the log of the latter.
pub mod Addressing
pub mod Forwarding
pub mod Sinks
pub mod Canonical
pub mod Listing
pub mod FailClosed
pub mod Outcomes
mod Registries
pub mod Histories
pub mod Startup
use mathlib.Core.List.{List, [], ◌∷◌, ◌++◌}
use enterprise_mcp_service_b.Base.{
  ℕ, String, Bool, true, false, Option, none, some, Result, ok, err, ◌<>◌, if◌then◌else◌,
}
use enterprise_mcp_service_b.Json.{Json, Fields, end, Runtime}
use enterprise_mcp_service_b.Identity.{AccessToken}
use enterprise_mcp_service_b.Registry.Models.{BackendType, rest, mcp, grpc}
use enterprise_mcp_service_b.Registry.Store.{RegistryStore}
use enterprise_mcp_service_b.Audit.Sanitize.{EventEnvelope}
use enterprise_mcp_service_b.Audit.Correlation.{
  DecisionCorrelation, Span, compute_policy_decision_id, record_on_current_span,
}
use enterprise_mcp_service_b.Audit.Events.{
  Stamp, Content, base, emit, tool_call_allowed, tool_call_denied, tool_call_require_approval,
  backend_credential_unavailable,
}
use enterprise_mcp_service_b.Audit.Events as Events
use enterprise_mcp_service_b.Approval.{ApprovalService, Operation, request, check_and_consume}
use enterprise_mcp_service_b.Downstream.{Provider, Surroundings, CredentialError}
use enterprise_mcp_service_b.Pdp.{
  PdpOutcome, allow, deny, require_approval, PdpDecision, PdpError, pdp_unavailable, unexpected,
  Opa, evaluate,
}
use enterprise_mcp_service_b.Entitlement.{
  EntitlementManager, EntitlementError, ResolvedEntitlement, resolve,
}
use enterprise_mcp_service_b.Fabric.{
  RouteError, unroutable_capability, uncaught, BackendRoute, route,
}

-- `CallToolResult`; the structure of its content is the backend's, but for a denial.
pub record ToolResult : Type 0 where
  pub is_error : Bool
  pub text : String

-- What `session.call_tool` comes back with: an exception, a CallToolResult, or another result.
pub data Reply : Type 0 where
  raised : String → Reply
  tool_result : ToolResult → Reply
  other_result : Reply

-- A `tools/call` that a backend received.
pub record Sent : Type 0 where
  pub url : String
  pub token : String
  pub tool : String
  pub arguments : Fields

pub record CallParams : Type 0 where
  pub name : String
  pub arguments : Option Fields

-- `GatewayState`, with the registry of the router, the current span, and what backends received.
pub record Gateway : Type 0 where
  pub manager : EntitlementManager
  pub registry : RegistryStore
  pub provider : Provider
  pub approvals : ApprovalService
  pub span : Span
  pub sent : List Sent

pub record World : Type 0 where
  pub access : Option AccessToken
  pub request_id : Option String
  pub decision_id : String
  pub approval_id : String
  pub now : ℕ
  pub opa : Opa
  pub around : Surroundings
  pub stamp : Stamp
  pub sink_works : Bool
  pub call : Sent → Reply

-- An exception that leaves the handler.
pub data GatewayError : Type 0 where
  pdp_raised : String → GatewayError
  route_raised : CredentialError → GatewayError
  downstream_raised : String → GatewayError
  unexpected_result : GatewayError

abbrev pub Answer : Type 0
Answer = Result GatewayError ToolResult × Gateway

-- `_denied`
abbrev pub denied : String → ToolResult
denied reason_code = record { is_error = true; text = "Access denied: " <> reason_code }

-- `params.arguments or {}`
abbrev pub arguments_of : CallParams → Fields
arguments_of params = elim params.arguments [ none ↦ end | some fs ↦ fs ]

abbrev pub operation_of : ResolvedEntitlement → CallParams → Operation
operation_of resolved params = record {
  client_profile = resolved.profile_name;
  tool = params.name;
  arguments = arguments_of params;
}

module _ (rt : Runtime) (w : World) where
  -- `_emit_audit`: an exception of the sink is suppressed.
  unfoldable pub emit_audit : Content → Gateway → Gateway
  emit_audit content g = record g {
    approvals = record g.approvals {
      log = (emit w.sink_works (base rt w.stamp content) g.approvals.log).1;
    };
  }

  unfoldable pub correlation_of : ResolvedEntitlement → CallParams → Gateway → DecisionCorrelation
  correlation_of resolved params g = record {
    decision_id = w.decision_id;
    policy_decision_id =
        compute_policy_decision_id rt g.manager.policy_version resolved.profile_name params.name
          (arguments_of params);
    entitlement_version = some resolved.entitlement_version;
    policy_version = some g.manager.policy_version;
    mcp_request_id = w.request_id;
  }

  module _ (params : CallParams) where
    abbrev denied_event : ResolvedEntitlement → DecisionCorrelation → String → Content
    denied_event resolved k reason_code =
        tool_call_denied (some resolved.client_id) (some resolved.profile_name) (some params.name)
          reason_code (some k)

    abbrev pub sent_by : BackendRoute → Sent
    sent_by r = record {
      url = r.url;
      token = r.credential_token;
      tool = params.name;
      arguments = arguments_of params;
    }

    -- The end of `on_call_tool`, on what the backend replied.
    abbrev pub conclude : ResolvedEntitlement → DecisionCorrelation → Reply → Gateway → Answer
    conclude resolved k (raised reason) g = (err (downstream_raised reason), g)
    conclude resolved k other_result g = (err unexpected_result, g)
    conclude resolved k (tool_result result) g = (
      ok result,
      emit_audit (tool_call_allowed resolved.client_id resolved.profile_name params.name k) g,
    )

    abbrev type_value : BackendType → String
    type_value rest = "rest"
    type_value mcp = "mcp"
    type_value grpc = "grpc"

    abbrev pub unsupported : ResolvedEntitlement → BackendRoute → Gateway → Answer
    unsupported resolved r g = (
      ok (denied ("UNSUPPORTED_BACKEND_TYPE:" <> type_value r.backend_type)),
      emit_audit (backend_credential_unavailable resolved.client_id params.name r.backend_id) g,
    )

    abbrev pub by_type :
        ResolvedEntitlement → DecisionCorrelation → BackendRoute → BackendType → Gateway → Answer
    by_type resolved k r mcp g =
        conclude resolved k (w.call (sent_by r)) (record g { sent = g.sent ++ sent_by r ∷ [] })
    by_type resolved k r rest g = unsupported resolved r g
    by_type resolved k r grpc g = unsupported resolved r g

    abbrev pub on_route :
        ResolvedEntitlement
        → DecisionCorrelation
        → Gateway
        → Result RouteError BackendRoute × Provider
        → Answer
    on_route resolved k g (ok r, p) =
        by_type resolved k r r.backend_type (record g { provider = p })
    on_route resolved k g (err (unroutable_capability tool), p) = (
      ok (denied "UNROUTABLE_CAPABILITY"),
      emit_audit (denied_event resolved k "UNROUTABLE_CAPABILITY") (record g { provider = p }),
    )
    on_route resolved k g (err (uncaught e), p) = (err (route_raised e), record g { provider = p })

    -- From the call of `router.route` on
    unfoldable pub dispatch : ResolvedEntitlement → DecisionCorrelation → Gateway → Answer
    unfolding emit_audit
    dispatch resolved k g =
        on_route resolved k g (route rt w.around params.name g.registry g.provider)

    -- The branch of an attempt that no granted approval covers
    unfoldable pub ask_approval :
        ResolvedEntitlement → DecisionCorrelation → String → Gateway → Answer
    unfolding emit_audit
    ask_approval resolved k reason_code g =
        let (asked, approvals) =
          request rt (operation_of resolved params) reason_code 300 w.now w.approval_id
            g.approvals in
        (
          ok (denied ("REQUIRE_APPROVAL:" <> reason_code <> ":" <> asked.approval_id)),
          emit_audit
              (tool_call_require_approval resolved.client_id resolved.profile_name params.name
                asked.approval_id k)
              (record g { approvals = approvals }),
        )

    -- `check_and_consume` of this service does not raise, so that the `except` is not reached.
    unfoldable pub with_approval :
        ResolvedEntitlement → DecisionCorrelation → String → Gateway → Answer
    with_approval resolved k reason_code g =
        let (approved, approvals) =
          check_and_consume rt (operation_of resolved params) w.now g.approvals in
        if approved
        then dispatch resolved k (record g { approvals = approvals })
        else ask_approval resolved k reason_code (record g { approvals = approvals })

    abbrev pub by_outcome :
        ResolvedEntitlement → DecisionCorrelation → PdpOutcome → String → Gateway → Answer
    by_outcome resolved k allow reason_code g = dispatch resolved k g
    by_outcome resolved k deny reason_code g =
        (ok (denied reason_code), emit_audit (denied_event resolved k reason_code) g)
    by_outcome resolved k require_approval reason_code g = with_approval resolved k reason_code g

    abbrev pub on_decision :
        ResolvedEntitlement → DecisionCorrelation → Gateway → Result PdpError PdpDecision → Answer
    on_decision resolved k g (ok d) = by_outcome resolved k d.outcome d.reason_code g
    on_decision resolved k g (err (pdp_unavailable reason)) = (
      ok (denied "PDP_UNAVAILABLE"),
      emit_audit (Events.pdp_unavailable resolved.client_id params.name) g,
    )
    on_decision resolved k g (err (unexpected reason)) = (err (pdp_raised reason), g)

    -- From the construction of the correlation on
    unfoldable pub enforce : ResolvedEntitlement → Gateway → Answer
    unfolding emit_audit
    enforce resolved g =
        let k = correlation_of resolved params g in
        on_decision resolved k (record g { span = record_on_current_span k g.span })
          (evaluate w.opa g.manager.policy_version resolved.profile_name params.name
            (arguments_of params) none)

    abbrev pub on_resolve :
        Gateway → Result EntitlementError ResolvedEntitlement × EntitlementManager → Answer
    on_resolve g (err e, m) = (ok (denied "UNKNOWN_CLIENT"), record g { manager = m })
    on_resolve g (ok resolved, m) = enforce resolved (record g { manager = m })

    unfoldable pub on_call_tool : Gateway → Answer
    on_call_tool g = elim w.access [
      | none ↦ (ok (denied "UNAUTHENTICATED"), g)
      | some token ↦ on_resolve g (resolve rt token.client_id g.manager)
    ]
