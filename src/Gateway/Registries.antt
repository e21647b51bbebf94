-- ===== src/Gateway/Registries.antt =====
-- The handlers read the registry and do not write it.
use enterprise_mcp_service_b.Base.{
  String, ◌≡◌, refl, Bool-cases, Option-cases, Result, ok, err, inl, inr,
}
use enterprise_mcp_service_b.Json.{Runtime}
use enterprise_mcp_service_b.Registry.Models.{BackendType, mcp, rest, grpc}
use enterprise_mcp_service_b.Audit.Correlation.{DecisionCorrelation}
use enterprise_mcp_service_b.Audit.Events.{Content, client_authenticated}
use enterprise_mcp_service_b.Approval.{check_and_consume}
use enterprise_mcp_service_b.Downstream.{Provider}
use enterprise_mcp_service_b.Pdp.{
  PdpOutcome, allow, deny, require_approval, PdpDecision, PdpError, pdp_unavailable, unexpected,
}
use enterprise_mcp_service_b.Entitlement.{
  EntitlementManager, EntitlementError, ResolvedEntitlement, resolve,
}
use enterprise_mcp_service_b.Fabric.{
  BackendRoute, RouteError, unroutable_capability, uncaught, route,
}
use enterprise_mcp_service_b.Gateway.{
  Gateway, World, CallParams, Reply, raised, tool_result, other_result, Answer, operation_of,
  emit_audit, dispatch, ask_approval, with_approval, by_outcome, enforce, on_call_tool, by_type,
  on_route, sent_by, conclude, on_decision, on_resolve,
}
use enterprise_mcp_service_b.Gateway.Listing.{
  on_list_tools, on_gathered, list_for, Gathered, ListError, ListResult, Catalogues,
}
use enterprise_mcp_service_b.Gateway.Listing as Listing

module _ (rt : Runtime) (w : World) where
  abbrev Unwritten : Answer → Gateway → Type 0
  Unwritten a g = a.1.registry ≡ g.registry

  registry-emit_audit : (c : Content) (g : Gateway) → (emit_audit rt w c g).registry ≡ g.registry
  unfolding emit_audit
  registry-emit_audit c g = refl

  module _ (params : CallParams) where
    by_type-Unwritten :
        (resolved : ResolvedEntitlement) (k : DecisionCorrelation) (r : BackendRoute)
        (t : BackendType) (g : Gateway)
        → Unwritten (by_type rt w params resolved k r t g) g
    by_type-Unwritten resolved k r rest g = registry-emit_audit _ g
    by_type-Unwritten resolved k r grpc g = registry-emit_audit _ g
    by_type-Unwritten resolved k r mcp g = replied (w.call (sent_by rt w params r)) _
      where
        replied : (x : Reply) (s : Gateway) → Unwritten (conclude rt w params resolved k x s) s
        replied (raised e) s = refl
        replied other_result s = refl
        replied (tool_result t) s = registry-emit_audit _ s

    on_route-Unwritten :
        (resolved : ResolvedEntitlement) (k : DecisionCorrelation) (g : Gateway)
        (a : Result RouteError BackendRoute × Provider)
        → Unwritten (on_route rt w params resolved k g a) g
    on_route-Unwritten resolved k g (ok r, p) = by_type-Unwritten resolved k r r.backend_type _
    on_route-Unwritten resolved k g (err (unroutable_capability tool), p) = registry-emit_audit _ _
    on_route-Unwritten resolved k g (err (uncaught e), p) = refl

    dispatch-Unwritten :
        (resolved : ResolvedEntitlement) (k : DecisionCorrelation) (g : Gateway)
        → Unwritten (dispatch rt w params resolved k g) g
    unfolding dispatch
    dispatch-Unwritten resolved k g =
        on_route-Unwritten resolved k g (route rt w.around params.name g.registry g.provider)

    ask_approval-Unwritten :
        (resolved : ResolvedEntitlement) (k : DecisionCorrelation) (reason : String) (g : Gateway)
        → Unwritten (ask_approval rt w params resolved k reason g) g
    unfolding ask_approval emit_audit
    ask_approval-Unwritten resolved k reason g = refl

    with_approval-Unwritten :
        (resolved : ResolvedEntitlement) (k : DecisionCorrelation) (reason : String) (g : Gateway)
        → Unwritten (with_approval rt w params resolved k reason g) g
    unfolding with_approval
    with_approval-Unwritten resolved k reason g =
        let c = check_and_consume rt (operation_of resolved params) w.now g.approvals in
        elim (Bool-cases c.0) [
          | inl e ↦ rw e (dispatch-Unwritten resolved k (record g { approvals = c.1 }))
          | inr e ↦ rw e (ask_approval-Unwritten resolved k reason (record g { approvals = c.1 }))
        ]

    on_decision-Unwritten :
        (resolved : ResolvedEntitlement) (k : DecisionCorrelation) (g : Gateway)
        (d : Result PdpError PdpDecision)
        → Unwritten (on_decision rt w params resolved k g d) g
    on_decision-Unwritten resolved k g (ok d) = decided d.outcome
      where
        decided :
            (o : PdpOutcome) → Unwritten (by_outcome rt w params resolved k o d.reason_code g) g
        decided allow = dispatch-Unwritten resolved k g
        decided deny = registry-emit_audit _ g
        decided require_approval = with_approval-Unwritten resolved k d.reason_code g
    on_decision-Unwritten resolved k g (err (pdp_unavailable reason)) = registry-emit_audit _ g
    on_decision-Unwritten resolved k g (err (unexpected reason)) = refl

    on_resolve-Unwritten :
        (g : Gateway) (a : Result EntitlementError ResolvedEntitlement × EntitlementManager)
        → Unwritten (on_resolve rt w params g a) g
    unfolding enforce
    on_resolve-Unwritten g (err e, m) = refl
    on_resolve-Unwritten g (ok resolved, m) = on_decision-Unwritten resolved _ _ _

    pub registry-on_call_tool : (g : Gateway) → (on_call_tool rt w params g).1.registry ≡ g.registry
    unfolding on_call_tool
    registry-on_call_tool g = elim (Option-cases w.access) [
      | inl e ↦ rw (e, on_call_tool) refl
      | inr (token, e) ↦
          rw (e, on_call_tool) (on_resolve-Unwritten g (resolve rt token.client_id g.manager))
    ]

  module _ (later : World) (catalogues : Catalogues) where
    -- A listing sends no call either.
    abbrev pub Listed : Result ListError ListResult × Gateway → Gateway → Type 0
    Listed a g = (a.1.registry ≡ g.registry) × (a.1.sent ≡ g.sent)

    on_gathered_lem :
        (resolved : ResolvedEntitlement) (g : Gateway) (a : Result ListError Gathered × Provider)
        → Listed (on_gathered rt w later catalogues resolved g a) g
    unfolding emit_audit
    on_gathered_lem resolved g (err e, p) = (refl, refl)
    on_gathered_lem resolved g (ok x, p) = (refl, refl)

    list_for_lem :
        (resolved : ResolvedEntitlement) (g : Gateway)
        → Listed (list_for rt w later catalogues resolved g) g
    list_for_lem resolved g = on_gathered_lem resolved g _

    listing_lem :
        (g : Gateway) (a : Result EntitlementError ResolvedEntitlement × EntitlementManager)
        → Listed (Listing.on_resolve rt w later catalogues g a) g
    unfolding emit_audit
    listing_lem g (err e, m) = (refl, refl)
    listing_lem g (ok resolved, m) = list_for_lem resolved (
        emit_audit rt w (client_authenticated resolved.client_id w.request_id)
          (record g { manager = m }))

    pub on_list_tools-Listed : (g : Gateway) → Listed (on_list_tools rt w later catalogues g) g
    unfolding on_list_tools
    on_list_tools-Listed g = elim (Option-cases w.access) [
      | inl e ↦ rw (e, on_list_tools) (refl, refl)
      | inr (token, e) ↦
          rw (e, on_list_tools) (listing_lem g (resolve rt token.client_id g.manager))
    ]
