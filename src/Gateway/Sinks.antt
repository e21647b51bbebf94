-- ===== src/Gateway/Sinks.antt =====
-- The audit sink plays no part in what a client gets.
use enterprise_mcp_service_b.Base.{
  [], String, ◌≡◌, refl, Bool, true, false, Result, ok, err, inl, inr, Option-cases, if◌then◌else◌,
}
use enterprise_mcp_service_b.Json.{Runtime}
use enterprise_mcp_service_b.Registry.Models.{BackendType, mcp, rest, grpc}
use enterprise_mcp_service_b.Audit.Correlation.{DecisionCorrelation}
use enterprise_mcp_service_b.Audit.Events.{Stamp, AuditLog}
use enterprise_mcp_service_b.Approval.{ApprovalService, check_and_consume}
use enterprise_mcp_service_b.Downstream.{Provider}
use enterprise_mcp_service_b.Pdp.{
  PdpOutcome, allow, deny, require_approval, PdpDecision, PdpError, pdp_unavailable, unexpected,
}
use enterprise_mcp_service_b.Entitlement.{
  EntitlementManager, EntitlementError, ResolvedEntitlement, resolve,
}
use enterprise_mcp_service_b.Fabric.{
  BackendRoute, RouteError, unroutable_capability, uncaught, route,
}
use enterprise_mcp_service_b.Gateway.{
  Gateway, World, CallParams, Reply, raised, tool_result, other_result, Answer, operation_of,
  emit_audit, dispatch, ask_approval, with_approval, by_outcome, enforce, on_call_tool, by_type,
  on_route, sent_by, conclude, on_decision, on_resolve, correlation_of,
}

-- A gateway with another audit log
abbrev logged : AuditLog → Gateway → Gateway
logged log g = record g { approvals = record g.approvals { log = log } }

-- The same world, but for the sink and for what events are stamped with.
abbrev pub observed : Bool → Stamp → World → World
observed sink_works stamp w = record w { sink_works = sink_works; stamp = stamp }

-- The same answer, and states that are equal once both logs are empty.
abbrev pub SameButLog : Answer → Answer → Type 0
SameButLog a b = (a.0 ≡ b.0) × (logged [] a.1 ≡ logged [] b.1)

module _ (rt : Runtime) (w : World) (params : CallParams) (works : Bool) (stamp : Stamp) where
  conclude_same :
      (resolved : ResolvedEntitlement) (k : DecisionCorrelation) (r : Reply) (g : Gateway)
      → SameButLog
          (conclude rt w params resolved k r g)
          (conclude rt (observed works stamp w) params resolved k r g)
  unfolding emit_audit
  conclude_same resolved k (raised e) g = (refl, refl)
  conclude_same resolved k (tool_result t) g = (refl, refl)
  conclude_same resolved k other_result g = (refl, refl)

  by_type_same :
      (resolved : ResolvedEntitlement) (k : DecisionCorrelation) (r : BackendRoute)
      (t : BackendType) (g : Gateway)
      → SameButLog
          (by_type rt w params resolved k r t g)
          (by_type rt (observed works stamp w) params resolved k r t g)
  unfolding emit_audit
  by_type_same resolved k r mcp g = conclude_same resolved k (w.call (sent_by rt w params r)) _
  by_type_same resolved k r rest g = (refl, refl)
  by_type_same resolved k r grpc g = (refl, refl)

  on_route_same :
      (resolved : ResolvedEntitlement) (k : DecisionCorrelation) (g : Gateway)
      (a : Result RouteError BackendRoute × Provider)
      → SameButLog
          (on_route rt w params resolved k g a)
          (on_route rt (observed works stamp w) params resolved k g a)
  unfolding emit_audit
  on_route_same resolved k g (ok r, p) =
      by_type_same resolved k r r.backend_type (record g { provider = p })
  on_route_same resolved k g (err (unroutable_capability tool), p) = (refl, refl)
  on_route_same resolved k g (err (uncaught e), p) = (refl, refl)

  dispatch_same :
      (resolved : ResolvedEntitlement) (k : DecisionCorrelation) (g : Gateway)
      → SameButLog
          (dispatch rt w params resolved k g)
          (dispatch rt (observed works stamp w) params resolved k g)
  unfolding dispatch
  dispatch_same resolved k g =
      on_route_same resolved k g (route rt w.around params.name g.registry g.provider)

  ask_approval_same :
      (resolved : ResolvedEntitlement) (k : DecisionCorrelation) (reason : String) (g : Gateway)
      → SameButLog
          (ask_approval rt w params resolved k reason g)
          (ask_approval rt (observed works stamp w) params resolved k reason g)
  unfolding ask_approval emit_audit
  ask_approval_same resolved k reason g = (refl, refl)

  abbrev on_approval :
      World
      → ResolvedEntitlement
      → DecisionCorrelation
      → String
      → Gateway
      → Bool × ApprovalService
      → Answer
  on_approval v resolved k reason g c =
      if c.0
      then dispatch rt v params resolved k (record g { approvals = c.1 })
      else ask_approval rt v params resolved k reason (record g { approvals = c.1 })

  on_approval_same :
      (resolved : ResolvedEntitlement) (k : DecisionCorrelation) (reason : String) (g : Gateway)
      (c : Bool × ApprovalService)
      → SameButLog
          (on_approval w resolved k reason g c)
          (on_approval (observed works stamp w) resolved k reason g c)
  on_approval_same resolved k reason g (true, s) =
      dispatch_same resolved k (record g { approvals = s })
  on_approval_same resolved k reason g (false, s) =
      ask_approval_same resolved k reason (record g { approvals = s })

  with_approval_same :
      (resolved : ResolvedEntitlement) (k : DecisionCorrelation) (reason : String) (g : Gateway)
      → SameButLog
          (with_approval rt w params resolved k reason g)
          (with_approval rt (observed works stamp w) params resolved k reason g)
  unfolding with_approval
  with_approval_same resolved k reason g =
      on_approval_same resolved k reason g
        (check_and_consume rt (operation_of resolved params) w.now g.approvals)

  by_outcome_same :
      (resolved : ResolvedEntitlement) (k : DecisionCorrelation) (o : PdpOutcome) (reason : String)
      (g : Gateway)
      → SameButLog
          (by_outcome rt w params resolved k o reason g)
          (by_outcome rt (observed works stamp w) params resolved k o reason g)
  unfolding emit_audit
  by_outcome_same resolved k allow reason g = dispatch_same resolved k g
  by_outcome_same resolved k deny reason g = (refl, refl)
  by_outcome_same resolved k require_approval reason g = with_approval_same resolved k reason g

  on_decision_same :
      (resolved : ResolvedEntitlement) (k : DecisionCorrelation) (g : Gateway)
      (d : Result PdpError PdpDecision)
      → SameButLog
          (on_decision rt w params resolved k g d)
          (on_decision rt (observed works stamp w) params resolved k g d)
  unfolding emit_audit
  on_decision_same resolved k g (ok d) = by_outcome_same resolved k d.outcome d.reason_code g
  on_decision_same resolved k g (err (pdp_unavailable e)) = (refl, refl)
  on_decision_same resolved k g (err (unexpected e)) = (refl, refl)

  enforce_same :
      (resolved : ResolvedEntitlement) (g : Gateway)
      → SameButLog
          (enforce rt w params resolved g)
          (enforce rt (observed works stamp w) params resolved g)
  unfolding enforce correlation_of
  enforce_same resolved g = on_decision_same resolved _ _ _

  on_resolve_same :
      (g : Gateway) (a : Result EntitlementError ResolvedEntitlement × EntitlementManager)
      → SameButLog (on_resolve rt w params g a) (on_resolve rt (observed works stamp w) params g a)
  on_resolve_same g (ok resolved, m) = enforce_same resolved (record g { manager = m })
  on_resolve_same g (err e, m) = (refl, refl)

  -- Whether the audit sink works or fails changes neither the answer to `tools/call`, nor what is
  -- sent to a backend, nor any part of the state but the log.
  pub sink_indifferent :
      (g : Gateway)
      → SameButLog (on_call_tool rt w params g) (on_call_tool rt (observed works stamp w) params g)
  unfolding on_call_tool
  sink_indifferent g = elim (Option-cases w.access) [
    | inl e ↦ rw (e, on_call_tool) (refl, refl)
    | inr (token, e) ↦
        rw (e, on_call_tool) (on_resolve_same g (resolve rt token.client_id g.manager))
  ]
