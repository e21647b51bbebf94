-- ===== src/Gateway/Outcomes.antt =====
-- When the handler of `tools/call` does send.
use mathlib.Core.List.{[], ◌∷◌, ◌++◌}
use enterprise_mcp_service_b.Base.{
  String, ◌≡◌, refl, sym, ap, ◌∙◌, subst, true, none, some, Result, ok, err, ok_inj, ◌⊎◌, inl, inr,
  Option-cases,
}
use enterprise_mcp_service_b.Json.{Runtime}
use enterprise_mcp_service_b.Identity.{AccessToken}
use enterprise_mcp_service_b.Registry.Models.{CapabilityManifest, mcp}
use enterprise_mcp_service_b.Registry.Store.{RegistryStore}
use enterprise_mcp_service_b.Registry.Store.Rows.{IsConsistent}
use enterprise_mcp_service_b.Audit.Correlation.{DecisionCorrelation}
use enterprise_mcp_service_b.Approval.{check_and_consume}
use enterprise_mcp_service_b.Downstream.{Provider}
use enterprise_mcp_service_b.Pdp.{PdpOutcome, allow, require_approval, evaluate}
use enterprise_mcp_service_b.Entitlement.{ResolvedEntitlement, resolve}
use enterprise_mcp_service_b.Entitlement.Resolution.{policy_version-resolve}
use enterprise_mcp_service_b.Fabric.{BackendRoute, RouteError, route, route_of, active_manifest}
use enterprise_mcp_service_b.Fabric.Routes.{
  route-of_manifest, Serves, active_manifest-Serves, active_manifest-none,
}
use enterprise_mcp_service_b.Gateway.{
  Gateway, GatewayError, World, CallParams, Sent, Reply, raised, tool_result, other_result, Answer,
  ToolResult, arguments_of, operation_of, emit_audit, dispatch, with_approval, by_outcome, enforce,
  on_call_tool, on_route, sent_by, conclude, downstream_raised, unexpected_result,
}
use enterprise_mcp_service_b.Gateway.Addressing.{Addressed}
use enterprise_mcp_service_b.Gateway.Forwarding.{Authorised}

active_manifest-of_Serves :
    (s : RegistryStore) (tool : String) (m : CapabilityManifest)
    → IsConsistent s
    → Serves s tool m
    → active_manifest tool s ≡ some m
active_manifest-of_Serves s tool m c serves = elim (Option-cases (active_manifest tool s)) [
  | inl e ↦ absurd (active_manifest-none s tool c e m serves)
  | inr (m', e) ↦
      let there = active_manifest-Serves s tool m' c e in
      e ∙ ap (λ m. some m) (ok_inj (sym there.0 ∙ serves.0))
]

-- What the handler answers on a backend's reply: the reply's result, as it is.
abbrev pub answer_of : Reply → Result GatewayError ToolResult
answer_of (raised reason) = err (downstream_raised reason)
answer_of (tool_result result) = ok result
answer_of other_result = err unexpected_result

module _ (rt : Runtime) (w : World) (params : CallParams) where
  abbrev Delivers : Sent → Gateway → Answer → Type 0
  Delivers x g a = (a.0 ≡ answer_of (w.call x)) × (a.1.sent ≡ g.sent ++ x ∷ [])

  Delivers-conclude :
      (resolved : ResolvedEntitlement) (k : DecisionCorrelation) (reply : Reply) (g : Gateway)
      → ((conclude rt w params resolved k reply g).0 ≡ answer_of reply)
        × ((conclude rt w params resolved k reply g).1.sent ≡ g.sent)
  unfolding emit_audit
  Delivers-conclude resolved k (raised reason) g = (refl, refl)
  Delivers-conclude resolved k (tool_result r) g = (refl, refl)
  Delivers-conclude resolved k other_result g = (refl, refl)

  on_route-Delivers :
      (resolved : ResolvedEntitlement) (k : DecisionCorrelation) (g : Gateway) (x : Sent)
      (a : Result RouteError BackendRoute × Provider) (r : BackendRoute)
      → a.0 ≡ ok r
      → r.backend_type ≡ mcp
      → x ≡ sent_by rt w params r
      → Delivers x g (on_route rt w params resolved k g a)
  on_route-Delivers resolved k g x (a, p) r h t e =
      rw h (rw t (rw e (Delivers-conclude resolved k (w.call (sent_by rt w params r)) _)))

  dispatch-Delivers :
      (resolved : ResolvedEntitlement) (k : DecisionCorrelation) (g : Gateway) (x : Sent)
      → IsConsistent g.registry
      → Addressed rt w params g x
      → Delivers x g (dispatch rt w params resolved k g)
  unfolding dispatch
  dispatch-Delivers resolved k g x con (m, c, serves, t, cred, is) =
      on_route-Delivers resolved k g x (route rt w.around params.name g.registry g.provider)
        (route_of params.name m c)
        (route-of_manifest rt w.around params.name g.registry g.provider m c
          (active_manifest-of_Serves g.registry params.name m con serves) cred)
        t is

  by_outcome-Delivers :
      (resolved : ResolvedEntitlement) (k : DecisionCorrelation) (reason : String) (o : PdpOutcome)
      (g : Gateway) (x : Sent)
      → IsConsistent g.registry
      → ((o ≡ allow)
          ⊎ ((o ≡ require_approval)
              × ((check_and_consume rt (operation_of resolved params) w.now g.approvals).0 ≡ true)))
      → Addressed rt w params g x
      → Delivers x g (by_outcome rt w params resolved k o reason g)
  unfolding with_approval
  by_outcome-Delivers resolved k reason o g x con (inl e) at =
      rw e (dispatch-Delivers resolved k g x con at)
  by_outcome-Delivers resolved k reason o g x con (inr (e, spent)) at =
      let g' : Gateway = record g {
        approvals = (check_and_consume rt (operation_of resolved params) w.now g.approvals).1;
      } in
      rw e (rw (spent, with_approval) (dispatch-Delivers resolved k g' x con at))

  enforce-Delivers :
      (resolved : ResolvedEntitlement) (g : Gateway) (x : Sent)
      → IsConsistent g.registry
      → Authorised rt w params resolved g
      → Addressed rt w params g x
      → Delivers x g (enforce rt w params resolved g)
  unfolding enforce
  enforce-Delivers resolved g x con (d, e, may) at =
      rw e (by_outcome-Delivers resolved _ d.reason_code d.outcome _ x con may at)

  -- Where the request's client resolves, the policies authorise the call, and the tool's ACTIVE
  -- manifest leads to an MCP backend whose credential there is, the call is sent to that backend,
  -- once, and the handler answers the backend's own result, or fails as the backend fails.
  pub sent_if :
      (g : Gateway) (token : AccessToken) (resolved : ResolvedEntitlement) (x : Sent)
      → IsConsistent g.registry
      → w.access ≡ some token
      → (resolve rt token.client_id g.manager).0 ≡ ok resolved
      → Authorised rt w params resolved g
      → Addressed rt w params g x
      → ((on_call_tool rt w params g).0 ≡ answer_of (w.call x))
        × ((on_call_tool rt w params g).1.sent ≡ g.sent ++ x ∷ [])
  unfolding on_call_tool
  sent_if g token resolved x con e h (d, f, may) at =
      rw (e, on_call_tool)
        (rw h (
          enforce-Delivers resolved
            (record g { manager = (resolve rt token.client_id g.manager).1 }) x con
            (
              d,
              subst
                  (λ v.
                    evaluate w.opa v resolved.profile_name params.name (arguments_of params) none
                    ≡ ok d)
                  (sym (policy_version-resolve rt token.client_id g.manager)) f,
              may,
            )
            at))
