-- ===== src/Gateway/Forwarding.antt =====
-- Which calls the handler of `tools/call` sends to a backend.
use enterprise_mcp_service_b.Base.{
  String, ◌≡◌, refl, subst, true, none, some, Result, ok, err, ◌⊎◌, inl, inr, Option-cases,
  Result-cases, Bool-cases,
}
use enterprise_mcp_service_b.Json.{Runtime}
use enterprise_mcp_service_b.Identity.{AccessToken}
use enterprise_mcp_service_b.Registry.Store.Rows.{IsConsistent}
use enterprise_mcp_service_b.Audit.Correlation.{DecisionCorrelation, record_on_current_span}
use enterprise_mcp_service_b.Approval.{check_and_consume}
use enterprise_mcp_service_b.Pdp.{
  PdpOutcome, allow, deny, require_approval, PdpDecision, PdpError, pdp_unavailable, unexpected,
  evaluate,
}
use enterprise_mcp_service_b.Entitlement.{
  EntitlementManager, EntitlementError, ResolvedEntitlement, resolve,
}
use enterprise_mcp_service_b.Entitlement.Resolution.{policy_version-resolve}
use enterprise_mcp_service_b.Gateway.{
  Gateway, World, CallParams, arguments_of, operation_of, emit_audit, ask_approval, with_approval,
  by_outcome, enforce, on_decision, correlation_of, on_call_tool,
}
use enterprise_mcp_service_b.Gateway.Addressing.{Kept, Forwarded, sent-emit_audit, dispatch_lem}

module _ (rt : Runtime) (w : World) (params : CallParams) where
  -- The policies allow the call, or they want an approval and one was there to consume.
  abbrev pub Authorised : ResolvedEntitlement → Gateway → Type 0
  Authorised resolved g =
      (d : PdpDecision) × (evaluate w.opa g.manager.policy_version resolved.profile_name params.name
          (arguments_of params) none
        ≡ ok d)
      × ((d.outcome ≡ allow)
          ⊎ ((d.outcome ≡ require_approval)
              × ((check_and_consume rt (operation_of resolved params) w.now g.approvals).0 ≡ true)))

  sent-ask_approval :
      (resolved : ResolvedEntitlement) (k : DecisionCorrelation) (reason : String) (g : Gateway)
      → (ask_approval rt w params resolved k reason g).1.sent ≡ g.sent
  unfolding ask_approval emit_audit
  sent-ask_approval resolved k reason g = refl

  with_approval_lem :
      (resolved : ResolvedEntitlement) (k : DecisionCorrelation) (reason : String) (g : Gateway)
      → IsConsistent g.registry
      → Kept rt w params g (with_approval rt w params resolved k reason g)
        ⊎ (((check_and_consume rt (operation_of resolved params) w.now g.approvals).0 ≡ true)
            × Forwarded rt w params g (with_approval rt w params resolved k reason g))
  unfolding with_approval
  with_approval_lem resolved k reason g con =
      let c = check_and_consume rt (operation_of resolved params) w.now g.approvals in
      let g' : Gateway = record g { approvals = c.1 } in
      elim (Bool-cases c.0) [
        | inl e ↦ rw e (elim (dispatch_lem rt w params resolved k g' con) [
          | inl same ↦ inl same
          | inr f ↦ inr (refl, f)
        ])
        | inr e ↦ rw e (inl (sent-ask_approval resolved k reason g'))
      ]

  by_outcome_lem :
      (resolved : ResolvedEntitlement) (k : DecisionCorrelation) (d : PdpOutcome) (reason : String)
      (g : Gateway)
      → IsConsistent g.registry
      → Kept rt w params g (by_outcome rt w params resolved k d reason g)
        ⊎ (((d ≡ allow)
              ⊎ ((d ≡ require_approval)
                  × ((check_and_consume rt (operation_of resolved params) w.now g.approvals).0
                      ≡ true)))
            × Forwarded rt w params g (by_outcome rt w params resolved k d reason g))
  by_outcome_lem resolved k allow reason g con = elim (dispatch_lem rt w params resolved k g con) [
    | inl same ↦ inl same
    | inr f ↦ inr (inl refl, f)
  ]
  by_outcome_lem resolved k deny reason g con = inl (sent-emit_audit rt w params _ g)
  by_outcome_lem resolved k require_approval reason g con =
      elim (with_approval_lem resolved k reason g con) [
        | inl same ↦ inl same
        | inr (e, f) ↦ inr (inr (refl, e), f)
      ]

  sent-on_decision_error :
      (resolved : ResolvedEntitlement) (k : DecisionCorrelation) (g : Gateway) (e : PdpError)
      → Kept rt w params g (on_decision rt w params resolved k g (err e))
  sent-on_decision_error resolved k g (pdp_unavailable reason) = sent-emit_audit rt w params _ g
  sent-on_decision_error resolved k g (unexpected reason) = refl

  enforce_lem :
      (resolved : ResolvedEntitlement) (g : Gateway)
      → IsConsistent g.registry
      → Kept rt w params g (enforce rt w params resolved g)
        ⊎ (Authorised resolved g × Forwarded rt w params g (enforce rt w params resolved g))
  unfolding enforce
  enforce_lem resolved g con =
      let k = correlation_of rt w resolved params g in
      let g' : Gateway = record g { span = record_on_current_span k g.span } in
      elim (Result-cases (
        evaluate w.opa g.manager.policy_version resolved.profile_name params.name
          (arguments_of params) none)) [
            | inr (e, h) ↦ inl (rw h (sent-on_decision_error resolved k g' e))
            | inl (d, h) ↦ elim (by_outcome_lem resolved k d.outcome d.reason_code g' con) [
              | inl same ↦ inl (rw h same)
              | inr (may, f) ↦ inr ((d, h, may), rw h f)
            ]
          ]

  Authorised-before :
      (resolved : ResolvedEntitlement) (g : Gateway) (m : EntitlementManager)
      → m.policy_version ≡ g.manager.policy_version
      → Authorised resolved (record g { manager = m })
      → Authorised resolved g
  Authorised-before resolved g m e (d, h, may) = (
    d,
    subst
        (λ v. evaluate w.opa v resolved.profile_name params.name (arguments_of params) none ≡ ok d)
        e h,
    may,
  )

  -- Complete mediation: a call of `tools/call` sends nothing, or it sends one call and all of this
  -- holds: the request has a token, whose client resolves to an entitlement; the policies allow this
  -- very call for the profile, or they want an approval and a granted one was there to consume; and
  -- the call goes, with its name and its arguments, to the MCP backend of the ACTIVE manifest of that
  -- name, with the credential of that backend. The registry is consistent.
  pub sent_only_if :
      (g : Gateway)
      → IsConsistent g.registry
      → Kept rt w params g (on_call_tool rt w params g)
        ⊎ ((token : AccessToken) × (resolved : ResolvedEntitlement) × (w.access ≡ some token)
            × ((resolve rt token.client_id g.manager).0 ≡ ok resolved)
            × Authorised resolved g
            × Forwarded rt w params g (on_call_tool rt w params g))
  unfolding on_call_tool
  sent_only_if g con = elim (Option-cases w.access) [
    | inl e ↦ rw e (inl refl)
    | inr (token, e) ↦
        let a : Result EntitlementError ResolvedEntitlement × EntitlementManager =
          resolve rt token.client_id g.manager in
        elim (Result-cases a.0) [
          | inr (x, h) ↦ inl (rw (e, on_call_tool) (rw h refl))
          | inl (resolved, h) ↦ elim (enforce_lem resolved (record g { manager = a.1 }) con) [
            | inl same ↦ inl (rw (e, on_call_tool) (rw h same))
            | inr (may, f) ↦ inr (
              token,
              resolved,
              e,
              h,
              Authorised-before resolved g a.1 (policy_version-resolve rt token.client_id g.manager)
                  may,
              rw (e, on_call_tool) (rw h f),
            )
          ]
        ]
  ]
