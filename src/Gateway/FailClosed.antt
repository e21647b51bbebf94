-- ===== src/Gateway/FailClosed.antt =====
-- How the handler of `tools/call` fails closed.
use enterprise_mcp_service_b.Base.{
  String, ◌≡◌, refl, none, some, Result, ok, err, ◌⊎◌, inl, inr, Option-cases,
}
use enterprise_mcp_service_b.Json.{Runtime, http_error}
use enterprise_mcp_service_b.Identity.{AccessToken}
use enterprise_mcp_service_b.Audit.Correlation.{DecisionCorrelation, record_on_current_span}
use enterprise_mcp_service_b.Pdp.{pdp_unavailable, evaluate}
use enterprise_mcp_service_b.Pdp.Decisions.{unavailable}
use enterprise_mcp_service_b.Entitlement.{
  EntitlementManager, EntitlementError, ResolvedEntitlement, resolve,
}
use enterprise_mcp_service_b.Gateway.{
  Gateway, World, CallParams, Answer, arguments_of, emit_audit, enforce, on_call_tool, denied,
  on_decision, on_resolve, correlation_of,
}

module _ (rt : Runtime) (w : World) (params : CallParams) where
  -- Nothing is sent and no approval is used.
  abbrev pub Inert : String → Gateway → Answer → Type 0
  Inert reason g a =
      (a.0 ≡ ok (denied reason))
      × (a.1.sent ≡ g.sent)
      × (a.1.approvals.requests ≡ g.approvals.requests)

  Inert-unavailable :
      (resolved : ResolvedEntitlement) (k : DecisionCorrelation) (reason : String) (g : Gateway)
      → Inert "PDP_UNAVAILABLE" g
          (on_decision rt w params resolved k g (err (pdp_unavailable reason)))
  unfolding emit_audit
  Inert-unavailable resolved k reason g = (refl, refl, refl)

  Inert-enforce :
      (resolved : ResolvedEntitlement) (g : Gateway) (reason : String)
      → (evaluate w.opa g.manager.policy_version resolved.profile_name params.name
            (arguments_of params)
            none
          ≡ err (pdp_unavailable reason))
      → Inert "PDP_UNAVAILABLE" g (enforce rt w params resolved g)
  unfolding enforce
  Inert-enforce resolved g reason e =
      let k = correlation_of rt w resolved params g in
      rw e
        (Inert-unavailable resolved k reason (record g { span = record_on_current_span k g.span }))

  unavailable_at :
      (v : String) (resolved : ResolvedEntitlement)
      → ((path : String) (body : _) → w.opa path body ≡ http_error)
      → (reason : String) × (evaluate w.opa v resolved.profile_name params.name
            (arguments_of params)
            none
          ≡ err (pdp_unavailable reason))
  unavailable_at v resolved down =
      unavailable w.opa v resolved.profile_name params.name (arguments_of params) none
        (inl (down _ _))

  Inert-resolve :
      (g : Gateway) (a : Result EntitlementError ResolvedEntitlement × EntitlementManager)
      → ((path : String) (body : _) → w.opa path body ≡ http_error)
      → (Inert "PDP_UNAVAILABLE" g (on_resolve rt w params g a))
        ⊎ (Inert "UNKNOWN_CLIENT" g (on_resolve rt w params g a))
  Inert-resolve g (ok resolved, m) down =
      let (reason, e) = unavailable_at m.policy_version resolved down in
      inl (Inert-enforce resolved (record g { manager = m }) reason e)
  Inert-resolve g (err e, m) down = inr (refl, refl, refl)

  -- Fail closed: without a token, for a client that is not known, or while every query to OPA fails,
  -- `tools/call` answers a denial, and then nothing is sent to a backend and no approval is requested
  -- or consumed.
  pub fails_closed :
      (g : Gateway)
      → (w.access ≡ none → Inert "UNAUTHENTICATED" g (on_call_tool rt w params g))
        × (((path : String) (body : _) → w.opa path body ≡ http_error)
            → (reason : String) × Inert reason g (on_call_tool rt w params g))
        × ((token : AccessToken) (e : EntitlementError)
            → w.access ≡ some token
            → (resolve rt token.client_id g.manager).0 ≡ err e
            → Inert "UNKNOWN_CLIENT" g (on_call_tool rt w params g))
  unfolding on_call_tool
  fails_closed g = (
    λ e. rw (e, on_call_tool) (refl, refl, refl),
    λ down. elim (Option-cases w.access) [
      | inl e ↦ ("UNAUTHENTICATED", rw (e, on_call_tool) (refl, refl, refl))
      | inr (token, e) ↦ elim (Inert-resolve g (resolve rt token.client_id g.manager) down) [
        | inl h ↦ ("PDP_UNAVAILABLE", rw (e, on_call_tool) h)
        | inr h ↦ ("UNKNOWN_CLIENT", rw (e, on_call_tool) h)
      ]
    ],
    λ token x e h. rw (e, on_call_tool) (rw h (refl, refl, refl)),
  )
