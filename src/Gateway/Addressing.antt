-- ===== src/Gateway/Addressing.antt =====
-- What the last part of the handler of `tools/call` sends.
use mathlib.Core.List.{[], ◌∷◌, ◌++◌}
use enterprise_mcp_service_b.Base.{
  ◌≡◌, refl, sym, ap, ◌∙◌, Result, ok, err, ◌⊎◌, inl, inr, Result-cases,
}
use enterprise_mcp_service_b.Json.{Runtime}
use enterprise_mcp_service_b.Registry.Models.{CapabilityManifest, BackendType, mcp, rest, grpc}
use enterprise_mcp_service_b.Registry.Store.Rows.{IsConsistent}
use enterprise_mcp_service_b.Audit.Correlation.{DecisionCorrelation}
use enterprise_mcp_service_b.Downstream.{Provider, BackendCredential, credential_for}
use enterprise_mcp_service_b.Entitlement.{ResolvedEntitlement}
use enterprise_mcp_service_b.Fabric.{
  BackendRoute, RouteError, unroutable_capability, uncaught, route,
}
use enterprise_mcp_service_b.Fabric.Routes.{Serves, route_lem}
use enterprise_mcp_service_b.Gateway.{
  Gateway, World, CallParams, Sent, Reply, raised, tool_result, other_result, Answer, arguments_of,
  emit_audit, dispatch, by_type, conclude, sent_by, on_route,
}

module _ (rt : Runtime) (w : World) (params : CallParams) where
  -- The tool's ACTIVE manifest names an MCP backend, and the call is addressed to it, with its own
  -- credential.
  abbrev pub Addressed : Gateway → Sent → Type 0
  Addressed g x =
      (m : CapabilityManifest) × (c : BackendCredential) × Serves g.registry params.name m
      × (m.backend.type ≡ mcp)
      × ((credential_for rt w.around m.backend.service g.provider).0 ≡ ok c)
      × (x ≡ (record {
        url = c.url;
        token = c.token;
        tool = params.name;
        arguments = arguments_of params;
      }))

  abbrev pub Kept : Gateway → Answer → Type 0
  Kept g a = a.1.sent ≡ g.sent

  abbrev pub Forwarded : Gateway → Answer → Type 0
  Forwarded g a = (x : Sent) × Addressed g x × (a.1.sent ≡ g.sent ++ x ∷ [])

  pub sent-emit_audit : (content : _) (g : Gateway) → (emit_audit rt w content g).sent ≡ g.sent
  unfolding emit_audit
  sent-emit_audit content g = refl

  sent-conclude :
      (resolved : ResolvedEntitlement) (k : DecisionCorrelation) (reply : Reply) (g : Gateway)
      → (conclude rt w params resolved k reply g).1.sent ≡ g.sent
  sent-conclude resolved k (raised reason) g = refl
  sent-conclude resolved k other_result g = refl
  sent-conclude resolved k (tool_result result) g = sent-emit_audit _ g

  sent-by_type :
      (resolved : ResolvedEntitlement) (k : DecisionCorrelation) (r : BackendRoute)
      (t : BackendType) (g : Gateway)
      → ((by_type rt w params resolved k r t g).1.sent ≡ g.sent)
        ⊎ ((t ≡ mcp)
            × ((by_type rt w params resolved k r t g).1.sent
                ≡ g.sent ++ sent_by rt w params r ∷ []))
  sent-by_type resolved k r mcp g =
      inr (refl, sent-conclude resolved k (w.call (sent_by rt w params r)) _)
  sent-by_type resolved k r rest g = inl (sent-emit_audit _ g)
  sent-by_type resolved k r grpc g = inl (sent-emit_audit _ g)

  sent-on_route_error :
      (resolved : ResolvedEntitlement) (k : DecisionCorrelation) (g : Gateway)
      (a : Result RouteError BackendRoute × Provider) (e : RouteError)
      → a.0 ≡ err e
      → Kept g (on_route rt w params resolved k g a)
  sent-on_route_error resolved k g (a, p) (unroutable_capability tool) h =
      rw h (sent-emit_audit _ (record g { provider = p }))
  sent-on_route_error resolved k g (a, p) (uncaught e) h = rw h refl

  sent-on_route :
      (resolved : ResolvedEntitlement) (k : DecisionCorrelation) (g : Gateway)
      (a : Result RouteError BackendRoute × Provider) (r : BackendRoute)
      → a.0 ≡ ok r
      → Kept g (on_route rt w params resolved k g a)
        ⊎ ((r.backend_type ≡ mcp)
            × ((on_route rt w params resolved k g a).1.sent ≡ g.sent ++ sent_by rt w params r ∷ []))
  sent-on_route resolved k g (a, p) r h = rw h (sent-by_type resolved k r r.backend_type _)

  pub dispatch_lem :
      (resolved : ResolvedEntitlement) (k : DecisionCorrelation) (g : Gateway)
      → IsConsistent g.registry
      → Kept g (dispatch rt w params resolved k g) ⊎ Forwarded g (dispatch rt w params resolved k g)
  unfolding dispatch
  dispatch_lem resolved k g con =
      let a : Result RouteError BackendRoute × Provider =
        route rt w.around params.name g.registry g.provider in
      elim (Result-cases a.0) [
        | inr (e, h) ↦ inl (sent-on_route_error resolved k g a e h)
        | inl (r, h) ↦ elim (sent-on_route resolved k g a r h) [
          | inl same ↦ inl same
          | inr (t, more) ↦
              let (m, c, serves, cred, is) =
                route_lem rt w.around params.name g.registry g.provider r con h in
              inr (
                sent_by rt w params r,
                (
                  m,
                  c,
                  serves,
                  sym (ap (λ r. r.backend_type) is) ∙ t,
                  cred,
                  ap (sent_by rt w params) is,
                ),
                more,
              )
        ]
      ]
