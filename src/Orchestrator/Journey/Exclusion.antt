-- ===== src/Orchestrator/Journey/Exclusion.antt =====
-- Denied actions stay excluded.
use mathlib.Core.List.{List, [], ◌∷◌, ◌++◌}
use enterprise_mcp_service_b.Base.{
  String, ◌≡◌, ◌≢◌, refl, sym, ap, ◌∙◌, subst, inl, inr, false, not, ◌||◌, some, some_inj, arith,
  Option-cases, Member, Member-of_select, ◌==◌, Result, ok, err, ok_inj, ne_str, Result-cases,
  contains,
}
use enterprise_mcp_service_b.Json.{Runtime}
use enterprise_mcp_service_b.Registry.Models.{CapabilityManifest}
use enterprise_mcp_service_b.Audit.Events.{AuditLog}
use enterprise_mcp_service_b.Orchestrator.{
  DecisionContext, NbaDecision, FallbackResult, handle_denial,
}
use enterprise_mcp_service_b.Orchestrator.Denial.{IsSelective, never_again}
use enterprise_mcp_service_b.Orchestrator.Journey.{
  JourneyState, Services, Platform, except, decision_context_from_state, after_denial,
  handle_denial_node,
}

pub contains-append :
    (x d : String) (xs : List String) → contains x (xs ++ d ∷ []) ≡ (contains x xs || (x == d))
contains-append x d [] = ground arith
contains-append x d (y ∷ ys) = rw (contains-append x d ys) (ground arith)

module _ (rt : Runtime) (s : Services) where
  pub context-offerings :
      (st : JourneyState) (exclude : List String) (context : DecisionContext)
      → decision_context_from_state rt s st exclude ≡ ok context
      → (offerings : List CapabilityManifest) × (st.filtered_offerings ≡ some offerings)
        × (context.filtered_offerings ≡ except exclude offerings)
  unfolding decision_context_from_state
  context-offerings st exclude context h = elim (Option-cases st.filtered_offerings) [
    | inl e ↦ absurd (ground (arith, e, h))
    | inr (offerings, e) ↦ (offerings, e, ground (arith, e, h))
  ]

  after_denial_lem :
      (st st' : JourneyState) (context : DecisionContext) (denied : String) (p : Platform)
      (a : Result String FallbackResult × AuditLog)
      → (after_denial rt s st context denied p a).0 ≡ ok st'
      → (r : FallbackResult) × (a.0 ≡ ok r)
        × (st'.nba ≡ r.nba)
        × (st'.excluded_actions ≡ st.excluded_actions ++ denied ∷ [])
  after_denial_lem st st' context denied p (err e, log) h = absurd (ground (arith, h))
  after_denial_lem st st' context denied p (ok r, log) h =
      let is = ok_inj h in
      (
        r,
        refl,
        sym (ap (λ (st : JourneyState). st.nba) is),
        sym (ap (λ (st : JourneyState). st.excluded_actions) is),
      )

  -- The denied action is excluded, and a decision is for one of the offerings, and not excluded.
  abbrev pub Moved : JourneyState → JourneyState → Type 0
  Moved st st' =
      (denied : String) × (st.denied_action ≡ some denied)
      × (st'.excluded_actions ≡ st.excluded_actions ++ denied ∷ [])
      × ((nba : NbaDecision)
          → st'.nba ≡ some nba
          → (contains nba.action st'.excluded_actions ≡ false)
            × ((offerings : List CapabilityManifest) × (m : CapabilityManifest)
                × (st.filtered_offerings ≡ some offerings)
                × Member m offerings
                × (nba.action ≡ m.name)))

  fresh_action :
      (st st' : JourneyState) (context : DecisionContext) (denied : String) (p : Platform)
      (nba : NbaDecision) (r : FallbackResult)
      → IsSelective s.decision_model
      → decision_context_from_state rt s st st.excluded_actions ≡ ok context
      → (handle_denial rt s.sink context denied s.decision_model p.log).0 ≡ ok r
      → r.nba ≡ some nba
      → (contains nba.action (st.excluded_actions ++ denied ∷ []) ≡ false)
        × ((offerings : List CapabilityManifest) × (m : CapabilityManifest) × (st.filtered_offerings
              ≡ some offerings)
            × Member m offerings
            × (nba.action ≡ m.name))
  fresh_action st st' context denied p nba r selective c h e =
      elim (never_again rt s.sink context denied s.decision_model p.log r selective h) [
        | inl is ↦ absurd (ground (arith, sym (ap (λ (r : FallbackResult). r.nba) is) ∙ e))
        | inr (n, is, other, (m, there, named)) ↦
            let (offerings, at, left) = context-offerings st st.excluded_actions context c in
            let same : n ≡ nba = some_inj (sym (ap (λ (r : FallbackResult). r.nba) is) ∙ e) in
            let action : nba.action ≡ m.name =
              ap (λ (n : NbaDecision). n.action) (sym same) ∙ named in
            let (mem, kept) =
              Member-of_select
                (λ (o : CapabilityManifest). not (contains o.name st.excluded_actions)) m offerings
                (subst (Member m) left there) in
            (
              ground (
                arith,
                contains-append nba.action denied st.excluded_actions,
                ap (λ x. contains x st.excluded_actions) action,
                kept,
                ne_str nba.action denied
                    (subst (λ (n : NbaDecision). n.action ≢ denied) same other),
              ),
              (offerings, m, at, mem, action),
            )
      ]

  -- After a denial the denied action joins the excluded ones, none of which is ever decided for again:
  -- a new decision is for one of the journey's offerings that is not excluded. The model decides only
  -- for offerings of its context.
  pub denials_exclude :
      (st st' : JourneyState) (p : Platform)
      → IsSelective s.decision_model
      → (handle_denial_node rt s st p).0 ≡ ok st'
      → Moved st st'
  unfolding handle_denial_node
  denials_exclude st st' p selective h = elim (Option-cases st.denied_action) [
    | inl e ↦ absurd (ground (arith, rw (e, handle_denial_node) at h))
    | inr (denied, e) ↦
        elim (Result-cases (decision_context_from_state rt s st st.excluded_actions)) [
          | inr (x, c) ↦ absurd (ground (arith, rw c at (rw (e, handle_denial_node) at h)))
          | inl (context, c) ↦
              let (r, got, nba, more) =
                after_denial_lem st st' context denied p
                  (handle_denial rt s.sink context denied s.decision_model p.log)
                  (rw c at (rw (e, handle_denial_node) at h)) in
              (
                denied,
                e,
                more,
                λ n k.
                    rw more
                      (fresh_action st st' context denied p n r selective c got (sym nba ∙ k)),
              )
        ]
  ]
