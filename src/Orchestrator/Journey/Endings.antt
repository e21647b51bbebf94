-- ===== src/Orchestrator/Journey/Endings.antt =====
-- A journey survives no more denials than it has offerings.
use mathlib.Core.List.{List, [], ◌∷◌, ◌++◌}
use enterprise_mcp_service_b.Base.{
  ℕ, suc, ◌≤◌, ◌<◌, String, ◌≡◌, sym, ap, ◌∙◌, subst, inl, inr, false, some, some_inj, arith,
  length, Member, eq_iff, Result, ok, err, ok_inj, contains, Option-cases, Result-cases,
}
use enterprise_mcp_service_b.Json.{Runtime}
use enterprise_mcp_service_b.Registry.Models.{CapabilityManifest}
use enterprise_mcp_service_b.Audit.Events.{AuditLog}
use enterprise_mcp_service_b.Orchestrator.{
  DecisionContext, NbaDecision, FallbackResult, handle_denial,
}
use enterprise_mcp_service_b.Orchestrator.Denial.{IsSelective}
use enterprise_mcp_service_b.Orchestrator.Journey.{
  JourneyState, Services, Platform, except, decision_context_from_state, after_denial,
  handle_denial_node,
}
use enterprise_mcp_service_b.Orchestrator.Journey.Exclusion.{contains-append, denials_exclude}

except-le :
    (ex : List String) (a : String) (os : List CapabilityManifest)
    → length (except (ex ++ a ∷ []) os) ≤ length (except ex os)
except-le ex a [] = omega arith
except-le ex a (o ∷ os) = ground (arith, contains-append o.name a ex, except-le ex a os)

-- One more excluded name, which an offering that was left bears, leaves fewer offerings.
except-lt :
    (ex : List String) (a : String) (m : CapabilityManifest) (os : List CapabilityManifest)
    → Member m os
    → a ≡ m.name
    → contains a ex ≡ false
    → length (except (ex ++ a ∷ []) os) < length (except ex os)
except-lt ex a m [] h e k = absurd h
except-lt ex a m (o ∷ os) (inl q) e k =
    let named : a ≡ o.name = e ∙ ap (λ (c : CapabilityManifest). c.name) q in
    let kept : contains o.name ex ≡ false = subst (λ x. contains x ex ≡ false) named k in
    ground (arith, contains-append o.name a ex, except-le ex a os, kept, eq_iff o.name a, sym named)
except-lt ex a m (o ∷ os) (inr h) e k =
    ground (arith, contains-append o.name a ex, except-lt ex a m os h e k)

except-length :
    (ex : List String) (os : List CapabilityManifest) → length (except ex os) ≤ length os
except-length ex [] = omega arith
except-length ex (o ∷ os) = ground (arith, except-length ex os)

module _ (rt : Runtime) (s : Services) where
  -- So many decisions in a row, each of which was denied.
  pub data Denials : JourneyState → ℕ → Type 0 where
    stop : (st : JourneyState) → Denials st 0
    denied :
        (st st' : JourneyState) (nba : NbaDecision) (p : Platform) (n : ℕ)
        → st.nba ≡ some nba
        → (handle_denial_node rt s (record st { denied_action = some nba.action }) p).0 ≡ ok st'
        → Denials st' n
        → Denials st (suc n)

  -- The decision, if there is one, is for an offering of the journey that is not excluded.
  abbrev pub Offered : JourneyState → List CapabilityManifest → Type 0
  Offered st os =
      (nba : NbaDecision)
      → st.nba ≡ some nba
      → (contains nba.action st.excluded_actions ≡ false)
        × ((m : CapabilityManifest) × Member m os × (nba.action ≡ m.name))

  after_denial-offerings :
      (st st' : JourneyState) (context : DecisionContext) (action : String) (p : Platform)
      (a : Result String FallbackResult × AuditLog)
      → (after_denial rt s st context action p a).0 ≡ ok st'
      → st'.filtered_offerings ≡ st.filtered_offerings
  after_denial-offerings st st' context action p (err e, log) h = absurd (ground (arith, h))
  after_denial-offerings st st' context action p (ok r, log) h =
      sym (ap (λ (t : JourneyState). t.filtered_offerings) (ok_inj h))

  denial-offerings :
      (st st' : JourneyState) (p : Platform)
      → (handle_denial_node rt s st p).0 ≡ ok st'
      → st'.filtered_offerings ≡ st.filtered_offerings
  unfolding handle_denial_node
  denial-offerings st st' p h = elim (Option-cases st.denied_action) [
    | inl e ↦ absurd (ground (arith, rw (e, handle_denial_node) at h))
    | inr (action, e) ↦
        elim (Result-cases (decision_context_from_state rt s st st.excluded_actions)) [
          | inr (x, c) ↦ absurd (ground (arith, rw c at (rw (e, handle_denial_node) at h)))
          | inl (context, c) ↦
              after_denial-offerings st st' context action p
                (handle_denial rt s.sink context action s.decision_model p.log)
                (rw c at (rw (e, handle_denial_node) at h))
        ]
  ]

  denials_bound :
      (os : List CapabilityManifest) {st : JourneyState} {n : ℕ}
      → IsSelective s.decision_model
      → st.filtered_offerings ≡ some os
      → Offered st os
      → Denials st n
      → n ≤ length (except st.excluded_actions os)
  denials_bound os sel at off (stop st) = omega arith
  denials_bound os sel at off (denied st st' nba p k e h rest) =
      let before : JourneyState = record st { denied_action = some nba.action } in
      let (action, is, more, next) = denials_exclude rt s before st' p sel h in
      let (kept, (m, there, named)) = off nba e in
      let same : action ≡ nba.action = sym (some_inj is) in
      let at' : st'.filtered_offerings ≡ some os = denial-offerings before st' p h ∙ at in
      let off' : Offered st' os = λ new q.
        let (fresh, (os', m', at'', there', named')) = next new q in
        (fresh, (m', subst (Member m') (some_inj (sym at'' ∙ at)) there', named')) in
      let ih = denials_bound os sel at' off' rest in
      let fewer = except-lt st.excluded_actions nba.action m os there named kept in
      let ex : st'.excluded_actions ≡ st.excluded_actions ++ nba.action ∷ [] =
        more ∙ ap (λ x. st.excluded_actions ++ x ∷ []) same in
      omega (arith, ap (λ x. length (except x os)) ex)

  -- A journey ends: of its decisions, no more can be denied in a row than it has offerings, since none
  -- is for an action that was denied before. The first decision is for one of the offerings and not
  -- excluded, and the model decides only for offerings of its context.
  pub denials_run_out :
      (os : List CapabilityManifest) (st : JourneyState) (n : ℕ)
      → IsSelective s.decision_model
      → st.filtered_offerings ≡ some os
      → Offered st os
      → Denials st n
      → n ≤ length os
  denials_run_out os st n sel at off ds =
      omega (arith, denials_bound os sel at off ds, except-length st.excluded_actions os)
