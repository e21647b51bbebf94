-- ===== src/Orchestrator/Journey/Fresh.antt =====
-- A run from the start: what it may decide for, and when it pauses.
use mathlib.Core.List.{List}
use enterprise_mcp_service_b.Base.{
  String, ◌≡◌, refl, sym, ap, ◌∙◌, subst, ◌⊎◌, inl, inr, true, false, not, Option, none, some,
  some_inj, arith, Bool-cases, ◌↔◌, Member, Member-select, Member-of_select, Result, ok, err,
  ok_inj, Result-cases, contains, str_leb,
}
use enterprise_mcp_service_b.Base.Sort.{sort_by, Member-sort_by, Member-of_sort_by}
use enterprise_mcp_service_b.Json.{Runtime}
use enterprise_mcp_service_b.Registry.Models.{CapabilityManifest}
use enterprise_mcp_service_b.Entitlement.{
  EntitlementManager, EntitlementError, ResolvedEntitlement, resolve,
}
use enterprise_mcp_service_b.Offering.{matches_context, filtered_offerings}
use enterprise_mcp_service_b.Offering.Intersection.{filtered_offerings_iff}
use enterprise_mcp_service_b.Fabric.Backends.{Member-of_contains, contains-of_Member}
use enterprise_mcp_service_b.Orchestrator.{DecisionContext, NbaDecision, requires_approval}
use enterprise_mcp_service_b.Orchestrator.Denial.{IsSelective}
use enterprise_mcp_service_b.Orchestrator.Journey.Needs.{required_if, not_required_if}
use enterprise_mcp_service_b.Orchestrator.Journey.{
  JourneyState, Services, Platform, Progress, finished, paused, decision_context_from_state,
  resolve_profile_node, resolve_entitlement_node, filter_offerings_node, decide_nba_node,
  approval_gate_node, needed, except, run_fresh, offer, entitle, entitled_state,
}
use enterprise_mcp_service_b.Orchestrator.Journey.Exclusion.{context-offerings}

module _ (rt : Runtime) (s : Services) where
  -- A capability that is ACTIVE, that the entitlement allows and that the consent permits
  abbrev pub Offerable : ResolvedEntitlement → CapabilityManifest → Type 0
  Offerable resolved m =
      Member m s.active
      × Member m.name resolved.allowed_tools
      × (matches_context m s.consent_context ≡ true)

  -- The decision is for such a capability that is not excluded. The run is paused where one such
  -- capability of that name wants an approval; and it is over where none does.
  abbrev pub Decides :
      JourneyState → ResolvedEntitlement → JourneyState → NbaDecision → Progress → Type 0
  Decides st resolved decided nba g =
      ((m : CapabilityManifest) × Offerable resolved m × (nba.action ≡ m.name))
      × (contains nba.action st.excluded_actions ≡ false)
      × (((g ≡ paused decided)
            × ((m : CapabilityManifest) × Offerable resolved m
                × (nba.action ≡ m.name)
                × (m.approval.required ≡ true)))
          ⊎ ((g ≡ finished (record decided { approval_status = some "not_required" }))
              × ((m : CapabilityManifest)
                  → Offerable resolved m
                  → nba.action ≡ m.name
                  → m.approval.required ≡ false)))

  abbrev pub Ends : JourneyState → ResolvedEntitlement → JourneyState → Progress → Type 0
  Ends st resolved decided g =
      ((decided.nba ≡ none)
        × (g ≡ finished (record decided { approval_status = some "not_applicable" })))
      ⊎ ((nba : NbaDecision) × (decided.nba ≡ some nba) × Decides st resolved decided nba g)

  decide_nba_node_lem :
      (st st' : JourneyState)
      → decide_nba_node rt s st ≡ ok st'
      → (context : DecisionContext) × (decision_context_from_state rt s st st.excluded_actions
          ≡ ok context)
        × (st' ≡ record st {
          nba = s.decision_model context;
          nba_requires_approval = needed context.filtered_offerings (s.decision_model context);
        })
  unfolding decide_nba_node
  decide_nba_node_lem st st' h =
      elim (Result-cases (decision_context_from_state rt s st st.excluded_actions)) [
        | inr (x, e) ↦ absurd (ground (arith, rw (e, decide_nba_node) at h))
        | inl (context, e) ↦ (context, e, sym (ok_inj (rw (e, decide_nba_node) at h)))
      ]

  -- The offerings of the context are the capabilities to offer that are not excluded.
  offerings_iff :
      (st : JourneyState) (resolved : ResolvedEntitlement) (m : CapabilityManifest)
      → Member m (
          except st.excluded_actions (
            filtered_offerings s.active (sort_by str_leb resolved.allowed_tools) s.consent_context))
        ↔ (Offerable resolved m × (contains m.name st.excluded_actions ≡ false))
  offerings_iff st resolved m = (
    λ h.
        let (mem, kept) =
          Member-of_select (λ (o : CapabilityManifest). not (contains o.name st.excluded_actions)) m
            _ h in
        let (on, may, fits) = (filtered_offerings_iff s.active allowed s.consent_context m).0 mem in
        (
          (
            on,
            Member-of_sort_by str_leb m.name resolved.allowed_tools
                (Member-of_contains m.name allowed may),
            fits,
          ),
          ground (arith, kept),
        ),
    λ ((on, may, fits), free).
        Member-select (λ (o : CapabilityManifest). not (contains o.name st.excluded_actions)) m _
          ((filtered_offerings_iff s.active allowed s.consent_context m).1 (
            on,
            contains-of_Member m.name allowed
                (Member-sort_by str_leb m.name resolved.allowed_tools may),
            fits,
          ))
          (rw free refl),
  )
    where
      allowed : List String
      allowed = sort_by str_leb resolved.allowed_tools

  -- The approval gate, on what the model decided for the offerings `os`
  gate-Ends :
      (st : JourneyState) (resolved : ResolvedEntitlement) (before : JourneyState)
      (os : List CapabilityManifest) (o : Option NbaDecision)
      → ((nba : NbaDecision)
          → o ≡ some nba
          → (m : CapabilityManifest) × Member m os × (nba.action ≡ m.name))
      → ((m : CapabilityManifest)
          → Member m os ↔ (Offerable resolved m × (contains m.name st.excluded_actions ≡ false)))
      → Ends st resolved
          (record before { nba = o; nba_requires_approval = needed os o })
          (approval_gate_node rt s (record before { nba = o; nba_requires_approval = needed os o }))
  unfolding approval_gate_node
  gate-Ends st resolved before os none select is = inl (refl, refl)
  gate-Ends st resolved before os (some nba) selected is =
      let (m, there, named) = selected nba refl in
      let (on, free) = (is m).0 there in
      let kept : contains nba.action st.excluded_actions ≡ false = rw named free in
      inr (
        nba,
        refl,
        (
          (m, on, named),
          kept,
          elim (Bool-cases (requires_approval os nba.action)) [
            | inl e ↦
                let (n, at, same, must) = required_if nba.action os e in
                inl (rw e refl, (n, ((is n).0 at).0, same, must))
            | inr e ↦ inr (
              rw e refl,
              λ n off same.
                  not_required_if nba.action os e n ((is n).1 (off, rw (sym same) kept)) same,
            )
          ],
        ),
      )

  -- The part of a run behind the entitlement
  offer_lem :
      (st : JourneyState) (p : Platform) (resolved : ResolvedEntitlement) (g : Progress)
      → IsSelective s.decision_model
      → (offer rt s (ok (entitle rt s st resolved), p)).0 ≡ ok g
      → (decided : JourneyState) × Ends st resolved decided g
  unfolding filter_offerings_node
  offer_lem st p resolved g selective h =
      let offerings : List CapabilityManifest =
        filtered_offerings s.active (sort_by str_leb resolved.allowed_tools) s.consent_context in
      let filtered : JourneyState = record (entitle rt s st resolved) {
        filtered_offerings = some offerings;
      } in
      elim (Result-cases (decide_nba_node rt s filtered)) [
        | inr (x, e) ↦ absurd (ground (arith, rw e at h))
        | inl (decided, e) ↦
            let (context, c, is) = decide_nba_node_lem filtered decided e in
            let (os, at, left) = context-offerings rt s filtered st.excluded_actions context c in
            let same : context.filtered_offerings ≡ except st.excluded_actions offerings =
              left ∙ ap (except st.excluded_actions) (sym (some_inj at)) in
            let result : JourneyState = record filtered {
              nba = s.decision_model context;
              nba_requires_approval = needed context.filtered_offerings (s.decision_model context);
            } in
            (
              result,
              subst (Ends st resolved result)
                  (ap (approval_gate_node rt s) (sym is) ∙ ok_inj (rw e at h))
                  (gate-Ends st resolved filtered context.filtered_offerings
                    (s.decision_model context) (selective context)
                    (λ m.
                      subst
                        (λ os.
                          Member m os
                          ↔ (Offerable resolved m × (contains m.name st.excluded_actions ≡ false)))
                        (sym same) (offerings_iff st resolved m))),
            )
      ]

  entitled_lem :
      (st : JourneyState) (p : Platform)
      (a : Result EntitlementError ResolvedEntitlement × EntitlementManager) (g : Progress)
      → (offer rt s (entitled_state rt s st p a)).0 ≡ ok g
      → (resolved : ResolvedEntitlement) × (a.0 ≡ ok resolved)
        × ((offer rt s (ok (entitle rt s st resolved), record p { manager = a.1 })).0 ≡ ok g)
  entitled_lem st p (err e, m) g h = absurd (ground (arith, h))
  entitled_lem st p (ok resolved, m) g h = (resolved, refl, h)

  -- A run from the start, where it does not fail, decides only for an ACTIVE capability that the
  -- client's entitlement allows, that the consent permits and that was not excluded before. It pauses
  -- where the manifest of such a capability of that name wants an approval, and where none does it ends
  -- with the status that none was needed; without a decision it ends with the status that none applies.
  -- The model decides only for offerings of its context.
  pub fresh_lem :
      (st : JourneyState) (p : Platform) (g : Progress)
      → IsSelective s.decision_model
      → (run_fresh rt s st p).0 ≡ ok g
      → (resolved : ResolvedEntitlement) × (decided : JourneyState) × ((resolve rt st.client_id
            p.manager).0
          ≡ ok resolved)
        × Ends st resolved decided g
  unfolding run_fresh resolve_profile_node resolve_entitlement_node
  fresh_lem st p g selective h = elim (Result-cases (s.profile_provider st.raw_subject_id)) [
    | inr (x, e) ↦ absurd (ground (arith, rw (e, run_fresh, resolve_profile_node) at h))
    | inl (profile, e) ↦
        let profiled : JourneyState = record st { profile = some profile } in
        let (resolved, got, rest) =
          entitled_lem profiled p (resolve rt st.client_id p.manager) g
            (rw (e, run_fresh, resolve_profile_node) at h) in
        let (decided, ends) =
          offer_lem profiled (record p { manager = (resolve rt st.client_id p.manager).1 }) resolved
            g selective rest in
        (resolved, decided, got, ends)
  ]
