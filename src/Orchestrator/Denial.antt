-- ===== src/Orchestrator/Denial.antt =====
-- What follows a denial.
use enterprise_mcp_service_b.Base.{
  ℕ, String, ◌≡◌, ◌≢◌, refl, sym, ap, ◌∙◌, subst, ◌⊎◌, inl, inr, ◌↔◌, not, none, some, List, [],
  ◌∷◌, arith, Bool-cases, Option-cases, Member, Member-select, Member-of_select, ◌==◌, eq_iff,
  Result, ok, err, ok_inj,
}
use enterprise_mcp_service_b.Json.{Runtime}
use enterprise_mcp_service_b.Registry.Models.{CapabilityManifest}
use enterprise_mcp_service_b.Audit.Events.{AuditLog}
use enterprise_mcp_service_b.Orchestrator.{
  DecisionContext, NbaDecision, NbaDecisionModel, FallbackResult, recalculated, ended, Sink,
  without, narrowed, outcome_of, with_result, handle_denial, decide,
}
use enterprise_mcp_service_b.Orchestrator.Choice.{decide_lem, list_cases}

-- A model that decides only for one of the offerings of its context
abbrev pub IsSelective : NbaDecisionModel → Type 0
IsSelective model =
    (context : DecisionContext) (nba : NbaDecision)
    → model context ≡ some nba
    → (m : CapabilityManifest) × Member m context.filtered_offerings × (nba.action ≡ m.name)

pub decide-IsSelective : (hex : String) (now : ℕ) → IsSelective (decide hex now)
decide-IsSelective hex now context nba h =
    let (m, there, named, v, s, c, least) = (decide_lem hex now context).0 nba h in
    (m, there, named)

ok_of_with_result :
    (r : FallbackResult) (a : Result String Unit × AuditLog) (s : FallbackResult)
    → (with_result r a).0 ≡ ok s
    → s ≡ r
ok_of_with_result r (ok u, log) s h = sym (ok_inj h)
ok_of_with_result r (err e, log) s h = absurd (ground (arith, h))

module _ (rt : Runtime) (sink : Sink) (context : DecisionContext) (denied_action : String)
    (model : NbaDecisionModel) (log : AuditLog) where
  abbrev remaining : List CapabilityManifest
  remaining = without denied_action context.filtered_offerings

  -- The two ways on: no offering remains, or the model is asked about those that do.
  denial_cases :
      (r : FallbackResult)
      → (handle_denial rt sink context denied_action model log).0 ≡ ok r
      → ((remaining ≡ []) × (r ≡ outcome_of none))
        ⊎ ((remaining ≢ []) × (r ≡ outcome_of (model (narrowed remaining context))))
  unfolding handle_denial
  denial_cases r h = elim (list_cases remaining) [
    | inl e ↦ inl (e, ok_of_with_result (outcome_of none) _ r (rw (e, handle_denial) at h))
    | inr (m, ms, e) ↦ inr (
      λ none_left. absurd (ground (arith, sym e ∙ none_left)),
      rw e (
          ok_of_with_result (outcome_of (model (narrowed (m ∷ ms) context))) _ r
            (rw (e, handle_denial) at h)),
    )
  ]

  -- Safe degradation: a denial ends the journey, or leads to a new decision for another one of the
  -- offerings that there were, never for the denied action. The model decides only for offerings of
  -- its context.
  pub never_again :
      (r : FallbackResult)
      → IsSelective model
      → (handle_denial rt sink context denied_action model log).0 ≡ ok r
      → (r ≡ record { outcome = ended; nba = none })
        ⊎ ((nba : NbaDecision) × (r ≡ record { outcome = recalculated; nba = some nba })
            × (nba.action ≢ denied_action)
            × ((m : CapabilityManifest) × Member m context.filtered_offerings
                × (nba.action ≡ m.name)))
  never_again r selective h = elim (denial_cases r h) [
    | inl (e, is) ↦ inl is
    | inr (ne, is) ↦ elim (Option-cases (model (narrowed remaining context))) [
      | inl f ↦ inl (is ∙ ap outcome_of f)
      | inr (nba, f) ↦
          let (m, there, named) = selective (narrowed remaining context) nba f in
          let (at, other) =
            Member-of_select (λ (o : CapabilityManifest). not (o.name == denied_action)) m
              context.filtered_offerings there in
          inr (
            nba,
            is ∙ ap outcome_of f,
            λ same.
                absurd (ground (arith, other, (eq_iff m.name denied_action).1 (sym named ∙ same))),
            (m, at, named),
          )
    ]
  ]

without_empty :
    (action : String) (os : List CapabilityManifest)
    → (without action os ≡ []) ↔ ((o : CapabilityManifest) → Member o os → o.name ≡ action)
without_empty action os = (
  λ e o there. elim (Bool-cases (o.name == action)) [
    | inl same ↦ (eq_iff o.name action).0 same
    | inr other ↦ absurd (
        subst (Member o) e (
          Member-select (λ (o : CapabilityManifest). not (o.name == action)) o os there
            (rw other refl)))
  ],
  λ all. elim (list_cases (without action os)) [
    | inl e ↦ e
    | inr (m, ms, e) ↦
        let (at, other) =
          Member-of_select (λ (o : CapabilityManifest). not (o.name == action)) m os
            (subst (Member m) (sym e) (inl refl)) in
        absurd (ground (arith, other, (eq_iff m.name action).1 (all m at)))
  ],
)

module _ (rt : Runtime) (sink : Sink) (context : DecisionContext) (denied_action hex : String)
    (now : ℕ) (log : AuditLog) where
  -- With the reference model a denial ends the journey exactly where every offering has the denied
  -- name.
  pub ended_iff :
      (r : FallbackResult)
      → (handle_denial rt sink context denied_action (decide hex now) log).0 ≡ ok r
      → (r.outcome ≡ ended)
        ↔ ((o : CapabilityManifest) → Member o context.filtered_offerings → o.name ≡ denied_action)
  ended_iff r h = elim (denial_cases rt sink context denied_action (decide hex now) log r h) [
    | inl (e, is) ↦ (
      λ over. (without_empty denied_action context.filtered_offerings).0 e,
      λ all. ap (λ (r : FallbackResult). r.outcome) is,
    )
    | inr (ne, is) ↦ elim (Option-cases (decide hex now (narrowed left context))) [
      | inl f ↦ absurd (ne ((decide_lem hex now (narrowed left context)).1.0 f))
      | inr (nba, f) ↦ (
        λ over. absurd (
            ground
              (arith, sym over ∙ ap (λ (r : FallbackResult). r.outcome) (is ∙ ap outcome_of f))),
        λ all. absurd (ne ((without_empty denied_action context.filtered_offerings).1 all)),
      )
    ]
  ]
    where
      left : List CapabilityManifest
      left = without denied_action context.filtered_offerings
