-- ===== src/Orchestrator/Choice.antt =====
-- What the reference model picks.
use enterprise_mcp_service_b.Base.{
  ℕ, String, ◌≡◌, ◌≤◌, refl, sym, ap, ◌⊎◌, inl, inr, ◌↔◌, ◌&&◌, none, some, some_inj, List, [], ◌∷◌,
  arith, if◌then◌else◌, Bool-cases, Member, ◌==◌, str_leb, leb,
}
use enterprise_mcp_service_b.Risk.{RiskTier, r0, r1, r2, r3, r4, order, tier_value}
use enterprise_mcp_service_b.Registry.Models.{CapabilityManifest}
use enterprise_mcp_service_b.Orchestrator.{
  DecisionContext, NbaDecision, key_ltb, min_by_key, decide, decision_for,
}

-- The texts of the tiers are in the order of the tiers.
str_leb-tier_value :
    (s t : RiskTier) → str_leb (tier_value s) (tier_value t) ≡ leb (order s) (order t)
unfolding tier_value order
str_leb-tier_value r0 r0 = refl
str_leb-tier_value r1 r1 = refl
str_leb-tier_value r2 r2 = refl
str_leb-tier_value r3 r3 = refl
str_leb-tier_value r4 r4 = refl
str_leb-tier_value _ _ = refl

eq-tier_value :
    (s t : RiskTier)
    → (tier_value s == tier_value t) ≡ (leb (order s) (order t) && leb (order t) (order s))
unfolding tier_value order
eq-tier_value r0 r0 = refl
eq-tier_value r1 r1 = refl
eq-tier_value r2 r2 = refl
eq-tier_value r3 r3 = refl
eq-tier_value r4 r4 = refl
eq-tier_value _ _ = refl

-- The pick of two, by their keys
abbrev lesser : CapabilityManifest → CapabilityManifest → CapabilityManifest
lesser m best = if key_ltb m best then m else best

lesser-least :
    (m best : CapabilityManifest)
    → (order (lesser m best).risk_tier ≤ order m.risk_tier)
      × (order (lesser m best).risk_tier ≤ order best.risk_tier)
unfolding key_ltb
lesser-least m best =
    ground (
      arith,
      str_leb-tier_value best.risk_tier m.risk_tier,
      eq-tier_value m.risk_tier best.risk_tier,
    )

Member-lesser :
    (x m best : CapabilityManifest) (ms : List CapabilityManifest)
    → Member x (lesser m best ∷ ms)
    → Member x (best ∷ m ∷ ms)
Member-lesser x m best ms (inr h) = inr (inr h)
Member-lesser x m best ms (inl h) = elim (Bool-cases (key_ltb m best)) [
  | inl e ↦ inr (inl (rw e at h))
  | inr e ↦ inl (rw e at h)
]

min_by_key-Member :
    (best : CapabilityManifest) (ms : List CapabilityManifest)
    → Member (min_by_key best ms) (best ∷ ms)
unfolding min_by_key
min_by_key-Member best [] = inl refl
min_by_key-Member best (m ∷ ms) =
    Member-lesser (min_by_key (lesser m best) ms) m best ms (min_by_key-Member (lesser m best) ms)

min_by_key-least :
    (best : CapabilityManifest) (ms : List CapabilityManifest) (o : CapabilityManifest)
    → Member o (best ∷ ms)
    → order (min_by_key best ms).risk_tier ≤ order o.risk_tier
unfolding min_by_key
min_by_key-least best [] o (inl e) = rw e (omega arith)
min_by_key-least best [] o (inr h) = absurd h
min_by_key-least best (m ∷ ms) o (inr (inr h)) = min_by_key-least (lesser m best) ms o (inr h)
min_by_key-least best (m ∷ ms) o (inl e) = rw e (
    omega (
      arith,
      (lesser-least m best).1,
      min_by_key-least (lesser m best) ms (lesser m best) (inl refl),
    ))
min_by_key-least best (m ∷ ms) o (inr (inl e)) = rw e (
    omega (
      arith,
      (lesser-least m best).0,
      min_by_key-least (lesser m best) ms (lesser m best) (inl refl),
    ))

pub list_cases :
    (os : List CapabilityManifest)
    → (os ≡ []) ⊎ ((m : CapabilityManifest) × (ms : List CapabilityManifest) × (os ≡ m ∷ ms))
list_cases [] = inl refl
list_cases (m ∷ ms) = inr (m, ms, refl)

-- The reference model decides for one of the filtered offerings, of which none has a lower risk tier,
-- and for the context's subject and channel; it makes no decision exactly where there are no
-- offerings.
pub decide_lem :
    (hex : String) (now : ℕ) (context : DecisionContext)
    → ((nba : NbaDecision)
        → decide hex now context ≡ some nba
        → (m : CapabilityManifest) × Member m context.filtered_offerings
          × (nba.action ≡ m.name)
          × (nba.capability_version ≡ m.version)
          × (nba.subject_ref ≡ context.profile.subject_ref)
          × (nba.channel ≡ context.runtime_context.channel)
          × ((o : CapabilityManifest)
              → Member o context.filtered_offerings
              → order m.risk_tier ≤ order o.risk_tier))
      × ((decide hex now context ≡ none) ↔ (context.filtered_offerings ≡ []))
unfolding decide
decide_lem hex now context = elim (list_cases context.filtered_offerings) [
  | inl e ↦ (λ nba h. absurd (ground (arith, rw e at h)), (λ h. e, λ h. rw e refl))
  | inr (m, ms, e) ↦ (
    λ nba h.
        let is : decision_for hex now context (min_by_key m ms) ≡ nba = some_inj (rw e at h) in
        (
          min_by_key m ms,
          rw e (min_by_key-Member m ms),
          sym (ap (λ n. n.action) is),
          sym (ap (λ n. n.capability_version) is),
          sym (ap (λ n. n.subject_ref) is),
          sym (ap (λ n. n.channel) is),
          λ o there. min_by_key-least m ms o (rw e at there),
        ),
    (λ h. absurd (ground (arith, rw e at h)), λ h. absurd (ground (arith, rw e at h))),
  )
]
