-- ===== src/Orchestrator/Journey/Needs.antt =====
-- When an action needs an approval.
use mathlib.Core.List.{List, [], ◌∷◌}
use enterprise_mcp_service_b.Base.{
  String, ◌≡◌, refl, sym, ap, inl, inr, true, false, ◌==◌, eq_iff, arith, Bool-cases, Member,
}
use enterprise_mcp_service_b.Registry.Models.{CapabilityManifest}
use enterprise_mcp_service_b.Orchestrator.{requires_approval}

pub required_if :
    (action : String) (os : List CapabilityManifest)
    → requires_approval os action ≡ true
    → (m : CapabilityManifest) × Member m os × (action ≡ m.name) × (m.approval.required ≡ true)
unfolding requires_approval
required_if action [] e = cc
required_if action (o ∷ os) e = elim (Bool-cases (o.name == action)) [
  | inl p ↦ elim (Bool-cases o.approval.required) [
    | inl q ↦ (o, inl refl, sym ((eq_iff o.name action).0 p), q)
    | inr q ↦
        let (m, there, named, is) = required_if action os (rw q at (rw p at e)) in
        (m, inr there, named, is)
  ]
  | inr p ↦
      let (m, there, named, is) = required_if action os (rw p at e) in (m, inr there, named, is)
]

pub not_required_if :
    (action : String) (os : List CapabilityManifest)
    → requires_approval os action ≡ false
    → (m : CapabilityManifest) → Member m os
    → action ≡ m.name
    → m.approval.required ≡ false
unfolding requires_approval
not_required_if action [] e m there named = absurd there
not_required_if action (o ∷ os) e m (inl is) named = ground (
  arith,
  e,
  ap (λ (m : CapabilityManifest). m.approval.required) is,
  ap (λ (m : CapabilityManifest). m.name) is,
  named,
  eq_iff o.name action,
)
not_required_if action (o ∷ os) e m (inr there) named =
    not_required_if action os (ground (arith, e)) m there named
