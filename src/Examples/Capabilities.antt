-- ===== src/Examples/Capabilities.antt =====
-- The registry on the sample manifest.
use mathlib.Core.List.{[], ◌∷◌}
use enterprise_mcp_service_b.Base.{◌≡◌, refl, inl, false, not, ◌&&◌, ok, Member, values, get, put}
use enterprise_mcp_service_b.Base.Sort.{sort_by, insert}
use enterprise_mcp_service_b.Registry.Models.{
  CapabilityManifest, nominate, review, register, active,
}
use enterprise_mcp_service_b.Registry.Lifecycle.{validate_transition, allowed_transitions}
use enterprise_mcp_service_b.Registry.Lifecycle.Trails.{Trail, start, step}
use enterprise_mcp_service_b.Registry.Store.{fetch, upsert, list_active, set_lifecycle_status}
use enterprise_mcp_service_b.Registry.Store.Rows.{IsConsistent, upsert-IsConsistent}
use enterprise_mcp_service_b.Registry.Pipeline.{
  is_blank, is_high_impact, run_gates, transition, submit, publish, publish_all,
}
use enterprise_mcp_service_b.Registry.Pipeline.Governance.{
  empty-IsSound, seeded-IsGoverned, seeding_completes,
}
use enterprise_mcp_service_b.Examples.Samples.{manifest, live, registry}

gates : run_gates manifest ≡ []
unfolding run_gates is_blank
gates = refl

is_listed : Member live (list_active (publish_all (manifest ∷ []) []).1)
unfolding publish_all submit publish run_gates is_blank transition validate_transition
    allowed_transitions set_lifecycle_status fetch upsert put get list_active values sort_by insert
is_listed = inl refl

seeded-IsGoverned_example :
    (is_blank live.owner ≡ false)
    × (is_blank live.backend.service ≡ false)
    × ((is_high_impact live.risk_tier && not live.approval.required) ≡ false)
seeded-IsGoverned_example = seeded-IsGoverned (manifest ∷ []) live is_listed

seeding_completes_example :
    ((publish_all (manifest ∷ []) []).0 ≡ ok tt)
    × ((m : CapabilityManifest) × (m.name ≡ "crm.read")
        × Member m (list_active (publish_all (manifest ∷ []) []).1))
seeding_completes_example = seeding_completes (manifest ∷ []) "crm.read" (gates, tt) (inl refl)

consistent : IsConsistent registry
consistent = upsert-IsConsistent live [] empty-IsSound.consistent

trail : Trail nominate active (active ∷ register ∷ review ∷ nominate ∷ [])
unfolding validate_transition allowed_transitions
trail = step active (step register (step review start refl) refl) refl
