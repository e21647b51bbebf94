-- ===== src/Registry/Lifecycle.antt =====
-- RI/src/emcp_bus/registry/lifecycle.py: the lifecycle state machine.
pub mod Trails
use enterprise_mcp_service_b.Base.{
  ◌≡◌, Bool, true, false, List, [], ◌∷◌, Result, ok, err, any, if◌then◌else◌,
}
use enterprise_mcp_service_b.Registry.Models.{
  LifecycleStatus, nominate, review, register, active, deprecated, retired, status_eq,
}

pub data InvalidLifecycleTransition : Type 0 where
  not_allowed : (current target : LifecycleStatus) → InvalidLifecycleTransition

-- `_ALLOWED_TRANSITIONS`
unfoldable pub allowed_transitions : LifecycleStatus → List LifecycleStatus
allowed_transitions nominate = review ∷ []
allowed_transitions review = register ∷ nominate ∷ []
allowed_transitions register = active ∷ []
allowed_transitions active = active ∷ deprecated ∷ []
allowed_transitions deprecated = retired ∷ []
allowed_transitions retired = []

unfoldable pub validate_transition :
    LifecycleStatus → LifecycleStatus → Result InvalidLifecycleTransition Unit
unfolding allowed_transitions
validate_transition current target =
    if any (status_eq target) (allowed_transitions current)
    then ok tt
    else err (not_allowed current target)
