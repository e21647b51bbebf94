-- ===== src/Registry/Lifecycle/Trails.antt =====
-- What the lifecycle state machine allows over any number of transitions.
use enterprise_mcp_service_b.Base.{◌≡◌, refl, List, [], ◌∷◌, ok, arith, Member, ◌⊎◌, inl, inr}
use enterprise_mcp_service_b.Registry.Models.{
  LifecycleStatus, nominate, review, register, active, deprecated, retired,
}
use enterprise_mcp_service_b.Registry.Lifecycle.{validate_transition}

-- The statuses from `s` to a status by validated transitions, the latest first.
pub data Trail (s : LifecycleStatus) : LifecycleStatus → List LifecycleStatus → Type 0 where
  start : Trail s s (s ∷ [])
  step :
      {t : LifecycleStatus} {seen : List LifecycleStatus} (u : LifecycleStatus)
      → Trail s t seen
      → validate_transition t u ≡ ok tt
      → Trail s u (u ∷ seen)

abbrev Vetted : LifecycleStatus → List LifecycleStatus → Type 0
Vetted nominate seen = Unit
Vetted review seen = Member review seen
Vetted _ seen = Member review seen × Member register seen

Vetted-step :
    (t u : LifecycleStatus) (seen : List LifecycleStatus)
    → Vetted t seen
    → validate_transition t u ≡ ok tt
    → Vetted u (u ∷ seen)
unfolding validate_transition
Vetted-step nominate review seen h e = inl refl
Vetted-step review nominate seen h e = tt
Vetted-step review register seen h e = (inr h, inl refl)
Vetted-step register active seen h e = (inr h.0, inr h.1)
Vetted-step active active seen h e = (inr h.0, inr h.1)
Vetted-step active deprecated seen h e = (inr h.0, inr h.1)
Vetted-step deprecated retired seen h e = (inr h.0, inr h.1)
Vetted-step _ _ seen h e = cc

Vetted-Trail :
    {t : LifecycleStatus} {seen : List LifecycleStatus} → Trail nominate t seen → Vetted t seen
Vetted-Trail start = tt
Vetted-Trail (step {t} {seen} u trail e) = Vetted-step t u seen (Vetted-Trail trail) e

-- Every trail of validated transitions from NOMINATE to ACTIVE has passed through both REVIEW and
-- REGISTER.
pub active_needs_review :
    {seen : List LifecycleStatus}
    → Trail nominate active seen
    → Member review seen × Member register seen
active_needs_review trail = Vetted-Trail trail

-- From RETIRED no trail leads anywhere but RETIRED, and from DEPRECATED only there and to RETIRED.
pub sunset_is_final :
    {s t : LifecycleStatus} {seen : List LifecycleStatus}
    → Trail s t seen
    → ((s ≡ retired → t ≡ retired) × (s ≡ deprecated → (t ≡ deprecated) ⊎ (t ≡ retired)))
unfolding validate_transition
sunset_is_final start = (λ e. e, λ e. inl e)
sunset_is_final {s} (step {t} u trail e) =
    let ih = sunset_is_final trail in (λ p. go t u e (ih.0 p), λ p. go' t u e (ih.1 p))
  where
    go : (t u : LifecycleStatus) → validate_transition t u ≡ ok tt → t ≡ retired → u ≡ retired
    go retired u e p = cc
    go _ u e p = cc

    go' :
        (t u : LifecycleStatus)
        → validate_transition t u ≡ ok tt
        → (t ≡ deprecated) ⊎ (t ≡ retired)
        → (u ≡ deprecated) ⊎ (u ≡ retired)
    go' t u e p = ground arith
