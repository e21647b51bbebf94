-- ===== src/Registry/Pipeline/Governance.antt =====
-- What holds of every store that the pipeline builds: what it stores has passed the gates.
use enterprise_mcp_service_b.Base.{
  String, ◌≡◌, refl, sym, ap, subst, ◌∙◌, ◌≢◌, ◌⊎◌, inl, inr, ◌==◌, eq_refl, false, not, ◌&&◌, List,
  [], ◌∷◌, ok, arith, Bool-cases, if◌then◌else◌, All, Member, get, map,
}
use enterprise_mcp_service_b.Registry.Models.{
  CapabilityManifest, LifecycleStatus, nominate, review, register, active, with_status,
}
use enterprise_mcp_service_b.Registry.Store.{RegistryStore, upsert, fetch, list_active}
use enterprise_mcp_service_b.Registry.Store.Rows.{
  IsConsistent, upsert-IsConsistent, fetch-upsert, list_active_lem, name-of_fetch,
}
use enterprise_mcp_service_b.Registry.Pipeline.{
  is_high_impact, is_blank, run_gates, publish, publish_all,
}
use enterprise_mcp_service_b.Registry.Pipeline.Steps.{
  submitted, promoted, fetch-submitted, publish_found, submit_lem,
}

-- Every stored manifest has passed the gates.
abbrev pub IsVetted : RegistryStore → Type 0
IsVetted s = (name : String) (m : CapabilityManifest) → fetch name s ≡ ok m → run_gates m ≡ []

pub record IsSound (s : RegistryStore) : Type 0 where
  pub consistent : IsConsistent s
  vetted : IsVetted s

gates-with_status :
    (status : LifecycleStatus) (m : CapabilityManifest)
    → run_gates (with_status status m) ≡ run_gates m
unfolding run_gates
gates-with_status status m = refl

upsert-IsSound :
    (m : CapabilityManifest) (s : RegistryStore)
    → run_gates m ≡ []
    → IsSound s
    → IsSound (upsert m s)
upsert-IsSound m s g h = record {
  consistent = upsert-IsConsistent m s h.consistent;
  vetted = λ name k e. elim (Bool-cases (m.name == name)) [
    | inl q ↦ ground (arith, fetch-upsert m s name, q, e, g)
    | inr q ↦ h.vetted name k (ground (arith, fetch-upsert m s name, q, e))
  ];
}

submitted-IsSound :
    (m : CapabilityManifest) (s : RegistryStore)
    → run_gates m ≡ []
    → IsSound s
    → IsSound (submitted m s)
submitted-IsSound m s g h =
    let s1 = upsert (with_status nominate m) s in
    let s2 = upsert (with_status review m) s1 in
    let h1 = upsert-IsSound (with_status nominate m) s (gates-with_status nominate m ∙ g) h in
    let h2 = upsert-IsSound (with_status review m) s1 (gates-with_status review m ∙ g) h1 in
    upsert-IsSound (with_status register m) s2 (gates-with_status register m ∙ g) h2

published :
    (m : CapabilityManifest) (s : RegistryStore)
    → run_gates m ≡ []
    → publish m.name (submitted m s)
      ≡ (ok (with_status active m), upsert (with_status active m) (submitted m s))
published m s g =
    publish_found m.name (submitted m s) (with_status register m)
      (fetch-submitted m s m.name ∙ rw (eq_refl m.name)) refl

-- One round of the seeding loop.
round :
    (m : CapabilityManifest) (ms : List CapabilityManifest) (s : RegistryStore)
    → run_gates m ≡ []
    → publish_all (m ∷ ms) s ≡ publish_all ms (upsert (with_status active m) (submitted m s))
unfolding publish_all
round m ms s g = rw (promoted m s g) (rw (published m s g))

round_rejected :
    (m : CapabilityManifest) (ms : List CapabilityManifest) (s : RegistryStore)
    → run_gates m ≢ []
    → (publish_all (m ∷ ms) s).1 ≡ s
unfolding publish_all
round_rejected m ms s g = elim (submit_lem m s) [ inl h ↦ absurd (g h.0) | inr h ↦ rw (h.1) ]

round-IsSound :
    (m : CapabilityManifest) (s : RegistryStore)
    → run_gates m ≡ []
    → IsSound s
    → IsSound (upsert (with_status active m) (submitted m s))
round-IsSound m s g h =
    upsert-IsSound (with_status active m) (submitted m s) (gates-with_status active m ∙ g)
      (submitted-IsSound m s g h)

nil-cases : (xs : List String) → (xs ≡ []) ⊎ (xs ≢ [])
nil-cases [] = inl refl
nil-cases (x ∷ xs) = inr (λ e. cc)

pub publish_all-IsSound :
    (ms : List CapabilityManifest) (s : RegistryStore) → IsSound s → IsSound (publish_all ms s).1
publish_all-IsSound [] s h = unfold publish_all in h
publish_all-IsSound (m ∷ ms) s h = elim (nil-cases (run_gates m)) [
  | inl g ↦ rw (round m ms s g) (
      publish_all-IsSound ms (upsert (with_status active m) (submitted m s))
        (round-IsSound m s g h))
  | inr g ↦ rw (round_rejected m ms s g) h
]

pub empty-IsSound : IsSound []
unfolding fetch get
empty-IsSound = record {
  consistent = record { keyed = tt; agrees = λ k v e. cc };
  vetted = λ name m e. cc;
}

gates_passed :
    (m : CapabilityManifest)
    → run_gates m ≡ []
    → (is_blank m.owner ≡ false)
      × (is_blank m.backend.service ≡ false)
      × ((is_high_impact m.risk_tier && not m.approval.required) ≡ false)
unfolding run_gates
gates_passed m h = ground arith

-- Whatever manifests the registry is seeded with, and also when the seeding stops with an exception,
-- each manifest that it lists as active has an owner and a backend service that are not blank, and
-- at a high-impact tier it requires approval.
pub seeded-IsGoverned :
    (ms : List CapabilityManifest) (m : CapabilityManifest)
    → Member m (list_active (publish_all ms []).1)
    → (is_blank m.owner ≡ false)
      × (is_blank m.backend.service ≡ false)
      × ((is_high_impact m.risk_tier && not m.approval.required) ≡ false)
seeded-IsGoverned ms m h =
    let sound = publish_all-IsSound ms [] empty-IsSound in
    gates_passed m
      (sound.vetted m.name m ((list_active_lem (publish_all ms []).1 m sound.consistent).0 h).0)

-- The store holds an ACTIVE manifest under the name.
abbrev IsLive : String → RegistryStore → Type 0
IsLive name s = (m : CapabilityManifest) × (fetch name s ≡ ok m) × (m.lifecycle.status ≡ active)

round_fetch :
    (m : CapabilityManifest) (s : RegistryStore) (name : String)
    → fetch name (upsert (with_status active m) (submitted m s))
      ≡ (if m.name == name then ok (with_status active m) else fetch name s)
round_fetch m s name =
    ground
      (arith, fetch-upsert (with_status active m) (submitted m s) name, fetch-submitted m s name)

round-IsLive :
    (m : CapabilityManifest) (s : RegistryStore) (name : String)
    → (m.name ≡ name) ⊎ IsLive name s
    → IsLive name (upsert (with_status active m) (submitted m s))
round-IsLive m s name (inl e) =
    (with_status active m, round_fetch m s name ∙ rw e (rw (eq_refl name)), refl)
round-IsLive m s name (inr (k, f, a)) = elim (Bool-cases (m.name == name)) [
  | inl q ↦ (with_status active m, round_fetch m s name ∙ rw q, refl)
  | inr q ↦ (k, round_fetch m s name ∙ rw q f, a)
]

abbrev AllPass : List CapabilityManifest → Type 0
AllPass = All (λ m. run_gates m ≡ [])

publish_all-IsLive :
    (ms : List CapabilityManifest) (s : RegistryStore) (name : String)
    → AllPass ms
    → (Member name (map (λ m. m.name) ms)) ⊎ IsLive name s
    → IsLive name (publish_all ms s).1
unfolding publish_all
publish_all-IsLive [] s name g (inl h) = absurd h
publish_all-IsLive [] s name g (inr h) = h
publish_all-IsLive (m ∷ ms) s name g h =
    subst (λ p. IsLive name p.1) (sym (round m ms s g.0))
      (publish_all-IsLive ms (upsert (with_status active m) (submitted m s)) name g.1 (next h))
  where
    next :
        ((name ≡ m.name) ⊎ Member name (map (λ m. m.name) ms)) ⊎ IsLive name s
        → Member name (map (λ m. m.name) ms)
          ⊎ IsLive name (upsert (with_status active m) (submitted m s))
    next (inl (inl e)) = inr (round-IsLive m s name (inl (sym e)))
    next (inl (inr later)) = inl later
    next (inr live) = inr (round-IsLive m s name (inr live))

publish_all_returns :
    (ms : List CapabilityManifest) (s : RegistryStore) → AllPass ms → (publish_all ms s).0 ≡ ok tt
publish_all_returns [] s g = unfold publish_all in refl
publish_all_returns (m ∷ ms) s g =
    ap (λ p. p.0) (round m ms s g.0)
    ∙ publish_all_returns ms (upsert (with_status active m) (submitted m s)) g.1

-- Seeding an empty registry with manifests that all pass the gates returns without an exception, and
-- each of their names is then held by a manifest that `list_active` lists.
pub seeding_completes :
    (ms : List CapabilityManifest) (name : String)
    → All (λ m. run_gates m ≡ []) ms
    → Member name (map (λ m. m.name) ms)
    → ((publish_all ms []).0 ≡ ok tt)
      × ((m : CapabilityManifest) × (m.name ≡ name) × Member m (list_active (publish_all ms []).1))
seeding_completes ms name g h =
    let sound = publish_all-IsSound ms [] empty-IsSound in
    let (m, f, a) = publish_all-IsLive ms [] name g (inl h) in
    let same = name-of_fetch _ name m sound.consistent f in
    (
      publish_all_returns ms [] g,
      (m, same, (list_active_lem _ m sound.consistent).1 (rw same f, a)),
    )
