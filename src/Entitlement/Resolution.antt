-- ===== src/Entitlement/Resolution.antt =====
-- What `resolve` answers, and what revocation does.
use Prim.Native.String.{slice}
use enterprise_mcp_service_b.Base.{
  String, ◌≡◌, ◌≢◌, refl, ap, eq_iff, eq_refl, ◌⊎◌, inl, inr, none, some, List, [], ◌∷◌, ok, err,
  ◌<>◌, contains, set_of, Dict, get, put, get-pop, arith, Option-cases,
}
use enterprise_mcp_service_b.Json.{Runtime}
use enterprise_mcp_service_b.Identity.{ClientRegistration}
use enterprise_mcp_service_b.Entitlement.{
  ClientProfile, EntitlementManager, unknown_client, ResolvedEntitlement, resolve, cached,
  revoke_client, revoke_profile, drop_profile, entitled, compute_version, profile_json,
}

contains-set_of : (x : String) (xs : List String) → contains x (set_of xs) ≡ contains x xs
contains-set_of x [] = refl
contains-set_of x (y ∷ ys) = ground (arith, contains-set_of x ys, contains-set_of y ys, eq_iff x y)

module _ (rt : Runtime) (client_id : String) (m : EntitlementManager) where
  -- The client is registered for a profile that is loaded.
  abbrev pub Registered : ClientProfile → Type 0
  Registered p =
      (r : ClientRegistration) × (get m.registrations client_id ≡ some r)
      × (get m.profiles r.profile ≡ some p)

  -- What the entitlement of a profile holds: the client, the profile's name, exactly its tools, its
  -- risk ceiling, and a version of the policies and of the profile's content.
  abbrev pub Entitles : ClientProfile → ResolvedEntitlement → Type 0
  Entitles p r =
      (r.client_id ≡ client_id)
      × (r.profile_name ≡ p.name)
      × ((tool : String) → contains tool r.allowed_tools ≡ contains tool p.allowed_tools)
      × (r.risk_ceiling ≡ p.risk_ceiling)
      × (r.entitlement_version ≡ slice (rt.sha256 (m.policy_version <> profile_json rt p)) 0 12)

  -- Where the client is registered for a profile that is loaded, `resolve` answers what that profile
  -- entitles to by the manager's tables as they are now: its name, exactly its tools, its risk
  -- ceiling, and a version of the policies and of its content. The answer is cached; nothing else of
  -- the manager changes, and the cache plays no part in the answer. Else `resolve` raises
  -- UnknownClientError and changes nothing.
  pub resolve_lem :
      ((p : ClientProfile) × (r : ResolvedEntitlement) × Registered p
        × Entitles p r
        × ((other : Dict ResolvedEntitlement)
            → resolve rt client_id (record m { cache = other })
              ≡ (ok r, record m { cache = put other client_id r })))
      ⊎ (((p : ClientProfile) → ¬ Registered p)
          × (resolve rt client_id m ≡ (err (unknown_client client_id), m)))
  unfolding resolve compute_version
  resolve_lem = elim (Option-cases (get m.registrations client_id)) [
    | inl e ↦ inr (λ p (reg, a, b). cc (a, e), rw (e, resolve) refl)
    | inr (reg, e) ↦ elim (Option-cases (get m.profiles reg.profile)) [
      | inl f ↦ inr (
        λ p (reg', a, b). absurd (ground (arith, e, f, a, b)),
        rw (e, resolve) (rw (f, resolve) refl),
      )
      | inr (p, f) ↦ inl (
        p,
        entitled rt m.policy_version client_id p,
        (reg, e, f),
        (refl, refl, λ tool. contains-set_of tool p.allowed_tools, refl, refl),
        λ other. rw (e, resolve) (rw (f, resolve) refl),
      )
    ]
  ]

module _ (rt : Runtime) (client_id : String) (m : EntitlementManager) where
  pub policy_version-resolve : (resolve rt client_id m).1.policy_version ≡ m.policy_version
  unfolding resolve
  policy_version-resolve = elim (Option-cases (get m.registrations client_id)) [
    | inl e ↦ ground (arith, e)
    | inr (r, e) ↦ elim (Option-cases (get m.profiles r.profile)) [
      | inl f ↦ ground (arith, e, f)
      | inr (p, f) ↦ ground (arith, e, f)
    ]
  ]

resolve_missing :
    (rt : Runtime) (client_id : String) (m : EntitlementManager)
    → get m.registrations client_id ≡ none
    → resolve rt client_id m ≡ (err (unknown_client client_id), m)
unfolding resolve
resolve_missing rt client_id m e = rw (e, resolve)

-- After `revoke_client` the client is unknown and not cached, whatever was resolved before, and the
-- registrations and cached entitlements of the other clients are as they were.
pub revoke_client_lem :
    (rt : Runtime) (client_id other : String) (m : EntitlementManager)
    → ((resolve rt client_id (revoke_client client_id m)).0 ≡ err (unknown_client client_id))
      × (cached client_id (revoke_client client_id m) ≡ none)
      × (client_id ≢ other
          → (get (revoke_client client_id m).registrations other ≡ get m.registrations other)
            × (cached other (revoke_client client_id m) ≡ cached other m))
unfolding revoke_client cached
revoke_client_lem rt client_id other m = (
  ap (λ p. p.0)
      (resolve_missing rt client_id (revoke_client client_id m) (simp (get-pop, eq_refl))),
  simp (get-pop, eq_refl),
  λ ne. (
    ground (arith, get-pop m.registrations client_id other, eq_iff client_id other),
    ground (arith, get-pop m.cache client_id other, eq_iff client_id other),
  ),
)

drop_profile_sound :
    (name : String) (d : Dict ResolvedEntitlement) (client_id : String) (r : ResolvedEntitlement)
    → get (drop_profile name d) client_id ≡ some r
    → r.profile_name ≢ name
unfolding drop_profile get
drop_profile_sound name [] client_id r h = λ e. cc
drop_profile_sound name ((k, a) ∷ d) client_id r h =
    ground (arith, eq_iff a.profile_name name, drop_profile_sound name d client_id r)

-- After `revoke_profile` no cached entitlement is of that profile; registrations and profiles stay.
pub revoke_profile_lem :
    (profile_name client_id : String) (m : EntitlementManager) (r : ResolvedEntitlement)
    → cached client_id (revoke_profile profile_name m) ≡ some r
    → (r.profile_name ≢ profile_name)
      × ((revoke_profile profile_name m).registrations ≡ m.registrations)
      × ((revoke_profile profile_name m).profiles ≡ m.profiles)
unfolding revoke_profile cached
revoke_profile_lem name client_id m r h =
    (drop_profile_sound name m.cache client_id r h, refl, refl)
