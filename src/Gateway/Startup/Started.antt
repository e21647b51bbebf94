-- ===== src/Gateway/Startup/Started.antt =====
-- What holds of a Gateway that started.
use mathlib.Core.List.{List, [], ◌∷◌}
use enterprise_mcp_service_b.Base.{
  String, ◌≡◌, refl, subst, Bool, true, Bool-cases, none, some, Result, ok, err, ok_inj, ◌⊎◌, inl,
  inr, Dict, get, put, get-put, IsKeyed, dict_of-IsKeyed, ◌==◌, eq_iff, arith,
}
use enterprise_mcp_service_b.Base.Exec.{Ensures, Ensures-and_then, Ensures-bind, Ensures-weaken}
use enterprise_mcp_service_b.Json.{Fields, Runtime}
use enterprise_mcp_service_b.Identity.{ClientRegistration}
use enterprise_mcp_service_b.Registry.Store.{RegistryStore, RegistryError}
use enterprise_mcp_service_b.Registry.Store.Rows.{IsConsistent}
use enterprise_mcp_service_b.Registry.Pipeline.{publish_all}
use enterprise_mcp_service_b.Registry.Pipeline.Governance.{
  IsSound, empty-IsSound, publish_all-IsSound,
}
use enterprise_mcp_service_b.Audit.Correlation.{Span}
use enterprise_mcp_service_b.Audit.Events.{AuditLog}
use enterprise_mcp_service_b.Pdp.{PdpError, pdp_unavailable, ProfileDocuments, push_client_profile}
use enterprise_mcp_service_b.Entitlement.{
  ClientProfile, profile_key, profile_document, load_profiles, sync_profiles_to_pdp,
}
use enterprise_mcp_service_b.Gateway.{Gateway}
use enterprise_mcp_service_b.Gateway.Histories.{Happening, after, Accounted, after-Accounted}
use enterprise_mcp_service_b.Gateway.Startup.{
  GatewayConfig, ConfigFiles, reading, pushing, seeded, manager_of, lifespan,
}

module _ (accepts : String → Fields → Bool) where
  -- OPA holds the documents of the profiles, and besides them what it held before.
  abbrev Pushed : Dict ClientProfile → ProfileDocuments → ProfileDocuments → Type 0
  Pushed ps docs docs' =
      (k : String)
      → get docs' k
        ≡ (elim (get ps k) [ none ↦ get docs k | some p ↦ some (profile_document true p) ])

  push_cases :
      (name : String) (doc : Fields) (docs : ProfileDocuments)
      → (push_client_profile accepts name doc docs ≡ (ok tt, put docs name doc))
        ⊎ ((e : PdpError) × (push_client_profile accepts name doc docs ≡ (err e, docs)))
  unfolding push_client_profile
  push_cases name doc docs = elim (Bool-cases (accepts name doc)) [
    | inl e ↦ inl (rw e refl)
    | inr e ↦ inr (pdp_unavailable "Failed to push client profile", rw e refl)
  ]

  push_step :
      (j k : String) (p : ClientProfile) (ps : Dict ClientProfile) (docs docs' : ProfileDocuments)
      → IsKeyed profile_key ((j, p) ∷ ps)
      → get docs' k ≡ (elim (get ps k) [
        | none ↦ get (put docs p.name (profile_document true p)) k
        | some p ↦ some (profile_document true p)
      ])
      → get docs' k ≡ (elim (get ((j, p) ∷ ps) k) [
        | none ↦ get docs k
        | some p ↦ some (profile_document true p)
      ])
  unfolding get
  push_step j k p ps docs docs' h q = elim (Bool-cases (j == k)) [
    | inl e ↦ ground (
      arith,
      e,
      (eq_iff j k).0 e,
      h.0,
      h.1,
      q,
      get-put docs p.name k (profile_document true p),
      eq_iff p.name k,
    )
    | inr e ↦ ground (
      arith,
      e,
      eq_iff j k,
      h.0,
      q,
      get-put docs p.name k (profile_document true p),
      eq_iff p.name k,
    )
  ]

  sync-Pushed :
      (ps : Dict ClientProfile) (docs : ProfileDocuments)
      → IsKeyed profile_key ps
      → Ensures (λ _. Pushed ps docs) (sync_profiles_to_pdp accepts ps docs)
  unfolding sync_profiles_to_pdp get
  sync-Pushed [] docs h = λ k. refl
  sync-Pushed ((j, p) ∷ ps) docs h =
      let docs1 = put docs p.name (profile_document true p) in
      elim (push_cases p.name (profile_document true p) docs) [
        | inr (e, f) ↦ rw f tt
        | inl f ↦ rw f (
            Ensures-weaken (λ _. Pushed ps docs1) (λ _. Pushed ((j, p) ∷ ps) docs)
              (sync_profiles_to_pdp accepts ps docs1) (sync-Pushed ps docs1 h.2)
              (λ _ s q k. push_step j k p ps docs s h (q k)))
      ]

pushing-Pushed :
    (accepts : String → Fields → Bool) (ps : Dict ClientProfile) (docs : ProfileDocuments)
    (a : Result PdpError Unit × ProfileDocuments)
    → Ensures (λ _. Pushed accepts ps docs) a
    → Ensures (λ _. Pushed accepts ps docs) (pushing a)
pushing-Pushed accepts ps docs (ok u, d) h = h
pushing-Pushed accepts ps docs (err e, d) h = tt

seeded-IsSound :
    (a : Result RegistryError Unit × RegistryStore) (s : RegistryStore)
    → IsSound a.1
    → seeded a ≡ ok s
    → IsSound s
seeded-IsSound (ok u, t) s h e = subst IsSound (ok_inj e) h
seeded-IsSound (err x, t) s h e = cc

module _ (rt : Runtime) (files : ConfigFiles) (accepts : String → Fields → Bool) where
  -- A Gateway that has started
  pub record Started (docs : ProfileDocuments) (g : Gateway) (docs' : ProfileDocuments)
      : Type 0 where
    pub consistent : IsConsistent g.registry
    pub idle : g.sent ≡ []
    pub unasked : g.approvals.requests ≡ []
    pub pushed :
        (k : String)
        → get docs' k ≡ (elim (get g.manager.profiles k) [
          | none ↦ get docs k
          | some p ↦ some (profile_document true p)
        ])

  loaded-IsKeyed :
      (rs : List ClientRegistration) (ps : List ClientProfile)
      → IsKeyed profile_key (manager_of rt files accepts rs ps).profiles
  unfolding load_profiles
  loaded-IsKeyed rs ps = dict_of-IsKeyed profile_key ps

  lifespan-Started :
      (config : GatewayConfig) (log : AuditLog) (span : Span) (docs : ProfileDocuments)
      → Ensures (Started docs) (lifespan rt files accepts config log span docs)
  unfolding lifespan
  lifespan-Started config log span docs =
      Ensures-and_then (Started docs) (reading files.registrations) _ docs λ rs _.
        Ensures-and_then (Started docs) (reading files.profiles) _ docs λ ps _.
          let m = manager_of rt files accepts rs ps in
          Ensures-bind (λ _. Pushed accepts m.profiles docs) (Started docs)
            (pushing (sync_profiles_to_pdp accepts m.profiles docs)) _
            (pushing-Pushed accepts m.profiles docs _
              (sync-Pushed accepts m.profiles docs (loaded-IsKeyed rs ps)))
            λ _ docs' pushed.
              Ensures-and_then (Started docs) (reading files.backends) _ docs' λ bs _.
                Ensures-and_then (Started docs) (reading files.capabilities) _ docs' λ ms _.
                  Ensures-and_then (Started docs) (seeded (publish_all ms [])) _ docs' λ s e.
                    record {
                      consistent =
                          (seeded-IsSound (publish_all ms []) s
                            (publish_all-IsSound ms [] empty-IsSound) e).consistent;
                      idle = refl;
                      unasked = refl;
                      pushed = pushed;
                    }

  module _ (config : GatewayConfig) (log : AuditLog) (span : Span) (docs docs' : ProfileDocuments)
      (g : Gateway) (started : lifespan rt files accepts config log span docs ≡ (ok g, docs')) where
    -- A Gateway that starts has a consistent registry, no approval request and no call sent, and OPA
    -- holds the document of every client profile that it has loaded, and else what it held before.
    pub lifespan_lem : Started docs g docs'
    lifespan_lem = subst (Ensures (Started docs)) started (lifespan-Started config log span docs)

    -- From a Gateway that started, over any sequence of requests, listings, decisions of approvers and
    -- revocations: the calls that the backends received are, in order, those of the happenings that
    -- sent one. Each was sent by a `tools/call` request whose token resolved to an entitlement at that
    -- moment, which OPA's replies to that very request allowed, or for which they wanted an approval
    -- that was there to consume; and it was addressed to the backend of the tool's ACTIVE manifest. No
    -- other happening sent a call.
    pub history-Accounted : (hs : List Happening) → Accounted rt g hs (after rt hs g).sent
    history-Accounted hs = let s = lifespan_lem in after-Accounted rt hs g s.consistent s.idle
