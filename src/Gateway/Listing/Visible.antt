-- ===== src/Gateway/Listing/Visible.antt =====
-- Which tools a client sees.
use mathlib.Core.List.{List, [], ◌∷◌, ◌++◌, append_assoc}
use enterprise_mcp_service_b.Base.{
  String, ◌≡◌, refl, sym, ap, subst, true, some, Result, ok, err, ok_inj, ◌⊎◌, inl, inr, arith,
  Option-cases, Result-cases, Bool-cases, All, Member, Member-append_right, ◌∙◌, All-append,
  All-member, contains, select,
}
use enterprise_mcp_service_b.Json.{Runtime}
use enterprise_mcp_service_b.Identity.{AccessToken}
use enterprise_mcp_service_b.Registry.Models.{CapabilityManifest}
use enterprise_mcp_service_b.Registry.Store.{list_active}
use enterprise_mcp_service_b.Audit.Events.{client_authenticated}
use enterprise_mcp_service_b.Downstream.{Provider, Surroundings, BackendCredential, credential_for}
use enterprise_mcp_service_b.Entitlement.{
  EntitlementManager, EntitlementError, ResolvedEntitlement, resolve,
}
use enterprise_mcp_service_b.Fabric.{distinct_backends_for, sorted_names}
use enterprise_mcp_service_b.Fabric.Backends.{backends_iff}
use enterprise_mcp_service_b.Gateway.{Gateway, World, emit_audit}
use enterprise_mcp_service_b.Gateway.Listing.{
  Tool, Catalogue, Catalogues, raised, tools, ListResult, ListError, CacheHint, Gathered, gather,
  is_allowed, is_skipped, on_gathered, on_resolve, list_for, with_hint, on_list_tools,
}

catalogue_cases :
    (x : Catalogue)
    → ((reason : String) × (x ≡ raised reason)) ⊎ ((ts : List Tool) × (x ≡ tools ts))
catalogue_cases (raised reason) = inl (reason, refl)
catalogue_cases (tools ts) = inr (ts, refl)

module _ (rt : Runtime) (around : Surroundings) where
  -- The provider after the credentials of some backends were asked for, one after the other
  unfoldable pub asking : List String → Provider → Provider
  asking [] p = p
  asking (b ∷ bs) p = asking bs (credential_for rt around b p).1

  asking-append :
      (bs : List String) (b : String) (p : Provider)
      → asking (bs ++ b ∷ []) p ≡ (credential_for rt around b (asking bs p)).1
  unfolding asking
  asking-append [] b p = refl
  asking-append (c ∷ bs) b p = asking-append bs b (credential_for rt around c p).1

module _ (rt : Runtime) (around : Surroundings) (catalogues : Catalogues) (allowed : List String)
    (start : Provider) where
  -- An allowed tool of the catalogue that one of the backends gave for the credential that the
  -- provider gave for that backend, when those before it had been asked for
  abbrev pub Offered : List String → Tool → Type 0
  Offered backends t =
      (before : List String) × (b : String) × (after : List String) × (c : BackendCredential)
      × (ts : List Tool) × (backends ≡ before ++ b ∷ after)
      × ((credential_for rt around b (asking rt around before start)).0 ≡ ok c)
      × (catalogues c.url c.token ≡ tools ts)
      × Member t ts
      × (contains t.name allowed ≡ true)

  All-select :
      (P : Tool → Type 0) (ts : List Tool)
      → ((t : Tool) → Member t ts → contains t.name allowed ≡ true → P t)
      → All P (select (is_allowed rt around catalogues allowed) ts)
  All-select P [] f = tt
  All-select P (t ∷ ts) f = elim (Bool-cases (contains t.name allowed)) [
    | inl e ↦ rw e (f t (inl refl) e, All-select P ts (λ u m. f u (inr m)))
    | inr e ↦ rw e (All-select P ts (λ u m. f u (inr m)))
  ]

  gather_lem :
      (all asked : List String) (bs : List String) (acc : Gathered) (p : Provider) (r : Gathered)
      → all ≡ asked ++ bs
      → asking rt around asked start ≡ p
      → All (Offered all) acc.0
      → (gather rt around catalogues allowed bs acc p).0 ≡ ok r
      → All (Offered all) r.0
  unfolding gather
  gather_lem all asked [] acc p r at on h e =
      subst (λ (r : Gathered). All (Offered all) r.0) (ok_inj e) h
  gather_lem all asked (b ∷ bs) acc p r at on h e =
      let next : Provider = (credential_for rt around b p).1 in
      let at' : all ≡ (asked ++ b ∷ []) ++ bs = at ∙ sym (append_assoc asked (b ∷ []) bs) in
      let on' : asking rt around (asked ++ b ∷ []) start ≡ next =
        asking-append rt around asked b start ∙ ap (λ p. (credential_for rt around b p).1) on in
      elim (Result-cases (credential_for rt around b p).0) [
        | inr (x, f) ↦ elim (Bool-cases (is_skipped x)) [
          | inl k ↦
              gather_lem all (asked ++ b ∷ []) bs acc next r at' on' h
                (rw k at (rw (f, gather) at e))
          | inr k ↦ absurd (ground (arith, rw k at (rw (f, gather) at e)))
        ]
        | inl (c, f) ↦ elim (catalogue_cases (catalogues c.url c.token)) [
          | inl (reason, k) ↦ absurd (ground (arith, rw k at (rw (f, gather) at e)))
          | inr (ts, k) ↦
              gather_lem all (asked ++ b ∷ []) bs
                (acc.0 ++ select (is_allowed rt around catalogues allowed) ts, acc.1 ++ c ∷ []) next
                r at' on'
                (All-append (Offered all) acc.0 _ h (
                  All-select (Offered all) ts (λ t m a. (
                    asked,
                    b,
                    bs,
                    c,
                    ts,
                    at,
                    ap (λ p. (credential_for rt around b p).0) on ∙ f,
                    k,
                    m,
                    a,
                  ))))
                (rw k at (rw (f, gather) at e))
        ]
      ]

module _ (rt : Runtime) (w later : World) (catalogues : Catalogues) where
  tools-with_hint :
      (ts : List Tool) (h : Result ListError CacheHint) (r : ListResult)
      → with_hint rt ts h ≡ ok r
      → r.tools ≡ ts
  tools-with_hint ts (err e) r k = absurd (ground (arith, k))
  tools-with_hint ts (ok hint) r k = sym (ap (λ (r : ListResult). r.tools) (ok_inj k))

  -- The tools that the loop gathers are the ones listed.
  tools-on_gathered :
      (resolved : ResolvedEntitlement) (g : Gateway) (a : Result ListError Gathered × Provider)
      (r : ListResult)
      → (on_gathered rt w later catalogues resolved g a).0 ≡ ok r
      → (acc : Gathered) × (a.0 ≡ ok acc) × (r.tools ≡ acc.0)
  tools-on_gathered resolved g (err e, p) r k = absurd (ground (arith, k))
  tools-on_gathered resolved g (ok acc, p) r k = (acc, refl, tools-with_hint acc.0 _ r k)

  -- The backends that are asked for their tools
  abbrev pub backends_for : Gateway → ResolvedEntitlement → List String
  backends_for g resolved = sorted_names (distinct_backends_for resolved.allowed_tools g.registry)

  -- The tool is allowed, and was in the catalogue of a backend that serves an ACTIVE capability with
  -- an allowed name, for the credential that the Gateway's provider gave for that backend, when those
  -- before it in order had been asked for.
  abbrev pub Entitled : Gateway → ResolvedEntitlement → Tool → Type 0
  Entitled g resolved t =
      (contains t.name resolved.allowed_tools ≡ true)
      × ((m : CapabilityManifest) × (before : List String) × (after : List String)
          × (c : BackendCredential) × (ts : List Tool) × Member m (list_active g.registry)
          × (contains m.name resolved.allowed_tools ≡ true)
          × (backends_for g resolved ≡ before ++ m.backend.service ∷ after)
          × ((credential_for rt w.around m.backend.service (asking rt w.around before g.provider)).0
              ≡ ok c)
          × (catalogues c.url c.token ≡ tools ts)
          × Member t ts)

  Member-middle : (b : String) (xs ys : List String) → Member b (xs ++ b ∷ ys)
  Member-middle b xs ys = Member-append_right b xs (b ∷ ys) (inl refl)

  Entitled-of :
      (g : Gateway) (resolved : ResolvedEntitlement) (t : Tool)
      → Offered rt w.around catalogues resolved.allowed_tools g.provider (backends_for g resolved) t
      → Entitled g resolved t
  Entitled-of g resolved t (before, b, after, c, ts, at, cred, k, m, a) =
      let there : Member b (backends_for g resolved) =
        subst (Member b) (sym at) (Member-middle b before after) in
      let (cap, active, may, is) = (backends_iff b resolved.allowed_tools g.registry).0 there in
      (
        a,
        (
          cap,
          before,
          after,
          c,
          ts,
          active,
          may,
          subst (λ b. backends_for g resolved ≡ before ++ b ∷ after) is at,
          subst
              (λ b. (credential_for rt w.around b (asking rt w.around before g.provider)).0 ≡ ok c)
              is cred,
          k,
          m,
        ),
      )

  list_for_lem :
      (resolved : ResolvedEntitlement) (g : Gateway) (r : ListResult) (t : Tool)
      → (list_for rt w later catalogues resolved g).0 ≡ ok r
      → Member t r.tools
      → Entitled g resolved t
  unfolding asking
  list_for_lem resolved g r t h m =
      let bs : List String = backends_for g resolved in
      let (acc, got, same) = tools-on_gathered resolved g _ r h in
      Entitled-of g resolved t (
        All-member _ t acc.0
          (gather_lem rt w.around catalogues resolved.allowed_tools g.provider bs [] bs ([], [])
            g.provider acc refl refl tt got)
          (subst (λ ts. Member t ts) same m))

  on_resolve_lem :
      (g : Gateway) (a : Result EntitlementError ResolvedEntitlement × EntitlementManager)
      (r : ListResult) (t : Tool)
      → (on_resolve rt w later catalogues g a).0 ≡ ok r
      → Member t r.tools
      → (resolved : ResolvedEntitlement) × (a.0 ≡ ok resolved) × Entitled g resolved t
  unfolding emit_audit
  on_resolve_lem g (err e, m) r t h at =
      absurd (subst (λ (r : ListResult). Member t r.tools) (sym (ok_inj h)) at)
  on_resolve_lem g (ok resolved, m) r t h at = (
    resolved,
    refl,
    list_for_lem resolved
        (emit_audit rt w (client_authenticated resolved.client_id w.request_id)
          (record g { manager = m }))
        r t h at,
  )

  -- Filtered discovery: a tool in an answer to `tools/list` is one of the tools of the entitlement to
  -- which the client of the request's token resolves, and it was in the catalogue that a backend gave
  -- for the credential that the Gateway's own provider gave for that very backend, where the backend
  -- serves an ACTIVE capability with an allowed name. So without a token, or for a client that is not known, the answer has no tools.
  pub visible_only_if :
      (g : Gateway) (r : ListResult) (t : Tool)
      → (on_list_tools rt w later catalogues g).0 ≡ ok r
      → Member t r.tools
      → (token : AccessToken) × (resolved : ResolvedEntitlement) × (w.access ≡ some token)
        × ((resolve rt token.client_id g.manager).0 ≡ ok resolved)
        × Entitled g resolved t
  unfolding on_list_tools
  visible_only_if g r t h m = elim (Option-cases w.access) [
    | inl e ↦
        absurd (
          subst (λ (r : ListResult). Member t r.tools) (sym (ok_inj (rw (e, on_list_tools) at h)))
            m)
    | inr (token, e) ↦
        let (resolved, k, f) =
          on_resolve_lem g (resolve rt token.client_id g.manager) r t (rw (e, on_list_tools) at h)
            m in
        (token, resolved, e, k, f)
  ]
