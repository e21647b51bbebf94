-- ===== src/Gateway/Histories.antt =====
-- Histories of a Gateway: any sequence of requests, of decisions by approvers and of revocations.
use mathlib.Core.List.{List, [], ◌∷◌, ◌++◌, append_assoc, append-nil}
use enterprise_mcp_service_b.Base.{
  String, Bool, ◌≡◌, refl, sym, subst, ◌∙◌, some, ok, ap, ◌⊎◌, inl, inr,
}
use enterprise_mcp_service_b.Json.{Runtime}
use enterprise_mcp_service_b.Identity.{AccessToken}
use enterprise_mcp_service_b.Registry.Store.Rows.{IsConsistent}
use enterprise_mcp_service_b.Audit.Events.{Stamp}
use enterprise_mcp_service_b.Approval.{grant, deny}
use enterprise_mcp_service_b.Entitlement.{
  ResolvedEntitlement, resolve, revoke_client, revoke_profile,
}
use enterprise_mcp_service_b.Gateway.{Gateway, World, CallParams, Sent, on_call_tool}
use enterprise_mcp_service_b.Gateway.Listing.{Catalogues, on_list_tools}
use enterprise_mcp_service_b.Gateway.Addressing.{Addressed}
use enterprise_mcp_service_b.Gateway.Forwarding.{Authorised, sent_only_if}
use enterprise_mcp_service_b.Gateway.Registries.{registry-on_call_tool, on_list_tools-Listed}

-- What can happen to a running Gateway.
pub data Happening : Type 0 where
  calls : World → CallParams → Happening
  lists : World → World → Catalogues → Happening
  grants : Stamp → Bool → String → Happening
  denies : String → Happening
  revokes_client : String → Happening
  revokes_profile : String → Happening

module _ (rt : Runtime) where
  unfoldable pub happen : Happening → Gateway → Gateway
  happen (calls w params) g = (on_call_tool rt w params g).1
  happen (lists w later catalogues) g = (on_list_tools rt w later catalogues g).1
  happen (grants stamp works id) g = record g {
    approvals = (grant rt stamp works id g.approvals).1;
  }
  happen (denies id) g = record g { approvals = (deny id g.approvals).1 }
  happen (revokes_client client_id) g = record g { manager = revoke_client client_id g.manager }
  happen (revokes_profile profile_name) g = record g {
    manager = revoke_profile profile_name g.manager;
  }

  -- The Gateway after a history, from its first happening on
  unfoldable pub after : List Happening → Gateway → Gateway
  after [] g = g
  after (h ∷ hs) g = after hs (happen h g)

  pub after-append :
      (hs : List Happening) (h : Happening) (g : Gateway)
      → after (hs ++ h ∷ []) g ≡ happen h (after hs g)
  unfolding after
  after-append [] h g = refl
  after-append (k ∷ hs) h g = after-append hs h (happen k g)

  -- In this state this happening is a `tools/call` request with a token that resolves to an entitlement;
  -- OPA's replies to this very request allow it, or want an approval and one is there to consume; and
  -- the call is addressed to the backend of the tool's ACTIVE manifest, with the credential that the
  -- Gateway's provider gives for it.
  abbrev pub Justifies : Gateway → Happening → Sent → Type 0
  Justifies g (calls w params) x =
      (token : AccessToken) × (resolved : ResolvedEntitlement) × (w.access ≡ some token)
      × ((resolve rt token.client_id g.manager).0 ≡ ok resolved)
      × Authorised rt w params resolved g
      × Addressed rt w params g x
  Justifies g _ x = ⊥

  -- Of a history that starts in this state these are the calls that the backends received, in order:
  -- each happening sent nothing, or the one call that it justifies.
  abbrev pub Accounted : Gateway → List Happening → List Sent → Type 0
  Accounted g [] xs = xs ≡ []
  Accounted g (h ∷ hs) xs =
      (((happen h g).sent ≡ g.sent) × Accounted (happen h g) hs xs)
      ⊎ ((x : Sent) × (ys : List Sent) × (xs ≡ x ∷ ys)
          × ((happen h g).sent ≡ g.sent ++ x ∷ [])
          × Justifies g h x
          × Accounted (happen h g) hs ys)

  registry_stays : (h : Happening) (g : Gateway) → (happen h g).registry ≡ g.registry
  unfolding happen
  registry_stays (calls w params) g = registry-on_call_tool rt w params g
  registry_stays (lists w later catalogues) g = (on_list_tools-Listed rt w later catalogues g).0
  registry_stays (grants stamp works id) g = refl
  registry_stays (denies id) g = refl
  registry_stays (revokes_client client_id) g = refl
  registry_stays (revokes_profile profile_name) g = refl

  sends :
      (h : Happening) (g : Gateway)
      → IsConsistent g.registry
      → ((happen h g).sent ≡ g.sent)
        ⊎ ((x : Sent) × ((happen h g).sent ≡ g.sent ++ x ∷ []) × Justifies g h x)
  unfolding happen
  sends (calls w params) g c = elim (sent_only_if rt w params g c) [
    | inl same ↦ inl same
    | inr (token, resolved, e, h, may, (x, at, more)) ↦
        inr (x, more, (token, resolved, e, h, may, at))
  ]
  sends (lists w later catalogues) g c = inl ((on_list_tools-Listed rt w later catalogues g).1)
  sends (grants stamp works id) g c = inl refl
  sends (denies id) g c = inl refl
  sends (revokes_client client_id) g c = inl refl
  sends (revokes_profile profile_name) g c = inl refl

  -- What a history adds to the calls that were sent
  Adds : Gateway → List Happening → Type 0
  Adds g hs = (xs : List Sent) × ((after hs g).sent ≡ g.sent ++ xs) × Accounted g hs xs

  adds : (hs : List Happening) (g : Gateway) → IsConsistent g.registry → Adds g hs
  unfolding after Adds
  adds [] g c = ([], sym (append-nil g.sent), refl)
  adds (h ∷ hs) g c =
      let (xs, more, all) =
        adds hs (happen h g) (subst IsConsistent (sym (registry_stays h g)) c) in
      elim (sends h g c) [
        | inl same ↦ (xs, more ∙ ap (λ s. s ++ xs) same, inl (same, all))
        | inr (x, one, why) ↦ (
          x ∷ xs,
          more ∙ ap (λ s. s ++ xs) one ∙ append_assoc g.sent (x ∷ []) xs,
          inr (x, xs, refl, one, why, all),
        )
      ]

  pub after-Accounted :
      (hs : List Happening) (g : Gateway)
      → IsConsistent g.registry
      → g.sent ≡ []
      → Accounted g hs (after hs g).sent
  unfolding Adds
  after-Accounted hs g c fresh =
      let (xs, more, all) = adds hs g c in
      subst (Accounted g hs) (sym (more ∙ ap (λ s. s ++ xs) fresh)) all
