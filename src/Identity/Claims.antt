-- ===== src/Identity/Claims.antt =====
-- Where the identity of a client comes from.
use enterprise_mcp_service_b.Base.{
  Result, some_inj, ap, ◌∙◌, sym, Bool-cases, String, ◌≡◌, refl, ◌⊎◌, inl, inr, ◌≢◌, false, Option,
  none, some, ok, err, arith, if◌then◌else◌, eq_iff,
}
use enterprise_mcp_service_b.Json.{
  Json, Fields, null, bool, int, float, str, arr, obj, get_field, Runtime, truthy,
}
use enterprise_mcp_service_b.Identity.{
  Decoded, jwt_error, claims, validate, verify_token, AuthenticatedClient, AccessToken,
  client_claim, authenticate, or_null, AuthnError, authentication_error, unexpected,
}

-- The claims name the client: a text that is not empty, under `azp` where that is truthy, and under
-- `client_id` only where it is not.
abbrev pub Names : Fields → String → Type 0
Names fs client_id =
    (client_id ≢ "")
    × ((get_field fs "azp" ≡ some (str client_id))
        ⊎ ((get_field fs "client_id" ≡ some (str client_id))
            × ((v : Json) → get_field fs "azp" ≡ some v → truthy v ≡ false)))

authenticate-client_id :
    (rt : Runtime) (v : Json) (fs : Fields) (client : AuthenticatedClient)
    → authenticate rt v fs ≡ ok client
    → (v ≡ str client.client_id) × (client.client_id ≢ "")
authenticate-client_id rt (str s) fs client h = ground (arith, eq_iff s "")
authenticate-client_id rt null fs client h = cc
authenticate-client_id rt (bool b) fs client h = cc
authenticate-client_id rt (int n) fs client h = cc
authenticate-client_id rt (float t) fs client h = cc
authenticate-client_id rt (arr xs) fs client h = cc
authenticate-client_id rt (obj gs) fs client h = cc

abbrev Picked : Option Json → Option Json → String → Type 0
Picked azp id c =
    (azp ≡ some (str c)) ⊎ ((id ≡ some (str c)) × ((v : Json) → azp ≡ some v → truthy v ≡ false))

pick_id :
    (azp id : Option Json) (c : String)
    → ((v : Json) → azp ≡ some v → truthy v ≡ false)
    → or_null id ≡ str c
    → Picked azp id c
pick_id azp none c f h = absurd (null_ne_str h)
  where
    null_ne_str : null ≡ str c → ⊥
    null_ne_str e = cc
pick_id azp (some w) c f h = inr (ap some h, f)

pick :
    (azp id : Option Json) (c : String)
    → (if truthy (or_null azp) then or_null azp else or_null id) ≡ str c
    → Picked azp id c
pick none id c h = pick_id none id c (λ v p. cc) h
pick (some v) id c h = elim (Bool-cases (truthy v)) [
  | inl t ↦ inl (ap some (rw t at h))
  | inr f ↦ pick_id (some v) id c (λ w p. ap truthy (sym (some_inj p)) ∙ f) (rw f at h)
]

-- A token yields an access token only where it decoded to claims that name a client (see `Names`),
-- and the access token carries that client id, the token itself and the configured resource. Nothing
-- else of the token is read for the identity.
pub verify_token-Names :
    (rt : Runtime) (resource token : String) (decoded : Decoded) (access : AccessToken)
    → verify_token rt resource token decoded ≡ ok (some access)
    → (fs : Fields) × (decoded ≡ claims fs)
      × Names fs access.client_id
      × (access.token ≡ token)
      × (access.resource ≡ resource)
unfolding verify_token validate
verify_token-Names rt resource token (jwt_error reason) access h = cc
verify_token-Names rt resource token (claims fs) access h =
    go (authenticate rt (client_claim fs) fs) refl
  where
    go :
        (r : Result AuthnError AuthenticatedClient)
        → authenticate rt (client_claim fs) fs ≡ r
        → (gs : Fields) × (claims fs ≡ claims gs)
          × Names gs access.client_id
          × (access.token ≡ token)
          × (access.resource ≡ resource)
    go (err (authentication_error reason)) e = cc (e, h)
    go (err (unexpected reason)) e = cc (e, h)
    go (ok client) e =
        let (named, ne) = authenticate-client_id rt (client_claim fs) fs client e in
        let same : access.client_id ≡ client.client_id = ground (arith, e, h) in
        (
          fs,
          refl,
          rw same (ne, pick (get_field fs "azp") (get_field fs "client_id") client.client_id named),
          ground (arith, e, h),
          ground (arith, e, h),
        )

-- A token that PyJWT refuses is no authenticated user, and no exception.
pub verify_token_refused :
    (rt : Runtime) (resource token reason : String)
    → verify_token rt resource token (jwt_error reason) ≡ ok none
unfolding verify_token validate
verify_token_refused rt resource token reason = refl
