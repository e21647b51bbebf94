-- ===== src/Downstream/Exchange.antt =====
-- The cache of exchanged tokens.
use Prim.Native.Nat.{◌*◌}
use enterprise_mcp_service_b.Base.{
  ok_inj, sym, ap, subst, ◌∙◌, ℕ, ◌+◌, ◌<◌, ◌≤◌, String, ◌≡◌, refl, ◌==◌, ◌⊎◌, inl, inr, some,
  Result, ok, get, put, get-put, eq_refl, arith, Option-cases, Result-cases, Bool-cases, ltb, false,
}
use enterprise_mcp_service_b.Json.{Json, ℤ, Runtime, HttpReply}
use enterprise_mcp_service_b.Downstream.{
  Idp, TokenExchangeClient, CachedExchange, ExchangeError, access_token, expires_in, lifetime,
  exchange, fresh_exchange,
}

module _ (rt : Runtime) (idp : Idp) (now : ℕ) (endpoint backend audience scope : String)
    (client : TokenExchangeClient) where
  abbrev reply_for : Json → HttpReply
  reply_for subject = idp.exchange endpoint subject audience scope

  -- The token is the cached one, and it has not expired; and so it is whatever the identity provider
  -- would answer.
  abbrev pub Hit : Json → TokenExchangeClient → Type 0
  Hit token after =
      (cached : CachedExchange) × (get client.cache backend ≡ some cached)
      × (now < cached.expires_at)
      × (token ≡ cached.token)
      × (after ≡ client)
      × ((other : Idp)
          → exchange rt other now endpoint backend audience scope client ≡ (ok token, client))

  -- No entry of the backend is cached that has not expired.
  abbrev pub NoHit : Type 0
  NoHit =
      (cached : CachedExchange) → get client.cache backend ≡ some cached → cached.expires_at ≤ now

  -- Nothing valid is cached; the token is what the identity provider answered to an exchange of its own subject token, and it
  -- is cached under the backend for its lifetime less the margin.
  abbrev pub Renewed : Json → TokenExchangeClient → Type 0
  Renewed token after =
      NoHit
      × (subject : Json) × (seconds : ℤ) × (access_token (idp.client_credentials endpoint)
          ≡ ok subject)
      × (access_token (reply_for subject) ≡ ok token)
      × (expires_in rt (reply_for subject) ≡ ok seconds)
      × (get after.cache backend
          ≡ some (record {
            token = token;
            expires_at = now + lifetime seconds client.expiry_margin_seconds * 1_000_000;
          }))
      × ((other : String)
          → (backend == other) ≡ false
          → get after.cache other ≡ get client.cache other)

  abbrev Outcome : Type 0
  Outcome = Result ExchangeError Json × TokenExchangeClient

  abbrev stored : Json → ℤ → TokenExchangeClient
  stored token seconds = record client {
    cache = put client.cache backend (record {
      token = token;
      expires_at = now + lifetime seconds client.expiry_margin_seconds * 1_000_000;
    });
  }

  abbrev renewed : Outcome
  renewed = fresh_exchange rt idp now endpoint backend audience scope client

  fresh_ok :
      (subject token : Json) (seconds : ℤ)
      → access_token (idp.client_credentials endpoint) ≡ ok subject
      → access_token (reply_for subject) ≡ ok token
      → expires_in rt (reply_for subject) ≡ ok seconds
      → renewed ≡ (ok token, stored token seconds)
  unfolding fresh_exchange
  fresh_ok subject token seconds a b c =
      rw (a, fresh_exchange) (rw (b, fresh_exchange) (rw (c, fresh_exchange)))

  fresh_lem : (token : Json) → NoHit → renewed.0 ≡ ok token → Renewed token renewed.1
  fresh_lem token fresh h = elim (Result-cases (access_token (idp.client_credentials endpoint))) [
    | inr (e, a) ↦ absurd (unfold fresh_exchange in cc (a, h))
    | inl (subject, a) ↦ elim (Result-cases (access_token (reply_for subject))) [
      | inr (e, b) ↦ absurd (unfold fresh_exchange in cc (a, b, h))
      | inl (t, b) ↦ elim (Result-cases (expires_in rt (reply_for subject))) [
        | inr (e, c) ↦ absurd (unfold fresh_exchange in cc (a, b, c, h))
        | inl (seconds, c) ↦
            let all = fresh_ok subject t seconds a b c in
            let same : t ≡ token = ok_inj (sym (ap (λ p. p.0) all) ∙ h) in
            subst (λ t. Renewed t renewed.1) same
              (
                fresh,
                subject,
                seconds,
                a,
                b,
                c,
                rw all (rw get-put (rw (eq_refl backend))),
                λ other ne. rw all (rw get-put (rw ne)),
              )
      ]
    ]
  ]

  -- What a successful exchange answers: the cached token while it has not expired, with no change
  -- and whatever the identity provider would answer; else, where no entry of the backend is cached that
  -- has not expired, the token that the identity provider gave to its own subject token, which
  -- the cache then holds under that backend for its lifetime less the margin, other backends'
  -- entries unchanged.
  pub exchange_lem :
      (token : Json)
      → (exchange rt idp now endpoint backend audience scope client).0 ≡ ok token
      → Hit token (exchange rt idp now endpoint backend audience scope client).1
        ⊎ Renewed token (exchange rt idp now endpoint backend audience scope client).1
  unfolding exchange
  exchange_lem token h = elim (Option-cases (get client.cache backend)) [
    | inl e ↦
        let here : exchange rt idp now endpoint backend audience scope client ≡ renewed =
          rw (e, exchange) in
        answer renewed here (λ p. inr (fresh_lem token (λ c f. absurd (ground (arith, e, f))) p))
    | inr (c, e) ↦ elim (Bool-cases (ltb now c.expires_at)) [
      | inl hit ↦
          let here : exchange rt idp now endpoint backend audience scope client
              ≡ (ok c.token, client) =
            rw (e, exchange) (rw hit) in
          answer (ok c.token, client) here
            (λ p. inl (
              c,
              e,
              ground arith,
              sym (ok_inj p),
              refl,
              λ other. rw (e, exchange) (rw hit (ap (λ t. (ok t, client)) (ok_inj p))),
            ))
      | inr miss ↦
          let here : exchange rt idp now endpoint backend audience scope client ≡ renewed =
            rw (e, exchange) (rw miss) in
          answer renewed here (λ p. inr (fresh_lem token (λ d f. ground (arith, e, f, miss)) p))
    ]
  ]
    where
      answer :
          (o : Outcome)
          → exchange rt idp now endpoint backend audience scope client ≡ o
          → (o.0 ≡ ok token → Hit token o.1 ⊎ Renewed token o.1)
          → Hit token (exchange rt idp now endpoint backend audience scope client).1
            ⊎ Renewed token (exchange rt idp now endpoint backend audience scope client).1
      answer o e f =
          subst (λ (o : Outcome). o.0 ≡ ok token → Hit token o.1 ⊎ Renewed token o.1) (sym e) f h
