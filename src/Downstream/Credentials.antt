-- ===== src/Downstream/Credentials.antt =====
-- The credential that the Gateway presents to a backend.
use enterprise_mcp_service_b.Base.{
  String, ◌≡◌, ◌≢◌, ◌↔◌, refl, ◌⊎◌, inl, inr, true, none, some, ok, err, get, Every, eq_iff, arith,
  Option-cases,
}
use enterprise_mcp_service_b.Json.{str, Runtime}
use enterprise_mcp_service_b.Downstream.{
  BackendConfig, CredentialMode, service_account, token_exchange, accepts, assertion_failed,
  unknown_backend, BackendCredential, Provider, Surroundings, TokenExchangeClient, exchange,
  credential_for, by_mode,
}

module _ (rt : Runtime) (around : Surroundings) (backend : String) (p : Provider) where
  by_mode_accepted :
      (config : BackendConfig) (mode : CredentialMode)
      → config.credential_mode ≡ mode
      → accepts config ≡ true
      → (by_mode rt around backend config mode p).0 ≢ err assertion_failed
  unfolding accepts
  by_mode_accepted config service_account m h e = ground arith
  by_mode_accepted config token_exchange m h e = ground arith

  -- Where every configured backend passed the validators of `BackendConfig`, no `assert` of
  -- `credential_for` fails.
  pub no_assertion_fails :
      Every (λ config. accepts config ≡ true) p.configs
      → (credential_for rt around backend p).0 ≢ err assertion_failed
  unfolding credential_for
  no_assertion_fails all e = elim (Option-cases (get p.configs backend)) [
    | inl none_there ↦ ground (arith, none_there)
    | inr (config, at) ↦
        by_mode_accepted config config.credential_mode refl (all backend config at)
          (rw (at, credential_for) at e)
  ]

  abbrev FromEnvironment : BackendConfig → BackendCredential → Type 0
  FromEnvironment config c =
      (config.credential_mode ≡ service_account)
      × ((var : String) × (config.service_account_token_env_var ≡ some var)
          × (around.environ var ≡ some c.token)
          × (c.token ≢ ""))

  abbrev FromExchange : BackendConfig → BackendCredential → Type 0
  FromExchange config c =
      (config.credential_mode ≡ token_exchange)
      × ((client : TokenExchangeClient) × (endpoint : String) × (scope : String)
          × (p.token_exchange_client ≡ some client)
          × (config.token_exchange_endpoint ≡ some endpoint)
          × (config.token_exchange_scope ≡ some scope)
          × ((exchange rt around.idp around.monotonic endpoint backend config.audience scope
                client).0
              ≡ ok (str c.token)))

  abbrev pub Configured : BackendConfig → BackendCredential → Type 0
  Configured config c =
      (c.backend ≡ backend)
      × (c.url ≡ config.url)
      × (c.audience ≡ config.audience)
      × (FromEnvironment config c ⊎ FromExchange config c)

  by_mode_lem :
      (config : BackendConfig) (mode : CredentialMode) (c : BackendCredential)
      → config.credential_mode ≡ mode
      → (by_mode rt around backend config mode p).0 ≡ ok c
      → Configured config c
  by_mode_lem config service_account c m h = ground (arith, eq_iff c.token "")
  by_mode_lem config token_exchange c m h = ground arith

  by_mode_known :
      (config : BackendConfig) (mode : CredentialMode)
      → (by_mode rt around backend config mode p).0 ≢ err (unknown_backend backend)
  by_mode_known config service_account h = ground arith
  by_mode_known config token_exchange h = ground arith

  -- A credential that `credential_for` answers is the one configured: its backend, URL and audience
  -- are those of the backend's configuration, and its token is the value, not empty, of the
  -- configured environment variable, or what the token exchange answered for the configured audience
  -- and scope. UnknownBackendError is raised exactly for a backend with no configuration.
  pub credential_for_lem :
      ((c : BackendCredential)
        → (credential_for rt around backend p).0 ≡ ok c
        → (config : BackendConfig) × (get p.configs backend ≡ some config) × Configured config c)
      × ((credential_for rt around backend p).0 ≡ err (unknown_backend backend)
          ↔ (get p.configs backend ≡ none))
  unfolding credential_for
  credential_for_lem = (
    λ c h. found c h (Option-cases (get p.configs backend)),
    (λ h. missing h (Option-cases (get p.configs backend)), λ e. ground (arith, e)),
  )
    where
      found :
          (c : BackendCredential)
          → (credential_for rt around backend p).0 ≡ ok c
          → (get p.configs backend ≡ none)
            ⊎ ((config : BackendConfig) × (get p.configs backend ≡ some config))
          → (config : BackendConfig) × (get p.configs backend ≡ some config) × Configured config c
      found c h (inl e) = absurd (ground (arith, e, h))
      found c h (inr (config, at)) = (
        config,
        at,
        by_mode_lem config config.credential_mode c refl (rw (at, credential_for) at h),
      )

      missing :
          (credential_for rt around backend p).0 ≡ err (unknown_backend backend)
          → (get p.configs backend ≡ none)
            ⊎ ((config : BackendConfig) × (get p.configs backend ≡ some config))
          → get p.configs backend ≡ none
      missing h (inl e) = e
      missing h (inr (config, at)) =
          absurd (by_mode_known config config.credential_mode (rw (at, credential_for) at h))
