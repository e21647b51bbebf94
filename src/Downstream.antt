-- ===== src/Downstream.antt =====
-- RI/src/emcp_bus/downstream/: the configuration of a backend's credential, and the credential that
-- the Gateway presents to the backend. Times are counts of microseconds.
pub mod Exchange
pub mod Credentials
use Prim.Native.Nat.{◌*◌}
use enterprise_mcp_service_b.Base.{
  ℕ, ◌+◌, ◌-◌, String, Bool, true, false, not, ◌&&◌, ◌||◌, Option, none, some, List, [], ◌∷◌,
  Result, ok, err, Dict, get, put, ◌==◌, if◌then◌else◌, ltb, leb, codes,
}
use enterprise_mcp_service_b.Json.{
  Json, Fields, ℤ, pos, negsuc, null, int, str, obj, get_field, Runtime, HttpReply, http_error,
  not_json, answered,
}

pub data CredentialMode : Type 0 where
  service_account token_exchange : CredentialMode

pub record BackendConfig : Type 0 where
  pub backend : String
  pub url : String
  pub audience : String
  pub credential_mode : CredentialMode
  pub service_account_token_env_var : Option String
  pub token_exchange_endpoint : Option String
  pub token_exchange_scope : Option String

abbrev is_upper : ℕ → Bool
is_upper c = leb 65 c && leb c 90

abbrev is_name_char : ℕ → Bool
is_name_char c = is_upper c || (leb 48 c && leb c 57) || (leb 95 c && leb c 95)

-- `[A-Z0-9_]*$`: the `$` of Python matches in front of a last line break too.
name_tail : List ℕ → Bool
name_tail [] = true
name_tail (c ∷ []) = is_name_char c || (leb 10 c && leb c 10)
name_tail (c ∷ cs) = is_name_char c && name_tail cs

-- `_ENV_VAR_NAME_PATTERN.match`
unfoldable pub looks_like_an_env_var_name : String → Bool
unfolding name_tail
looks_like_an_env_var_name value = elim (codes value) [
  | [] ↦ false
  | c ∷ cs ↦ is_upper c && name_tail cs
]

-- `bool(value)` of a `str | None`
abbrev pub given : Option String → Bool
given none = false
given (some s) = not (s == "")

abbrev env_var_accepted : Option String → Bool
env_var_accepted none = true
env_var_accepted (some value) = looks_like_an_env_var_name value

abbrev mode_accepted : BackendConfig → CredentialMode → Bool
mode_accepted c service_account = given c.service_account_token_env_var
mode_accepted c token_exchange = given c.token_exchange_endpoint && given c.token_exchange_scope

-- The validators: a configuration that fails one is not constructed.
unfoldable pub accepts : BackendConfig → Bool
accepts c = env_var_accepted c.service_account_token_env_var && mode_accepted c c.credential_mode

pub data CredentialError : Type 0 where
  unknown_backend : String → CredentialError
  credential_unavailable : String → CredentialError
  -- a failed `assert`
  assertion_failed : CredentialError
  -- an exception of another type: a KeyError, a TypeError, a ValidationError
  unexpected : String → CredentialError

pub record BackendCredential : Type 0 where
  pub backend : String
  pub url : String
  pub token : String
  pub audience : String

pub record CachedExchange : Type 0 where
  pub token : Json
  pub expires_at : ℕ

pub record TokenExchangeClient : Type 0 where
  pub expiry_margin_seconds : ℕ
  pub cache : Dict CachedExchange

-- The replies of the identity provider to the two requests.
pub record Idp : Type 0 where
  pub client_credentials : String → HttpReply
  pub exchange :
      (token_endpoint : String) (subject_token : Json) (audience scope : String) → HttpReply

-- `TokenExchangeError` and the other exceptions of the exchange
pub data ExchangeError : Type 0 where
  token_exchange_error : String → ExchangeError
  unexpected : String → ExchangeError

-- `response.json()["access_token"]`
abbrev pub access_token : HttpReply → Result ExchangeError Json
access_token http_error = err (token_exchange_error "HTTPError")
access_token not_json = err (ExchangeError.unexpected "JSONDecodeError")
access_token (answered (obj body)) = elim (get_field body "access_token") [
  | none ↦ err (ExchangeError.unexpected "KeyError")
  | some token ↦ ok token
]
access_token (answered _) = err (ExchangeError.unexpected "TypeError")

-- `max(expires_in - margin, 0.0)`
abbrev pub lifetime : ℤ → ℕ → ℕ
lifetime (pos n) margin = n - margin
lifetime (negsuc n) margin = 0

pub record Provider : Type 0 where
  pub configs : Dict BackendConfig
  pub token_exchange_client : Option TokenExchangeClient

-- What a call reads from the outside: the environment, the monotonic clock, the provider's replies.
pub record Surroundings : Type 0 where
  pub environ : String → Option String
  pub monotonic : ℕ
  pub idp : Idp

module _ (rt : Runtime) where
  -- `int(body.get("expires_in", 60))`
  abbrev pub expires_in : HttpReply → Result ExchangeError ℤ
  expires_in (answered (obj body)) = elim (get_field body "expires_in") [
    | none ↦ ok (pos 60)
    | some value ↦ elim (rt.int_of value) [
      | none ↦ err (ExchangeError.unexpected "int")
      | some n ↦ ok n
    ]
  ]
  expires_in _ = err (ExchangeError.unexpected "TypeError")

  -- The two requests, and the write to the cache.
  unfoldable pub fresh_exchange :
      Idp
      → ℕ
      → (token_endpoint backend audience scope : String) → TokenExchangeClient
      → Result ExchangeError Json × TokenExchangeClient
  fresh_exchange idp now token_endpoint backend audience scope client =
      elim (access_token (idp.client_credentials token_endpoint)) [
        | err e ↦ (err e, client)
        | ok subject_token ↦
            let reply = idp.exchange token_endpoint subject_token audience scope in
            elim (access_token reply) [
              | err e ↦ (err e, client)
              | ok token ↦ elim (expires_in reply) [
                | err e ↦ (err e, client)
                | ok seconds ↦ (
                  ok token,
                  record client {
                    cache = put client.cache backend (record {
                      token = token;
                      expires_at = now + lifetime seconds client.expiry_margin_seconds * 1_000_000;
                    });
                  },
                )
              ]
            ]
      ]

  -- `TokenExchangeClient.exchange`
  unfoldable pub exchange :
      Idp
      → ℕ
      → (token_endpoint backend audience scope : String) → TokenExchangeClient
      → Result ExchangeError Json × TokenExchangeClient
  exchange idp now token_endpoint backend audience scope client = elim (get client.cache backend) [
    | none ↦ fresh_exchange idp now token_endpoint backend audience scope client
    | some cached ↦
        if ltb now cached.expires_at
        then (ok cached.token, client)
        else fresh_exchange idp now token_endpoint backend audience scope client
  ]

  abbrev credential_of : BackendConfig → String → Json → Result CredentialError BackendCredential
  credential_of config backend (str token) =
      ok (record { backend = backend; url = config.url; token = token; audience = config.audience })
  credential_of config backend _ = err (CredentialError.unexpected "ValidationError")

  abbrev exchanged : ExchangeError → CredentialError
  exchanged (token_exchange_error reason) = credential_unavailable reason
  exchanged (ExchangeError.unexpected reason) = CredentialError.unexpected reason

  abbrev answer_exchange :
      BackendConfig
      → String
      → Provider
      → Result ExchangeError Json × TokenExchangeClient
      → Result CredentialError BackendCredential × Provider
  answer_exchange config backend p (ok token, client) =
      (credential_of config backend token, record p { token_exchange_client = some client })
  answer_exchange config backend p (err e, client) =
      (err (exchanged e), record p { token_exchange_client = some client })

  -- `_credential_via_token_exchange`
  abbrev via_token_exchange :
      Surroundings
      → String
      → BackendConfig
      → Provider
      → Result CredentialError BackendCredential × Provider
  via_token_exchange around backend config p = elim p.token_exchange_client [
    | none ↦ (err (credential_unavailable "no TokenExchangeClient is available"), p)
    | some client ↦ elim config.token_exchange_endpoint [
      | none ↦ (err assertion_failed, p)
      | some endpoint ↦ elim config.token_exchange_scope [
        | none ↦ (err assertion_failed, p)
        | some scope ↦
            answer_exchange config backend p
              (exchange around.idp around.monotonic endpoint backend config.audience scope client)
      ]
    ]
  ]

  abbrev via_service_account :
      Surroundings → String → BackendConfig → Result CredentialError BackendCredential
  via_service_account around backend config = elim config.service_account_token_env_var [
    | none ↦ err assertion_failed
    | some var ↦ elim (around.environ var) [
      | none ↦ err (credential_unavailable "is not set")
      | some token ↦
          if token == ""
          then err (credential_unavailable "is not set")
          else credential_of config backend (str token)
    ]
  ]

  abbrev by_mode :
      Surroundings
      → String
      → BackendConfig
      → CredentialMode
      → Provider
      → Result CredentialError BackendCredential × Provider
  by_mode around backend config token_exchange p = via_token_exchange around backend config p
  by_mode around backend config service_account p = (via_service_account around backend config, p)

  -- `BackendCredentialProvider.credential_for`
  unfoldable pub credential_for :
      Surroundings → String → Provider → Result CredentialError BackendCredential × Provider
  credential_for around backend p = elim (get p.configs backend) [
    | none ↦ (err (unknown_backend backend), p)
    | some config ↦ by_mode around backend config config.credential_mode p
  ]

  unfoldable pub url_for : String → Provider → Result CredentialError String
  url_for backend p = elim (get p.configs backend) [
    | none ↦ err (unknown_backend backend)
    | some config ↦ ok config.url
  ]
