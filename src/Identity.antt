-- ===== src/Identity.antt =====
-- RI/src/emcp_bus/identity/: token validation, client registrations.
-- What PyJWT verifies and decodes is an argument.
pub mod Claims
pub mod SharedClients
use enterprise_mcp_service_b.Base.{
  ℕ, String, Bool, true, false, not, ◌&&◌, ◌||◌, Option, none, some, List, [], ◌∷◌, ◌++◌, Result,
  ok, err, Dict, get, put, ◌==◌, if◌then◌else◌, ltb, leb, contains, length, select, ◌<>◌,
}
use enterprise_mcp_service_b.Json.{Json, Fields, ℤ, null, str, get_field, Runtime, truthy}

pub data Environment : Type 0 where
  dev ci production : Environment

pub record ClientRegistration : Type 0 where
  pub client_id : String
  pub profile : String
  pub environment : Environment
  pub description : Option String

-- The outcome of `jwt.decode` and of the look-up of the key: the claims, or a PyJWTError.
pub data Decoded : Type 0 where
  jwt_error : String → Decoded
  claims : Fields → Decoded

pub data AuthnError : Type 0 where
  authentication_error : String → AuthnError
  -- an exception of another type, such as a ValueError of `int`
  unexpected : String → AuthnError

pub record AuthenticatedClient : Type 0 where
  pub client_id : String
  pub issuer : String
  pub expires_at : ℤ

-- The `AccessToken` that the SDK hands on.
pub record AccessToken : Type 0 where
  pub token : String
  pub client_id : String
  pub scopes : List String
  pub expires_at : ℤ
  pub resource : String

abbrev pub or_null : Option Json → Json
or_null none = null
or_null (some v) = v

-- `claims.get("azp") or claims.get("client_id")`
abbrev pub client_claim : Fields → Json
client_claim fs =
    if truthy (or_null (get_field fs "azp"))
    then or_null (get_field fs "azp")
    else or_null (get_field fs "client_id")

module _ (rt : Runtime) where
  abbrev pub client_of : String → Fields → Result AuthnError AuthenticatedClient
  client_of client_id fs = elim (get_field fs "iss") [
    | none ↦ err (unexpected "KeyError: 'iss'")
    | some iss ↦ elim (get_field fs "exp") [
      | none ↦ err (unexpected "KeyError: 'exp'")
      | some exp ↦ elim (rt.int_of exp) [
        | none ↦ err (unexpected "int")
        | some n ↦ ok (record { client_id = client_id; issuer = rt.str_of iss; expires_at = n })
      ]
    ]
  ]

  abbrev unusable : Result AuthnError AuthenticatedClient
  unusable = err (authentication_error "Token has neither a usable 'azp' nor 'client_id' claim")

  abbrev pub authenticate : Json → Fields → Result AuthnError AuthenticatedClient
  authenticate (str client_id) fs = if client_id == "" then unusable else client_of client_id fs
  authenticate _ fs = unusable

  -- `TokenValidator.validate`, past the calls of PyJWT
  unfoldable pub validate : Decoded → Result AuthnError AuthenticatedClient
  validate (jwt_error reason) = err (authentication_error reason)
  validate (claims fs) = authenticate (client_claim fs) fs

  abbrev rejected : AuthnError → Result AuthnError (Option AccessToken)
  rejected (authentication_error reason) = ok none
  rejected (unexpected reason) = err (unexpected reason)

  -- `MCPTokenVerifier.verify_token`; an exception that is no AuthenticationError leaves it.
  unfoldable pub verify_token : String → String → Decoded → Result AuthnError (Option AccessToken)
  verify_token resource token decoded = elim (validate decoded) [
    | err e ↦ rejected e
    | ok client ↦ ok (
        some (record {
          token = token;
          client_id = client.client_id;
          scopes = [];
          expires_at = client.expires_at;
          resource = resource;
        }))
  ]
