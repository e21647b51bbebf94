-- ===== src/Fabric/Rest.antt =====
-- RI/src/emcp_bus/fabric/adapters/rest_adapter.py: one tool call as an HTTP request to a REST backend.
-- The HTTP client and `str` are arguments; the requests that were sent are a log.
pub mod Arguments
use Prim.Native.Char.{code}
use text.Mathlib.Text.{starts_with}
use enterprise_mcp_service_b.Base.{
  ℕ, zero, suc, ◌-◌, String, Bool, true, false, ◌||◌, Option, none, some, List, [], ◌∷◌, ◌++◌,
  Result, ok, err, Dict, get, ◌==◌, ◌<>◌, codes, length, if◌then◌else◌,
}
use enterprise_mcp_service_b.Json.{Json, Fields, field, end, obj, Runtime}

pub data Method : Type 0 where
  get_method post_method put_method patch_method delete_method : Method

pub record RestOperation : Type 0 where
  pub method : Method
  pub path : String

pub record RestBackendConfig : Type 0 where
  pub backend : String
  pub base_url : String
  pub operations : Dict RestOperation

pub record RestRequest : Type 0 where
  pub method : Method
  pub path : String
  pub params : Option Fields
  pub json : Option Fields
  pub authorization : Option String

-- What the client comes back with: an exception, a status that `raise_for_status` refuses, no content,
-- content that is not JSON, or a document.
pub data RestReply : Type 0 where
  raised : String → RestReply
  refused_status no_content not_json : RestReply
  answered : Json → RestReply

pub data RestError : Type 0 where
  unknown_operation : (backend capability : String) → RestError
  transport : String → RestError
  status_error decode_error : RestError

-- `part in text`
unfoldable pub occurs : String → String → Bool
occurs part String.[] = part == ""
occurs part (String.◌∷◌ c text) = starts_with (String.◌∷◌ c text) part || occurs part text

-- `text.replace(old, new)` for an `old` that is not empty; `skip` counts the characters of a match
-- that are still to pass over.
unfoldable pub replace_from : (old new : String) → ℕ → String → String
replace_from old new skip String.[] = ""
replace_from old new (suc skip) (String.◌∷◌ c text) = replace_from old new skip text
replace_from old new zero (String.◌∷◌ c text) =
    let passed = replace_from old new (length (codes old) - 1) text in
    let kept = replace_from old new zero text in
    if starts_with (String.◌∷◌ c text) old then new <> passed else String.◌∷◌ c kept

abbrev pub replace : (text old new : String) → String
replace text old new = replace_from old new zero text

-- `"{" + key + "}"`
abbrev pub placeholder : String → String
placeholder key = "{" <> key <> "}"

-- `bool(method in ("GET", "DELETE"))`
abbrev pub reads : Method → Bool
reads get_method = true
reads delete_method = true
reads post_method = false
reads put_method = false
reads patch_method = false

-- `remaining or None`
abbrev pub fields_or_none : Fields → Option Fields
fields_or_none end = none
fields_or_none (field key value rest) = some (field key value rest)

-- `{"Authorization": f"Bearer {bearer_token}"} if bearer_token else {}`
abbrev pub authorization_of : Option String → Option String
authorization_of none = none
authorization_of (some token) = if token == "" then none else some ("Bearer " <> token)

module _ (rt : Runtime) where
  -- The loop over the arguments: the path, and the arguments that remain
  unfoldable pub fill : String → Fields → String × Fields
  fill path end = (path, end)
  fill path (field key value rest) =
      let placed = fill (replace path (placeholder key) (rt.str_of value)) rest in
      let kept = fill path rest in
      if occurs (placeholder key) path then placed else (kept.0, field key value kept.1)

  abbrev pub request_for : RestOperation → Option String → String × Fields → RestRequest
  request_for operation token (path, remaining) = record {
    method = operation.method;
    path = path;
    params = if reads operation.method then fields_or_none remaining else none;
    json = if reads operation.method then none else some remaining;
    authorization = authorization_of token;
  }

  abbrev pub rest_answer : RestReply → Result RestError Json
  rest_answer (raised reason) = err (transport reason)
  rest_answer refused_status = err status_error
  rest_answer no_content = ok (obj end)
  rest_answer not_json = err decode_error
  rest_answer (answered document) = ok document

  abbrev pub Outcome : Type 0
  Outcome = Result RestError Json × List RestRequest

  abbrev pub send : (RestRequest → RestReply) → RestRequest → List RestRequest → Outcome
  send client request sent = (rest_answer (client request), sent ++ request ∷ [])

  module _ (config : RestBackendConfig) (client : RestRequest → RestReply) where
    abbrev pub on_operation :
        String → Fields → Option String → List RestRequest → Option RestOperation → Outcome
    on_operation capability arguments token sent none =
        (err (unknown_operation config.backend capability), sent)
    on_operation capability arguments token sent (some operation) =
        send client (request_for operation token (fill operation.path arguments)) sent

    -- `RestAdapter.call`
    unfoldable pub rest_call : String → Fields → Option String → List RestRequest → Outcome
    rest_call capability arguments token sent =
        on_operation capability arguments token sent (get config.operations capability)
