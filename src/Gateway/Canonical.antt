-- ===== src/Gateway/Canonical.antt =====
-- RI/src/emcp_bus/gateway/canonical_request.py: the gate that compares the headers of a request with
-- its body. The names of the headers, the methods that carry a name, and `json.loads` are arguments.
-- A text of bytes stands for the bytes.
pub mod Agreement
pub mod Buffering
use mathlib.Core.List.{List, [], ◌∷◌, ◌++◌}
use enterprise_mcp_service_b.Base.{
  ℕ, String, Bool, true, false, not, ◌&&◌, ◌||◌, Option, none, some, ◌<>◌, ◌==◌, codes, lower, leb,
  begins, if◌then◌else◌,
}
use enterprise_mcp_service_b.Json.{Json, Fields, str, obj, get_field, Runtime}

-- The constants of `mcp.shared.inbound`
pub record Inbound : Type 0 where
  pub method_header : String
  pub name_header : String
  pub name_bearing_methods : String → Option String

-- What `json.loads` does with a body: it raises JSONDecodeError, or raises UnicodeDecodeError, or
-- gives a value.
pub data Loaded : Type 0 where
  json_decode_error unicode_decode_error : Loaded
  value : Json → Loaded

-- What `find_header_body_mismatch` comes to; the error is one that leaves it.
pub data Check : Type 0 where
  matches undecodable : Check
  mismatch : String → Check

module _ (rt : Runtime) (inbound : Inbound) (loads : String → Loaded) where
  abbrev quoted : String → String
  quoted s = "(" <> rt.repr_of (str s) <> ")"

  abbrev pub method_mismatch : String → String → String
  method_mismatch header body_method =
      inbound.method_header
      <> " header "
      <> quoted header
      <> " does not match body.method "
      <> quoted body_method

  abbrev pub name_mismatch : String → String → String → String
  name_mismatch header name_key body_name =
      inbound.name_header
      <> " header "
      <> quoted header
      <> " does not match body.params."
      <> name_key
      <> " "
      <> quoted body_name

  -- The value of a field that is a text
  unfoldable pub text_field : Fields → String → Option String
  text_field fs key = elim (get_field fs key) [
    | none ↦ none
    | some v ↦ elim v [ str s ↦ some s | _ ↦ none ]
  ]

  -- `params.get(name_key)`, where both are what the check wants
  unfoldable pub body_name : Fields → String → Option String
  unfolding text_field
  body_name fs name_key = elim (get_field fs "params") [
    | none ↦ none
    | some v ↦ elim v [ obj params ↦ text_field params name_key | _ ↦ none ]
  ]

  abbrev pub check_name : Option String → Fields → String → Check
  check_name none fs body_method = matches
  check_name (some header) fs body_method = elim (inbound.name_bearing_methods body_method) [
    | none ↦ matches
    | some name_key ↦ elim (body_name fs name_key) [
      | none ↦ matches
      | some name ↦
          if header == name then matches else mismatch (name_mismatch header name_key name)
    ]
  ]

  abbrev pub check_method : Option String → Option String → Fields → String → Check
  check_method none name_header fs body_method = check_name name_header fs body_method
  check_method (some header) name_header fs body_method =
      if header == body_method
      then check_name name_header fs body_method
      else mismatch (method_mismatch header body_method)

  abbrev pub check_fields : Option String → Option String → Fields → Check
  check_fields method_header name_header fs = elim (text_field fs "method") [
    | none ↦ matches
    | some body_method ↦ check_method method_header name_header fs body_method
  ]

  abbrev pub check_loaded : Option String → Option String → Loaded → Check
  check_loaded method_header name_header json_decode_error = matches
  check_loaded method_header name_header unicode_decode_error = undecodable
  check_loaded method_header name_header (value (obj fs)) =
      check_fields method_header name_header fs
  check_loaded method_header name_header (value _) = matches

  abbrev pub absent : Option String → Bool
  absent none = true
  absent (some h) = false

  -- An empty body is None, which is no dict.
  unfoldable pub find_header_body_mismatch :
      String → (method_header name_header : Option String) → Check
  find_header_body_mismatch body method_header name_header =
      if absent method_header && absent name_header
      then matches
      else if body == ""
      then matches
      else check_loaded method_header name_header (loads body)

-- One message of `receive`
pub record Message : Type 0 where
  pub body : String
  pub more_body : Bool

pub record Scope : Type 0 where
  pub type : String
  pub method : Option String
  pub headers : List (String × String)

-- The application is called with `receive` as it stands; or it is called with the messages that the
-- gate read, after which it gets `http.disconnect`; or the gate answers 400; or an exception leaves
-- the gate.
pub data GateAnswer : Type 0 where
  passed : GateAnswer
  replayed : List Message → GateAnswer
  bad_request : String → GateAnswer
  raised : GateAnswer

abbrev same_text : List ℕ → List ℕ → Bool
same_text xs ys = begins xs ys && begins ys xs

-- `headers.get(name)` of the dict of lower-case keys: the last one counts. The name is in lower case,
-- and lowering a Latin-1 letter that is not ASCII gives none that is.
unfoldable pub header : String → List (String × String) → Option String
header name [] = none
header name ((key, v) ∷ rest) =
    let later = header name rest in
    elim later [
      | some found ↦ some found
      | none ↦ if same_text (lower (codes key)) (codes name) then some v else none
    ]

-- The loop over `receive`: the messages up to the first without `more_body`, and their bodies
-- joined. Nothing is answered where the stream ends before.
unfoldable pub buffer : List Message → Option (List Message × String)
buffer [] = none
buffer (m ∷ ms) = elim m.more_body [
  | false ↦ some (m ∷ [], m.body)
  | true ↦ elim (buffer ms) [ none ↦ none | some b ↦ some (m ∷ b.0, m.body <> b.1) ]
]

module _ (rt : Runtime) (inbound : Inbound) (loads : String → Loaded) where
  abbrev pub answer_check : List Message → Check → GateAnswer
  answer_check buffered matches = replayed buffered
  answer_check buffered undecodable = raised
  answer_check buffered (mismatch detail) = bad_request detail

  abbrev pub is_post : Option String → Bool
  is_post none = false
  is_post (some m) = m == "POST"

  -- `CanonicalRequestGate.__call__`: `none` where it waits for a message that never comes.
  unfoldable pub gate : Scope → List Message → Option GateAnswer
  unfolding header buffer
  gate scope receive =
      let method_header = header inbound.method_header scope.headers in
      let name_header = header inbound.name_header scope.headers in
      if not (scope.type == "http") || not (is_post scope.method)
      then some passed
      else if absent rt inbound loads method_header && absent rt inbound loads name_header
      then some passed
      else elim (buffer receive) [
        | none ↦ none
        | some (buffered, body) ↦ some (
            answer_check buffered
              (find_header_body_mismatch rt inbound loads body method_header name_header))
      ]
