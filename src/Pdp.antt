-- ===== src/Pdp.antt =====
-- RI/src/emcp_bus/pdp/: the client of the policy decision point. What OPA replies to a query is an
-- argument.
pub mod Decisions
use Prim.Native.String.{slice}
use enterprise_mcp_service_b.Base.{
  List, [], ◌∷◌, select, Dict, put, ◌<>◌, str_leb, ends_with, String, Bool, true, false, not, ◌&&◌,
  Option, none, some, Result, ok, err, ◌>>=◌, if◌then◌else◌,
}
use enterprise_mcp_service_b.Base.Sort.{sort_by}
use enterprise_mcp_service_b.Base.Exec.{Exec}
use enterprise_mcp_service_b.Json.{
  Runtime, Json, Fields, null, bool, str, obj, field, end, get_field, truthy, str_or_null,
  HttpReply, http_error, not_json, answered,
}

pub data PdpOutcome : Type 0 where
  allow deny require_approval : PdpOutcome

pub record PdpDecision : Type 0 where
  pub outcome : PdpOutcome
  pub policy_version : String
  pub reason_code : String

pub data PdpError : Type 0 where
  pdp_unavailable : String → PdpError
  -- an exception of another type: a JSONDecodeError, or an AttributeError
  unexpected : String → PdpError

-- A policy file: its name, and its contents.
pub record PolicyFile : Type 0 where
  pub name : String
  pub contents : String

abbrev joined : List PolicyFile → String
joined [] = ""
joined (f ∷ fs) = f.name <> f.contents <> joined fs

abbrev is_policy : PolicyFile → Bool
is_policy f = ends_with f.name ".rego" && not (ends_with f.name "_test.rego")

-- `compute_policy_version`, of the files of the directory; the digest is of their bytes, one file after
-- the other.
unfoldable pub compute_policy_version : Runtime → List PolicyFile → String
compute_policy_version rt files =
    slice (rt.sha256 (joined (sort_by (λ a b. str_leb a.name b.name) (select is_policy files)))) 0
      12

-- OPA's documents of client profiles
abbrev pub ProfileDocuments : Type 0
ProfileDocuments = Dict Fields

-- `PDPClient.push_client_profile`; `accepts` tells whether OPA takes the document.
unfoldable pub push_client_profile :
    (String → Fields → Bool) → String → Fields → Exec ProfileDocuments PdpError Unit
push_client_profile accepts profile_name profile_data docs =
    if accepts profile_name profile_data
    then (ok tt, put docs profile_name profile_data)
    else (err (pdp_unavailable "Failed to push client profile"), docs)

-- `self._http.post(path, json={"input": ...})`
abbrev pub Opa : Type 0
Opa = String → Json → HttpReply

-- `body.get("result")` of a reply
abbrev result_of : Json → Result PdpError (Option Json)
result_of (obj body) = ok (get_field body "result")
result_of _ = err (unexpected "AttributeError")

abbrev body_of : HttpReply → Result PdpError Json
body_of http_error = err (pdp_unavailable "PDP query failed")
body_of not_json = err (unexpected "JSONDecodeError")
body_of (answered body) = ok body

abbrev post : Opa → String → Fields → Result PdpError (Option Json)
post opa path input = do
  body ← body_of (opa path (obj (field "input" (obj input) end)))
  result_of body

abbrev as_dict : Option Json → Result PdpError Fields
as_dict (some (obj result)) = ok result
as_dict _ = err (pdp_unavailable "unexpected shape")

abbrev as_bool : Option Json → Bool
as_bool none = false
as_bool (some v) = truthy v

-- `_query`
unfoldable pub query : Opa → String → Fields → Result PdpError Fields
query opa path input = do result ← post opa path input; as_dict result

-- `_query_bool`
unfoldable pub query_bool : Opa → String → Fields → Result PdpError Bool
query_bool opa path input = do result ← post opa path input; ok (as_bool result)

-- `d.get(key, False)`, taken as a condition
abbrev pub flag : Fields → String → Bool
flag fs key = as_bool (get_field fs key)

abbrev pub entitlement_input : (client_profile tool : String) → Fields
entitlement_input client_profile tool =
    field "client_profile" (str client_profile) (field "tool" (str tool) end)

abbrev pub transaction_input : (client_profile tool : String) → Fields → Option String → Fields
transaction_input client_profile tool arguments customer_classification =
    field "client_profile" (str client_profile) (
      field "tool" (str tool) (
        field "arguments" (obj arguments)
          (field "customer_classification" (str_or_null customer_classification) end)))

abbrev decision : String → PdpOutcome → String → PdpDecision
decision policy_version outcome reason_code = record {
  outcome = outcome;
  policy_version = policy_version;
  reason_code = reason_code;
}

-- The part of `evaluate` behind the transaction query.
abbrev pub decide : String → Fields → PdpDecision
decide policy_version result =
    if not (flag result "allow")
    then decision policy_version deny "TRANSACTION_POLICY_DENIED"
    else if flag result "require_approval"
    then decision policy_version require_approval "APPROVAL_THRESHOLD_EXCEEDED"
    else decision policy_version allow "ALLOWED"

-- `PDPClient.evaluate`
unfoldable pub evaluate :
    Opa
    → String
    → (client_profile tool : String) → Fields
    → Option String
    → Result PdpError PdpDecision
evaluate opa policy_version client_profile tool arguments customer_classification = do
  entitled ←
      query_bool opa "/v1/data/emcp/entitlement/allow" (entitlement_input client_profile tool)
  if not entitled then ok (decision policy_version deny "NOT_IN_ENTITLEMENT") else do
    result ←
        query opa "/v1/data/emcp/transaction"
          (transaction_input client_profile tool arguments customer_classification)
    ok (decide policy_version result)
