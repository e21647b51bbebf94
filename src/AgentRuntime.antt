-- ===== src/AgentRuntime.antt =====
-- RI/src/emcp_bus/agent_runtime/: the dispatch of a decision through the Gateway, handoffs between
-- agents, the renaming of channel fields and the channel adapters. The IdP and the MCP session are
-- arguments.
pub mod Dispatching
pub mod Supervisor
use Prim.Native.Char.{code}
use enterprise_mcp_service_b.Base.{
  String, Bool, true, false, Option, none, some, List, [], ◌∷◌, Result, ok, err, Dict, get, put,
  ◌==◌, ◌<>◌, ◌&&◌, if◌then◌else◌, contains, dict_of, ◌>>=◌, join,
}
use enterprise_mcp_service_b.Json.{
  Json, Fields, str, field, end, get_field, put_field, HttpReply, http_error, not_json, answered,
  obj, Runtime,
}
use enterprise_mcp_service_b.Registry.Pipeline.{is_space}
use enterprise_mcp_service_b.Orchestrator.{NbaDecision}

pub record AgentClientCredentials : Type 0 where
  pub client_id : String
  pub client_secret : String
  pub token_endpoint : String

-- What a dispatch may raise.
pub data DispatchError : Type 0 where
  unknown_agent : String → DispatchError
  agent_credential : String → DispatchError
  unexpected : String → DispatchError
  type_error : DispatchError
  value_error : (agent target_agent : String) → DispatchError

-- The IdP's reply to a `client_credentials` grant.
abbrev pub TokenEndpoint : Type 0
TokenEndpoint = AgentClientCredentials → HttpReply

-- `response.json()["access_token"]`, after `raise_for_status`
abbrev pub token_of : String → HttpReply → Result DispatchError Json
token_of agent http_error = err (agent_credential agent)
token_of agent not_json = err (unexpected "JSONDecodeError")
token_of agent (answered (obj body)) = elim (get_field body "access_token") [
  | none ↦ err (unexpected "KeyError")
  | some token ↦ ok token
]
token_of agent (answered _) = err (unexpected "TypeError")

abbrev pub on_credentials :
    TokenEndpoint → String → Option AgentClientCredentials → Result DispatchError Json
on_credentials post agent none = err (unknown_agent agent)
on_credentials post agent (some c) = token_of agent (post c)

-- `OIDCAgentTokenProvider.token_for`
unfoldable pub token_for :
    Dict AgentClientCredentials → TokenEndpoint → String → Result DispatchError Json
token_for credentials post agent = on_credentials post agent (get credentials agent)

pub data DispatchStatus : Type 0 where
  allowed denied : DispatchStatus

pub record DispatchResult : Type 0 where
  pub decision_id : String
  pub action : String
  pub status : DispatchStatus
  pub structured_content : Option Fields
  pub error_text : Option String

-- `CallToolResult`: the structured content, and the texts of the content's items.
pub record CallToolResult : Type 0 where
  pub is_error : Bool
  pub structured_content : Option Fields
  pub content : List String

-- What the session comes back with: an exception, a CallToolResult, or another result.
pub data Reply : Type 0 where
  raised : String → Reply
  tool_result : CallToolResult → Reply
  other_result : Reply

-- A session at the Gateway that bears a token, and calls a tool.
abbrev pub Session : Type 0
Session = (bearer tool : String) → Fields → Reply

-- `text.strip()`
strip_left : String → String
strip_left String.[] = ""
strip_left (String.◌∷◌ c s) =
    let rest = strip_left s in if is_space (code c) then rest else String.◌∷◌ c s

strip_right : String → String
strip_right String.[] = ""
strip_right (String.◌∷◌ c s) =
    let rest = strip_right s in if is_space (code c) && rest == "" then "" else String.◌∷◌ c rest

unfoldable pub strip : String → String
unfolding strip_left strip_right
strip text = strip_right (strip_left text)

-- `text or None`
abbrev pub text_or_none : String → Option String
text_or_none text = if text == "" then none else some text

-- The end of `dispatch`, on what the session came back with
abbrev pub report : NbaDecision → Reply → Result DispatchError DispatchResult
report nba (raised reason) = err (unexpected reason)
report nba other_result = err type_error
report nba (tool_result r) =
    if r.is_error
    then ok (record {
      decision_id = nba.decision_id;
      action = nba.action;
      status = denied;
      structured_content = none;
      error_text = text_or_none (strip (join " " r.content));
    })
    else ok (record {
      decision_id = nba.decision_id;
      action = nba.action;
      status = allowed;
      structured_content = r.structured_content;
      error_text = none;
    })

-- `f"{token}"`
abbrev pub bearer_text : Runtime → Json → String
bearer_text rt (str s) = s
bearer_text rt j = rt.str_of j

module _ (rt : Runtime) (credentials : Dict AgentClientCredentials) (post : TokenEndpoint)
    (session : Session) where
  -- `AgentDispatcher.dispatch`
  unfoldable pub dispatch : NbaDecision → Fields → Result DispatchError DispatchResult
  dispatch nba arguments = do
    token ← token_for credentials post nba.agent
    report nba (session (bearer_text rt token) nba.action arguments)

pub record HandoffPayload : Type 0 where
  pub decision_id : String
  pub origin_agent : String
  pub target_agent : String
  pub minimal_context : Fields

-- `{key: value for key, value in full_context.items() if key in carry_keys}`
unfoldable pub carried : List String → Fields → Fields
carried carry_keys end = end
carried carry_keys (field key value rest) =
    let others = carried carry_keys rest in
    if contains key carry_keys then field key value others else others

unfoldable pub build_handoff_payload : NbaDecision → String → Fields → List String → HandoffPayload
unfolding carried
build_handoff_payload nba origin_agent full_context carry_keys = record {
  decision_id = nba.decision_id;
  origin_agent = origin_agent;
  target_agent = nba.agent;
  minimal_context = carried carry_keys full_context;
}

-- `dispatcher` is the dispatcher's `dispatch`.
unfoldable pub execute_handoff :
    HandoffPayload
    → NbaDecision
    → (NbaDecision → Fields → Result DispatchError DispatchResult)
    → Result DispatchError DispatchResult
execute_handoff payload nba dispatcher =
    if nba.agent == payload.target_agent
    then dispatcher nba payload.minimal_context
    else err (value_error nba.agent payload.target_agent)

abbrev pub alias_of : Dict String → String → String
alias_of aliases key = elim (get aliases key) [ none ↦ key | some canonical ↦ canonical ]

-- `{self._aliases.get(key, key): value for key, value in payload.items()}`: of two fields that come to
-- one name the later stays.
renamed : Dict String → Fields → Fields → Fields
unfolding put_field
renamed aliases end out = out
renamed aliases (field key value rest) out =
    renamed aliases rest (put_field out (alias_of aliases key) value)

-- `IdentityResolver.resolve`
unfoldable pub resolve_identity : Dict String → Fields → Fields
unfolding renamed
resolve_identity aliases payload = renamed aliases payload end

-- A channel adapter: its channel, and its `deliver`.
pub record ChannelAdapter : Type 0 where
  pub channel : String
  pub deliver : NbaDecision → DispatchResult → Fields

unfoldable pub channel_registry : List ChannelAdapter → Dict ChannelAdapter
channel_registry = dict_of (λ a. a.channel)

pub data ChannelError : Type 0 where
  unsupported_channel : String → ChannelError

unfoldable pub adapter_for : Dict ChannelAdapter → String → Result ChannelError ChannelAdapter
adapter_for adapters channel = elim (get adapters channel) [
  | none ↦ err (unsupported_channel channel)
  | some adapter ↦ ok adapter
]

abbrev status_text : DispatchStatus → String
status_text allowed = "allowed"
status_text denied = "denied"

abbrev message_for : DispatchStatus → String → String
message_for denied action = "I wasn't able to complete " <> action <> " right now."
message_for allowed action = "Done: " <> action <> " completed successfully."

-- `ConversationalChannelAdapter`
abbrev pub conversational : ChannelAdapter
conversational = record {
  channel = "app";
  deliver = λ nba r. field "channel" (str "app") (
      field "decision_id" (str nba.decision_id) (
        field "message" (str (message_for r.status nba.action))
          (field "status" (str (status_text r.status)) end)));
}
