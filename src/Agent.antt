-- ===== src/Agent.antt =====
-- RI/agents/example_agent/agent.py: one turn of the conversational agent. The MCP session, the LLM and
-- `json` are parameters that act on a state `W`; the tracing spans are left out.
pub mod Turns
pub mod Limits
pub mod Wiring
pub mod Guarded
pub mod Prompts
pub mod ModeB
use enterprise_mcp_service_b.Base.{
  ℕ, zero, suc, ◌+◌, String, Bool, true, false, Option, none, some, List, [], ◌∷◌, ◌++◌, map,
  Result, ok, err, ◌<>◌, if◌then◌else◌, ◌==◌, join,
}
use enterprise_mcp_service_b.Base.Exec.{Exec, ◌>>=◌, ◌>>◌, pure, gets}
use enterprise_mcp_service_b.Json.{Json}
use enterprise_mcp_service_b.Audit.Events.{Content, agent_turn_completed}

-- A tool of the catalog, and the schema that the LLM is offered for it.
pub record Tool : Type 0 where
  pub name : String
  pub description : Option String
  pub input_schema : Json

pub record ToolSchema : Type 0 where
  pub name : String
  pub description : String
  pub parameters : Json

-- A tool call of the LLM's message: of type "function", or of another type.
pub data ToolCall : Type 0 where
  function_call : (id name : String) → Option String → ToolCall
  custom_call : String → ToolCall

pub record AssistantMessage : Type 0 where
  pub content : Option String
  pub tool_calls : List ToolCall

pub data Message : Type 0 where
  user : String → Message
  system : String → Message
  assistant : AssistantMessage → Message
  tool : (tool_call_id content : String) → Message

-- `CallToolResult`: the structured content, and the texts of the content's items.
pub record CallToolResult : Type 0 where
  pub is_error : Bool
  pub structured_content : Option Json
  pub content : List String

-- What the turn asks of the session, the LLM and `json`; each but `dumps` may raise.
pub record Outside (W : Type 0) : Type 0 where
  -- The connection and `session.initialize()`
  pub connect : W → Result String Unit × W
  pub list_tools : W → Result String (List Tool) × W
  pub call_tool : String → Json → W → Result String CallToolResult × W
  -- `chat.completions.create`: the messages of its choices
  pub create : List Message → List ToolSchema → W → Result String (List AssistantMessage) × W
  pub loads : String → Result String Json
  pub dumps : Json → String
  pub emit : Content → W → Result String Unit × W

-- The agent's own settings.
pub record ExampleAgent : Type 0 where
  pub agent_name : String
  pub system_prompt : String
  pub has_sink : Bool

pub record AgentTurnResult : Type 0 where
  pub final_message : String
  pub tools_attempted : List String
  pub tools_denied : List String

-- A call that the session answered.
pub record Made : Type 0 where
  pub name : String
  pub arguments : Json
  pub result : CallToolResult

-- The variables of `run_turn`. `made`, `asked` and `replies` record the calls that the session
-- answered, how often the LLM was called, and the messages that it answered with.
pub record Turn (W : Type 0) : Type 0 where
  pub messages : List Message
  pub attempted : List String
  pub denied : List String
  pub made : List Made
  pub asked : ℕ
  pub replies : List AssistantMessage
  pub world : W

abbrev pub or_empty : Option String → String
or_empty none = ""
or_empty (some s) = s

-- `_tool_to_openai_schema`
unfoldable pub tool_to_openai_schema : Tool → ToolSchema
tool_to_openai_schema t = record {
  name = t.name;
  description = or_empty t.description;
  parameters = t.input_schema;
}

abbrev pub limit_message : String
limit_message = "(reached the tool-iteration limit without a final answer)"

module _ {W : Type 0} (out : Outside W) where
  -- `_result_to_text`
  unfoldable pub result_to_text : CallToolResult → String
  result_to_text r = elim r.structured_content [
    | some j ↦ out.dumps j
    | none ↦ let text = join " " r.content in if text == "" then "(empty result)" else text
  ]

  -- The end of one tool call, on what the session came back with
  abbrev pub answered :
      String
      → String
      → Json
      → Turn W
      → Result String CallToolResult × W
      → Result String Unit × Turn W
  answered id name arguments t (err e, w) =
      (err e, record t { attempted = t.attempted ++ name ∷ []; world = w })
  answered id name arguments t (ok r, w) = (
    ok tt,
    record t {
      attempted = t.attempted ++ name ∷ [];
      denied = if r.is_error then t.denied ++ name ∷ [] else t.denied;
      messages = t.messages ++ tool id (result_to_text r) ∷ [];
      made = t.made ++ record { name = name; arguments = arguments; result = r } ∷ [];
      world = w;
    },
  )

  -- `tool_call.function.arguments or "{}"`
  abbrev pub arguments_text : Option String → String
  arguments_text none = "{}"
  arguments_text (some s) = if s == "" then "{}" else s

  abbrev pub on_loaded : String → String → Turn W → Result String Json → Result String Unit × Turn W
  on_loaded id name t (err e) = (err e, t)
  on_loaded id name t (ok arguments) =
      answered id name arguments t (out.call_tool name arguments t.world)

  -- The body of the loop over the tool calls
  unfoldable pub call_one : ToolCall → Exec (Turn W) String Unit
  call_one (custom_call id) t = (ok tt, t)
  call_one (function_call id name arguments) t =
      on_loaded id name t (out.loads (arguments_text arguments))

  unfoldable pub call_all : List ToolCall → Exec (Turn W) String Unit
  call_all [] = pure tt
  call_all (c ∷ cs) = do call_one c; call_all cs

  -- `_call_llm`, and the message of its first choice
  abbrev pub completed :
      Turn W → Result String (List AssistantMessage) × W → Result String AssistantMessage × Turn W
  completed t (err e, w) = (err e, record t { asked = t.asked + 1; world = w })
  completed t (ok [], w) =
      (err "list index out of range", record t { asked = t.asked + 1; world = w })
  completed t (ok (m ∷ ms), w) =
      (ok m, record t { asked = t.asked + 1; replies = t.replies ++ m ∷ []; world = w })

  unfoldable pub call_llm : List ToolSchema → Exec (Turn W) String AssistantMessage
  call_llm schemas t = completed t (out.create t.messages schemas t.world)

  -- The result at the end of the turn
  abbrev pub result_of : String → Turn W → AgentTurnResult
  result_of message t = record {
    final_message = message;
    tools_attempted = t.attempted;
    tools_denied = t.denied;
  }

  abbrev pub Outcome : Type 0
  Outcome = Result String AgentTurnResult × Turn W

  abbrev append_message : Message → Exec (Turn W) String Unit
  append_message m t = (ok tt, record t { messages = t.messages ++ m ∷ [] })

  -- One message of the LLM: the end of the turn, or its tool calls and the next iteration
  abbrev pub on_message :
      Exec (Turn W) String AgentTurnResult
      → AssistantMessage
      → List ToolCall
      → Exec (Turn W) String AgentTurnResult
  on_message next m [] = gets (result_of (or_empty m.content))
  on_message next m (c ∷ cs) = do append_message (assistant m); call_all (c ∷ cs); next

  -- The loop, by the iterations that are left; the event is emitted after it
  unfoldable pub iterate : ℕ → List ToolSchema → Exec (Turn W) String AgentTurnResult
  iterate zero schemas = gets (result_of limit_message)
  iterate (suc n) schemas = do m ← call_llm schemas; on_message (iterate n schemas) m m.tool_calls

  module _ (agent : ExampleAgent) where
    -- `_emit_turn_completed`: an exception of the sink is suppressed.
    unfoldable pub emit_turn_completed : AgentTurnResult → Turn W → Turn W
    emit_turn_completed r t =
        if agent.has_sink
        then record t {
          world =
              (out.emit (agent_turn_completed agent.agent_name r.tools_attempted r.tools_denied)
                t.world).1;
        }
        else t

    abbrev pub finished : Outcome → Outcome
    finished (err e, t) = (err e, t)
    finished (ok r, t) = (ok r, emit_turn_completed r t)

    -- The state in which the loop starts
    abbrev pub opening : String → W → Turn W
    opening user_message w = record {
      messages = user user_message ∷ system agent.system_prompt ∷ [];
      attempted = [];
      denied = [];
      made = [];
      asked = 0;
      replies = [];
      world = w;
    }

    abbrev pub on_catalog : String → ℕ → Result String (List Tool) × W → Outcome
    on_catalog user_message limit (err e, w) = (err e, opening user_message w)
    on_catalog user_message limit (ok tools, w) =
        finished (iterate limit (map tool_to_openai_schema tools) (opening user_message w))

    abbrev pub on_connected : String → ℕ → Result String Unit × W → Outcome
    on_connected user_message limit (err e, w) = (err e, opening user_message w)
    on_connected user_message limit (ok u, w) = on_catalog user_message limit (out.list_tools w)

    unfoldable pub run_turn : String → ℕ → W → Outcome
    run_turn user_message max_tool_iterations w =
        on_connected user_message max_tool_iterations (out.connect w)
