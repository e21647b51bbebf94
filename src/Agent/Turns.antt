-- ===== src/Agent/Turns.antt =====
-- What a turn of the agent reports, and how long it can run.
use enterprise_mcp_service_b.Base.{
  ℕ, zero, suc, String, Bool, ◌≡◌, refl, ap, subst, List, [], ◌∷◌, ◌++◌, map, Result, ok, err,
  select, arith, if◌then◌else◌,
}
use enterprise_mcp_service_b.Base.Exec.{Exec, Ensures, Ensures-bind}
use enterprise_mcp_service_b.Json.{Json}
use enterprise_mcp_service_b.Agent.{
  Outside, Tool, ToolSchema, ToolCall, function_call, custom_call, AssistantMessage, CallToolResult,
  Made, Turn, AgentTurnResult, ExampleAgent, answered, on_loaded, arguments_text, call_one,
  call_all, call_llm, iterate, on_message, run_turn, emit_turn_completed, opening,
  tool_to_openai_schema, finished, completed, on_catalog, on_connected, assistant,
}

abbrev pub name_of : Made → String
name_of m = m.name

abbrev pub refused : Made → Bool
refused m = m.result.is_error

-- The names of the calls that were made, and of those that came back as errors.
abbrev pub Records : List String → List String → List Made → Type 0
Records attempted denied made =
    (attempted ≡ map name_of made) × (denied ≡ map name_of (select refused made))

names-append :
    (xs : List Made) (m : Made) → map name_of (xs ++ m ∷ []) ≡ map name_of xs ++ m.name ∷ []
names-append [] m = refl
names-append (x ∷ xs) m = ap (λ ys. x.name ∷ ys) (names-append xs m)

denied-append :
    (xs : List Made) (m : Made)
    → map name_of (select refused (xs ++ m ∷ [])) ≡ (
        if m.result.is_error
        then map name_of (select refused xs) ++ m.name ∷ []
        else map name_of (select refused xs))
denied-append [] m = ground arith
denied-append (x ∷ xs) m = ground (arith, denied-append xs m)

module _ {W : Type 0} (out : Outside W) where
  abbrev HasRecords : Turn W → Type 0
  HasRecords t = Records t.attempted t.denied t.made

  answered-Records :
      (id name : String) (arguments : Json) (t : Turn W) (p : Result String CallToolResult × W)
      → HasRecords t
      → Ensures (λ _. HasRecords) (answered out id name arguments t p)
  answered-Records id name arguments t (err e, w) h = tt
  answered-Records id name arguments t (ok r, w) h =
      let m : Made = record { name = name; arguments = arguments; result = r } in
      (
        rw (names-append t.made m) (ap (λ ys. ys ++ name ∷ []) h.0),
        ground (arith, denied-append t.made m, h.1),
      )

  call_one-Records :
      (c : ToolCall) (t : Turn W) → HasRecords t → Ensures (λ _. HasRecords) (call_one out c t)
  unfolding call_one
  call_one-Records (custom_call id) t h = h
  call_one-Records (function_call id name arguments) t h =
      loaded (out.loads (arguments_text out arguments))
    where
      loaded : (l : Result String Json) → Ensures (λ _. HasRecords) (on_loaded out id name t l)
      loaded (err e) = tt
      loaded (ok j) = answered-Records id name j t (out.call_tool name j t.world) h

  call_all-Records :
      (cs : List ToolCall) (t : Turn W)
      → HasRecords t
      → Ensures (λ _. HasRecords) (call_all out cs t)
  unfolding call_all
  call_all-Records [] t h = h
  call_all-Records (c ∷ cs) t h =
      Ensures-bind (λ _. HasRecords) (λ _. HasRecords) (call_one out c t) (λ _. call_all out cs)
        (call_one-Records c t h) (λ _ s k. call_all-Records cs s k)

  -- A result reports the calls of the state it is returned in.
  abbrev pub Reports : AgentTurnResult → Turn W → Type 0
  Reports r t = Records r.tools_attempted r.tools_denied t.made

  call_llm-Records :
      (schemas : List ToolSchema) (t : Turn W)
      → HasRecords t
      → Ensures (λ _. HasRecords) (call_llm out schemas t)
  unfolding call_llm
  call_llm-Records schemas t h = go (out.create t.messages schemas t.world)
    where
      go :
          (p : Result String (List AssistantMessage) × W)
          → Ensures (λ _. HasRecords) (completed out t p)
      go (err e, w) = tt
      go (ok [], w) = tt
      go (ok (m ∷ ms), w) = h

  on_message-Reports :
      (next : Exec (Turn W) String AgentTurnResult)
      → ((t : Turn W) → HasRecords t → Ensures Reports (next t))
      → (m : AssistantMessage) (cs : List ToolCall) (t : Turn W) → HasRecords t
      → Ensures Reports (on_message out next m cs t)
  on_message-Reports next k m [] t h = h
  on_message-Reports next k m (c ∷ cs) t h =
      let t' : Turn W = record t { messages = t.messages ++ assistant m ∷ [] } in
      Ensures-bind (λ _. HasRecords) Reports (call_all out (c ∷ cs) t') (λ _. next)
        (call_all-Records (c ∷ cs) t' h) (λ _ s r. k s r)

  iterate-Reports :
      (n : ℕ) (schemas : List ToolSchema) (t : Turn W)
      → HasRecords t
      → Ensures Reports (iterate out n schemas t)
  unfolding iterate
  iterate-Reports zero schemas t h = h
  iterate-Reports (suc n) schemas t h =
      Ensures-bind (λ _. HasRecords) Reports (call_llm out schemas t)
        (λ m. on_message out (iterate out n schemas) m m.tool_calls) (call_llm-Records schemas t h)
        (λ m s k.
          on_message-Reports (iterate out n schemas) (iterate-Reports n schemas) m m.tool_calls s k)

  module _ (agent : ExampleAgent) where
    finished-Reports :
        (p : Result String AgentTurnResult × Turn W)
        → Ensures Reports p
        → Ensures Reports (finished out agent p)
    unfolding emit_turn_completed
    finished-Reports (err e, t) h = tt
    finished-Reports (ok r, t) h = ground (arith, h)

    -- What a turn that returns reports: the tools attempted are the names of the calls that the session
    -- answered, in their order, and the tools denied are the names of those it answered with an error.
    pub run_turn-Reports :
        (user_message : String) (limit : ℕ) (w : W) (r : AgentTurnResult) (t : Turn W)
        → run_turn out agent user_message limit w ≡ (ok r, t)
        → (r.tools_attempted ≡ map (λ m. m.name) t.made)
          × (r.tools_denied ≡ map (λ m. m.name) (select (λ m. m.result.is_error) t.made))
    unfolding run_turn
    run_turn-Reports user_message limit w r t e =
        subst (Ensures Reports) e (connected (out.connect w))
      where
        listed :
            (p : Result String (List Tool) × W)
            → Ensures Reports (on_catalog out agent user_message limit p)
        listed (err e, w) = tt
        listed (ok tools, w) = finished-Reports _ (
            iterate-Reports limit (map tool_to_openai_schema tools)
              (opening out agent user_message w) (refl, refl))

        connected :
            (p : Result String Unit × W)
            → Ensures Reports (on_connected out agent user_message limit p)
        connected (err e, w) = tt
        connected (ok u, w) = listed (out.list_tools w)
