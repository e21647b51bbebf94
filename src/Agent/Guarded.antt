-- ===== src/Agent/Guarded.antt =====
-- The Gateway is the boundary: the agent's own restraint is no part of what keeps a backend safe.
use mathlib.Core.List.{List, [], ◌∷◌, ◌++◌}
use enterprise_mcp_service_b.Base.{
  ℕ, zero, suc, String, Bool, true, false, some, ◌≡◌, refl, sym, ap, subst, ◌∙◌, map, Result, ok,
  err, All, All-append, if◌then◌else◌,
}
use enterprise_mcp_service_b.Base.Exec.{Exec, and_then-keeps}
use enterprise_mcp_service_b.Json.{Json, Runtime}
use enterprise_mcp_service_b.Identity.{AccessToken}
use enterprise_mcp_service_b.Audit.Events.{Content, agent_turn_completed}
use enterprise_mcp_service_b.Registry.Store.Rows.{IsConsistent}
use enterprise_mcp_service_b.Gateway.{Gateway}
use enterprise_mcp_service_b.Gateway.Histories.{
  Happening, calls, lists, happen, after, after-append, Accounted, after-Accounted,
}
use enterprise_mcp_service_b.Agent.{
  Outside, Tool, ToolSchema, ToolCall, function_call, custom_call, AssistantMessage, CallToolResult,
  Turn, AgentTurnResult, ExampleAgent, Message, assistant, answered, on_loaded, arguments_text,
  call_one, call_all, completed, call_llm, iterate, on_message, run_turn, emit_turn_completed,
  opening, tool_to_openai_schema, finished, on_catalog, on_connected,
}
use enterprise_mcp_service_b.Agent.Wiring.{
  Setting, Wired, called, called-snoc, called-listing, Bears, called_with, wired,
}

module _ {V : Type 0} (rt : Runtime) (s : Setting V) (token : AccessToken)
    (bears : (v : V) → (s.reads v).access ≡ some token) (start : Gateway) where
  abbrev out : Outside (Wired V)
  out = wired rt s

  -- The Gateway is where its history leads to, each happening of which is a request with the token, and
  -- the tools called are these.
  abbrev pub Follows : List String → Wired V → Type 0
  Follows names b =
      (b.gateway ≡ after rt b.history start)
      × All (Bears token) b.history
      × (called b.history ≡ names)

  extend :
      (h : Happening) (b : Wired V)
      → b.gateway ≡ after rt b.history start
      → happen rt h b.gateway ≡ after rt (b.history ++ h ∷ []) start
  extend h b e = ap (happen rt h) e ∙ sym (after-append rt b.history h start)

  calling :
      (names : List String) (name : String) (j : Json) (b : Wired V)
      → Follows names b
      → Follows (names ++ name ∷ []) (out.call_tool name j b).1
  unfolding wired happen
  calling names name j b (at, all, is) =
      let h = calls (s.reads b.rest) (called_with rt s name j) in
      (
        extend h b at,
        All-append (Bears token) b.history (h ∷ []) all (bears b.rest, tt),
        called-snoc b.history (s.reads b.rest) (called_with rt s name j)
            ∙ ap (λ ns. ns ++ name ∷ []) is,
      )

  listing :
      (names : List String) (b : Wired V) → Follows names b → Follows names (out.list_tools b).1
  unfolding wired happen
  listing names b (at, all, is) =
      let h = lists (s.reads b.rest) (s.later b.rest) (s.catalogues b.rest) in
      (
        extend h b at,
        All-append (Bears token) b.history (h ∷ []) all (bears b.rest, tt),
        called-listing b.history (s.reads b.rest) (s.later b.rest) (s.catalogues b.rest) ∙ is,
      )

  connecting :
      (names : List String) (b : Wired V) → Follows names b → Follows names (out.connect b).1
  unfolding wired
  connecting names b f = f

  creating :
      (names : List String) (ms : List Message) (schemas : List ToolSchema) (b : Wired V)
      → Follows names b
      → Follows names (out.create ms schemas b).1
  unfolding wired
  creating names ms schemas b f = f

  emitting :
      (names : List String) (c : Content) (b : Wired V)
      → Follows names b
      → Follows names (out.emit c b).1
  unfolding wired
  emitting names c b f = f

  abbrev Reached : Turn (Wired V) → Type 0
  Reached t = Follows t.attempted t.world

  call_one_reaches : (c : ToolCall) (t : Turn (Wired V)) → Reached t → Reached (call_one out c t).1
  unfolding call_one
  call_one_reaches (custom_call id) t r = r
  call_one_reaches (function_call id name arguments) t r =
      loaded (out.loads (arguments_text out arguments))
    where
      replied :
          (j : Json) (p : Result String CallToolResult × Wired V)
          → Follows (t.attempted ++ name ∷ []) p.1
          → Reached (answered out id name j t p).1
      replied j (ok a, w) r' = r'
      replied j (err e, w) r' = r'

      loaded : (l : Result String Json) → Reached (on_loaded out id name t l).1
      loaded (err e) = r
      loaded (ok j) =
          replied j (out.call_tool name j t.world) (calling t.attempted name j t.world r)

  call_all_reaches :
      (cs : List ToolCall) (t : Turn (Wired V)) → Reached t → Reached (call_all out cs t).1
  unfolding call_all
  call_all_reaches [] t r = r
  call_all_reaches (c ∷ cs) t r =
      and_then-keeps Reached Reached (call_one out c t) (λ _. call_all out cs)
        (call_one_reaches c t r) (λ s h. h) (λ _ s h. call_all_reaches cs s h)

  call_llm_reaches :
      (schemas : List ToolSchema) (t : Turn (Wired V))
      → Reached t
      → Reached (call_llm out schemas t).1
  unfolding call_llm
  call_llm_reaches schemas t r =
      go (out.create t.messages schemas t.world) (creating t.attempted t.messages schemas t.world r)
    where
      go :
          (p : Result String (List AssistantMessage) × Wired V)
          → Follows t.attempted p.1
          → Reached (completed out t p).1
      go (err e, w) r' = r'
      go (ok [], w) r' = r'
      go (ok (m ∷ ms), w) r' = r'

  on_message_reaches :
      (rest : Exec (Turn (Wired V)) String AgentTurnResult)
      → ((t : Turn (Wired V)) → Reached t → Reached (rest t).1)
      → (m : AssistantMessage) (cs : List ToolCall) (t : Turn (Wired V)) → Reached t
      → Reached (on_message out rest m cs t).1
  on_message_reaches rest k m [] t r = r
  on_message_reaches rest k m (c ∷ cs) t r =
      let t' : Turn (Wired V) = record t { messages = t.messages ++ assistant m ∷ [] } in
      and_then-keeps Reached Reached (call_all out (c ∷ cs) t') (λ _. rest)
        (call_all_reaches (c ∷ cs) t' r) (λ s h. h) (λ _ s h. k s h)

  iterate_reaches :
      (n : ℕ) (schemas : List ToolSchema) (t : Turn (Wired V))
      → Reached t
      → Reached (iterate out n schemas t).1
  unfolding iterate
  iterate_reaches zero schemas t r = r
  iterate_reaches (suc n) schemas t r =
      and_then-keeps Reached Reached (call_llm out schemas t)
        (λ m. on_message out (iterate out n schemas) m m.tool_calls) (call_llm_reaches schemas t r)
        (λ s h. h)
        (λ m s h.
          on_message_reaches (iterate out n schemas) (iterate_reaches n schemas) m m.tool_calls s h)

  module _ (agent : ExampleAgent) where
    finished_reaches :
        (p : Result String AgentTurnResult × Turn (Wired V))
        → Reached p.1
        → Reached (finished out agent p).1
    unfolding emit_turn_completed
    finished_reaches (err e, t) r = r
    finished_reaches (ok a, t) r = go agent.has_sink
      where
        content : Content
        content = agent_turn_completed agent.agent_name a.tools_attempted a.tools_denied

        go :
            (b : Bool)
            → Reached (if b then record t { world = (out.emit content t.world).1 } else t)
        go true = emitting t.attempted content t.world r
        go false = r

    run_turn_reaches :
        (user_message : String) (limit : ℕ) (w : Wired V)
        → Follows [] w
        → Reached (run_turn out agent user_message limit w).1
    unfolding run_turn
    run_turn_reaches user_message limit w r = connected (out.connect w) (connecting [] w r)
      where
        listed :
            (p : Result String (List Tool) × Wired V)
            → Follows [] p.1
            → Reached (on_catalog out agent user_message limit p).1
        listed (err e, w) r' = r'
        listed (ok tools, w) r' = finished_reaches _ (
            iterate_reaches limit (map tool_to_openai_schema tools)
              (opening out agent user_message w) r')

        connected :
            (p : Result String Unit × Wired V)
            → Follows [] p.1
            → Reached (on_connected out agent user_message limit p).1
        connected (err e, w) r' = r'
        connected (ok u, w) r' = listed (out.list_tools w) (listing [] w r')

module _ {V : Type 0} (rt : Runtime) (s : Setting V) (agent : ExampleAgent) (user_message : String)
    (limit : ℕ) (token : AccessToken) (start : Gateway) (v : V) where
  -- The end of a turn that starts with this Gateway, whose history is empty
  abbrev pub ended : Turn (Wired V)
  ended =
      (run_turn (wired rt s) agent user_message limit
        (record { gateway = start; history = []; rest = v })).1

  -- The Gateway is the boundary, whatever the LLM answers and however the turn ends, where the agent's
  -- session is wired to the Gateway's handlers and nothing else touches the Gateway. What happens to
  -- the Gateway during a turn are requests with the agent's token, and the tools that they call are, in
  -- order, the tools attempted. The calls that the backends received are, in order, those of the
  -- requests that sent one: each request sent nothing, or one call that OPA's replies to that very
  -- request allowed to the client of the token, or for which they wanted an approval that was there to
  -- consume, addressed to the backend of the tool's ACTIVE manifest. Every request bears that token,
  -- and the Gateway starts with a consistent registry and no call sent.
  pub run_turn-Accounted :
      ((v : V) → (s.reads v).access ≡ some token)
      → IsConsistent start.registry
      → start.sent ≡ []
      → (ended.world.gateway ≡ after rt ended.world.history start)
        × All (Bears token) ended.world.history
        × (called ended.world.history ≡ ended.attempted)
        × Accounted rt start ended.world.history ended.world.gateway.sent
  unfolding after called
  run_turn-Accounted bears con fresh =
      let (at, all, is) =
        run_turn_reaches rt s token bears start agent user_message limit
          (record { gateway = start; history = []; rest = v }) (refl, tt, refl) in
      (
        at,
        all,
        is,
        subst (λ (g : Gateway). Accounted rt start ended.world.history g.sent) (sym at)
            (after-Accounted rt ended.world.history start con fresh),
      )
