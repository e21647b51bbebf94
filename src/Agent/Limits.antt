-- ===== src/Agent/Limits.antt =====
-- How long a turn of the agent can run, and that it ends.
use enterprise_mcp_service_b.Base.{
  ℕ, zero, suc, ◌+◌, ◌≤◌, ◌<◌, String, ◌≡◌, refl, subst, ◌∙◌, ◌⊎◌, inl, inr, List, [], ◌∷◌, ◌++◌,
  map, Bool, true, false, Result, ok, err, arith, if◌then◌else◌,
}
use enterprise_mcp_service_b.Base.Exec.{Exec, and_then-keeps, Returns, Returns-bind}
use enterprise_mcp_service_b.Json.{Json}
use enterprise_mcp_service_b.Audit.Events.{agent_turn_completed}
use enterprise_mcp_service_b.Agent.{
  Outside, Tool, ToolSchema, ToolCall, function_call, custom_call, AssistantMessage, CallToolResult,
  Turn, AgentTurnResult, ExampleAgent, Message, assistant, limit_message, or_empty, answered,
  on_loaded, arguments_text, call_one, call_all, completed, call_llm, iterate, on_message, run_turn,
  emit_turn_completed, opening, tool_to_openai_schema, finished, on_catalog, on_connected,
}

module _ {W : Type 0} (out : Outside W) where
  call_one-asked : (c : ToolCall) (t : Turn W) → (call_one out c t).1.asked ≡ t.asked
  unfolding call_one
  call_one-asked (custom_call id) t = refl
  call_one-asked (function_call id name arguments) t =
      loaded (out.loads (arguments_text out arguments))
    where
      replied :
          (j : Json) (p : Result String CallToolResult × W)
          → (answered out id name j t p).1.asked ≡ t.asked
      replied j (ok r, w) = refl
      replied j (err e, w) = refl

      loaded : (l : Result String Json) → (on_loaded out id name t l).1.asked ≡ t.asked
      loaded (err e) = refl
      loaded (ok j) = replied j (out.call_tool name j t.world)

  call_all-asked : (cs : List ToolCall) (t : Turn W) → (call_all out cs t).1.asked ≡ t.asked
  unfolding call_all
  call_all-asked [] t = refl
  call_all-asked (c ∷ cs) t =
      and_then-keeps (λ s. s.asked ≡ t.asked) (λ s. s.asked ≡ t.asked) (call_one out c t)
        (λ _. call_all out cs) (call_one-asked c t) (λ s h. h) (λ _ s h. call_all-asked cs s ∙ h)

  call_llm-asked :
      (schemas : List ToolSchema) (t : Turn W) → (call_llm out schemas t).1.asked ≡ t.asked + 1
  unfolding call_llm
  call_llm-asked schemas t = go (out.create t.messages schemas t.world)
    where
      go :
          (p : Result String (List AssistantMessage) × W)
          → (completed out t p).1.asked ≡ t.asked + 1
      go (err e, w) = refl
      go (ok [], w) = refl
      go (ok (m ∷ ms), w) = refl

  on_message-asked :
      (next : Exec (Turn W) String AgentTurnResult) (n : ℕ)
      → ((t : Turn W) → (next t).1.asked ≤ t.asked + n)
      → (m : AssistantMessage) (cs : List ToolCall) (t : Turn W)
      → (on_message out next m cs t).1.asked ≤ t.asked + n
  on_message-asked next n k m [] t = omega arith
  on_message-asked next n k m (c ∷ cs) t =
      let t' : Turn W = record t { messages = t.messages ++ assistant m ∷ [] } in
      and_then-keeps (λ s. s.asked ≡ t.asked) (λ s. s.asked ≤ t.asked + n)
        (call_all out (c ∷ cs) t') (λ _. next) (call_all-asked (c ∷ cs) t') (λ s h. omega arith)
        (λ _ s h. omega (arith, k s))

  iterate-asked :
      (n : ℕ) (schemas : List ToolSchema) (t : Turn W)
      → (iterate out n schemas t).1.asked ≤ t.asked + n
  unfolding iterate
  iterate-asked zero schemas t = omega arith
  iterate-asked (suc n) schemas t =
      and_then-keeps (λ s. s.asked ≡ t.asked + 1) (λ s. s.asked ≤ t.asked + suc n)
        (call_llm out schemas t) (λ m. on_message out (iterate out n schemas) m m.tool_calls)
        (call_llm-asked schemas t) (λ s h. omega arith)
        (λ m s h. omega (
          arith,
          on_message-asked (iterate out n schemas) n (iterate-asked n schemas) m m.tool_calls s,
        ))

  finished-asked :
      (agent : ExampleAgent) (p : Result String AgentTurnResult × Turn W)
      → (finished out agent p).1.asked ≡ p.1.asked
  unfolding emit_turn_completed
  finished-asked agent (err e, t) = refl
  finished-asked agent (ok r, t) = ground arith

  -- A turn asks the LLM at most as often as its limit allows, whatever the session and the LLM do and
  -- also when it ends with an exception.
  pub run_turn_bounded :
      (agent : ExampleAgent) (user_message : String) (limit : ℕ) (w : W)
      → (run_turn out agent user_message limit w).1.asked ≤ limit
  unfolding run_turn
  run_turn_bounded agent user_message limit w = connected (out.connect w)
    where
      listed :
          (p : Result String (List Tool) × W)
          → (on_catalog out agent user_message limit p).1.asked ≤ limit
      listed (err e, w) = omega arith
      listed (ok tools, w) =
          let t = opening out agent user_message w in
          let p = iterate out limit (map tool_to_openai_schema tools) t in
          omega
            (arith, finished-asked agent p, iterate-asked limit (map tool_to_openai_schema tools) t)

      connected :
          (p : Result String Unit × W)
          → (on_connected out agent user_message limit p).1.asked ≤ limit
      connected (err e, w) = omega arith
      connected (ok u, w) = listed (out.list_tools w)

  -- Nothing outside raises, and each completion has a choice. The sink of the audit may fail.
  pub record NeverRaises : Type 0 where
    pub connects : (w : W) → (out.connect w).0 ≡ ok tt
    pub lists : (w : W) → (tools : List Tool) × ((out.list_tools w).0 ≡ ok tools)
    pub calls :
        (name : String) (j : Json) (w : W)
        → (r : CallToolResult) × ((out.call_tool name j w).0 ≡ ok r)
    pub completes :
        (ms : List Message) (schemas : List ToolSchema) (w : W)
        → (m : AssistantMessage) × (rest : List AssistantMessage) × ((out.create ms schemas w).0
            ≡ ok (m ∷ rest))
    pub reads : (text : String) → (j : Json) × (out.loads text ≡ ok j)

module _ {W : Type 0} where
  -- The turn ended at the limit of calls of the LLM; or with the content of the LLM's last message,
  -- which has no tool calls.
  abbrev pub Ended : ℕ → AgentTurnResult → Turn W → Type 0
  Ended limit r t =
      ((r.final_message ≡ limit_message) × (t.asked ≡ limit))
      ⊎ ((0 < t.asked)
          × (t.asked ≤ limit)
          × ((earlier : List AssistantMessage) × (m : AssistantMessage) × (t.replies
                ≡ earlier ++ m ∷ [])
              × (m.tool_calls ≡ [])
              × (r.final_message ≡ or_empty m.content)))

module _ {W : Type 0} (out : Outside W) (h : NeverRaises out) where
  abbrev Asked : ℕ → Turn W → Type 0
  Asked k t = t.asked ≡ k

  call_one-Returns : (c : ToolCall) (t : Turn W) → Returns (λ _. Asked t.asked) (call_one out c t)
  unfolding call_one
  call_one-Returns (custom_call id) t = refl
  call_one-Returns (function_call id name arguments) t =
      let (j, e) = h.reads (arguments_text out arguments) in
      let (r, f) = h.calls name j t.world in rw e (rw f refl)

  call_all-Returns :
      (cs : List ToolCall) (t : Turn W) → Returns (λ _. Asked t.asked) (call_all out cs t)
  unfolding call_all
  call_all-Returns [] t = refl
  call_all-Returns (c ∷ cs) t =
      Returns-bind (λ _. Asked t.asked) (λ _. Asked t.asked) (call_one out c t)
        (λ _. call_all out cs) (call_one-Returns c t)
        (λ _ s e. subst (λ k. Returns (λ _. Asked k) (call_all out cs s)) e (call_all-Returns cs s))

  -- `m` is the last message of the LLM.
  abbrev Last : AssistantMessage → Turn W → Type 0
  Last m t = (earlier : List AssistantMessage) × (t.replies ≡ earlier ++ m ∷ [])

  abbrev Replied : ℕ → AssistantMessage → Turn W → Type 0
  Replied k m t = Asked k t × Last m t

  call_llm-Returns :
      (schemas : List ToolSchema) (t : Turn W)
      → Returns (Replied (t.asked + 1)) (call_llm out schemas t)
  unfolding call_llm
  call_llm-Returns schemas t =
      let (m, rest, e) = h.completes t.messages schemas t.world in rw e (refl, (t.replies, refl))

  on_message-Returns :
      (next : Exec (Turn W) String AgentTurnResult) (limit : ℕ) (m : AssistantMessage)
      (cs : List ToolCall) (t : Turn W)
      → ((s : Turn W) → s.asked ≡ t.asked → Returns (Ended limit) (next s))
      → m.tool_calls ≡ cs
      → Last m t
      → 0 < t.asked
      → t.asked ≤ limit
      → Returns (Ended limit) (on_message out next m cs t)
  on_message-Returns next limit m [] t k none_left (earlier, l) p q =
      inr (p, q, (earlier, m, l, none_left, refl))
  on_message-Returns next limit m (c ∷ cs) t k e l p q =
      let t' : Turn W = record t { messages = t.messages ++ assistant m ∷ [] } in
      Returns-bind (λ _. Asked t.asked) (Ended limit) (call_all out (c ∷ cs) t') (λ _. next)
        (call_all-Returns (c ∷ cs) t') (λ _ s e. k s e)

  iterate-Returns :
      (n limit : ℕ) (schemas : List ToolSchema) (t : Turn W)
      → t.asked + n ≡ limit
      → Returns (Ended limit) (iterate out n schemas t)
  unfolding iterate
  iterate-Returns zero limit schemas t e = inl (refl, omega arith)
  iterate-Returns (suc n) limit schemas t e =
      Returns-bind (Replied (t.asked + 1)) (Ended limit) (call_llm out schemas t)
        (λ m. on_message out (iterate out n schemas) m m.tool_calls) (call_llm-Returns schemas t)
        (λ m s a.
          on_message-Returns (iterate out n schemas) limit m m.tool_calls s
            (λ s' b. iterate-Returns n limit schemas s' (omega (arith, a.0, b))) refl a.1
            (omega (arith, a.0)) (omega (arith, a.0)))

  finished-Returns :
      (agent : ExampleAgent) (limit : ℕ) (p : Result String AgentTurnResult × Turn W)
      → Returns (Ended limit) p
      → Returns (Ended limit) (finished out agent p)
  unfolding emit_turn_completed
  finished-Returns agent limit (err e, t) k = absurd k
  finished-Returns agent limit (ok r, t) k = go agent.has_sink
    where
      go :
          (b : Bool)
          → Ended limit r (
              if b
              then record t {
                world =
                    (out.emit
                      (agent_turn_completed agent.agent_name r.tools_attempted r.tools_denied)
                      t.world).1;
              }
              else t)
      go true = k
      go false = k

  turn-Returns :
      (agent : ExampleAgent) (user_message : String) (limit : ℕ) (w : W)
      → Returns (Ended limit) (run_turn out agent user_message limit w)
  unfolding run_turn
  turn-Returns agent user_message limit w =
      let (tools, f) = h.lists (out.connect w).1 in
      let t = opening out agent user_message (out.list_tools (out.connect w).1).1 in
      rw (h.connects w) (
        rw f (
          finished-Returns agent limit _
            (iterate-Returns limit limit (map tool_to_openai_schema tools) t (omega arith))))

result-of_Returns :
    {S A : Type 0} (P : A → S → Type 0) (p : Result String A × S)
    → Returns P p
    → (a : A) × (p.0 ≡ ok a) × P a p.1
result-of_Returns P (ok a, s) h = (a, refl, h)
result-of_Returns P (err e, s) h = absurd h

-- When neither the session nor the LLM nor the reading of arguments raises, a turn returns a result,
-- even if the audit sink fails: at the limit of calls of the LLM with the message that says so, or after
-- at least one and at most that many calls with the content of the LLM's last message, which asks for
-- no tool.
pub run_turn_ends :
    {W : Type 0} (out : Outside W) (agent : ExampleAgent) (user_message : String) (limit : ℕ)
    (w : W)
    → NeverRaises out
    → (r : AgentTurnResult) × ((run_turn out agent user_message limit w).0 ≡ ok r)
      × Ended limit r (run_turn out agent user_message limit w).1
run_turn_ends out agent user_message limit w h =
    result-of_Returns (Ended limit) (run_turn out agent user_message limit w)
      (turn-Returns out h agent user_message limit w)
