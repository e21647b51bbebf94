-- ===== src/Agent/Wiring.antt =====
-- RI/agents/example_agent/agent.py in front of RI/src/emcp_bus/gateway/server.py: the session of the
-- agent wired to the handlers of a Gateway.
use mathlib.Core.List.{List, [], ◌∷◌, ◌++◌}
use enterprise_mcp_service_b.Base.{String, Option, some, ◌≡◌, refl, ap, Result}
use enterprise_mcp_service_b.Json.{Json, Fields, Runtime}
use enterprise_mcp_service_b.Identity.{AccessToken}
use enterprise_mcp_service_b.Audit.Events.{Content}
use enterprise_mcp_service_b.Gateway.{
  Gateway, World, CallParams, GatewayError, ToolResult, on_call_tool,
}
use enterprise_mcp_service_b.Gateway.Listing.{Catalogues, ListError, ListResult, on_list_tools}
use enterprise_mcp_service_b.Gateway.Histories.{
  Happening, calls, lists, grants, denies, revokes_client, revokes_profile,
}
use enterprise_mcp_service_b.Agent.{
  Outside, Tool, ToolSchema, AssistantMessage, CallToolResult, Message,
}

-- What lies around the agent and the Gateway, whose state is a `V`: the connection, what the Gateway
-- reads from the outside as it handles a request, the transport of answers, the LLM, `json` and the
-- agent's audit sink.
pub record Setting (V : Type 0) : Type 0 where
  pub connect : V → Result String Unit × V
  pub reads : V → World
  pub later : V → World
  pub catalogues : V → Catalogues
  pub passes : V → V
  pub tools_of : Result ListError ListResult → Result String (List Tool)
  pub result_of : Result GatewayError ToolResult → Result String CallToolResult
  pub arguments_of : Json → Option Fields
  pub create : List Message → List ToolSchema → V → Result String (List AssistantMessage) × V
  pub loads : String → Result String Json
  pub dumps : Json → String
  pub emit : Content → V → Result String Unit × V

-- The world of the agent: the Gateway, what happened to it so far, and the rest.
pub record Wired (V : Type 0) : Type 0 where
  pub gateway : Gateway
  pub history : List Happening
  pub rest : V

-- The names of the tools that the requests of a history call
unfoldable pub called : List Happening → List String
called [] = []
called (calls w params ∷ hs) = params.name ∷ called hs
called (lists w later catalogues ∷ hs) = called hs
called (grants stamp works id ∷ hs) = called hs
called (denies id ∷ hs) = called hs
called (revokes_client client_id ∷ hs) = called hs
called (revokes_profile profile_name ∷ hs) = called hs

pub called-snoc :
    (hs : List Happening) (w : World) (params : CallParams)
    → called (hs ++ calls w params ∷ []) ≡ called hs ++ params.name ∷ []
unfolding called
called-snoc [] w params = refl
called-snoc (calls v p ∷ hs) w params = ap (λ ns. p.name ∷ ns) (called-snoc hs w params)
called-snoc (lists v later catalogues ∷ hs) w params = called-snoc hs w params
called-snoc (grants stamp works id ∷ hs) w params = called-snoc hs w params
called-snoc (denies id ∷ hs) w params = called-snoc hs w params
called-snoc (revokes_client client_id ∷ hs) w params = called-snoc hs w params
called-snoc (revokes_profile profile_name ∷ hs) w params = called-snoc hs w params

pub called-listing :
    (hs : List Happening) (w later : World) (catalogues : Catalogues)
    → called (hs ++ lists w later catalogues ∷ []) ≡ called hs
unfolding called
called-listing [] w l c = refl
called-listing (calls v p ∷ hs) w l c = ap (λ ns. p.name ∷ ns) (called-listing hs w l c)
called-listing (lists v later catalogues ∷ hs) w l c = called-listing hs w l c
called-listing (grants stamp works id ∷ hs) w l c = called-listing hs w l c
called-listing (denies id ∷ hs) w l c = called-listing hs w l c
called-listing (revokes_client client_id ∷ hs) w l c = called-listing hs w l c
called-listing (revokes_profile profile_name ∷ hs) w l c = called-listing hs w l c

-- A request that bears the token
abbrev pub Bears : AccessToken → Happening → Type 0
Bears token (calls w params) = w.access ≡ some token
Bears token (lists w later catalogues) = w.access ≡ some token
Bears token _ = ⊥

module _ {V : Type 0} (rt : Runtime) (s : Setting V) where
  abbrev pub called_with : String → Json → CallParams
  called_with name j = record { name = name; arguments = s.arguments_of j }

  -- The session's requests go through the Gateway's handlers; nothing else touches the Gateway.
  unfoldable pub wired : Outside (Wired V)
  wired = record {
    connect = λ b. let r = s.connect b.rest in (r.0, record b { rest = r.1 });
    list_tools = λ b.
        let w = s.reads b.rest in
        let a = on_list_tools rt w (s.later b.rest) (s.catalogues b.rest) b.gateway in
        (
          s.tools_of a.0,
          record {
            gateway = a.1;
            history = b.history ++ lists w (s.later b.rest) (s.catalogues b.rest) ∷ [];
            rest = s.passes b.rest;
          },
        );
    call_tool = λ name j b.
        let w = s.reads b.rest in
        let a = on_call_tool rt w (called_with name j) b.gateway in
        (
          s.result_of a.0,
          record {
            gateway = a.1;
            history = b.history ++ calls w (called_with name j) ∷ [];
            rest = s.passes b.rest;
          },
        );
    create = λ ms schemas b. let r = s.create ms schemas b.rest in (r.0, record b { rest = r.1 });
    loads = s.loads;
    dumps = s.dumps;
    emit = λ c b. let r = s.emit c b.rest in (r.0, record b { rest = r.1 });
  }
