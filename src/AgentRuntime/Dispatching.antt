-- ===== src/AgentRuntime/Dispatching.antt =====
-- Whose credential a dispatch uses, and what a handoff carries.
use enterprise_mcp_service_b.Base.{
  String, ◌≡◌, refl, true, Bool-cases, none, some, Option-cases, List, ok, Result-cases, inl, inr,
  ◌↔◌, ◌==◌, eq_refl, eq_iff, contains, Dict, get, if◌then◌else◌, arith,
}
use enterprise_mcp_service_b.Json.{Json, Fields, field, end, get_field, Runtime}
use enterprise_mcp_service_b.Orchestrator.{NbaDecision}
use enterprise_mcp_service_b.AgentRuntime.{
  AgentClientCredentials, TokenEndpoint, token_of, token_for, DispatchResult, denied,
  CallToolResult, Reply, raised, tool_result, other_result, Session, report, bearer_text, dispatch,
  carried, build_handoff_payload, execute_handoff,
}

pub get_field-carried :
    (carry_keys : List String) (fs : Fields) (k : String)
    → get_field (carried carry_keys fs) k ≡ (if contains k carry_keys then get_field fs k else none)
unfolding carried get_field
get_field-carried carry_keys end k = ground arith
get_field-carried carry_keys (field j v fs) k = elim (Bool-cases (j == k)) [
  | inl e ↦ ground (arith, e, (eq_iff j k).0 e, get_field-carried carry_keys fs k)
  | inr e ↦ ground (arith, e, get_field-carried carry_keys fs k)
]

module _ (rt : Runtime) (credentials : Dict AgentClientCredentials) (post : TokenEndpoint)
    (session : Session) (nba : NbaDecision) where
  -- The result comes of the one call of the decision's action that bears the token which the IdP gives
  -- for the credentials registered for the decision's own agent, and says `denied` exactly when the
  -- Gateway answered with an error.
  abbrev pub Dispatched : Fields → DispatchResult → Type 0
  Dispatched arguments r =
      (c : AgentClientCredentials) × (token : Json) × (t : CallToolResult) × (get credentials
          nba.agent
        ≡ some c)
      × (token_of nba.agent (post c) ≡ ok token)
      × (session (bearer_text rt token) nba.action arguments ≡ tool_result t)
      × (r.decision_id ≡ nba.decision_id)
      × (r.action ≡ nba.action)
      × ((r.status ≡ denied) ↔ (t.is_error ≡ true))

  report-Dispatched :
      (c : AgentClientCredentials) (token : Json) (arguments : Fields) (reply : Reply)
      (r : DispatchResult)
      → get credentials nba.agent ≡ some c
      → token_of nba.agent (post c) ≡ ok token
      → session (bearer_text rt token) nba.action arguments ≡ reply
      → report nba reply ≡ ok r
      → Dispatched arguments r
  report-Dispatched c token arguments (raised e) r f g h q = cc
  report-Dispatched c token arguments other_result r f g h q = cc
  report-Dispatched c token arguments (tool_result t) r f g h q =
      (c, token, t, f, g, h, ground arith, ground arith, ground arith)

  dispatch-Dispatched :
      (arguments : Fields) (r : DispatchResult)
      → dispatch rt credentials post session nba arguments ≡ ok r
      → Dispatched arguments r
  unfolding dispatch token_for
  dispatch-Dispatched arguments r h = elim (Option-cases (get credentials nba.agent)) [
    | inl e ↦ absurd (cc (rw e at h))
    | inr (c, e) ↦ elim (Result-cases (token_of nba.agent (post c))) [
      | inl (token, f) ↦ report-Dispatched c token arguments _ r e f refl (rw f at (rw e at h))
      | inr (x, f) ↦ absurd (cc (rw f at (rw e at h)))
    ]
  ]

  -- A handoff that returns a result dispatched the decision for its own agent, whatever the origin:
  -- with the token of the credentials registered for that agent, and with arguments that hold, of the
  -- full context, exactly the fields that are declared to be carried. Its result says `denied` exactly
  -- when the Gateway answered with an error.
  pub handoff_lem :
      (origin_agent : String) (full_context : Fields) (carry_keys : List String)
      (r : DispatchResult)
      → execute_handoff
          (build_handoff_payload nba origin_agent full_context carry_keys)
          nba
          (dispatch rt credentials post session)
        ≡ ok r
      → (arguments : Fields) × Dispatched arguments r
        × ((k : String)
            → get_field arguments k
              ≡ (if contains k carry_keys then get_field full_context k else none))
  unfolding execute_handoff build_handoff_payload
  handoff_lem origin_agent full_context carry_keys r h = (
    carried carry_keys full_context,
    dispatch-Dispatched (carried carry_keys full_context) r (rw (eq_refl nba.agent) at h),
    get_field-carried carry_keys full_context,
  )
