-- ===== src/AgentRuntime/Supervisor.antt =====
-- RI/src/emcp_bus/agent_runtime/global_supervisor.py: one turn is run by one backend. A backend is its
-- `run_turn`, which acts on the world `W` and may raise; the router is an argument.
use enterprise_mcp_service_b.Base.{
  String, Bool, not, Option, none, some, is_some, List, [], ◌∷◌, Result, ok, err, ◌==◌, Dict, get,
  any, codes, lower, has_part, if◌then◌else◌,
}
use enterprise_mcp_service_b.Base.Exec.{Exec, ◌>>=◌, pure, raise}

pub data SupervisorError : Type 0 where
  unknown_backend : String → SupervisorError
  no_backends : SupervisorError
  backend_raised : String → SupervisorError

abbrev pub Backends : Type 0 → Type 0 → Type 0
Backends W T = Dict (String → Exec W SupervisorError T)

-- `turn_result` is what the backend's turn gave.
pub record RoutingResult (T : Type 0) : Type 0 where
  pub backend_name : String
  pub handed_off : Bool
  pub turn_result : T

-- `router(message) or current_backend`
abbrev pub or_current : Option String → String → String
or_current none current = current
or_current (some name) current = if name == "" then current else name

abbrev pub routed : {T : Type 0} → String → String → T → RoutingResult T
routed current target result = record {
  backend_name = target;
  handed_off = not (target == current);
  turn_result = result;
}

module _ {W T : Type 0} where
  -- `GlobalSupervisor.__init__`
  unfoldable pub global_supervisor : Backends W T → Result SupervisorError (Backends W T)
  global_supervisor [] = err no_backends
  global_supervisor (b ∷ bs) = ok (b ∷ bs)

  abbrev run_on :
      String
      → String
      → String
      → Option (String → Exec W SupervisorError T)
      → Exec W SupervisorError (RoutingResult T)
  run_on message current target none = raise (unknown_backend target)
  run_on message current target (some run_turn) = do
    result ← run_turn message
    pure (routed current target result)

  -- The backend that a message goes to
  unfoldable pub target_of : Backends W T → String → String → (String → Option String) → String
  target_of backends message current router =
      let wanted = or_current (router message) current in
      if is_some (get backends wanted) then wanted else current

  -- `route_and_run`
  unfoldable pub route_and_run :
      Backends W T
      → String
      → String
      → (String → Option String)
      → Exec W SupervisorError (RoutingResult T)
  unfolding target_of
  route_and_run backends message current router =
      if is_some (get backends current)
      then (let target = target_of backends message current router in
          run_on message current target (get backends target))
      else raise (unknown_backend current)

abbrev default_routes : Dict (List String)
default_routes =
    ("finance_agent", "invoice" ∷ "invoices" ∷ "pay" ∷ "payment" ∷ "bill" ∷ "billing" ∷ []) ∷ []

unfoldable pub first_route : Dict (List String) → String → Option String
first_route [] message = none
first_route ((backend_name, keywords) ∷ routes) message =
    let rest = first_route routes message in
    if any (λ keyword. has_part (codes keyword) (lower (codes message))) keywords
    then some backend_name
    else rest

-- `keyword_router`: no routes, or an empty dictionary of them, stand for the default ones.
unfoldable pub keyword_router : Option (Dict (List String)) → String → Option String
unfolding first_route
keyword_router none message = first_route default_routes message
keyword_router (some []) message = first_route default_routes message
keyword_router (some (r ∷ rs)) message = first_route (r ∷ rs) message
