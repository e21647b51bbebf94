-- ===== src/Examples/Agents.antt =====
-- The agent in front of a Gateway, its prompts, and Modo B.
use mathlib.Core.List.{List, [], ◌∷◌, ◌++◌, map}
use enterprise_mcp_service_b.Base.{
  ◌+◌, ◌≤◌, String, ◌≡◌, refl, true, none, ok, err, All, select, length,
}
use enterprise_mcp_service_b.Json.{null}
use enterprise_mcp_service_b.Registry.Pipeline.Governance.{empty-IsSound}
use enterprise_mcp_service_b.Registry.Store.Rows.{upsert-IsConsistent}
use enterprise_mcp_service_b.Gateway.{Gateway, CallParams}
use enterprise_mcp_service_b.Gateway.Listing.{raised}
use enterprise_mcp_service_b.Gateway.Histories.{calls, happen, after, Accounted}
use enterprise_mcp_service_b.Agent.{
  Outside, function_call, AssistantMessage, CallToolResult, ExampleAgent, AgentTurnResult, Turn,
  limit_message, run_turn, iterate, call_llm, call_all, call_one, emit_turn_completed,
}
use enterprise_mcp_service_b.Agent.Turns.{run_turn-Reports}
use enterprise_mcp_service_b.Agent.Limits.{NeverRaises, Ended, run_turn_bounded, run_turn_ends}
use enterprise_mcp_service_b.Agent.Wiring.{Setting, Wired, Bears, called}
use enterprise_mcp_service_b.Agent.Guarded.{ended, run_turn-Accounted}
use enterprise_mcp_service_b.Agent.Prompts.{
  Publication, numbered, history, publish_all, publish_all_appends,
}
use enterprise_mcp_service_b.Examples.Samples.{rt, live, gateway, world, access}

abbrev refused : CallToolResult
refused = record {
  is_error = true;
  structured_content = none;
  content = "Access denied: UNKNOWN_CLIENT" ∷ [];
}

-- An LLM that always asks for the same tool
abbrev eager : AssistantMessage
eager = record { content = none; tool_calls = function_call "1" "crm.read" none ∷ [] }

abbrev asked_with : String → CallParams
asked_with name = record { name = name; arguments = none }

abbrev session : Outside Gateway
session = record {
  connect = λ g. (ok tt, g);
  list_tools = λ g. (ok [], g);
  call_tool = λ name j g. (ok refused, happen rt (calls world (asked_with name)) g);
  create = λ ms schemas g. (ok (eager ∷ []), g);
  loads = λ text. ok null;
  dumps = λ j. "";
  emit = λ event g. (err "the sink is down", g);
}

abbrev agent : ExampleAgent
agent = record { agent_name = "sales"; system_prompt = "Help."; has_sink = true }

never_raises : NeverRaises session
never_raises = record {
  connects = λ g. refl;
  lists = λ g. ([], refl);
  calls = λ name j g. (refused, refl);
  completes = λ ms schemas g. (eager, [], refl);
  reads = λ text. (null, refl);
}

-- The agent's session at the Gateway, and an LLM that always asks for the same tool
abbrev setting : Setting Unit
setting = record {
  connect = λ v. (ok tt, v);
  reads = λ v. world;
  later = λ v. world;
  catalogues = λ v url token. raised "no catalogue";
  passes = λ v. v;
  tools_of = λ r. ok [];
  result_of = λ r. ok refused;
  arguments_of = λ j. none;
  create = λ ms schemas v. (ok (eager ∷ []), v);
  loads = λ text. ok null;
  dumps = λ j. "";
  emit = λ event v. (err "the sink is down", v);
}

abbrev guarded : Turn (Wired Unit)
guarded = ended rt setting agent "Hello" 2 access gateway tt

run_turn-Accounted_example :
    (guarded.world.gateway ≡ after rt guarded.world.history gateway)
    × All (Bears access) guarded.world.history
    × (called guarded.world.history ≡ guarded.attempted)
    × Accounted rt gateway guarded.world.history guarded.world.gateway.sent
run_turn-Accounted_example =
    run_turn-Accounted rt setting agent "Hello" 2 access gateway tt (λ v. refl)
      (upsert-IsConsistent live [] empty-IsSound.consistent) refl

run_turn_bounded_example : (run_turn session agent "Hello" 2 gateway).1.asked ≤ 2
run_turn_bounded_example = run_turn_bounded session agent "Hello" 2 gateway

run_turn_ends_example :
    (r : AgentTurnResult) × ((run_turn session agent "Hello" 2 gateway).0 ≡ ok r)
    × Ended 2 r (run_turn session agent "Hello" 2 gateway).1
run_turn_ends_example = run_turn_ends session agent "Hello" 2 gateway never_raises

abbrev turn : Turn Gateway
turn = (run_turn session agent "Hello" 2 gateway).1

abbrev report : AgentTurnResult
report = record {
  final_message = limit_message;
  tools_attempted = "crm.read" ∷ "crm.read" ∷ [];
  tools_denied = "crm.read" ∷ "crm.read" ∷ [];
}

returns : run_turn session agent "Hello" 2 gateway ≡ (ok report, turn)
unfolding run_turn iterate call_llm call_all call_one emit_turn_completed
returns = refl

run_turn-Reports_example :
    (report.tools_attempted ≡ map (λ m. m.name) turn.made)
    × (report.tools_denied ≡ map (λ m. m.name) (select (λ m. m.result.is_error) turn.made))
run_turn-Reports_example = run_turn-Reports session agent "Hello" 2 gateway report turn returns

abbrev publications : List Publication
publications =
    record { name = "sales"; content = "One."; now = 1 }
    ∷ record { name = "finance"; content = "Two."; now = 2 }
    ∷ record { name = "sales"; content = "One."; now = 3 }
    ∷ []

publish_all_appends_example :
    history "sales" (publish_all publications [])
    ≡ history "sales" [] ++ numbered "sales" (length (history "sales" []) + 1) publications
publish_all_appends_example = publish_all_appends "sales" publications []
