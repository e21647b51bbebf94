-- ===== src/Examples/Runtimes.antt =====
-- Dispatch and handoff, the supervisor, profiles, redaction, and payments.
use mathlib.Core.List.{[], ◌∷◌}
use text.Mathlib.Text.{starts_with}
use enterprise_mcp_service_b.Base.{
  ℕ, zero, suc, ◌+◌, String, ◌≡◌, refl, ap, inl, inr, true, false, none, some, ok, err, Dict, get,
  ◌<>◌, contains, any, codes, if◌then◌else◌, arith, length,
}
use enterprise_mcp_service_b.Base.Exec.{Exec}
use enterprise_mcp_service_b.Json.{
  Fields, str, int, pos, obj, arr, nil, cons, field, end, get_field, answered, Runtime,
}
use enterprise_mcp_service_b.Orchestrator.{NbaDecision, ProfileView}
use enterprise_mcp_service_b.AgentRuntime.{
  AgentClientCredentials, TokenEndpoint, Session, CallToolResult, tool_result, DispatchResult,
  allowed, token_for, dispatch, carried, build_handoff_payload, execute_handoff,
}
use enterprise_mcp_service_b.AgentRuntime.Dispatching.{Dispatched, handoff_lem}
use enterprise_mcp_service_b.AgentRuntime.Supervisor.{
  SupervisorError, Backends, keyword_router, first_route,
}
use enterprise_mcp_service_b.Profiling.{
  Calendar, pseudonymize_subject, assert_no_raw_pii, not_pseudonymized, resolve_profile,
}
use enterprise_mcp_service_b.Profiling.Governed.{six, resolve_profile_lem}
use enterprise_mcp_service_b.Redaction.{Patterns, redaction_mark, redact_mapping}
use enterprise_mcp_service_b.Redaction.Cleaned.{CleanFields, redact_mapping-Clean}
use enterprise_mcp_service_b.Domains.{Injective}
use enterprise_mcp_service_b.Domains.Finance.{fresh_server, payment_create}
use enterprise_mcp_service_b.Domains.Finance.Payments.{
  executes, is_execution_of, perform_all, IsHeld, payment_lem,
}
use enterprise_mcp_service_b.Examples.Samples.{rt}

abbrev nba : NbaDecision
nba = record {
  decision_id = "dec-1";
  action = "crm.read";
  capability_version = "1.0.0";
  subject_ref = "subject:1";
  channel = "app";
  agent = "sales";
  reason_codes = [];
  policy_context = end;
  expires_at = 9;
}

abbrev sales_credentials : AgentClientCredentials
sales_credentials = record {
  client_id = "sales";
  client_secret = "s3";
  token_endpoint = "http://idp";
}

abbrev credentials : Dict AgentClientCredentials
credentials = ("sales", sales_credentials) ∷ []

abbrev post : TokenEndpoint
post c = answered (obj (field "access_token" (str ("token of " <> c.client_id)) end))

abbrev reply : CallToolResult
reply = record { is_error = false; structured_content = some end; content = [] }

abbrev session : Session
session bearer tool arguments = tool_result reply

abbrev full_context : Fields
full_context =
    field "customer_id" (str "cust-001") (field "history" (str "everything that was said") end)

abbrev dispatched : DispatchResult
dispatched = record {
  decision_id = "dec-1";
  action = "crm.read";
  status = allowed;
  structured_content = some end;
  error_text = none;
}

handed_off :
    execute_handoff
      (build_handoff_payload nba "finance" full_context ("customer_id" ∷ []))
      nba
      (dispatch rt credentials post session)
    ≡ ok dispatched
unfolding execute_handoff build_handoff_payload carried dispatch token_for get get_field
handed_off = refl

handoff_lem_example :
    (arguments : Fields) × Dispatched rt credentials post session nba arguments dispatched
    × ((k : String)
        → get_field arguments k
          ≡ (if contains k ("customer_id" ∷ []) then get_field full_context k else none))
handoff_lem_example =
    handoff_lem rt credentials post session nba "finance" full_context ("customer_id" ∷ [])
      dispatched handed_off

abbrev turn_of : String → String → Exec ℕ SupervisorError String
turn_of name message n = (ok (name <> " answers"), n + 1)

abbrev backends : Backends ℕ String
backends = ("sales_agent", turn_of "sales") ∷ ("finance_agent", turn_of "finance") ∷ []

finance_by_keyword : keyword_router none "Please PAY it" ≡ some "finance_agent"
unfolding keyword_router first_route
finance_by_keyword = refl

abbrev hashing : Runtime
hashing = record rt { sha256 = λ text. "7f31c2d4" }

abbrev calendar : Calendar
calendar = record {
  isocalendar = λ as_of. (2026, 5);
  year_text = λ year. "2026";
  two_digits = λ week. "05";
  hundredths_text = λ n. "0.5";
}

resolve_profile_lem_example :
    ((view : ProfileView) × (resolve_profile calendar hashing 24 "user 7" 7 ≡ ok view)
      × (view.subject_ref ≡ "user 7")
      × (view.expires_at ≡ 7 + 24)
      × (assert_no_raw_pii view
          ≡ (if starts_with "user 7" "subject:" then ok tt else err (not_pseudonymized "user 7"))))
    × ((raw : String) → starts_with (pseudonymize_subject hashing raw) "subject:" ≡ true)
resolve_profile_lem_example = resolve_profile_lem hashing calendar "user 7" 7 24 (λ text.
    six 55 102 51 49 99 50 _ (inl (omega arith)) (inr (omega arith)) (inl (omega arith))
      (inl (omega arith)) (inr (omega arith)) (inl (omega arith)))

abbrev patterns : Patterns
patterns = record {
  sub_email = λ text. text;
  sub_cpf = λ text. text;
  sub_phone = λ text. redaction_mark;
}

abbrev traced : Fields
traced =
    field "note" (str "call +55 11 91234-5678")
      (field "api_token" (int (pos 3)) (field "items" (arr (cons (str "x") nil)) end))

redact_mapping-Clean_example : CleanFields patterns traced (redact_mapping patterns traced)
redact_mapping-Clean_example = redact_mapping-Clean patterns traced (tt, (tt, ((tt, tt), tt)))

-- A numbering whose texts differ
tally : ℕ → String
tally zero = ""
tally (suc n) = String.◌∷◌ "|" (tally n)

length-tally : (n : ℕ) → length (codes (tally n)) ≡ n
unfolding tally
length-tally zero = refl
length-tally (suc n) = ap suc (length-tally n)

tally-Injective : Injective tally
tally-Injective a b e = omega (arith, length-tally a, length-tally b, ap (λ t. length (codes t)) e)

payment_lem_example :
    (id : String) × (get_field
        (payment_create tally "inv-001" (int (pos 5000)) fresh_server).0
        "payment_id"
      ≡ some (str id))
    × IsHeld tally id "inv-001"
        (if any (is_execution_of id) (executes "pay-|" (int (pos 5000)) ∷ [])
          then "executed"
          else "draft")
        (perform_all tally
          (executes "pay-|" (int (pos 5000)) ∷ [])
          (payment_create tally "inv-001" (int (pos 5000)) fresh_server).1)
payment_lem_example =
    payment_lem tally tally-Injective "inv-001" (int (pos 5000))
      (executes "pay-|" (int (pos 5000)) ∷ []) fresh_server
