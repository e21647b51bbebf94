-- ===== src/Examples/Edges.antt =====
-- Identity, audit, the gates and the offerings on concrete inputs.
use mathlib.Core.List.{List, [], ◌∷◌}
use enterprise_mcp_service_b.Base.{
  String, ◌≡◌, refl, ◌⊎◌, ◌↔◌, true, false, none, some, ok, has_marker,
}
use enterprise_mcp_service_b.Json.{Fields, end, field, str, int, pos, obj, get_field}
use enterprise_mcp_service_b.Identity.{AccessToken, claims, validate, verify_token}
use enterprise_mcp_service_b.Identity.Claims.{Names, verify_token-Names}
use enterprise_mcp_service_b.Audit.Sanitize.{EventEnvelope, ic, is_sensitive, model_post_init}
use enterprise_mcp_service_b.Audit.Sanitize.Secrecy.{
  MaskedFields, secret_field, open_field, same, no_fields, event_hides_secrets,
}
use enterprise_mcp_service_b.Audit.Bypass.{
  BackendCredentialGate, passed_on, extract_bearer_token, is_ascii, gate_call,
}
use enterprise_mcp_service_b.Audit.Bypass.Refusal.{passed_on_iff}
use enterprise_mcp_service_b.Offering.{ConsentContext}
use enterprise_mcp_service_b.Gateway.Canonical.{
  text_field, Inbound, Loaded, value, mismatch, find_header_body_mismatch, Message, Scope, gate,
  bad_request, buffer, header,
}
use enterprise_mcp_service_b.Gateway.Canonical.Agreement.{Disagree, mismatch_iff}
use enterprise_mcp_service_b.Examples.Samples.{rt, stamp}

abbrev token_claims : Fields
token_claims = field "azp" (str "agent") (field "iss" (str "idp") (field "exp" (int (pos 99)) end))

abbrev verified : AccessToken
verified = record {
  token = "jwt";
  client_id = "agent";
  scopes = [];
  expires_at = pos 99;
  resource = "gateway";
}

accepted : verify_token rt "gateway" "jwt" (claims token_claims) ≡ ok (some verified)
unfolding verify_token validate get_field
accepted = refl

verify_token-Names_example :
    (fs : Fields) × (claims token_claims ≡ claims fs)
    × Names fs verified.client_id
    × (verified.token ≡ "jwt")
    × (verified.resource ≡ "gateway")
verify_token-Names_example =
    verify_token-Names rt "gateway" "jwt" (claims token_claims) verified accepted

abbrev event : EventEnvelope
event = record {
  event_id = "e1";
  event_type = "sample";
  category = ic;
  timestamp = 7;
  client_id = none;
  profile_name = none;
  tool = none;
  reason_code = none;
  decision_id = none;
  policy_decision_id = none;
  entitlement_version = none;
  policy_version = none;
  mcp_request_id = none;
  trace_id = none;
  payload = end;
}

abbrev payload : String → Fields
payload secret = field "Access_Token" (str secret) (field "backend" (str "crm") end)

masked : MaskedFields rt (payload "s3") (payload "other")
unfolding is_sensitive has_marker
masked =
    secret_field "Access_Token" (str "s3") (str "other") refl refl
      (open_field "backend" refl (same (str "crm")) no_fields)

event_hides_secrets_example :
    model_post_init rt (record event { payload = payload "s3" })
    ≡ model_post_init rt (record event { payload = payload "other" })
event_hides_secrets_example = event_hides_secrets rt event (payload "s3") (payload "other") masked

abbrev server_gate : BackendCredentialGate
server_gate = record { expected_token = "s3"; backend = "crm-server"; audited = true }

passed_on_iff_example :
    (((gate_call rt server_gate stamp true true (some "Bearer s3") []).0 ≡ passed_on) ↔ (
      (true ≡ false)
      ⊎ ((extract_bearer_token (some "Bearer s3") ≡ some server_gate.expected_token)
          × (is_ascii server_gate.expected_token ≡ true))))
    × ((gate_call rt server_gate stamp true true (some "Bearer s3") []).0 ≡ passed_on
        → (gate_call rt server_gate stamp true true (some "Bearer s3") []).1 ≡ [])
passed_on_iff_example = passed_on_iff rt server_gate stamp true true (some "Bearer s3") []

abbrev context : ConsentContext
context = record { allow_restricted_data = false }

abbrev inbound : Inbound
inbound = record {
  method_header = "mcp-method";
  name_header = "mcp-name";
  name_bearing_methods = λ m. some "name";
}

abbrev loads : String → Loaded
loads body = value (obj (field "method" (str "tools/call") end))

mismatch_iff_example :
    ((detail : String) × (find_header_body_mismatch rt inbound loads "{}" (some "tools/list") none
        ≡ mismatch detail))
    ↔ Disagree rt inbound loads "{}" (some "tools/list") none
mismatch_iff_example = mismatch_iff rt inbound loads "{}" (some "tools/list") none

abbrev scope : Scope
scope = record { type = "http"; method = some "POST"; headers = ("Mcp-Method", "tools/list") ∷ [] }

abbrev received : List Message
received = record { body = "{"; more_body = true } ∷ record { body = "}"; more_body = false } ∷ []

-- A run: the gate refuses the request, whose header names another method than its body.
refused : (d : String) × (gate rt inbound loads scope received ≡ some (bad_request d))
unfolding gate header buffer find_header_body_mismatch text_field get_field
refused = (_, refl)
