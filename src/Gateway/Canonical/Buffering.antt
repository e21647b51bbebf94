-- ===== src/Gateway/Canonical/Buffering.antt =====
-- What the gate answers and passes on.
use mathlib.Core.List.{List}
use enterprise_mcp_service_b.Base.{String, ◌≡◌, ◌≢◌, Option, none, some, ◌⊎◌}
use enterprise_mcp_service_b.Json.{Runtime}
use enterprise_mcp_service_b.Gateway.Canonical.{
  Inbound, Loaded, unicode_decode_error, find_header_body_mismatch, Message, Scope, header,
  answer_check, GateAnswer, replayed, bad_request, raised,
}
use enterprise_mcp_service_b.Gateway.Canonical.Agreement.{Disagree}

module _ (rt : Runtime) (inbound : Inbound) (loads : String → Loaded) (scope : Scope) where
  abbrev method_value : Option String
  method_value = header inbound.method_header scope.headers

  abbrev name_value : Option String
  name_value = header inbound.name_header scope.headers

  -- Another scope than of HTTP, another method than POST, or a request with neither of the two headers
  abbrev pub Unchecked : Type 0
  Unchecked =
      (scope.type ≢ "http")
      ⊎ ((scope.method ≢ some "POST") ⊎ ((method_value ≡ none) × (name_value ≡ none)))

  -- What the gate answers on a body that it read in the messages `buffered`
  abbrev pub Judged : List Message → String → GateAnswer → Type 0
  Judged buffered body a =
      ((a ≡ replayed buffered) × ¬ Disagree rt inbound loads body method_value name_value)
      ⊎ (((d : String) × (a ≡ bad_request d)
            × Disagree rt inbound loads body method_value name_value)
          ⊎ ((a ≡ raised) × (loads body ≡ unicode_decode_error)))

  abbrev read_out : Option (List Message × String) → Option GateAnswer
  read_out answer = elim answer [
    | none ↦ none
    | some (b, body) ↦ some (
        answer_check rt inbound loads b
          (find_header_body_mismatch rt inbound loads body method_value name_value))
  ]
