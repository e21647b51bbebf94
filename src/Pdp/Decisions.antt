-- ===== src/Pdp/Decisions.antt =====
-- When the policy decision point allows, denies, asks for approval, or is unavailable.
use enterprise_mcp_service_b.Base.{
  String, ◌≡◌, ◌⊎◌, inl, inr, Bool, true, Option, Result, ok, err, arith, ◌>>=◌, if◌then◌else◌, not,
}
use enterprise_mcp_service_b.Json.{Fields, obj, field, end, http_error}
use enterprise_mcp_service_b.Pdp.{
  Opa, PdpDecision, PdpError, deny, query, query_bool, evaluate, flag, decide, entitlement_input,
  transaction_input, pdp_unavailable,
}

-- What `evaluate` makes of the results of the two queries.
abbrev combine :
    String → Result PdpError Bool → Result PdpError Fields → Result PdpError PdpDecision
combine policy_version e t = e >>= λ entitled.
    if not entitled
    then ok (record {
      outcome = deny;
      policy_version = policy_version;
      reason_code = "NOT_IN_ENTITLEMENT";
    })
    else t >>= λ result. ok (decide policy_version result)

-- Both queries were answered, the truth of the first result and of `allow` in the second is true, and
-- that of `require_approval` is as given.
abbrev pub Granted : Bool → Result PdpError Bool → Result PdpError Fields → Type 0
Granted approval e t =
    (e ≡ ok true)
    × ((result : Fields) × (t ≡ ok result)
        × (flag result "allow" ≡ true)
        × (flag result "require_approval" ≡ approval))

module _ (opa : Opa) (policy_version client_profile tool : String) (arguments : Fields)
    (classification : Option String) where
  abbrev pub entitlement : Result PdpError Bool
  entitlement =
      query_bool opa "/v1/data/emcp/entitlement/allow" (entitlement_input client_profile tool)

  abbrev pub transaction : Result PdpError Fields
  transaction =
      query opa "/v1/data/emcp/transaction"
        (transaction_input client_profile tool arguments classification)

  abbrev pub evaluated : Result PdpError PdpDecision
  evaluated = evaluate opa policy_version client_profile tool arguments classification

  -- Where a query that `evaluate` makes comes back with an HTTP error, it raises
  -- PDPUnavailableError: the first query always, the second where the tool is entitled.
  pub unavailable :
      (opa "/v1/data/emcp/entitlement/allow"
            (obj (field "input" (obj (entitlement_input client_profile tool)) end))
          ≡ http_error)
        ⊎ ((entitlement ≡ ok true)
            × (opa "/v1/data/emcp/transaction" (
                  obj (
                    field "input"
                      (obj (transaction_input client_profile tool arguments classification))
                      end))
                ≡ http_error))
      → (reason : String) × (evaluated ≡ err (pdp_unavailable reason))
  unfolding evaluate query query_bool
  unavailable (inl h) = ("PDP query failed", rw h)
  unavailable (inr (e, h)) = ("PDP query failed", ground (arith, e, h))
