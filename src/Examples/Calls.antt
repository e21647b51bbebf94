-- ===== src/Examples/Calls.antt =====
-- The handlers of the Gateway on concrete requests.
use enterprise_mcp_service_b.Base.{◌==◌, Bool, true, false, Result}
use enterprise_mcp_service_b.Json.{HttpReply, answered, bool, obj, field, end}
use enterprise_mcp_service_b.Audit.Events.{emit}
use enterprise_mcp_service_b.Approval.{
  grant, check_and_consume, consume_first, request, pending_for_operation, compute_operation_hash,
}
use enterprise_mcp_service_b.Fabric.{route, active_manifest, find_named}
use enterprise_mcp_service_b.Examples.Samples.{result}
use enterprise_mcp_service_b.Gateway.{
  Gateway, GatewayError, ToolResult, denied, enforce, with_approval, ask_approval, dispatch,
  emit_audit,
}
use mathlib.Core.List.{[], ◌∷◌, ◌++◌}
use enterprise_mcp_service_b.Base.{
  String, ◌≡◌, refl, ◌⊎◌, inl, false, none, some, ok, err, get, put, values,
}
use enterprise_mcp_service_b.Base.Sort.{sort_by, insert}
use enterprise_mcp_service_b.Json.{Json, http_error, null, pos, get_field}
use enterprise_mcp_service_b.Identity.{AccessToken}
use enterprise_mcp_service_b.Registry.Store.{upsert, fetch, list_active}
use enterprise_mcp_service_b.Registry.Store.Rows.{IsConsistent, upsert-IsConsistent}
use enterprise_mcp_service_b.Registry.Pipeline.Governance.{empty-IsSound}
use enterprise_mcp_service_b.Downstream.{credential_for}
use enterprise_mcp_service_b.Pdp.{evaluate, query, query_bool, allow}
use enterprise_mcp_service_b.Entitlement.{EntitlementError, ResolvedEntitlement, resolve}
use enterprise_mcp_service_b.Fabric.{
  distinct_backends_for, sorted_names, services, active_capabilities_for,
}
use enterprise_mcp_service_b.Gateway.{World, on_call_tool}
use enterprise_mcp_service_b.Gateway.Addressing.{Kept, Forwarded, Addressed}
use enterprise_mcp_service_b.Gateway.Forwarding.{Authorised, sent_only_if}
use enterprise_mcp_service_b.Gateway.Outcomes.{answer_of, sent_if}
use enterprise_mcp_service_b.Gateway.FailClosed.{Inert, fails_closed}
use enterprise_mcp_service_b.Gateway.Sinks.{observed, SameButLog, sink_indifferent}
use enterprise_mcp_service_b.Gateway.Listing.{
  Tool, ListResult, Catalogues, tools, tools_list_cache_hint, gather, on_list_tools,
}
use enterprise_mcp_service_b.Gateway.Listing.Visible.{Entitled, visible_only_if}
use enterprise_mcp_service_b.Examples.Samples.{
  rt, registry, live, stamp, world, params, gateway, sent, access, resolved, credential, opa_down,
}

registry-IsConsistent : IsConsistent registry
registry-IsConsistent = upsert-IsConsistent live [] (empty-IsSound.consistent)

authorised : Authorised rt world params resolved gateway
unfolding evaluate query query_bool get_field
authorised =
    (record { outcome = allow; policy_version = "v1"; reason_code = "ALLOWED" }, refl, inl refl)

addressed : Addressed rt world params gateway sent
unfolding fetch upsert put get credential_for
addressed = (live, credential, (refl, refl, refl), refl, refl, refl)

resolves : (resolve rt access.client_id gateway.manager).0 ≡ ok resolved
unfolding resolve get
resolves = refl

-- The sample request gets the backend's result, by way of one call with the backend's token.
sent_if_example :
    ((on_call_tool rt world params gateway).0 ≡ answer_of (world.call sent))
    × ((on_call_tool rt world params gateway).1.sent ≡ [] ++ sent ∷ [])
sent_if_example =
    sent_if rt world params gateway access resolved sent registry-IsConsistent refl resolves
      authorised addressed

sent_only_if_example :
    Kept rt world params gateway (on_call_tool rt world params gateway)
    ⊎ ((token : AccessToken) × (r : ResolvedEntitlement) × (world.access ≡ some token)
        × ((resolve rt token.client_id gateway.manager).0 ≡ ok r)
        × Authorised rt world params r gateway
        × Forwarded rt world params gateway (on_call_tool rt world params gateway))
sent_only_if_example = sent_only_if rt world params gateway registry-IsConsistent

abbrev offline : World
offline = record world { opa = opa_down }

fails_closed_example :
    (offline.access ≡ none
      → Inert rt offline params "UNAUTHENTICATED" gateway (on_call_tool rt offline params gateway))
    × (((path : String) (body : Json) → offline.opa path body ≡ http_error)
        → (reason : String) × Inert rt offline params reason gateway
            (on_call_tool rt offline params gateway))
    × ((token : AccessToken) (e : EntitlementError)
        → offline.access ≡ some token
        → (resolve rt token.client_id gateway.manager).0 ≡ err e
        → Inert rt offline params "UNKNOWN_CLIENT" gateway (on_call_tool rt offline params gateway))
fails_closed_example = fails_closed rt offline params gateway

sink_indifferent_example :
    SameButLog
      (on_call_tool rt world params gateway)
      (on_call_tool rt (observed false stamp world) params gateway)
sink_indifferent_example = sink_indifferent rt world params false stamp gateway

abbrev reading : Tool
reading = record { name = "crm.read"; definition = null }

abbrev writing : Tool
writing = record { name = "crm.write"; definition = null }

abbrev catalogues : Catalogues
catalogues url token = tools (reading ∷ writing ∷ [])

abbrev listed : ListResult
listed = record {
  tools = reading ∷ [];
  hint = some (record { ttl_ms = pos 5_000; scope = "private" });
}

-- Of the two tools of the backend the client sees the one it is entitled to.
listing : (on_list_tools rt world world catalogues gateway).0 ≡ ok listed
unfolding on_list_tools resolve get gather distinct_backends_for sorted_names services
    active_capabilities_for list_active upsert put credential_for tools_list_cache_hint values
    sort_by insert
listing = refl

visible_only_if_example :
    (token : AccessToken) × (r : ResolvedEntitlement) × (world.access ≡ some token)
    × ((resolve rt token.client_id gateway.manager).0 ≡ ok r)
    × Entitled rt world world catalogues gateway r reading
visible_only_if_example =
    visible_only_if rt world world catalogues gateway listed reading listing (inl refl)

-- OPA wants an approval for the transaction.
abbrev asks : Bool → HttpReply
asks true = answered (obj (field "result" (bool true) end))
asks false = answered (
    obj (
      field "result" (obj (field "allow" (bool true) (field "require_approval" (bool true) end)))
        end))

abbrev careful : World
careful = record world { opa = λ path body. asks (path == "/v1/data/emcp/entitlement/allow") }

abbrev first : Result GatewayError ToolResult × Gateway
first = on_call_tool rt careful params gateway

abbrev approved : Gateway
approved = record first.1 { approvals = (grant rt stamp true "a1" first.1.approvals).1 }

abbrev second : Result GatewayError ToolResult × Gateway
second = on_call_tool rt careful params approved

abbrev third : Result GatewayError ToolResult × Gateway
third = on_call_tool rt (record careful { approval_id = "a2" }) params second.1

-- The first attempt is denied and asks for an approval; after its grant the second is sent; the third
-- is denied again, since the approval was for one attempt.
retries :
    (first.0 ≡ ok (denied "REQUIRE_APPROVAL:APPROVAL_THRESHOLD_EXCEEDED:a1"))
    × (second.0 ≡ ok result)
    × (second.1.sent ≡ sent ∷ [])
    × (third.0 ≡ ok (denied "REQUIRE_APPROVAL:APPROVAL_THRESHOLD_EXCEEDED:a2"))
    × (third.1.sent ≡ sent ∷ [])
unfolding on_call_tool enforce evaluate query query_bool get_field resolve get put with_approval
    check_and_consume consume_first ask_approval request pending_for_operation dispatch route
    active_manifest find_named list_active values sort_by insert upsert credential_for grant emit
    emit_audit compute_operation_hash
retries = (refl, refl, refl, refl, refl)
