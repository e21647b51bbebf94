-- ===== src/Examples/Journeys.antt =====
-- The orchestrator on two offerings.
use mathlib.Core.List.{[], ◌∷◌}
use enterprise_mcp_service_b.Base.{
  ◌≤◌, ◌≡◌, refl, ◌↔◌, true, false, none, some, some_inj, ok, inl, inr, subst, Member, contains,
  length, get,
}
use enterprise_mcp_service_b.Risk.{r1, r2, order, tier_value}
use enterprise_mcp_service_b.Registry.Models.{CapabilityManifest}
use enterprise_mcp_service_b.Orchestrator.{
  ProfileView, DecisionContext, NbaDecision, FallbackResult, recalculated, Sink, requires_approval,
  decide, handle_denial, key_ltb, min_by_key, decision_for, narrowed,
}
use enterprise_mcp_service_b.Orchestrator.Choice.{decide_lem}
use enterprise_mcp_service_b.Orchestrator.Denial.{decide-IsSelective}
use enterprise_mcp_service_b.Base.Sort.{sort_by, insert}
use enterprise_mcp_service_b.Entitlement.{ResolvedEntitlement, resolve}
use enterprise_mcp_service_b.Offering.{filtered_offerings, matches_context}
use enterprise_mcp_service_b.Orchestrator.Journey.{
  JourneyState, Services, Platform, Progress, finished, decision_context_from_state,
  handle_denial_node, run_fresh, resolve_profile_node, resolve_entitlement_node,
  filter_offerings_node, decide_nba_node, approval_gate_node,
}
use enterprise_mcp_service_b.Orchestrator.Journey.Fresh.{Ends, fresh_lem}
use enterprise_mcp_service_b.Orchestrator.Journey.Exclusion.{Moved, denials_exclude}
use enterprise_mcp_service_b.Orchestrator.Journey.Endings.{Offered, denied, stop, denials_run_out}
use enterprise_mcp_service_b.Examples.Samples.{rt, live, stamp, manager, resolved}

abbrev other : CapabilityManifest
other = record live { name = "crm.update"; risk_tier = r2 }

abbrev profile : ProfileView
profile = record {
  subject_ref = "subject:1";
  profile_version = "1";
  segments = [];
  attributes = [];
  reason_codes = [];
  expires_at = 9;
}

abbrev context : DecisionContext
context = record {
  client_id = "agent";
  entitlement_version = "v1";
  risk_ceiling = r2;
  allowed_tools = "crm.read" ∷ "crm.update" ∷ [];
  profile = profile;
  filtered_offerings = other ∷ live ∷ [];
  runtime_context = record { channel = "chat"; consent_purposes = [] };
  resolved_at = 1;
}

abbrev sink : Sink
sink = record { audited = true; works = true; stamp = stamp }

-- Of the two offerings the one at the lower tier
picks_live : decide "abc" 1 context ≡ some (decision_for "abc" 1 context live)
unfolding decide min_by_key key_ltb tier_value
picks_live = refl

decide_lem_example :
    ((nba : NbaDecision)
      → decide "abc" 1 context ≡ some nba
      → (m : CapabilityManifest) × Member m context.filtered_offerings
        × (nba.action ≡ m.name)
        × (nba.capability_version ≡ m.version)
        × (nba.subject_ref ≡ context.profile.subject_ref)
        × (nba.channel ≡ context.runtime_context.channel)
        × ((o : CapabilityManifest)
            → Member o context.filtered_offerings
            → order m.risk_tier ≤ order o.risk_tier))
    × ((decide "abc" 1 context ≡ none) ↔ (context.filtered_offerings ≡ []))
decide_lem_example = decide_lem "abc" 1 context

abbrev after : FallbackResult
after = record {
  outcome = recalculated;
  nba = some (decision_for "abc" 1 (narrowed (other ∷ []) context) other);
}

denied_once : (handle_denial rt sink context "crm.read" (decide "abc" 1) []).0 ≡ ok after
unfolding handle_denial decide min_by_key
denied_once = refl

abbrev journey_services : Services
journey_services = record {
  profile_provider = λ subject. ok profile;
  active = other ∷ live ∷ [];
  consent_context = record { allow_restricted_data = false };
  decision_model = decide "abc" 1;
  sink = sink;
  now = 1;
}

abbrev denied_state : JourneyState
denied_state = record {
  client_id = "agent";
  raw_subject_id = "1";
  channel = "chat";
  profile = some profile;
  allowed_tools = some ("crm.read" ∷ "crm.update" ∷ []);
  entitlement_version = some "v1";
  risk_ceiling = some r2;
  filtered_offerings = some (other ∷ live ∷ []);
  nba = none;
  nba_requires_approval = false;
  approval_status = none;
  denied_action = some "crm.read";
  excluded_actions = [];
  denial_outcome = none;
}

abbrev platform : Platform
platform = record { manager = manager; log = [] }

abbrev moved_state : JourneyState
moved_state = record denied_state {
  nba = after.nba;
  excluded_actions = "crm.read" ∷ [];
  denial_outcome = some recalculated;
  denied_action = none;
}

moves : (handle_denial_node rt journey_services denied_state platform).0 ≡ ok moved_state
unfolding handle_denial_node decision_context_from_state handle_denial decide min_by_key
    requires_approval
moves = refl

denials_exclude_example : Moved rt journey_services denied_state moved_state
denials_exclude_example =
    denials_exclude rt journey_services denied_state moved_state platform
      (decide-IsSelective "abc" 1) moves

-- The journey before that denial: its decision is for `crm.read`.
abbrev proposing_state : JourneyState
proposing_state = record denied_state {
  nba = some (decision_for "abc" 1 context live);
  denied_action = none;
}

offered : Offered rt journey_services proposing_state (other ∷ live ∷ [])
offered nba e =
    subst
      (λ (n : NbaDecision).
        (contains n.action [] ≡ false)
        × ((m : CapabilityManifest) × Member m (other ∷ live ∷ []) × (n.action ≡ m.name)))
      (some_inj e) (refl, (live, inr (inl refl), refl))

moves_on :
    (handle_denial_node rt journey_services
      (record proposing_state { denied_action = some "crm.read" })
      platform).0
    ≡ ok moved_state
unfolding handle_denial_node decision_context_from_state handle_denial decide min_by_key
    requires_approval
moves_on = refl

denials_run_out_example : 1 ≤ length (other ∷ live ∷ [])
denials_run_out_example =
    denials_run_out rt journey_services (other ∷ live ∷ []) proposing_state 1
      (decide-IsSelective "abc" 1) refl offered
      (denied proposing_state moved_state (decision_for "abc" 1 context live) platform 0 refl
        moves_on (stop moved_state))

abbrev start_state : JourneyState
start_state = record denied_state {
  profile = none;
  allowed_tools = none;
  entitlement_version = none;
  risk_ceiling = none;
  filtered_offerings = none;
  denied_action = none;
}

-- The client is entitled to one of the two active capabilities.
abbrev run_end : Progress
run_end = finished (record start_state {
  profile = some profile;
  allowed_tools = some ("crm.read" ∷ []);
  entitlement_version = some resolved.entitlement_version;
  risk_ceiling = some r1;
  filtered_offerings = some (live ∷ []);
  nba = some (
      decision_for "abc" 1 (record context { entitlement_version = resolved.entitlement_version })
        live);
  approval_status = some "not_required";
})

runs : (run_fresh rt journey_services start_state platform).0 ≡ ok run_end
unfolding run_fresh resolve_profile_node resolve_entitlement_node filter_offerings_node
    decide_nba_node approval_gate_node decision_context_from_state decide min_by_key
    requires_approval resolve get filtered_offerings matches_context sort_by insert
runs = refl

fresh_lem_example :
    (r : ResolvedEntitlement) × (decided : JourneyState) × ((resolve rt start_state.client_id
        platform.manager).0
      ≡ ok r)
    × Ends rt journey_services start_state r decided run_end
fresh_lem_example =
    fresh_lem rt journey_services start_state platform run_end (decide-IsSelective "abc" 1) runs
