-- ===== src/Orchestrator/Journey.antt =====
-- RI/src/emcp_bus/orchestrator/graph.py, state.py and hitl_node.py: the nodes of the journey graph,
-- and a run of the graph along its edges. LangGraph's checkpoints are the state that a run takes and
-- gives; `interrupt` is the pause. The offerings that `list_active` gives and the profile provider are
-- arguments.
pub mod Exclusion
pub mod Needs
pub mod Fresh
pub mod Endings
use mathlib.Core.List.{List, [], ◌∷◌, ◌++◌}
use enterprise_mcp_service_b.Base.{
  ℕ, String, Bool, true, false, not, Option, none, some, Result, ok, err, ◌==◌, ◌>>=◌,
  if◌then◌else◌, str_leb, select, contains, is_some,
}
use enterprise_mcp_service_b.Base.Sort.{sort_by}
use enterprise_mcp_service_b.Risk.{RiskTier}
use enterprise_mcp_service_b.Json.{Runtime}
use enterprise_mcp_service_b.Registry.Models.{CapabilityManifest}
use enterprise_mcp_service_b.Audit.Events.{AuditLog}
use enterprise_mcp_service_b.Entitlement.{
  EntitlementManager, EntitlementError, ResolvedEntitlement, resolve,
}
use enterprise_mcp_service_b.Offering.{ConsentContext, filtered_offerings}
use enterprise_mcp_service_b.Orchestrator.{
  ProfileView, DecisionContext, NbaDecision, NbaDecisionModel, DenialOutcome, FallbackResult, Sink,
  handle_denial, requires_approval,
}

-- `JourneyState`: a key that is not set yet is `none`, or what `state.get` gives for it.
pub record JourneyState : Type 0 where
  pub client_id : String
  pub raw_subject_id : String
  pub channel : String
  pub profile : Option ProfileView
  pub allowed_tools : Option (List String)
  pub entitlement_version : Option String
  pub risk_ceiling : Option RiskTier
  pub filtered_offerings : Option (List CapabilityManifest)
  pub nba : Option NbaDecision
  pub nba_requires_approval : Bool
  pub approval_status : Option String
  pub denied_action : Option String
  pub excluded_actions : List String
  pub denial_outcome : Option DenialOutcome

pub data JourneyError : Type 0 where
  key_error : String → JourneyError
  profile_failed : String → JourneyError
  unknown_client : EntitlementError → JourneyError
  assertion_failed : JourneyError
  sink_failed : String → JourneyError

-- The arguments of `build_journey_graph`, and the clock.
pub record Services : Type 0 where
  pub profile_provider : String → Result String ProfileView
  pub active : List CapabilityManifest
  pub consent_context : ConsentContext
  pub decision_model : NbaDecisionModel
  pub sink : Sink
  pub now : ℕ

-- The objects that the nodes change.
pub record Platform : Type 0 where
  pub manager : EntitlementManager
  pub log : AuditLog

-- `state[key]`
abbrev pub want : {A : Type 0} → String → Option A → Result JourneyError A
want key none = err (key_error key)
want key (some a) = ok a

-- A run ends, or it is paused at the approval gate.
pub data Progress : Type 0 where
  finished : JourneyState → Progress
  paused : JourneyState → Progress

-- `[o for o in offerings if o.name not in exclude]`
abbrev pub except : List String → List CapabilityManifest → List CapabilityManifest
except exclude offerings = select (λ o. not (contains o.name exclude)) offerings

abbrev pub needed : List CapabilityManifest → Option NbaDecision → Bool
needed offerings none = false
needed offerings (some nba) = requires_approval offerings nba.action

module _ (rt : Runtime) (s : Services) where
  -- `_decision_context_from_state`
  unfoldable pub decision_context_from_state :
      JourneyState → List String → Result JourneyError DecisionContext
  decision_context_from_state st exclude = do
    offerings ← want "filtered_offerings" st.filtered_offerings
    entitlement_version ← want "entitlement_version" st.entitlement_version
    risk_ceiling ← want "risk_ceiling" st.risk_ceiling
    allowed_tools ← want "allowed_tools" st.allowed_tools
    profile ← want "profile" st.profile
    ok (record {
      client_id = st.client_id;
      entitlement_version = entitlement_version;
      risk_ceiling = risk_ceiling;
      allowed_tools = allowed_tools;
      profile = profile;
      filtered_offerings = except exclude offerings;
      runtime_context = record { channel = st.channel; consent_purposes = [] };
      resolved_at = s.now;
    })

  unfoldable pub resolve_profile_node : JourneyState → Result JourneyError JourneyState
  resolve_profile_node st = elim (s.profile_provider st.raw_subject_id) [
    | err e ↦ err (profile_failed e)
    | ok profile ↦ ok (record st { profile = some profile })
  ]

  abbrev pub entitle : JourneyState → ResolvedEntitlement → JourneyState
  entitle st resolved = record st {
    allowed_tools = some (sort_by str_leb resolved.allowed_tools);
    entitlement_version = some resolved.entitlement_version;
    risk_ceiling = some resolved.risk_ceiling;
  }

  abbrev pub entitled_state :
      JourneyState
      → Platform
      → Result EntitlementError ResolvedEntitlement × EntitlementManager
      → Result JourneyError JourneyState × Platform
  entitled_state st p (ok resolved, m) = (ok (entitle st resolved), record p { manager = m })
  entitled_state st p (err e, m) = (err (unknown_client e), record p { manager = m })

  unfoldable pub resolve_entitlement_node :
      JourneyState → Platform → Result JourneyError JourneyState × Platform
  resolve_entitlement_node st p = entitled_state st p (resolve rt st.client_id p.manager)

  unfoldable pub filter_offerings_node : JourneyState → Result JourneyError JourneyState
  filter_offerings_node st = do
    allowed_tools ← want "allowed_tools" st.allowed_tools
    ok (record st {
      filtered_offerings = some (filtered_offerings s.active allowed_tools s.consent_context);
    })

  unfoldable pub decide_nba_node : JourneyState → Result JourneyError JourneyState
  decide_nba_node st = do
    context ← decision_context_from_state st st.excluded_actions
    ok (record st {
      nba = s.decision_model context;
      nba_requires_approval = needed context.filtered_offerings (s.decision_model context);
    })

  abbrev pub after_denial :
      JourneyState
      → DecisionContext
      → String
      → Platform
      → Result String FallbackResult × AuditLog
      → Result JourneyError JourneyState × Platform
  after_denial st context denied_action p (err e, log) =
      (err (sink_failed e), record p { log = log })
  after_denial st context denied_action p (ok result, log) = (
    ok (record st {
      nba = result.nba;
      nba_requires_approval = needed context.filtered_offerings result.nba;
      excluded_actions = st.excluded_actions ++ denied_action ∷ [];
      denial_outcome = some result.outcome;
      denied_action = none;
    }),
    record p { log = log },
  )

  -- The names excluded before come from a set; a list of them is enough, since only membership
  -- counts.
  unfoldable pub handle_denial_node :
      JourneyState → Platform → Result JourneyError JourneyState × Platform
  handle_denial_node st p = elim st.denied_action [
    | none ↦ (err assertion_failed, p)
    | some denied_action ↦ elim (decision_context_from_state st st.excluded_actions) [
      | err e ↦ (err e, p)
      | ok context ↦
          after_denial st context denied_action p
            (handle_denial rt s.sink context denied_action s.decision_model p.log)
    ]
  ]

  abbrev pub gate : JourneyState → Option NbaDecision → Progress
  gate st none = finished (record st { approval_status = some "not_applicable" })
  gate st (some nba) =
      if st.nba_requires_approval
      then paused st
      else finished (record st { approval_status = some "not_required" })

  -- `approval_gate_node`, up to its interrupt
  unfoldable pub approval_gate_node : JourneyState → Progress
  approval_gate_node st = gate st st.nba

  -- `Command(resume=answer)`
  unfoldable pub resume : String → JourneyState → JourneyState
  resume answer st = record st {
    approval_status = some (if answer == "approved" then "approved" else "denied");
  }

  abbrev pub offer :
      Result JourneyError JourneyState × Platform → Result JourneyError Progress × Platform
  offer (err e, p) = (err e, p)
  offer (ok st, p) = (
    (do
      filtered ← filter_offerings_node st
      decided ← decide_nba_node filtered
      ok (approval_gate_node decided)),
    p,
  )

  -- The edges from "fresh" on
  unfoldable pub run_fresh : JourneyState → Platform → Result JourneyError Progress × Platform
  run_fresh st p = elim (resolve_profile_node st) [
    | err e ↦ (err e, p)
    | ok profiled ↦ offer (resolve_entitlement_node profiled p)
  ]

  -- `route_after_denial`
  abbrev pub gate_denial : JourneyState → Progress
  gate_denial st = if is_some st.nba then approval_gate_node st else finished st

  abbrev gate_result :
      Result JourneyError JourneyState × Platform → Result JourneyError Progress × Platform
  gate_result (err e, p) = (err e, p)
  gate_result (ok st, p) = (ok (gate_denial st), p)

  unfoldable pub run_denial : JourneyState → Platform → Result JourneyError Progress × Platform
  run_denial st p = gate_result (handle_denial_node st p)

  -- `route_entry`
  abbrev is_reentry : Option String → Bool
  is_reentry none = false
  is_reentry (some action) = not (action == "")

  unfoldable pub invoke : JourneyState → Platform → Result JourneyError Progress × Platform
  invoke st p = if is_reentry st.denied_action then run_denial st p else run_fresh st p
