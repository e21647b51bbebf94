-- ===== src/Agent/ModeB.antt =====
-- RI/agents/example_agent/mode_b_orchestrator_driven/: the journey runs once for each client, and one of
-- the decisions is dispatched. A run of the compiled graph and the dispatcher are arguments that act on
-- a state `W`.
use text.Mathlib.Text.{starts_with}
use enterprise_mcp_service_b.Base.{
  ℕ, String, ◌≡◌, refl, sym, Bool, true, Option, none, some, some_inj, List, [], ◌∷◌, Result, ok,
  err, inl, Member, Member-select, Member-of_select, subst, select, ◌<>◌,
}
use enterprise_mcp_service_b.Base.Exec.{Exec, Ensures, Ensures-bind, ◌>>=◌, pure}
use enterprise_mcp_service_b.Json.{Fields}
use enterprise_mcp_service_b.Registry.Models.{CapabilityManifest}
use enterprise_mcp_service_b.Orchestrator.{
  DecisionContext, NbaDecision, NbaDecisionModel, decision_for, min_by_key,
}

-- `DomainRoutingNBADecisionModel.decide`
abbrev pub routed_decision :
    String → ℕ → DecisionContext → List CapabilityManifest → Option NbaDecision
routed_decision hex now context [] = none
routed_decision hex now context (m ∷ ms) =
    some (record (decision_for hex now context (min_by_key m ms)) { agent = context.client_id })

unfoldable pub decide_by_domain : String → ℕ → NbaDecisionModel
decide_by_domain hex now context = routed_decision hex now context context.filtered_offerings

pub record ModeBDecision : Type 0 where
  pub chosen : NbaDecision
  pub considered : List NbaDecision

-- What starts one journey: the thread, and the graph's input.
pub record JourneyStart : Type 0 where
  pub thread_id : String
  pub client_id : String
  pub raw_subject_id : String
  pub channel : String

abbrev pub is_finance : NbaDecision → Bool
is_finance nba = starts_with nba.action "finance."

abbrev first_or : List NbaDecision → NbaDecision → NbaDecision
first_or [] other = other
first_or (nba ∷ rest) other = nba

-- `_combine`
unfoldable pub combine : List NbaDecision → Option NbaDecision
combine [] = none
combine (nba ∷ rest) = some (first_or (select is_finance (nba ∷ rest)) nba)

abbrev with_decision : Option NbaDecision → List NbaDecision → List NbaDecision
with_decision none rest = rest
with_decision (some nba) rest = nba ∷ rest

abbrev pub start_of : String → String → String → JourneyStart
start_of subject_id channel client_id = record {
  thread_id = "mode-b-" <> subject_id <> "-" <> client_id;
  client_id = client_id;
  raw_subject_id = subject_id;
  channel = channel;
}

abbrev pub decision_of : List NbaDecision → Option NbaDecision → Option ModeBDecision
decision_of considered none = none
decision_of considered (some chosen) = some (record { chosen = chosen; considered = considered })

module _ {W : Type 0} (graph : JourneyStart → Exec W String (Option NbaDecision)) where
  -- The loop over the clients
  unfoldable pub candidates : String → String → List String → Exec W String (List NbaDecision)
  candidates subject_id channel [] = pure []
  candidates subject_id channel (client_id ∷ client_ids) = do
    nba ← graph (start_of subject_id channel client_id)
    rest ← candidates subject_id channel client_ids
    pure (with_decision nba rest)

  -- `ModeBOrchestrator.decide`
  unfoldable pub decide_mode_b :
      List String → String → String → Exec W String (Option ModeBDecision)
  unfolding combine
  decide_mode_b client_ids subject_id channel = do
    considered ← candidates subject_id channel client_ids
    pure (decision_of considered (combine considered))

  abbrev dispatched :
      {R : Type 0}
      → (NbaDecision → Fields → Exec W String R)
      → Fields
      → Option ModeBDecision
      → Exec W String (Option R)
  dispatched dispatch arguments none = pure none
  dispatched dispatch arguments (some decision) = do
    result ← dispatch decision.chosen arguments
    pure (some result)

  -- `decide_and_dispatch`
  unfoldable pub decide_and_dispatch :
      {R : Type 0}
      → (NbaDecision → Fields → Exec W String R)
      → List String
      → String
      → String
      → Fields
      → Exec W String (Option R)
  decide_and_dispatch dispatch client_ids subject_id channel arguments = do
    decision ← decide_mode_b client_ids subject_id channel
    dispatched dispatch arguments decision

-- A finance decision is chosen where there is one.
abbrev pub Picked : NbaDecision → List NbaDecision → Type 0
Picked nba considered =
    Member nba considered
    × ((other : NbaDecision)
        → Member other considered
        → is_finance other ≡ true
        → is_finance nba ≡ true)

first_or-Picked :
    (nba : NbaDecision) (rest finance : List NbaDecision)
    → select is_finance (nba ∷ rest) ≡ finance
    → Picked (first_or finance nba) (nba ∷ rest)
first_or-Picked nba rest [] e = (
  inl refl,
  λ other m f. absurd (subst (Member other) e (Member-select is_finance other (nba ∷ rest) m f)),
)
first_or-Picked nba rest (c ∷ cs) e =
    let (there, is) =
      Member-of_select is_finance c (nba ∷ rest) (subst (Member c) (sym e) (inl refl)) in
    (there, λ other m f. is)

combine-Picked :
    (considered : List NbaDecision) (nba : NbaDecision)
    → combine considered ≡ some nba
    → Picked nba considered
unfolding combine
combine-Picked [] nba h = cc
combine-Picked (c ∷ cs) nba h =
    subst (λ n. Picked n (c ∷ cs)) (some_inj h) (first_or-Picked c cs _ refl)

abbrev HasPick : Option ModeBDecision → Type 0
HasPick none = Unit
HasPick (some d) = Picked d.chosen d.considered

decision_of-HasPick :
    (considered : List NbaDecision) (o : Option NbaDecision)
    → combine considered ≡ o
    → HasPick (decision_of considered o)
decision_of-HasPick considered none e = tt
decision_of-HasPick considered (some nba) e = combine-Picked considered nba e

-- What Modo B chooses is one of the decisions of the clients' own journeys, and it is one of the finance
-- domain whenever one of those journeys decided for that domain.
pub decide_mode_b_lem :
    {W : Type 0} (graph : JourneyStart → Exec W String (Option NbaDecision))
    (client_ids : List String) (subject_id channel : String) (w w' : W) (d : ModeBDecision)
    → decide_mode_b graph client_ids subject_id channel w ≡ (ok (some d), w')
    → Member d.chosen d.considered
      × ((other : NbaDecision)
          → Member other d.considered
          → is_finance other ≡ true
          → is_finance d.chosen ≡ true)
unfolding decide_mode_b
decide_mode_b_lem {W} graph client_ids subject_id channel w w' d h =
    subst (Ensures (λ o (_ : W). HasPick o)) h (
      Ensures-bind (λ _ _. Unit {0}) (λ o _. HasPick o)
        (candidates graph subject_id channel client_ids w)
        (λ considered. pure (decision_of considered (combine considered))) (any_run _)
        (λ considered s _. decision_of-HasPick considered (combine considered) refl))
  where
    any_run :
        (p : Result String (List NbaDecision) × W)
        → Ensures (λ (_ : List NbaDecision) (_ : W). Unit {0}) p
    any_run (ok a, s) = tt
    any_run (err e, s) = tt
