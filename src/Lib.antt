-- ===== src/Lib.antt =====
-- The Enterprise MCP Service Bus, RI/src/emcp_bus/ of the repository: a gateway between MCP clients
-- and the MCP servers of business domains. A client's token names the client; the client's profile
-- bounds the tools that it may use; a policy decision point (OPA) decides each call, and may ask for
-- a human approval, which is bound to one exact operation; the registry says which capabilities are
-- active and which backend serves each; the call goes to that backend with the Gateway's own
-- credential for it; and every decision is recorded as an audit event.
--
-- The files, and the code that each models (paths below RI/src/emcp_bus/):
--   Base, Json             shared helpers: lists, texts, dicts as association lists, results, the
--                          state and exception monad, sorting, JSON documents
--   Risk                   common/models.py
--   Registry               registry/models.py (Models), lifecycle.py (Lifecycle), store.py (Store),
--                          pipeline.py and publish_all of seed.py (Pipeline)
--   Audit                  audit/models.py (Sanitize), events.py and sink.py (Events),
--                          correlation.py (Correlation), bypass_detection.py (Bypass)
--   Approval               approval/models.py and service.py
--   Identity               identity/authn.py, models.py, token_verifier.py; shared_client_lint.py
--                          (SharedClients)
--   Downstream             downstream/models.py and identity.py
--   Pdp                    pdp/client.py and models.py
--   Entitlement            entitlement/models.py and manager.py
--   Fabric                 fabric/router.py; adapters/rest_adapter.py (Rest)
--   Offering               offering_filter/service.py
--   Orchestrator           orchestrator/decisioning.py, fallback.py, nba_model.py,
--                          decision_context.py, profile_intelligence/models.py; graph.py, state.py
--                          and hitl_node.py (Orchestrator/Journey)
--   Gateway                gateway/server.py: on_call_tool (Gateway), on_list_tools (Gateway/Listing,
--                          with cache.py), GatewayConfig, lifespan and build_auth (Startup), and the
--                          histories of a running Gateway (Histories); gateway/canonical_request.py
--                          (Gateway/Canonical)
--   Profiling              profile_intelligence/rule_based_provider.py and governance.py
--   Redaction              common/pii_redaction.py
--   AgentRuntime           agent_runtime/dispatcher.py, handoff_graph.py, identity_resolver.py and
--                          channels/; global_supervisor.py (Supervisor)
--   Agent                  RI/agents/example_agent/agent.py; prompts/store.py (Prompts);
--                          mode_b_orchestrator_driven/ (ModeB)
--   Domains                RI/services/example_mcp_servers/: sales_domain (Sales) and finance_domain
--                          (Finance)
--   Examples               concrete runs, and the theorems at concrete inputs
-- A module's children hold its proofs.
--
-- How the code corresponds. A class with state is a record, and a method takes the record and answers
-- with the new one; an exception is the error of a Result, one constructor for each exception that a
-- caller tells apart. A Python dict is an association list in insertion order, a set of names a list
-- with no name twice. What a method reads from the outside is an argument: the clock (counts of
-- microseconds), fresh ids, environment variables, the replies of OPA, of the identity provider and
-- of backends, whether the audit sink works, and the outcome of PyJWT. Hashing, repr and the JSON
-- encoders are the fields of one record, Runtime, of which nothing is assumed. The Gateway's state
-- holds the calls that it made to backends, in order; the record World holds what one request reads.
-- A method that neither waits nor can be interrupted is one step, so that interleavings are sequences of
-- calls: `check_and_consume` holds a lock, and the other methods of the approval service await nothing,
-- where threads that run them at the same time as another method are not modelled.
--
-- How the parts interact. At its start the Gateway loads the configuration, pushes every client profile
-- to OPA and seeds the registry; a history of it is any sequence of requests, listings, decisions of
-- approvers and revocations. An agent reaches backends only through the Gateway: its session is
-- wired to the Gateway's handlers (Agent/Wiring), and what its LLM answers is an argument.
-- The registry has a contract, a function from names to manifests (Registry/Catalogue).
--
-- There is no fuel: every loop of the modelled code is over a list or a text, and the agent's loop
-- counts its iterations down from their limit. The one exception, the wait for the rest of a request
-- body, answers nothing where the stream of messages ends first.
--
-- Not modelled: the reading of YAML files; the set-up and the shut-down of tracing, of HTTP clients and
-- of the server processes; the command-line scripts and the constructors of the example backends.
-- Floats are texts, or counts of hundredths where the code computes with them; the comparison of floats
-- in the drift monitor is an argument. `lower` is that of the letters A to Z. The Rego policies are
-- data of OPA, whose replies are arguments.
pub mod Agent
pub mod AgentRuntime
pub mod Approval
pub mod Audit
pub mod Base
pub mod Domains
pub mod Downstream
pub mod Entitlement
pub mod Examples
pub mod Fabric
pub mod Gateway
pub mod Identity
pub mod Json
pub mod Offering
pub mod Orchestrator
pub mod Pdp
pub mod Profiling
pub mod Redaction
pub mod Registry
pub mod Risk
