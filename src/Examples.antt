-- ===== src/Examples.antt =====
-- Examples: concrete runs of the definitions, and the theorems at concrete inputs.
pub mod Samples
mod Calls
mod Journeys
mod Edges
mod Backends
mod Approvals
mod Capabilities
mod Catalogues
mod Adapters
mod Agents
mod Runtimes
mod Starts
