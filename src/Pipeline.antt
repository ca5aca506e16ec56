-- ===== src/Pipeline.antt =====
-- verifier/pipeline: whether a step of a pipeline may run now.
pub mod Model
pub mod Violations
pub mod Gates
pub mod Ancestors
pub mod Evaluate
pub mod Guards
pub mod AndGate
pub mod OrGate
pub mod Decisions
pub mod Verdicts
pub mod Progress
pub mod Skips
pub mod Graph
pub mod Climb
pub mod Rank
pub mod Descent
pub mod Instances
pub mod Lookup
pub mod Resolve
pub mod Nodes
pub mod Live
pub mod Behind
pub mod Grows
pub mod Visits
pub mod Frontier
pub mod Precedes
pub mod Covering
pub mod Pruning
pub mod Gate
pub mod Errors
pub mod Step
pub mod Positions
pub mod Terminals
pub mod Before
pub mod Climbed
pub mod Unknowns
pub mod Satisfied
pub mod Ready
pub mod Suffixes
pub mod Strategies
pub mod Deployments
pub mod Raw
pub mod Build
pub mod Assemble
pub mod Placed
pub mod Named
pub mod Built
pub mod Order
pub mod Products
pub mod Returns
pub mod Listing
pub mod Standing
pub mod Fanouts
pub mod Resolved
pub mod Guarding
pub mod Entries
pub mod Accepted
