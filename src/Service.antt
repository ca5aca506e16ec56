-- ===== src/Service.antt =====
-- examples/zts: the verifier chain that the example service builds from its configuration, and the
-- store of completed steps.
pub mod Build
pub mod Store
pub mod Chains
pub mod Listed
pub mod Built
pub mod Completed
pub mod Conditions
pub mod Guards
pub mod Messages
pub mod Ordering
pub mod Enforced
pub mod Agents
