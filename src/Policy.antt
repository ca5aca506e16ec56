-- ===== src/Policy.antt =====
-- The verifiers that come with the service: account, task-type denylist and image allowlist,
-- each a module below.
pub mod Account
pub mod Denylist
pub mod Images
