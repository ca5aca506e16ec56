-- ===== src/Template.antt =====
-- resolver: the references to templates and the YAML nodes in which they stand.
pub mod Types
pub mod Node
pub mod Reference
pub mod Element
