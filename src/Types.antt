-- ===== src/Types.antt =====
-- crates/tephra-types: the data model that a client shares with the engine.
pub mod Position
pub mod Name
pub mod Tags
pub mod Query
