-- ===== src/Index.antt =====
-- crates/tephra/src/index: the derived index over the log.
pub mod Rising
pub mod Interface
pub mod Search
pub mod Interner
pub mod Tail
pub mod Set
pub mod Postings
pub mod Plan
pub mod Recovery
