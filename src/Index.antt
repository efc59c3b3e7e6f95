-- ===== src/Index.antt =====
-- The index of operations, bundles, contracts and outputs: its in-memory provider
-- (src/persistence/memory.rs, the part INDEX) and the front end (src/persistence/index.rs).
pub mod Defs
pub mod Write
pub mod Read
pub mod Front
pub mod View
pub mod Grows
pub mod Recorded
pub mod Bundles
pub mod Operations
pub mod Transitions
pub mod Consignment
