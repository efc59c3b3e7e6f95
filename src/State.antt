-- ===== src/State.antt =====
-- The state of contracts: its in-memory provider (src/persistence/memory.rs, the part STATE), its front end
-- (src/persistence/state.rs) and the entries it holds (src/contract/assignments.rs, src/contract/mod.rs).
pub mod Types
pub mod Assigned
pub mod Contract
pub mod Grows
pub mod Committed
pub mod Write
pub mod Update
pub mod Read
pub mod GlobalIter
pub mod Evolve
