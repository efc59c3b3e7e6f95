-- ===== src/Interface.antt =====
-- Interfaces and their inheritance (src/interface/iface.rs, src/interface/inheritance.rs).
pub mod Types
pub mod Extend
pub mod Check
pub mod Implementation
