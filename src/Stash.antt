-- ===== src/Stash.antt =====
-- Signatures, operations and bundles in the in-memory stash (src/persistence/memory.rs,
-- src/persistence/stash.rs, src/containers/util.rs).
pub mod Types
pub mod Sigs
pub mod Operations
pub mod Kit
