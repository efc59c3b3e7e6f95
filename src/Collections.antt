-- ===== src/Collections.antt =====
-- Ordered maps and sets (`BTreeMap`, `BTreeSet`) and their confined forms (`Confined`, of the crate
-- `amplify`), which every store of src/persistence/memory.rs is made of.
pub mod Ord
pub mod Map
pub mod Set
pub mod Confinement
pub mod Growth
