-- ===== src/Contract.antt =====
-- The data of a contract that the stores index and merge. The types are those of the crate
-- `rgb-core`, as far as this repository matches on them; identifiers, commitments and concealed
-- seals are numbers that are only compared.
pub mod Types
pub mod MergeReveal
pub mod Reveal
