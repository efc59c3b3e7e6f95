-- ===== src/Index/Defs.antt =====
-- The state and the errors of `MemIndex` (src/persistence/memory.rs, src/persistence/index.rs).
-- Saving to a disk (`persistence`) is left out.
use rgb_wallet.Prelude.{ℕ}
use rgb_wallet.Collections.Map
use rgb_wallet.Collections.Map.{Map}
use rgb_wallet.Collections.Set
use rgb_wallet.Collections.Set.{Set}
use rgb_wallet.Contract.Types.{Opout}

-- `ContractIndex`; the keys of `outpoint_opouts` are output seals
pub record ContractIndex : Type 0 where
  pub public_opouts : Set Opout
  pub outpoint_opouts : Map ℕ (Set Opout)

abbrev pub empty_contract : ContractIndex
empty_contract = record { public_opouts = Set.empty; outpoint_opouts = Map.empty }

pub record MemIndex : Type 0 where
  pub op_bundle_index : Map ℕ ℕ
  pub bundle_contract_index : Map ℕ ℕ
  pub bundle_witness_index : Map ℕ (Set ℕ)
  pub contract_index : Map ℕ ContractIndex
  pub terminal_index : Map ℕ (Set Opout)

-- `MemIndex::in_memory`
abbrev pub in_memory : MemIndex
in_memory = record {
  op_bundle_index = Map.empty;
  bundle_contract_index = Map.empty;
  bundle_witness_index = Map.empty;
  contract_index = Map.empty;
  terminal_index = Map.empty;
}

pub data IndexInconsistency : Type 0 where
  contract_absent bundle_absent : ℕ → IndexInconsistency
  outpoint_unknown : (output contract_id : ℕ) → IndexInconsistency
  distinct_bundle_contract : (bundle_id present expected : ℕ) → IndexInconsistency
  distinct_bundle_op : (opid present expected : ℕ) → IndexInconsistency
  bundle_contract_unknown bundle_witness_unknown : ℕ → IndexInconsistency

-- `IndexWriteError<MemError>`; the last two cases are a refused insertion into a confined collection
-- (`Connectivity(MemError::Confinement)`) and a panic of `expect` or `panic!`.
pub data IndexWriteError : Type 0 where
  inconsistency : IndexInconsistency → IndexWriteError
  confinement : IndexWriteError
  panicked : IndexWriteError
