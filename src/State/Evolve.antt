-- ===== src/State/Evolve.antt =====
-- `ContractStateEvolve for MemContract` (src/persistence/memory.rs): a view that takes operations one by one.
use rgb_wallet.Prelude.{ℕ, Option, none, some}
use rgb_wallet.Collections.Map
use rgb_wallet.Collections.Map.{Map}
use rgb_wallet.Collections.Ord.{nat_ord}
use rgb_wallet.State.Types.{Core, OrdOp, genesis_op, transition_op, extension_op, StateSchema}
use rgb_wallet.State.Contract.{new_contract, add_operation}
use rgb_wallet.State.Read.{ContractView}

module _ (C : Core) where
  unfoldable pub init : StateSchema C → ℕ → ContractView C
  init schema id = record { filter = Map.empty; unfiltered = new_contract C schema id }

  -- The writer of a view: the witness is put into the filter, whatever it had.
  abbrev pub with_witness : OrdOp C → Map ℕ C.WitnessOrd → Map ℕ C.WitnessOrd
  with_witness (genesis_op op) filter = filter
  with_witness (transition_op op w ord) filter = Map.insert filter w ord
  with_witness (extension_op op w ord) filter = Map.insert filter w ord

  -- `evolve_state`; `none` is a panic.
  unfoldable pub evolve_state : OrdOp C → ContractView C → Option (ContractView C)
  evolve_state o v = elim (add_operation C o v.unfiltered) [
    | none ↦ none
    | some next ↦ some (record { filter = with_witness o v.filter; unfiltered = next })
  ]
