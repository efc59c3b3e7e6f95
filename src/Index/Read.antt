-- ===== src/Index/Read.antt =====
-- `IndexReadProvider for MemIndex` (src/persistence/memory.rs).
use rgb_wallet.Prelude.{
  ℕ, List, [], ◌∷◌, ◌++◌, Option, none, some, Bool, false, ◌||◌, if◌then◌else◌, Result, ok, ok_or,
  ◌>>=◌,
}
use rgb_wallet.Collections.Map
use rgb_wallet.Collections.Map.{Map}
use rgb_wallet.Collections.Set
use rgb_wallet.Collections.Set.{Set}
use rgb_wallet.Collections.Ord.{◌==◌, nat_ord}
use rgb_wallet.Contract.Types.{Opout, opout_ord}
use rgb_wallet.Index.Defs.{
  MemIndex, ContractIndex, IndexInconsistency, contract_absent, bundle_absent, outpoint_unknown,
  bundle_contract_unknown, bundle_witness_unknown,
}

abbrev pub Read : Type 0 → Type 0
Read = Result IndexInconsistency

unfoldable pub public_opouts : MemIndex → ℕ → Read (Set Opout)
public_opouts s contract_id = do
  index ← ok_or (Map.get s.contract_index contract_id) (contract_absent contract_id)
  ok index.public_opouts

unfoldable pub bundle_id_for_op : MemIndex → ℕ → Read ℕ
bundle_id_for_op s opid = ok_or (Map.get s.op_bundle_index opid) (bundle_absent opid)

unfoldable pub bundle_info : MemIndex → ℕ → Read (List ℕ × ℕ)
bundle_info s bundle_id = do
  witnesses ← ok_or (Map.get s.bundle_witness_index bundle_id) (bundle_witness_unknown bundle_id)
  contract_id ←
      ok_or (Map.get s.bundle_contract_index bundle_id) (bundle_contract_unknown bundle_id)
  ok (witnesses.elements, contract_id)

-- `terminals` is a set already (`collect::<BTreeSet<_>>()`).
terminal_opouts : Set ℕ → List (ℕ × Set Opout) → List Opout
terminal_opouts terminals [] = []
terminal_opouts terminals ((seal, opouts) ∷ rest) =
    let more = terminal_opouts terminals rest in
    if Set.contains terminals seal then opouts.elements ++ more else more

unfoldable pub opouts_by_terminals : MemIndex → List ℕ → Set Opout
unfolding terminal_opouts
opouts_by_terminals s terminals =
    Set.extend Set.empty (terminal_opouts (Set.extend Set.empty terminals) s.terminal_index.entries)

-- `to_outpoint` is the method of an output seal, of the crate `rgb-core`.
module _ (to_outpoint : ℕ → ℕ) where
  -- `iter().find(|(seal, _)| seal.to_outpoint() == output).map(|(_, set)| ..)`
  pub find_outpoint : ℕ → List (ℕ × Set Opout) → Option (Set Opout)
  find_outpoint output [] = none
  find_outpoint output ((seal, opouts) ∷ rest) =
      if to_outpoint seal == output then some opouts else find_outpoint output rest

  pub collect_outputs : ContractIndex → ℕ → Set Opout → List ℕ → Read (Set Opout)
  unfolding find_outpoint
  collect_outputs index contract_id opouts [] = ok opouts
  collect_outputs index contract_id opouts (output ∷ rest) = do
    set ←
        ok_or (find_outpoint output index.outpoint_opouts.entries)
          (outpoint_unknown output contract_id)
    collect_outputs index contract_id (Set.extend opouts set.elements) rest

  unfoldable pub opouts_by_outputs : MemIndex → ℕ → List ℕ → Read (Set Opout)
  unfolding collect_outputs
  opouts_by_outputs s contract_id outpoints = do
    index ← ok_or (Map.get s.contract_index contract_id) (contract_absent contract_id)
    collect_outputs index contract_id Set.empty outpoints

  -- `keys().any(|seal| seal.to_outpoint() == outpoint)`
  pub any_outpoint : ℕ → List (ℕ × Set Opout) → Bool
  any_outpoint outpoint [] = false
  any_outpoint outpoint ((seal, _) ∷ rest) =
      to_outpoint seal == outpoint || any_outpoint outpoint rest

  assigned_here : ℕ → ContractIndex → List ℕ → List ℕ
  unfolding any_outpoint
  assigned_here contract_id index [] = []
  assigned_here contract_id index (outpoint ∷ rest) =
      let more = assigned_here contract_id index rest in
      if any_outpoint outpoint index.outpoint_opouts.entries then contract_id ∷ more else more

  assigned : List (ℕ × ContractIndex) → List ℕ → List ℕ
  unfolding assigned_here
  assigned [] outpoints = []
  assigned ((contract_id, index) ∷ rest) outpoints =
      assigned_here contract_id index outpoints ++ assigned rest outpoints

  unfoldable pub contracts_assigning : MemIndex → List ℕ → List ℕ
  unfolding assigned
  contracts_assigning s outpoints = assigned s.contract_index.entries outpoints
