-- ===== src/Examples/Merges.antt =====
-- Merges of operations and bundles (src/contract/merge_reveal.rs).
use rgb_wallet.Prelude.{ℕ, [], ◌∷◌, ok, ◌≡◌, refl}
use rgb_wallet.Collections.Map
use rgb_wallet.Contract.Types.{
  States, Assign, confidential_seal, confidential_state, revealed, fungible, Op, Bundle,
}
use rgb_wallet.Contract.MergeReveal.{
  merge, merge_vec, merge_typed, merge_entries, merge_assignments, merge_op, merge_transitions,
  merge_bundle,
}
use rgb_wallet.Contract.MergeReveal.Assigns.{Commitments, conceal_all}
use rgb_wallet.Contract.MergeReveal.Operations.{merge_op-conceal}

abbrev numbers : States
numbers = record { Rights = ℕ; Value = ℕ; Structure = ℕ; Attach = ℕ }

abbrev verbatim : Commitments numbers ℕ
verbatim = record {
  seal_id = λ n. n;
  rights_id = λ n. n;
  value_id = λ n. n;
  structure_id = λ n. n;
  attach_id = λ n. n;
}

-- The same assignment, once with its seal and once with its state
abbrev with_seal : Assign ℕ ℕ
with_seal = confidential_state 5 100 0

abbrev with_state : Assign ℕ ℕ
with_state = confidential_seal 5 100 0

abbrev seal_op : Op numbers ℕ
seal_op = record { id = 1; assignments = (4000, fungible (with_seal ∷ [])) ∷ [] }

abbrev state_op : Op numbers ℕ
state_op = record { id = 1; assignments = (4000, fungible (with_state ∷ [])) ∷ [] }

abbrev seal_bundle : Bundle numbers ℕ
seal_bundle = record {
  bundle_id = 9;
  input_map = (0, 1) ∷ [];
  known_transitions = (1, seal_op) ∷ [];
}

abbrev state_bundle : Bundle numbers ℕ
state_bundle = record {
  bundle_id = 9;
  input_map = (0, 1) ∷ [];
  known_transitions = (1, state_op) ∷ [];
}

abbrev both_bundle : Bundle numbers ℕ
both_bundle = record {
  bundle_id = 9;
  input_map = (0, 1) ∷ [];
  known_transitions =
      (1, record { id = 1; assignments = (4000, fungible (revealed 5 100 0 ∷ [])) ∷ [] }) ∷ [];
}

merge_op-conceal_example :
    (op : Op numbers ℕ) × (merge_op seal_op state_op ≡ ok op)
    × (op.id ≡ 1)
    × (conceal_all verbatim op.assignments ≡ conceal_all verbatim seal_op.assignments)
merge_op-conceal_example = merge_op-conceal verbatim seal_op state_op refl (tt, tt) refl

merged : merge_bundle seal_bundle state_bundle ≡ ok both_bundle
unfolding merge_bundle merge_transitions Map.get merge_op merge_assignments merge_entries
    merge_typed Map.insert Map.remove merge_vec merge
merged = refl
