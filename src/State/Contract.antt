-- ===== src/State/Contract.antt =====
-- `MemContractState` (src/persistence/memory.rs): operations are added to the state of one contract.
use rgb_wallet.Prelude.{ℕ, suc, ◌%◌, ◌^◌, List, [], ◌∷◌, Option, none, some, if◌then◌else◌}
use rgb_wallet.Collections.Map
use rgb_wallet.Collections.Map.{Map}
use rgb_wallet.Collections.Ord.{nat_ord}
use rgb_wallet.Collections.Confinement.{map_len}
use rgb_wallet.State.Types.{
  Core, OpWitness, GlobalOut, global_ord, GlobalState, ContractState, AssignmentsRef,
  genesis_assigns, graph_assigns, Operation, OrdOp, genesis_op, transition_op, extension_op,
  StateSchema,
}
use rgb_wallet.State.Assigned.{add_assignments}

module _ (C : Core) where
  -- `MemContractState::new`
  unfoldable pub new_globals : List (ℕ × ℕ) → Map ℕ (GlobalState C)
  new_globals [] = Map.empty
  new_globals ((ty, limit) ∷ rest) =
      Map.insert (new_globals rest) ty (record { known = Map.empty; limit = limit })

  unfoldable pub new_contract : StateSchema C → ℕ → ContractState C
  new_contract schema id = record {
    schema_id = schema.schema_id;
    contract_id = id;
    global = new_globals schema.max_items;
    rights = Map.empty;
    fungibles = Map.empty;
    structured = Map.empty;
    attach = Map.empty;
  }

  -- The operation of a reference, its witness, and `OpWitness::from`
  abbrev pub operation_of : OrdOp C → Operation C
  operation_of (genesis_op op) = op
  operation_of (transition_op op _ _) = op
  operation_of (extension_op op _ _) = op

  abbrev pub witness_of : OrdOp C → Option ℕ
  witness_of (genesis_op op) = none
  witness_of (transition_op _ w _) = some w
  witness_of (extension_op _ w _) = some w

  abbrev pub op_witness_of : OrdOp C → OpWitness
  op_witness_of (genesis_op op) = OpWitness.genesis
  op_witness_of (transition_op op w _) = OpWitness.transition w op.ty
  op_witness_of (extension_op op w _) = OpWitness.extension w op.ty

  abbrev pub global_out : OrdOp C → ℕ → GlobalOut
  global_out o n = record {
    opid = (operation_of o).id;
    nonce = (operation_of o).nonce;
    index = n % 2 ^ 16;
    op_witness = op_witness_of o;
  }

  -- The items of one global type, from the number `n` on; a full map is a panic.
  unfoldable pub add_items :
      OrdOp C → ℕ → List C.Datum → Map GlobalOut C.Datum → Option (Map GlobalOut C.Datum)
  add_items o n [] known = some known
  add_items o n (item ∷ rest) known =
      let next = add_items o (suc n) rest (Map.insert known (global_out o n) item) in
      if C.conf.large_full (map_len known) then none else next

  -- The loop over the global state of an operation; a type that is not of the schema is a panic.
  unfoldable pub add_globals :
      OrdOp C → List (ℕ × List C.Datum) → ContractState C → Option (ContractState C)
  add_globals o [] s = some s
  add_globals o ((ty, items) ∷ rest) s = elim (Map.get s.global ty) [
    | none ↦ none
    | some state ↦ elim (add_items o 0 items state.known) [
      | none ↦ none
      | some known ↦
          add_globals o rest
            (record s { global = Map.insert s.global ty (record state { known = known }) })
    ]
  ]

  -- How the seals of an operation with a witness, or with none, become output seals
  abbrev pub genesis_output_by : Option ℕ → C.GenesisSeal → Option ℕ
  genesis_output_by none seal = C.genesis_output seal
  genesis_output_by (some w) seal = C.genesis_output_at seal w

  abbrev pub graph_output_by : Option ℕ → C.GraphSeal → Option ℕ
  graph_output_by none seal = C.graph_output seal
  graph_output_by (some w) seal = C.graph_output_at seal w

  -- The `match` at the end of `add_operation`
  unfoldable pub add_outputs :
      OrdOp C → AssignmentsRef C → ContractState C → Option (ContractState C)
  add_outputs o (genesis_assigns a) s =
      add_assignments C (genesis_output_by (witness_of o)) (witness_of o) (operation_of o).id a s
  add_outputs o (graph_assigns a) s =
      add_assignments C (graph_output_by (witness_of o)) (witness_of o) (operation_of o).id a s

  -- `add_operation`; `none` is a panic.
  unfoldable pub add_operation : OrdOp C → ContractState C → Option (ContractState C)
  add_operation o s = elim (add_globals o (operation_of o).globals s) [
    | none ↦ none
    | some t ↦ add_outputs o (operation_of o).assignments t
  ]
