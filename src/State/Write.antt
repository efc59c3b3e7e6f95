-- ===== src/State/Write.antt =====
-- `StateWriteProvider for MemState` and its writer (src/persistence/memory.rs), and `State<P>` over it
-- (src/persistence/state.rs). A panic is an error here.
pub mod Laws
pub mod Bundle
use Prim.Native.String.{String}
use rgb_wallet.Prelude.{
  ℕ, ◌+◌, List, [], ◌∷◌, Option, none, some, Bool, true, false, not, ◌&&◌, ◌||◌, if◌then◌else◌, ltb,
  eqb, Result, ok, err,
}
use rgb_wallet.Collections.Map
use rgb_wallet.Collections.Map.{Map}
use rgb_wallet.Collections.Ord.{nat_ord}
use rgb_wallet.Collections.Confinement.{map_len}
use rgb_wallet.Exec.{Exec, pure, throw, ◌>>=◌, ◌>>◌, for_each}
use rgb_wallet.State.Types.{
  Core, ContractState, MemState, Operation, OrdOp, genesis_op, transition_op, extension_op,
  StateSchema, StateError, confinement, unknown_contract, absent_witness, resolver,
  absent_valid_witness, panicked,
}
use rgb_wallet.State.Contract.{new_contract, add_operation}

module _ (C : Core) where
  abbrev pub Write : Type 0 → Type 0
  Write = Exec (MemState C) StateError

  -- `MemState::in_memory`
  abbrev pub in_memory : MemState C
  in_memory = record { witnesses = Map.empty; contracts = Map.empty }

  -- The closure of the writer: a witness that is known is replaced.
  unfoldable pub write_witness : ℕ → C.WitnessOrd → Write (Unit {0})
  write_witness witness ord s =
      if C.conf.large_full (map_len s.witnesses)
      then (err confinement, s)
      else (ok tt, record s { witnesses = Map.insert s.witnesses witness ord })

  -- `add_operation` through the writer's reference to the contract
  unfoldable pub write_operation : ℕ → OrdOp C → Write (Unit {0})
  write_operation id o s = elim (Map.get s.contracts id) [
    | none ↦ (err panicked, s)
    | some contract ↦ elim (add_operation C o contract) [
      | none ↦ (err panicked, s)
      | some next ↦ (ok tt, record s { contracts = Map.insert s.contracts id next })
    ]
  ]

  unfoldable pub add_genesis : ℕ → Operation C → Write (Unit {0})
  add_genesis id genesis = write_operation id (genesis_op genesis)

  unfoldable pub add_transition : ℕ → Operation C → ℕ → C.WitnessOrd → Write (Unit {0})
  add_transition id op witness ord = do
    write_witness witness ord
    write_operation id (transition_op op witness ord)

  unfoldable pub add_extension : ℕ → Operation C → ℕ → C.WitnessOrd → Write (Unit {0})
  add_extension id op witness ord = do
    write_witness witness ord
    write_operation id (extension_op op witness ord)

  -- `register_contract`. The writer that it returns is the identifier of the contract.
  unfoldable pub open_contract : StateSchema C → ℕ → Write (Unit {0})
  open_contract schema id s = elim (Map.get s.contracts id) [
    | some _ ↦ (ok tt, s)
    | none ↦
        if C.conf.tiny_full (map_len s.contracts)
        then (err confinement, s)
        else (ok tt, record s { contracts = Map.insert s.contracts id (new_contract C schema id) })
  ]

  unfoldable pub register_contract : StateSchema C → ℕ → Operation C → Write (Unit {0})
  register_contract schema id genesis = do open_contract schema id; add_genesis id genesis

  -- `update_contract`, and the `ok_or` of its caller
  unfoldable pub update_contract : ℕ → Write (Unit {0})
  update_contract id s = elim (Map.get s.contracts id) [
    | none ↦ (err (unknown_contract id), s)
    | some _ ↦ (ok tt, s)
  ]

  -- `is_valid_witness`
  unfoldable pub is_valid_witness : MemState C → ℕ → Result StateError Bool
  is_valid_witness s witness = elim (Map.get s.witnesses witness) [
    | none ↦ err (absent_witness witness)
    | some ord ↦ ok (C.is_valid ord)
  ]

  -- `select_valid_witness`
  unfoldable pub select_valid_witness : MemState C → List ℕ → Result StateError ℕ
  select_valid_witness s [] = err absent_valid_witness
  select_valid_witness s (witness ∷ rest) =
      let later = select_valid_witness s rest in
      elim (is_valid_witness s witness) [
        | err e ↦ err e
        | ok valid ↦ if valid then ok witness else later
      ]

  -- `resolve_pub_witness_ord` of a resolver, which may fail with a message
  abbrev pub Resolver : Type 0
  Resolver = ℕ → Result String C.WitnessOrd

  abbrev pub resolved : ℕ → Result String C.WitnessOrd → Write C.WitnessOrd
  resolved witness (err reason) s = (err (resolver witness reason), s)
  resolved witness (ok ord) s = (ok ord, s)

  -- The `map_err` of the calls of the resolver
  unfoldable pub resolve : Resolver → ℕ → Write C.WitnessOrd
  resolve ords witness = resolved witness (ords witness)

  -- The body of the loop of `update_from_bundle`
  unfoldable pub update_transition : Resolver → ℕ → ℕ → Operation C → Write (Unit {0})
  update_transition ords id witness op = do
    ord ← resolve ords witness
    add_transition id op witness ord

  unfoldable pub update_from_bundle : Resolver → ℕ → List (Operation C) → ℕ → Write (Unit {0})
  update_from_bundle ords id transitions witness = do
    update_contract id
    for_each (update_transition ords id witness) transitions
