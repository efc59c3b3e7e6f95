-- ===== src/State/Assigned.antt =====
-- Assignments in a contract state (src/contract/assignments.rs) and how `MemContractState::add_assignments`
-- collects them (src/persistence/memory.rs).
use rgb_wallet.Prelude.{ℕ, suc, ◌%◌, ◌^◌, List, [], ◌∷◌, Option, none, some, if◌then◌else◌}
use mathlib.Core.Option
use rgb_wallet.Collections.Map
use rgb_wallet.Collections.Map.{Map, get-insert}
use rgb_wallet.Collections.Ord.{nat_ord}
use rgb_wallet.Collections.Confinement.{Confinement, map_len}
use rgb_wallet.Contract.Types.{
  Assign, confidential, confidential_seal, confidential_state, revealed, TypedAssigns, declarative,
  fungible, attachment, Assignments,
}
use rgb_wallet.State.Types.{Core, OutputAssignment, place_of, place_ord, Assigned, ContractState}

-- `Assign::to_revealed`
unfoldable pub to_revealed : {Seal State : Type 0} → Assign Seal State → Option (Seal × State)
to_revealed (revealed seal state _) = some (seal, state)
to_revealed (confidential _ _ _) = none
to_revealed (confidential_seal _ _ _) = none
to_revealed (confidential_state _ _ _) = none

-- `push`, where a set is not full: an assignment that is equal to one in the set leaves the set as it is.
unfoldable pub push : {State : Type 0} → Assigned State → OutputAssignment State → Assigned State
push set a = elim (Map.get set (place_of a)) [ some _ ↦ set | none ↦ Map.insert set (place_of a) a ]

-- `OutputAssignment::with_witness` and `with_no_witness`, for a seal that is converted
abbrev pub assignment_at :
    {State : Type 0} → Option ℕ → ℕ → ℕ → ℕ → ℕ → State → OutputAssignment State
assignment_at witness opid ty n seal state = record {
  opout = record { op = opid; ty = ty; no = n % 2 ^ 16 };
  seal = seal;
  state = state;
  witness = witness;
}

module _ (conf : Confinement) {Seal State : Type 0} (output_of : Seal → Option ℕ)
    (witness : Option ℕ) (opid ty : ℕ) where
  -- One round of `process`: a seal that is not converted and a full set are panics.
  unfoldable pub add_output : ℕ → State → Option ℕ → Assigned State → Option (Assigned State)
  add_output n state none set = none
  add_output n state (some output) set =
      if conf.large_full (map_len set)
      then none
      else some (push set (assignment_at witness opid ty n output state))

  unfoldable pub add_revealed : ℕ → Option (Seal × State) → Assigned State → Option (Assigned State)
  add_revealed n none set = some set
  add_revealed n (some (seal, state)) set = add_output n state (output_of seal) set

  -- `process`, from the number `n` on
  unfoldable pub process : ℕ → List (Assign Seal State) → Assigned State → Option (Assigned State)
  process n [] set = some set
  process n (a ∷ rest) set = elim (add_revealed n (to_revealed a) set) [
    | none ↦ none
    | some next ↦ process (suc n) rest next
  ]

module _ (C : Core) {Seal : Type 0} (output_of : Seal → Option ℕ) (witness : Option ℕ)
    (opid : ℕ) where
  -- The `match` of `add_assignments`
  unfoldable pub add_typed :
      ℕ × TypedAssigns C.states Seal → ContractState C → Option (ContractState C)
  add_typed (ty, declarative v) s =
      Option.map (λ m. record s { rights = m })
        (process C.conf output_of witness opid ty 0 v s.rights)
  add_typed (ty, fungible v) s =
      Option.map (λ m. record s { fungibles = m })
        (process C.conf output_of witness opid ty 0 v s.fungibles)
  add_typed (ty, TypedAssigns.structured v) s =
      Option.map (λ m. record s { structured = m })
        (process C.conf output_of witness opid ty 0 v s.structured)
  add_typed (ty, attachment v) s =
      Option.map (λ m. record s { attach = m })
        (process C.conf output_of witness opid ty 0 v s.attach)

  -- `add_assignments`
  unfoldable pub add_assignments :
      Assignments C.states Seal → ContractState C → Option (ContractState C)
  add_assignments [] s = some s
  add_assignments (a ∷ rest) s = elim (add_typed a s) [
    | none ↦ none
    | some t ↦ add_assignments rest t
  ]
