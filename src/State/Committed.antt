-- ===== src/State/Committed.antt =====
-- Operations and contract states (src/persistence/memory.rs) whose identifiers commit to what they hold: the
-- same function gives each item of global state and each assigned state from its type, operation and number.
pub mod Outputs
pub mod Added
pub mod Writes
pub mod Bundle
pub mod Consignment
use rgb_wallet.Prelude.{ℕ, suc, ◌%◌, ◌^◌, List, [], ◌∷◌, Option, some, ◌≡◌}
use rgb_wallet.Collections.Map
use rgb_wallet.Collections.Map.{Map}
use rgb_wallet.Collections.Ord.{nat_ord}
use rgb_wallet.Collections.Growth.{Everywhere}
use rgb_wallet.Contract.Types.{
  Opout, Assign, TypedAssigns, declarative, fungible, structured, attachment, Assignments,
}
use rgb_wallet.State.Types.{
  Core, OutputAssignment, Place, place_ord, Assigned, GlobalOut, global_ord, GlobalState,
  ContractState, MemState, AssignmentsRef, genesis_assigns, graph_assigns, Operation, OrdOp,
}
use rgb_wallet.State.Assigned.{to_revealed}
use rgb_wallet.State.Contract.{
  operation_of, witness_of, global_out, genesis_output_by, graph_output_by,
}
use rgb_wallet.State.Grows.{place_at}

module _ {State : Type 0} (content : Opout → State) where
  -- Each assignment in a set has the state that its operation output stands for.
  abbrev pub AgreesSet : Assigned State → Type 0
  AgreesSet set = Everywhere (λ p b. b.state ≡ content p.opout) set

  module _ {Seal : Type 0} (opid ty : ℕ) where
    -- Each revealed assignment, from the number `n` on, has the state that its output stands for.
    abbrev pub CommitsList : ℕ → List (Assign Seal State) → Type 0
    CommitsList n [] = Unit
    CommitsList n (a ∷ rest) =
        ((seal : Seal) (state : State)
          → to_revealed a ≡ some (seal, state)
          → state ≡ content (record { op = opid; ty = ty; no = n % 2 ^ 16 }))
        × CommitsList (suc n) rest

-- An assignment with a revealed seal and state is in the set at its place, with that state.
module _ {Seal State : Type 0} (output_of : Seal → Option ℕ) (witness : Option ℕ)
    (opid ty : ℕ) where
  abbrev pub RecordedOne : ℕ → Option (Seal × State) → Assigned State → Type 0
  RecordedOne n a set =
      (seal : Seal) (state : State)
      → a ≡ some (seal, state)
      → (output : ℕ) × (b : OutputAssignment State) × (output_of seal ≡ some output)
        × (Map.get set
              (record { opout = record { op = opid; ty = ty; no = n % 2 ^ 16 }; seal = output })
            ≡ some b)
        × (b.state ≡ state)

  abbrev pub Recorded : ℕ → List (Assign Seal State) → Assigned State → Type 0
  Recorded n [] set = Unit
  Recorded n (a ∷ rest) set = RecordedOne n (to_revealed a) set × Recorded (suc n) rest set

module _ (C : Core) where
  pub record Contents : Type 0 where
    pub datum : (ty opid index : ℕ) → C.Datum
    pub right : Opout → C.states.Rights
    pub value : Opout → C.states.Value
    pub structure : Opout → C.states.Structure
    pub attach : Opout → C.states.Attach

  module _ (E : Contents) where
    abbrev pub CommitsItems : (ty opid : ℕ) → ℕ → List C.Datum → Type 0
    CommitsItems ty opid n [] = Unit
    CommitsItems ty opid n (item ∷ items) =
        (item ≡ E.datum ty opid (n % 2 ^ 16)) × CommitsItems ty opid (suc n) items

    abbrev pub CommitsGlobals : ℕ → List (ℕ × List C.Datum) → Type 0
    CommitsGlobals opid [] = Unit
    CommitsGlobals opid ((ty, items) ∷ l) = CommitsItems ty opid 0 items × CommitsGlobals opid l

    abbrev pub CommitsTyped : {Seal : Type 0} → ℕ → ℕ × TypedAssigns C.states Seal → Type 0
    CommitsTyped opid (ty, declarative v) = CommitsList E.right opid ty 0 v
    CommitsTyped opid (ty, fungible v) = CommitsList E.value opid ty 0 v
    CommitsTyped opid (ty, structured v) = CommitsList E.structure opid ty 0 v
    CommitsTyped opid (ty, attachment v) = CommitsList E.attach opid ty 0 v

    abbrev pub CommitsAll : {Seal : Type 0} → ℕ → Assignments C.states Seal → Type 0
    CommitsAll opid [] = Unit
    CommitsAll opid (a ∷ l) = CommitsTyped opid a × CommitsAll opid l

    abbrev pub CommitsRef : ℕ → AssignmentsRef C → Type 0
    CommitsRef opid (genesis_assigns a) = CommitsAll opid a
    CommitsRef opid (graph_assigns a) = CommitsAll opid a

    -- The contents of an operation are those of its identifier.
    abbrev pub Commits : Operation C → Type 0
    Commits op = CommitsGlobals op.id op.globals × CommitsRef op.id op.assignments

    abbrev pub AgreesItems : ℕ → Map GlobalOut C.Datum → Type 0
    AgreesItems ty known = Everywhere (λ out v. v ≡ E.datum ty out.opid out.index) known

    pub record AgreesContract (s : ContractState C) : Type 0 where
      pub items : Everywhere (λ ty g. AgreesItems ty g.known) s.global
      pub rights : AgreesSet E.right s.rights
      pub values : AgreesSet E.value s.fungibles
      pub structures : AgreesSet E.structure s.structured
      pub attaches : AgreesSet E.attach s.attach

    -- All that contracts have is the contents of the identifiers that it came with.
    abbrev pub Agrees : MemState C → Type 0
    Agrees s = Everywhere (λ _ c. AgreesContract c) s.contracts

  -- The items of each global type, from the number `n` on, are in the contract.
  abbrev pub ItemsRecorded : OrdOp C → ℕ → List C.Datum → Map GlobalOut C.Datum → Type 0
  ItemsRecorded o n [] known = Unit
  ItemsRecorded o n (item ∷ items) known =
      (Map.get known (global_out C o n) ≡ some item) × ItemsRecorded o (suc n) items known

  abbrev pub GlobalsRecorded : OrdOp C → List (ℕ × List C.Datum) → ContractState C → Type 0
  GlobalsRecorded o [] s = Unit
  GlobalsRecorded o ((ty, items) ∷ l) s =
      ((g : GlobalState C) × (Map.get s.global ty ≡ some g) × ItemsRecorded o 0 items g.known)
      × GlobalsRecorded o l s

  module _ {Seal : Type 0} (output_of : Seal → Option ℕ) (witness : Option ℕ) (opid : ℕ) where
    abbrev pub TypedRecorded : ℕ × TypedAssigns C.states Seal → ContractState C → Type 0
    TypedRecorded (ty, declarative v) s = Recorded output_of witness opid ty 0 v s.rights
    TypedRecorded (ty, fungible v) s = Recorded output_of witness opid ty 0 v s.fungibles
    TypedRecorded (ty, structured v) s = Recorded output_of witness opid ty 0 v s.structured
    TypedRecorded (ty, attachment v) s = Recorded output_of witness opid ty 0 v s.attach

    abbrev pub AllRecorded : Assignments C.states Seal → ContractState C → Type 0
    AllRecorded [] s = Unit
    AllRecorded (a ∷ l) s = TypedRecorded a s × AllRecorded l s

  abbrev pub OutputsRecorded : OrdOp C → AssignmentsRef C → ContractState C → Type 0
  OutputsRecorded o (genesis_assigns a) s =
      AllRecorded (genesis_output_by C (witness_of C o)) (witness_of C o) (operation_of C o).id a s
  OutputsRecorded o (graph_assigns a) s =
      AllRecorded (graph_output_by C (witness_of C o)) (witness_of C o) (operation_of C o).id a s

  -- A contract has the items and the revealed assignments of an operation.
  abbrev pub OpRecorded : ℕ → OrdOp C → MemState C → Type 0
  OpRecorded id o s =
      (c : ContractState C) × (Map.get s.contracts id ≡ some c)
      × GlobalsRecorded o (operation_of C o).globals c
      × OutputsRecorded o (operation_of C o).assignments c
