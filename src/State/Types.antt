-- ===== src/State/Types.antt =====
-- The entries of a contract state (src/contract/assignments.rs, src/contract/mod.rs), its record and its
-- errors (src/persistence/memory.rs, src/persistence/state.rs).
use Prim.Native.String.{String}
use rgb_wallet.Prelude.{
  ℕ, List, Option, none, some, Bool, true, ◌&&◌, ◌||◌, ◌≡◌, ◌↔◌, ltb, eqb, arith,
}
use rgb_wallet.Collections.Ord.{Ord}
use rgb_wallet.Collections.Map.{Map}
use rgb_wallet.Collections.Confinement.{Confinement}
use rgb_wallet.Contract.Types.{Opout, opout_eq, opout_lt, opout_eq_iff, States, Assignments}

-- What the code takes from `rgb-core`: states and seals, and `WitnessOrd` with its tests. An output seal is a
-- number; `try_to_output_seal` may fail, and so may `to_output_seal`.
pub record Core : Type 1 where
  pub conf : Confinement
  pub states : States
  pub Datum : Type 0
  pub GenesisSeal : Type 0
  pub GraphSeal : Type 0
  pub genesis_output : GenesisSeal → Option ℕ
  pub genesis_output_at : GenesisSeal → ℕ → Option ℕ
  pub graph_output : GraphSeal → Option ℕ
  pub graph_output_at : GraphSeal → ℕ → Option ℕ
  pub WitnessOrd : Type 0
  pub is_archived : WitnessOrd → Bool
  pub is_valid : WitnessOrd → Bool
  pub ord_lt : WitnessOrd → WitnessOrd → Bool
  -- the height in `WitnessOrd::Mined`
  pub mined_height : WitnessOrd → Option ℕ
  pub to_outpoint : ℕ → ℕ
  pub GlobalOrd : Type 0
  pub genesis_place : (index : ℕ) → GlobalOrd
  pub transition_place : (opid index ty nonce : ℕ) → WitnessOrd → GlobalOrd
  pub extension_place : (opid index ty nonce : ℕ) → WitnessOrd → GlobalOrd

-- `OutputAssignment`
pub record OutputAssignment (State : Type 0) : Type 0 where
  pub opout : Opout
  pub seal : ℕ
  pub state : State
  pub witness : Option ℕ

-- What `PartialEq` and `Ord` of `OutputAssignment` compare
pub record Place : Type 0 where
  pub opout : Opout
  pub seal : ℕ

abbrev pub place_of : {State : Type 0} → OutputAssignment State → Place
place_of a = record { opout = a.opout; seal = a.seal }

abbrev pub place_eq : Place → Place → Bool
place_eq a b = opout_eq a.opout b.opout && eqb a.seal b.seal

abbrev pub place_lt : Place → Place → Bool
place_lt a b = opout_lt a.opout b.opout || (opout_eq a.opout b.opout && ltb a.seal b.seal)

pub place_eq_iff : (a b : Place) → (place_eq a b ≡ true) ↔ (a ≡ b)
place_eq_iff a b = ground (arith, opout_eq_iff a.opout b.opout)

instance abbrev pub place_ord : Ord Place
place_ord = record { eq = place_eq; lt = place_lt; eq_iff = place_eq_iff }

-- `LargeOrdSet<OutputAssignment>`, a set that holds one assignment at each place
abbrev pub Assigned : Type 0 → Type 0
Assigned State = Map Place (OutputAssignment State)

-- `OpWitness`
pub data OpWitness : Type 0 where
  genesis : OpWitness
  transition extension : (witness ty : ℕ) → OpWitness

-- `OpWitness::witness_id`
abbrev pub witness_id : OpWitness → Option ℕ
witness_id genesis = none
witness_id (transition w _) = some w
witness_id (extension w _) = some w

-- The place of a variant, its witness and its type, by which the derived `Ord` compares
abbrev pub variant : OpWitness → ℕ
variant genesis = 0
variant (transition _ _) = 1
variant (extension _ _) = 2

abbrev pub witness_part : OpWitness → ℕ
witness_part genesis = 0
witness_part (transition w _) = w
witness_part (extension w _) = w

abbrev pub type_part : OpWitness → ℕ
type_part genesis = 0
type_part (transition _ ty) = ty
type_part (extension _ ty) = ty

-- `GlobalOut`
pub record GlobalOut : Type 0 where
  pub opid : ℕ
  pub nonce : ℕ
  pub index : ℕ
  pub op_witness : OpWitness

-- A lexicographic comparison: less, or equal and less in what follows
abbrev pub then_less : ℕ → ℕ → Bool → Bool
then_less a b rest = ltb a b || (eqb a b && rest)

abbrev pub witness_eq : OpWitness → OpWitness → Bool
witness_eq a b =
    eqb (variant a) (variant b)
    && (eqb (witness_part a) (witness_part b) && eqb (type_part a) (type_part b))

abbrev pub witness_lt : OpWitness → OpWitness → Bool
witness_lt a b =
    then_less (variant a) (variant b)
      (then_less (witness_part a) (witness_part b) (ltb (type_part a) (type_part b)))

abbrev pub global_eq : GlobalOut → GlobalOut → Bool
global_eq a b =
    eqb a.opid b.opid
    && (eqb a.nonce b.nonce && (eqb a.index b.index && witness_eq a.op_witness b.op_witness))

abbrev pub global_lt : GlobalOut → GlobalOut → Bool
global_lt a b =
    then_less a.opid b.opid
      (then_less a.nonce b.nonce (then_less a.index b.index (witness_lt a.op_witness b.op_witness)))

witness_eq_iff : (a b : OpWitness) → (witness_eq a b ≡ true) ↔ (a ≡ b)
witness_eq_iff a b = ground arith

pub global_eq_iff : (a b : GlobalOut) → (global_eq a b ≡ true) ↔ (a ≡ b)
global_eq_iff a b = ground (arith, witness_eq_iff a.op_witness b.op_witness)

instance abbrev pub global_ord : Ord GlobalOut
global_ord = record { eq = global_eq; lt = global_lt; eq_iff = global_eq_iff }

module _ (C : Core) where
  -- `MemGlobalState`
  pub record GlobalState : Type 0 where
    pub known : Map GlobalOut C.Datum
    pub limit : ℕ

  -- `MemContractState`; the field `data` of the source is `structured` here
  pub record ContractState : Type 0 where
    pub schema_id : ℕ
    pub contract_id : ℕ
    pub global : Map ℕ GlobalState
    pub rights : Assigned C.states.Rights
    pub fungibles : Assigned C.states.Value
    pub structured : Assigned C.states.Structure
    pub attach : Assigned C.states.Attach

  -- `MemState`
  pub record MemState : Type 0 where
    pub witnesses : Map ℕ C.WitnessOrd
    pub contracts : Map ℕ ContractState

  pub data AssignmentsRef : Type 0 where
    genesis_assigns : Assignments C.states C.GenesisSeal → AssignmentsRef
    graph_assigns : Assignments C.states C.GraphSeal → AssignmentsRef

  -- An operation as `add_operation` reads it. `globals` are the entries of a map from global types, `inputs`
  -- the operations that the inputs spend from.
  pub record Operation : Type 0 where
    pub id : ℕ
    pub nonce : ℕ
    pub ty : ℕ
    pub globals : List (ℕ × List C.Datum)
    pub inputs : List ℕ
    pub assignments : AssignmentsRef

  -- `OrdOpRef`
  pub data OrdOp : Type 0 where
    genesis_op : Operation → OrdOp
    transition_op extension_op : Operation → (witness : ℕ) → C.WitnessOrd → OrdOp

  -- The parts of a schema that the state reads: its identifier and `max_items` of each global type
  pub record StateSchema : Type 0 where
    pub schema_id : ℕ
    pub max_items : List (ℕ × ℕ)

-- `StateError<MemState>`; the last one is a panic.
pub data StateError : Type 0 where
  confinement : StateError
  unknown_contract absent_witness : ℕ → StateError
  resolver : (witness : ℕ) → String → StateError
  absent_valid_witness : StateError
  panicked : StateError
