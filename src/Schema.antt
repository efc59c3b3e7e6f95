-- ===== src/Schema.antt =====
-- `CheckInheritance for Schema` (src/interface/inheritance.rs): whether a schema is part of a root schema.
-- Schemata are those of the crate `rgb-core`, as far as the check reads them.
pub mod Subset
use rgb_wallet.Prelude.{
  ℕ, List, [], ◌∷◌, ◌++◌, Option, none, some, Bool, true, false, if◌then◌else◌, Result, ok, err,
  ◌≡◌, ◌↔◌, gather, gather_all, report,
}
use rgb_wallet.Collections.Map
use rgb_wallet.Collections.Map.{Map}
use rgb_wallet.Collections.Set
use rgb_wallet.Collections.Set.{Set}
use rgb_wallet.Collections.Ord.{nat_ord}

-- A type with the equality test of its `PartialEq`
pub record Comparable : Type 1 where
  pub Value : Type 0
  pub same : Value → Value → Bool
  pub same_iff : (a b : Value) → (same a b ≡ true) ↔ (a ≡ b)

-- The parts of a schema that are only compared
pub record SchemaParts : Type 1 where
  pub global_format : Comparable
  pub state_schema : Comparable
  pub occurrences : Comparable

-- `OpFullType`
pub data OpFullType : Type 0 where
  genesis : OpFullType
  state_transition state_extension : ℕ → OpFullType

-- Which of the three operation schemata; transitions alone have inputs, and extensions alone redeem.
pub data OpKind : Type 0 where
  genesis_kind transition_kind extension_kind : OpKind

pub data InheritanceFailure : Type 0 where
  global_state_mismatch assignment_type_mismatch valency_type_mismatch : ℕ → InheritanceFailure
  transition_type_mismatch extension_type_mismatch : ℕ → InheritanceFailure
  op_global_state_mismatch op_input_mismatch op_redeem_mismatch :
      OpFullType → ℕ → InheritanceFailure
  op_assignments_mismatch op_valency_mismatch : OpFullType → ℕ → InheritanceFailure

abbrev pub Failures : Type 0
Failures = List InheritanceFailure

module _ (P : SchemaParts) where
  abbrev pub Occs : Type 0
  Occs = Map ℕ P.occurrences.Value

  abbrev pub Inputs : OpKind → Type 0
  Inputs transition_kind = Occs
  Inputs _ = Unit

  abbrev pub Redeems : OpKind → Type 0
  Redeems extension_kind = Set ℕ
  Redeems _ = Unit

  pub record OpSchema (kind : OpKind) : Type 0 where
    pub globals : Occs
    pub inputs : Inputs kind
    pub assignments : Occs
    pub redeems : Redeems kind
    pub valencies : Set ℕ

  pub record Schema : Type 0 where
    pub global_types : Map ℕ P.global_format.Value
    pub owned_types : Map ℕ P.state_schema.Value
    pub valency_types : Set ℕ
    pub genesis : OpSchema genesis_kind
    pub transitions : Map ℕ (OpSchema transition_kind)
    pub extensions : Map ℕ (OpSchema extension_kind)

-- The `match` on what the root has of a type
unfoldable pub mismatch :
    (C : Comparable)
    → Map ℕ C.Value
    → (ℕ → InheritanceFailure)
    → ℕ × C.Value
    → Option InheritanceFailure
mismatch C root failure (type_id, value) = elim (Map.get root type_id) [
  | none ↦ some (failure type_id)
  | some root_value ↦ if C.same root_value value then none else some (failure type_id)
]

unfoldable pub absent : Set ℕ → (ℕ → InheritanceFailure) → ℕ → Option InheritanceFailure
absent root failure type_id = if Set.contains root type_id then none else some (failure type_id)

module _ (P : SchemaParts) where
  unfoldable pub check_inputs :
      (kind : OpKind) → OpFullType → Inputs P kind → Inputs P kind → Failures
  check_inputs transition_kind op inputs root =
      gather (mismatch P.occurrences root (op_input_mismatch op)) inputs.entries
  check_inputs genesis_kind op inputs root = []
  check_inputs extension_kind op inputs root = []

  unfoldable pub check_redeems :
      (kind : OpKind) → OpFullType → Redeems P kind → Redeems P kind → Failures
  check_redeems extension_kind op redeems root =
      gather (absent root (op_redeem_mismatch op)) redeems.elements
  check_redeems genesis_kind op redeems root = []
  check_redeems transition_kind op redeems root = []

  unfoldable pub check_op :
      (kind : OpKind) → OpFullType → OpSchema P kind → OpSchema P kind → Failures
  check_op kind op self root =
      gather (mismatch P.occurrences root.globals (op_global_state_mismatch op))
        self.globals.entries
      ++ (check_inputs kind op self.inputs root.inputs
          ++ (gather (mismatch P.occurrences root.assignments (op_assignments_mismatch op))
                self.assignments.entries
              ++ (check_redeems kind op self.redeems root.redeems
                  ++ gather (absent root.valencies (op_valency_mismatch op))
                      self.valencies.elements)))

  -- An operation of a type that the root must have
  unfoldable pub check_known :
      (kind : OpKind)
      → (ℕ → OpFullType)
      → (ℕ → InheritanceFailure)
      → Map ℕ (OpSchema P kind)
      → ℕ × OpSchema P kind
      → Failures
  check_known kind full failure root (type_id, op) = elim (Map.get root type_id) [
    | some root_op ↦ check_op kind (full type_id) op root_op
    | none ↦ failure type_id ∷ []
  ]

  unfoldable pub check_inheritance : Schema P → Schema P → Result Failures (Unit {0})
  check_inheritance self root = report (
      gather (mismatch P.global_format root.global_types global_state_mismatch)
        self.global_types.entries
      ++ (gather (mismatch P.state_schema root.owned_types assignment_type_mismatch)
            self.owned_types.entries
          ++ (gather (absent root.valency_types valency_type_mismatch) self.valency_types.elements
              ++ (check_op genesis_kind genesis self.genesis root.genesis
                  ++ (gather_all
                        (check_known transition_kind state_transition transition_type_mismatch
                          root.transitions)
                        self.transitions.entries
                      ++ gather_all
                          (check_known extension_kind state_extension extension_type_mismatch
                            root.extensions)
                          self.extensions.entries)))))
