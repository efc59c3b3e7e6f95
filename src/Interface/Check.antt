-- ===== src/Interface/Check.antt =====
-- `Iface::check` (src/interface/iface.rs): whether the parts of an interface fit each other.
pub mod Consistent
use rgb_wallet.Prelude.{
  ℕ, List, [], ◌∷◌, ◌++◌, Option, none, some, Bool, true, false, not, ◌&&◌, ◌||◌, if◌then◌else◌,
  ltb, Result, ok, err, gather, gather_all, report,
}
use rgb_wallet.Collections.Map
use rgb_wallet.Collections.Map.{Map}
use rgb_wallet.Collections.Set
use rgb_wallet.Collections.Set.{Set}
use rgb_wallet.Collections.Ord.{nat_ord}
use rgb_wallet.Interface.Types.{
  Occurrences, GlobalIface, AssignIface, ValencyIface, GenesisIface, TransitionIface,
  ExtensionIface, Iface, OpName, genesis_op, transition_op, extension_op,
}

-- What the code uses of `chrono`: a time of a stamp, if it is one, and whether that time is later than now
pub record Clock : Type 1 where
  pub Stamp : Type 0
  pub Time : Type 0
  pub timestamp_opt : Stamp → Option Time
  pub in_future : Time → Bool

pub data IfaceInconsistency (C : Clock) : Type 0 where
  invalid_timestamp : C.Stamp → IfaceInconsistency C
  future_timestamp : C.Time → IfaceInconsistency C
  unknown_global unknown_valency unknown_redeem unknown_assignment :
      OpName → ℕ → IfaceInconsistency C
  unknown_input unknown_error unknown_default_assignment unknown_metadata :
      OpName → ℕ → IfaceInconsistency C
  unknown_default_op : ℕ → IfaceInconsistency C
  multiple_global multiple_assignment multiple_inputs : OpName → ℕ → IfaceInconsistency C
  repeated_operation_name : ℕ → IfaceInconsistency C
  required_global_absent required_assignment_absent required_valency_absent :
      ℕ → IfaceInconsistency C

abbrev pub has : {V : Type 0} → Map ℕ V → ℕ → Bool
has m name = elim (Map.get m name) [ some _ ↦ true | none ↦ false ]

-- A name that must be known
unfoldable pub unless_known : {E : Type 0} → (ℕ → Bool) → (ℕ → E) → ℕ → Option E
unless_known known complaint name = if known name then none else some (complaint name)

-- A name that a map must have, and by which the map must allow several values if more than one is asked
unfoldable pub unless_allowed :
    {V E Occ : Type 0} → (V → Bool) → (Occ → ℕ) → Map ℕ V → (ℕ → E) → (ℕ → E) → ℕ × Occ → Option E
unless_allowed multiple min_value m too_many unknown (name, occ) = elim (Map.get m name) [
  | some v ↦ if ltb 1 (min_value occ) && not (multiple v) then some (too_many name) else none
  | none ↦ some (unknown name)
]

-- A field that must be present if it is required
unfoldable pub unless_present :
    {V E : Type 0} → (V → Bool) → (ℕ → Bool) → (ℕ → E) → ℕ × V → Option E
unless_present required known absent (name, v) =
    if required v && not (known name) then some (absent name) else none

module _ (C : Clock) (O : Occurrences) where
  abbrev pub Issues : Type 0
  Issues = List (IfaceInconsistency C)

  unfoldable pub check_time : C.Stamp → Issues
  check_time stamp = elim (C.timestamp_opt stamp) [
    | some time ↦ if C.in_future time then future_timestamp time ∷ [] else []
    | none ↦ invalid_timestamp stamp ∷ []
  ]

  module _ (self : Iface O) where
    unfoldable pub proc_globals : OpName → Map ℕ O.Occ → Issues
    proc_globals op globals =
        gather
          (unless_allowed (λ g. g.multiple) O.min_value self.global_state (multiple_global op)
            (unknown_global op))
          globals.entries

    unfoldable pub proc_assignments : OpName → Map ℕ O.Occ → Issues
    proc_assignments op assignments =
        gather
          (unless_allowed (λ a. a.multiple) O.min_value self.assignments (multiple_assignment op)
            (unknown_assignment op))
          assignments.entries

    unfoldable pub proc_valencies : OpName → Set ℕ → Issues
    proc_valencies op valencies =
        gather (unless_known (has self.valencies) (unknown_valency op)) valencies.elements

    unfoldable pub proc_errors : OpName → Set ℕ → Issues
    proc_errors op errors =
        gather (unless_known (has self.errors) (unknown_error op)) errors.elements

    unfoldable pub proc_metadata : OpName → Set ℕ → Issues
    proc_metadata op metadata =
        gather (unless_known (has self.metadata) (unknown_metadata op)) metadata.elements

    unfoldable pub proc_inputs : OpName → Map ℕ O.Occ → Issues
    proc_inputs op inputs =
        gather
          (unless_allowed (λ a. a.multiple) O.min_value self.assignments (multiple_inputs op)
            (unknown_input op))
          inputs.entries

    -- A default that is set must be among the names that are known.
    unfoldable pub proc_default : (ℕ → Bool) → (ℕ → IfaceInconsistency C) → Option ℕ → Issues
    proc_default known complaint none = []
    proc_default known complaint (some name) = if known name then [] else complaint name ∷ []

    unfoldable pub check_genesis : GenesisIface O → Issues
    check_genesis g =
        proc_metadata genesis_op g.metadata
        ++ (proc_globals genesis_op g.globals
            ++ (proc_assignments genesis_op g.assignments
                ++ (proc_valencies genesis_op g.valencies ++ proc_errors genesis_op g.errors)))

    unfoldable pub check_transition : ℕ × TransitionIface O → Issues
    check_transition (name, t) =
        let op = transition_op name in
        proc_metadata op t.metadata
        ++ (proc_globals op t.globals
            ++ (proc_assignments op t.assignments
                ++ (proc_valencies op t.valencies
                    ++ (proc_errors op t.errors
                        ++ (proc_inputs op t.inputs
                            ++ proc_default (has t.assignments) (unknown_default_assignment op)
                                t.default_assignment)))))

    unfoldable pub check_extension : ℕ × ExtensionIface O → Issues
    check_extension (name, e) =
        let op = extension_op name in
        proc_metadata op e.metadata
        ++ (proc_globals op e.globals
            ++ (proc_assignments op e.assignments
                ++ (proc_valencies op e.valencies
                    ++ (proc_errors op e.errors
                        ++ (gather (unless_known (has self.valencies) (unknown_redeem op))
                              e.redeems.elements
                            ++ proc_default (has e.assignments) (unknown_default_assignment op)
                                e.default_assignment)))))

    -- `self.transitions.keys()` against the extensions
    unfoldable pub check_names : Issues
    check_names =
        gather
          (λ entry.
            if has self.extensions entry.0 then some (repeated_operation_name entry.0) else none)
          self.transitions.entries

    unfoldable pub check : C.Stamp → Result Issues (Unit {0})
    check timestamp = report (
        check_time timestamp
        ++ (check_genesis self.genesis
            ++ (gather_all check_transition self.transitions.entries
                ++ (gather_all check_extension self.extensions.entries
                    ++ (check_names
                        ++ (proc_default (λ n. has self.transitions n || has self.extensions n)
                              unknown_default_op self.default_operation
                            ++ (gather
                                  (unless_present (λ g. g.required) (has self.genesis.globals)
                                    required_global_absent)
                                  self.global_state.entries
                                ++ (gather
                                      (unless_present (λ a. a.required)
                                        (has self.genesis.assignments) required_assignment_absent)
                                      self.assignments.entries
                                    ++ gather
                                        (unless_present (λ v. v.required)
                                          (Set.contains self.genesis.valencies)
                                          required_valency_absent)
                                        self.valencies.entries))))))))
