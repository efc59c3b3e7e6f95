-- ===== src/Interface/Extend.antt =====
-- `Iface::extended` and the extension of operations (src/interface/inheritance.rs). A part that is
-- extended comes with the errors that it pushes, in their order; an extension with an error returns
-- all of them and no interface.
pub mod Fields
pub mod Ifaces
pub mod Refines
use Prim.Native.String.{String}
use rgb_wallet.Prelude.{
  ℕ, List, [], ◌∷◌, ◌++◌, Option, none, some, Bool, true, false, not, ◌&&◌, ◌||◌, if◌then◌else◌,
  Result, ok, err, eqb, ltb, is_empty, length,
}
use rgb_wallet.Collections.Map
use rgb_wallet.Collections.Map.{Map}
use rgb_wallet.Collections.Set
use rgb_wallet.Collections.Set.{Set}
use rgb_wallet.Collections.Ord.{nat_ord}
use rgb_wallet.Collections.Confinement.{Confinement, map_len, set_len}
use rgb_wallet.Interface.Types.{
  Occurrences, GlobalIface, AssignIface, ValencyIface, GenesisIface, TransitionIface,
  ExtensionIface, Iface, Modifier, OpName, genesis_op, transition_op, ExtensionError, meta_overflow,
  global_overflow, assignment_overflow, valency_overflow, transition_overflow, error_overflow,
  default_override, inheritance_overflow, global_type, global_occ, assignment_type, assignment_occ,
  assignment_public, valency_occ, op_final, op_no_override, op_default_override, op_overflow,
  op_occ, is_superset, is_final, can_be_overridden_by,
}

abbrev pub Errors : Type 0
Errors = List ExtensionError

-- The errors of all parts, in the order of the parts
unfoldable pub join_errors : List Errors → Errors
join_errors [] = []
join_errors (es ∷ rest) = es ++ join_errors rest

abbrev pub with_error : {A : Type 0} → ExtensionError → A × Errors → A × Errors
with_error e (a, es) = (a, e ∷ es)

-- `a.is_some() && b != a`
abbrev pub some_other : Option ℕ → Option ℕ → Bool
some_other none b = false
some_other (some a) none = true
some_other (some a) (some b) = not (eqb a b)

unfoldable pub check_global : ℕ → GlobalIface → GlobalIface → Option ExtensionError
check_global name orig e =
    if some_other orig.sem_id e.sem_id
    then some (global_type name)
    else if orig.required && not e.required
    then some (global_occ name)
    else none

unfoldable pub check_assignment : ℕ → AssignIface → AssignIface → Option ExtensionError
check_assignment name orig e =
    if not (is_superset orig.owned_state e.owned_state)
    then some (assignment_type name)
    else if orig.required && not e.required
    then some (assignment_occ name)
    else if orig.public && not e.public
    then some (assignment_public name)
    else none

unfoldable pub check_valency : ℕ → ValencyIface → ValencyIface → Option ExtensionError
check_valency name orig e =
    if orig.required && not e.required then some (valency_occ name) else none

-- The test of `check_occs`
unfoldable pub check_occ :
    (O : Occurrences) → OpName → String → ℕ → O.Occ → O.Occ → Option ExtensionError
check_occ O op state name orig occ =
    if ltb (O.min_value occ) (O.min_value orig) then some (op_occ op state name) else none

-- A default is set by the extension, or must be the same.
unfoldable pub extend_default : ExtensionError → Option ℕ → Option ℕ → Option ℕ × Errors
extend_default conflict orig none = (orig, [])
extend_default conflict orig (some e) =
    if some_other orig (some e) then (orig, conflict ∷ []) else (some e, [])

unfoldable pub check_modifier : OpName → Modifier → Modifier → Errors
check_modifier op orig e =
    if is_final orig
    then op_final op ∷ []
    else if not (can_be_overridden_by orig e)
    then op_no_override op ∷ []
    else []

abbrev pub finish : {A : Type 0} → A → Errors → Result Errors A
finish a [] = ok a
finish a (e ∷ es) = err (e ∷ es)

module _ (conf : Confinement) where
  -- The loop over the fields of the extension: a new field is inserted, or the loop breaks with an
  -- overflow; a field that is there is replaced, or `check` tells why not.
  unfoldable pub merge_fields :
      {V : Type 0}
      → (ℕ → V → V → Option ExtensionError)
      → ExtensionError
      → List (ℕ × V)
      → Map ℕ V
      → Map ℕ V × Errors
  merge_fields check overflow [] m = (m, [])
  merge_fields check overflow ((k, e) ∷ rest) m =
      let next = merge_fields check overflow rest (Map.insert m k e) in
      let skipped = merge_fields check overflow rest m in
      elim (Map.get m k) [
        | none ↦ if conf.tiny_full (map_len m) then (m, overflow ∷ []) else next
        | some orig ↦ elim (check k orig e) [
          | some reason ↦ with_error reason skipped
          | none ↦ next
        ]
      ]

  -- `check_presence`, and `extend` of a confined set
  unfoldable pub push_all : ExtensionError → List ℕ → Set ℕ → Set ℕ × Errors
  push_all overflow [] s = (s, [])
  push_all overflow (a ∷ rest) s =
      let next = push_all overflow rest (Set.insert s a) in
      if conf.tiny_full (set_len s) then (s, overflow ∷ []) else next

  -- `extend` of a confined map: entries are replaced
  unfoldable pub put_all : {V : Type 0} → ExtensionError → List (ℕ × V) → Map ℕ V → Map ℕ V × Errors
  put_all overflow [] m = (m, [])
  put_all overflow ((k, v) ∷ rest) m =
      let next = put_all overflow rest (Map.insert m k v) in
      if conf.tiny_full (map_len m) then (m, overflow ∷ []) else next

  -- `extend` of a confined vector
  unfoldable pub append_all : ExtensionError → List ℕ → List ℕ → List ℕ × Errors
  append_all overflow [] l = (l, [])
  append_all overflow (a ∷ rest) l =
      let next = append_all overflow rest (l ++ a ∷ []) in
      if conf.tiny_full (length l) then (l, overflow ∷ []) else next

module _ (conf : Confinement) (O : Occurrences) where
  abbrev pub occs : OpName → String → Map ℕ O.Occ → Map ℕ O.Occ → Map ℕ O.Occ × Errors
  occs op state orig e =
      merge_fields conf (check_occ O op state) (op_overflow op state) e.entries orig

  abbrev pub names : OpName → String → Set ℕ → Set ℕ → Set ℕ × Errors
  names op state orig e = push_all conf (op_overflow op state) e.elements orig

  -- `GenesisIface::extended`
  unfoldable pub extend_genesis : GenesisIface O → GenesisIface O → Result Errors (GenesisIface O)
  extend_genesis self ext =
      let op = genesis_op in
      let (metadata, e1) = names op "metadata" self.metadata ext.metadata in
      let (globals, e2) = occs op "global" self.globals ext.globals in
      let (assignments, e3) = occs op "assignment" self.assignments ext.assignments in
      let (valencies, e4) = names op "valency" self.valencies ext.valencies in
      let (errors, e5) = names op "error" self.errors ext.errors in
      finish
        (record self {
          metadata = metadata;
          globals = globals;
          assignments = assignments;
          valencies = valencies;
          errors = errors;
        })
        (join_errors (check_modifier op self.modifier ext.modifier ∷ e1 ∷ e2 ∷ e3 ∷ e4 ∷ e5 ∷ []))

  -- `TransitionIface::extended`
  unfoldable pub extend_transition :
      ℕ → TransitionIface O → TransitionIface O → Result Errors (TransitionIface O)
  extend_transition name self ext =
      let op = transition_op name in
      let (metadata, e1) = names op "metadata" self.metadata ext.metadata in
      let (globals, e2) = occs op "global" self.globals ext.globals in
      let (assignments, e3) = occs op "assignment" self.assignments ext.assignments in
      let (inputs, e4) = occs op "input" self.inputs ext.inputs in
      let (valencies, e5) = names op "valency" self.valencies ext.valencies in
      let (errors, e6) = names op "error" self.errors ext.errors in
      let (default_assignment, e7) =
        extend_default (op_default_override op) self.default_assignment ext.default_assignment in
      finish
        (record self {
          optional = self.optional || ext.optional;
          metadata = metadata;
          globals = globals;
          assignments = assignments;
          inputs = inputs;
          valencies = valencies;
          errors = errors;
          default_assignment = default_assignment;
        })
        (join_errors
          (check_modifier op self.modifier ext.modifier ∷ e1 ∷ e2 ∷ e3 ∷ e4 ∷ e5 ∷ e6 ∷ e7 ∷ []))

  -- `ExtensionIface::extended`; the name in its errors is that of a transition, as in the source.
  unfoldable pub extend_extension :
      ℕ → ExtensionIface O → ExtensionIface O → Result Errors (ExtensionIface O)
  extend_extension name self ext =
      let op = transition_op name in
      let (metadata, e1) = names op "metadata" self.metadata ext.metadata in
      let (globals, e2) = occs op "global" self.globals ext.globals in
      let (assignments, e3) = occs op "assignment" self.assignments ext.assignments in
      let (valencies, e4) = names op "valency" self.valencies ext.valencies in
      let (redeems, e5) = names op "input" self.redeems ext.redeems in
      let (errors, e6) = names op "error" self.errors ext.errors in
      let (default_assignment, e7) =
        extend_default (op_default_override op) self.default_assignment ext.default_assignment in
      finish
        (record self {
          optional = self.optional || ext.optional;
          metadata = metadata;
          globals = globals;
          assignments = assignments;
          valencies = valencies;
          redeems = redeems;
          errors = errors;
          default_assignment = default_assignment;
        })
        (join_errors
          (check_modifier op self.modifier ext.modifier ∷ e1 ∷ e2 ∷ e3 ∷ e4 ∷ e5 ∷ e6 ∷ e7 ∷ []))
