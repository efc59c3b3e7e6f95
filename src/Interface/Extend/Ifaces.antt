-- ===== src/Interface/Extend/Ifaces.antt =====
-- `Iface::extended` and `Iface::inherit` (src/interface/inheritance.rs).
use rgb_wallet.Prelude.{
  ℕ, List, [], ◌∷◌, ◌++◌, map, Option, none, some, Bool, Result, ok, err, if◌then◌else◌,
}
use rgb_wallet.Collections.Map
use rgb_wallet.Collections.Map.{Map}
use rgb_wallet.Collections.Ord.{nat_ord}
use rgb_wallet.Collections.Confinement.{Confinement, map_len}
use rgb_wallet.Interface.Types.{
  Occurrences, Iface, ExtensionError, meta_overflow, global_overflow, assignment_overflow,
  valency_overflow, transition_overflow, error_overflow, default_override, inheritance_overflow,
}
use rgb_wallet.Interface.Extend.{
  Errors, finish, join_errors, merge_fields, put_all, append_all, extend_default, check_global,
  check_assignment, check_valency, extend_genesis, extend_transition, extend_extension,
}

abbrev pub value_or {ℓ} : {A E : Type ℓ} → A → Result E A → A
value_or a (ok b) = b
value_or a (err e) = a

abbrev pub errors_of {ℓ} : {A : Type ℓ} {E : Type ℓ} → Result (List E) A → List E
errors_of (ok b) = []
errors_of (err e) = e

module _ (conf : Confinement) where
  -- The loops over transitions and over extensions. An operation is taken out of the map and comes back extended,
  -- or stays out with the errors of its extension; an optional one that the interface has not is skipped.
  unfoldable pub merge_ops :
      {V : Type 0}
      → (V → Bool)
      → (ℕ → V → V → Result Errors V)
      → List (ℕ × V)
      → Map ℕ V
      → Map ℕ V × Errors
  merge_ops optional extended [] m = (m, [])
  merge_ops optional extended ((k, op) ∷ rest) m =
      let skipped = merge_ops optional extended rest m in
      let inserted = merge_ops optional extended rest (Map.insert m k op) in
      elim (Map.get m k) [
        | none ↦
            if optional op
            then skipped
            else if conf.tiny_full (map_len m)
            then (m, transition_overflow ∷ [])
            else inserted
        | some orig ↦ elim (extended k orig op) [
          | ok new ↦ merge_ops optional extended rest (Map.insert (Map.remove m k) k new)
          | err reasons ↦
              let (left, more) = merge_ops optional extended rest (Map.remove m k) in
              (left, reasons ++ more)
        ]
      ]

module _ (conf : Confinement) (O : Occurrences) (iface_id : Iface O → ℕ) where
  -- `push`, `extend` and `push` on the confined list of the parents
  unfoldable pub extend_inherits : Iface O → Iface O → List ℕ × Errors
  extend_inherits self ext =
      append_all conf inheritance_overflow (iface_id self ∷ (ext.inherits ++ iface_id ext ∷ []))
        self.inherits

  unfoldable pub extended : Iface O → Iface O → ℕ → Result Errors (Iface O)
  extended self ext name =
      let (metadata, e1) = put_all conf meta_overflow ext.metadata.entries self.metadata in
      let (globals, e2) =
        merge_fields conf check_global global_overflow ext.global_state.entries self.global_state in
      let (assigns, e3) =
        merge_fields conf check_assignment assignment_overflow ext.assignments.entries
          self.assignments in
      let (valencies, e4) =
        merge_fields conf check_valency valency_overflow ext.valencies.entries self.valencies in
      let genesis = extend_genesis conf O self.genesis ext.genesis in
      let (transitions, e6) =
        merge_ops conf (λ op. op.optional) (extend_transition conf O) ext.transitions.entries
          self.transitions in
      let (extensions, e7) =
        merge_ops conf (λ op. op.optional) (extend_extension conf O) ext.extensions.entries
          self.extensions in
      let (messages, e8) = put_all conf error_overflow ext.errors.entries self.errors in
      let (default_op, e9) =
        extend_default default_override self.default_operation ext.default_operation in
      let (inherits, e10) = extend_inherits self ext in
      finish
        (record self {
          name = name;
          inherits = inherits;
          metadata = metadata;
          global_state = globals;
          assignments = assigns;
          valencies = valencies;
          genesis = value_or self.genesis genesis;
          transitions = transitions;
          extensions = extensions;
          default_operation = default_op;
          errors = messages;
        })
        (join_errors (e1 ∷ e2 ∷ e3 ∷ e4 ∷ errors_of genesis ∷ e6 ∷ e7 ∷ e8 ∷ e9 ∷ e10 ∷ []))

  -- The loop of `Iface::inherit`: the errors come with the name of the interface that did not extend the others.
  unfoldable pub inherit_all :
      ℕ → Iface O → List (Iface O) → Result (List (ExtensionError × ℕ)) (Iface O)
  inherit_all name iface [] = ok iface
  inherit_all name iface (ext ∷ rest) = elim (extended iface ext name) [
    | ok next ↦ inherit_all name next rest
    | err reasons ↦ err (map (λ e. (e, ext.name)) reasons)
  ]

  -- `Iface::inherit`, where no interface at all is a panic
  unfoldable pub inherit :
      ℕ → List (Iface O) → Option (Result (List (ExtensionError × ℕ)) (Iface O))
  inherit name [] = none
  inherit name (iface ∷ rest) = some (inherit_all name iface rest)
