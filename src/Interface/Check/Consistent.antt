-- ===== src/Interface/Check/Consistent.antt =====
-- How the parts of an interface fit each other, and `Iface::check` (src/interface/iface.rs).
use rgb_wallet.Prelude.{
  ℕ, [], ◌∷◌, Option, none, some, Bool, true, false, not, ◌&&◌, ◌||◌, if◌then◌else◌, ltb, ok,
  gather_lem, gather_all_lem, both_empty, report_lem, ◌≡◌, ◌↔◌, ◌⊎◌, ◌≤◌, All, arith, refl,
}
use rgb_wallet.Collections.Map
use rgb_wallet.Collections.Map.{Map}
use rgb_wallet.Collections.Set
use rgb_wallet.Collections.Set.{Set}
use rgb_wallet.Collections.Ord.{nat_ord}
use rgb_wallet.Interface.Types.{
  Occurrences, GenesisIface, TransitionIface, ExtensionIface, Iface, OpName, genesis_op,
  transition_op, extension_op,
}
use rgb_wallet.Interface.Check.{
  Clock, IfaceInconsistency, has, unless_known, unless_allowed, unless_present, Issues, check_time,
  proc_globals, proc_assignments, proc_valencies, proc_errors, proc_metadata, proc_inputs,
  proc_default, check_genesis, check_transition, check_extension, check_names, check,
}

-- The field is declared, and by several values if more than one is asked.
abbrev pub Allowed : {V Occ : Type 0} → (V → Bool) → (Occ → ℕ) → Map ℕ V → ℕ × Occ → Type 0
Allowed {V} multiple min_value m (name, occ) =
    (v : V) × (Map.get m name ≡ some v) × ((min_value occ ≤ 1) ⊎ (multiple v ≡ true))

abbrev pub Known : (ℕ → Bool) → ℕ → Type 0
Known known name = known name ≡ true

abbrev pub Present : {V : Type 0} → (V → Bool) → (ℕ → Bool) → ℕ × V → Type 0
Present required known (name, v) = (required v ≡ false) ⊎ (known name ≡ true)

abbrev pub DefaultKnown : (ℕ → Bool) → Option ℕ → Type 0
DefaultKnown known none = Unit
DefaultKnown known (some name) = known name ≡ true

known_lem :
    {E : Type 0} (known : ℕ → Bool) (complaint : ℕ → E) (n : ℕ)
    → (unless_known known complaint n ≡ none) ↔ Known known n
unfolding unless_known
known_lem known complaint n = ground arith

single_lem :
    {V E : Type 0} (v : V) (multiple : V → Bool) (least : ℕ) (e : E)
    → ((if ltb 1 least && not (multiple v) then some e else none) ≡ none)
      ↔ ((least ≤ 1) ⊎ (multiple v ≡ true))
single_lem v multiple least e = ground arith

looked_up :
    {V E : Type 0} (multiple : V → Bool) (least : ℕ) (a b : E) (o : Option V)
    → ((elim o [
      | some v ↦ if ltb 1 least && not (multiple v) then some a else none
      | none ↦ some b
    ])
        ≡ none)
      ↔ ((v : V) × (o ≡ some v) × ((least ≤ 1) ⊎ (multiple v ≡ true)))
looked_up multiple least a b none = ((λ e. cc), λ (v, e, _). cc)
looked_up multiple least a b (some v) =
    ((λ e. (v, refl, (single_lem v multiple least a).0 e)), λ (w, same, h). ground (arith, h, same))

allowed_lem :
    {V E Occ : Type 0} (multiple : V → Bool) (min_value : Occ → ℕ) (m : Map ℕ V) (a b : ℕ → E)
    (x : ℕ × Occ)
    → (unless_allowed multiple min_value m a b x ≡ none) ↔ Allowed multiple min_value m x
unfolding unless_allowed
allowed_lem multiple min_value m a b (n, occ) =
    looked_up multiple (min_value occ) (a n) (b n) (Map.get m n)

present_lem :
    {V E : Type 0} (required : V → Bool) (known : ℕ → Bool) (absent : ℕ → E) (x : ℕ × V)
    → (unless_present required known absent x ≡ none) ↔ Present required known x
unfolding unless_present
present_lem required known absent (n, v) = ground arith

module _ (C : Clock) (O : Occurrences) (self : Iface O) where
  abbrev pub Timely : C.Stamp → Type 0
  Timely stamp = (time : C.Time) × (C.timestamp_opt stamp ≡ some time) × (C.in_future time ≡ false)

  abbrev pub GlobalsAllowed : Map ℕ O.Occ → Type 0
  GlobalsAllowed m = All (Allowed (λ g. g.multiple) O.min_value self.global_state) m.entries

  abbrev pub AssignsAllowed : Map ℕ O.Occ → Type 0
  AssignsAllowed m = All (Allowed (λ a. a.multiple) O.min_value self.assignments) m.entries

  abbrev pub AllKnown : (ℕ → Bool) → Set ℕ → Type 0
  AllKnown known s = All (Known known) s.elements

  abbrev pub GenesisConsistent : GenesisIface O → Type 0
  GenesisConsistent g =
      AllKnown (has self.metadata) g.metadata
      × (GlobalsAllowed g.globals
          × (AssignsAllowed g.assignments
              × (AllKnown (has self.valencies) g.valencies × AllKnown (has self.errors) g.errors)))

  abbrev pub TransitionConsistent : ℕ × TransitionIface O → Type 0
  TransitionConsistent (name, t) =
      AllKnown (has self.metadata) t.metadata
      × (GlobalsAllowed t.globals
          × (AssignsAllowed t.assignments
              × (AllKnown (has self.valencies) t.valencies
                  × (AllKnown (has self.errors) t.errors
                      × (AssignsAllowed t.inputs
                          × DefaultKnown (has t.assignments) t.default_assignment)))))

  abbrev pub ExtensionConsistent : ℕ × ExtensionIface O → Type 0
  ExtensionConsistent (name, e) =
      AllKnown (has self.metadata) e.metadata
      × (GlobalsAllowed e.globals
          × (AssignsAllowed e.assignments
              × (AllKnown (has self.valencies) e.valencies
                  × (AllKnown (has self.errors) e.errors
                      × (AllKnown (has self.valencies) e.redeems
                          × DefaultKnown (has e.assignments) e.default_assignment)))))

  -- The parts of an interface fit each other.
  abbrev pub IsConsistent : C.Stamp → Type 0
  IsConsistent stamp =
      Timely stamp
      × (GenesisConsistent self.genesis
          × (All TransitionConsistent self.transitions.entries
              × (All ExtensionConsistent self.extensions.entries
                  × (All (λ entry. has self.extensions entry.0 ≡ false) self.transitions.entries
                      × (DefaultKnown (λ n. has self.transitions n || has self.extensions n)
                            self.default_operation
                          × (All (Present (λ g. g.required) (has self.genesis.globals))
                                self.global_state.entries
                              × (All (Present (λ a. a.required) (has self.genesis.assignments))
                                    self.assignments.entries
                                  × All
                                      (Present (λ v. v.required)
                                        (Set.contains self.genesis.valencies))
                                      self.valencies.entries)))))))

  time_lem : (stamp : C.Stamp) → (check_time C O stamp ≡ []) ↔ Timely stamp
  unfolding check_time
  time_lem stamp = timed stamp (C.timestamp_opt stamp)
    where
      timed :
          (stamp : C.Stamp) (o : Option C.Time)
          → (◌≡◌ {A = Issues C O}
              (elim o [
                | some time ↦
                    if C.in_future time then IfaceInconsistency.future_timestamp time ∷ [] else []
                | none ↦ IfaceInconsistency.invalid_timestamp stamp ∷ []
              ])
              [])
            ↔ ((time : C.Time) × (o ≡ some time) × (C.in_future time ≡ false))
      timed stamp none = ((λ e. cc), λ (t, e, _). cc)
      timed stamp (some time) =
          ((λ e. (time, refl, ground arith)), λ (t, same, h). ground (arith, h, same))

  globals_lem :
      (op : OpName) (m : Map ℕ O.Occ) → (proc_globals C O self op m ≡ []) ↔ GlobalsAllowed m
  unfolding proc_globals
  globals_lem op m = gather_lem _ (allowed_lem _ _ _ _ _) m.entries

  assignments_lem :
      (op : OpName) (m : Map ℕ O.Occ) → (proc_assignments C O self op m ≡ []) ↔ AssignsAllowed m
  unfolding proc_assignments
  assignments_lem op m = gather_lem _ (allowed_lem _ _ _ _ _) m.entries

  inputs_lem : (op : OpName) (m : Map ℕ O.Occ) → (proc_inputs C O self op m ≡ []) ↔ AssignsAllowed m
  unfolding proc_inputs
  inputs_lem op m = gather_lem _ (allowed_lem _ _ _ _ _) m.entries

  valencies_lem :
      (op : OpName) (s : Set ℕ)
      → (proc_valencies C O self op s ≡ []) ↔ AllKnown (has self.valencies) s
  unfolding proc_valencies
  valencies_lem op s = gather_lem _ (known_lem _ _) s.elements

  errors_lem :
      (op : OpName) (s : Set ℕ) → (proc_errors C O self op s ≡ []) ↔ AllKnown (has self.errors) s
  unfolding proc_errors
  errors_lem op s = gather_lem _ (known_lem _ _) s.elements

  metadata_lem :
      (op : OpName) (s : Set ℕ)
      → (proc_metadata C O self op s ≡ []) ↔ AllKnown (has self.metadata) s
  unfolding proc_metadata
  metadata_lem op s = gather_lem _ (known_lem _ _) s.elements

  default_lem :
      (known : ℕ → Bool) (complaint : ℕ → IfaceInconsistency C) (o : Option ℕ)
      → (proc_default C O self known complaint o ≡ []) ↔ DefaultKnown known o
  unfolding proc_default
  default_lem known complaint none = ((λ e. tt), λ _. refl)
  default_lem known complaint (some name) = ground arith

  names_lem :
      (check_names C O self ≡ [])
      ↔ All (λ entry. has self.extensions entry.0 ≡ false) self.transitions.entries
  unfolding check_names
  names_lem = gather_lem _ (λ entry. ground arith) self.transitions.entries

  genesis_lem : (g : GenesisIface O) → (check_genesis C O self g ≡ []) ↔ GenesisConsistent g
  unfolding check_genesis
  genesis_lem g = both_empty (metadata_lem genesis_op g.metadata) (
      both_empty (globals_lem genesis_op g.globals) (
        both_empty (assignments_lem genesis_op g.assignments)
          (both_empty (valencies_lem genesis_op g.valencies) (errors_lem genesis_op g.errors))))

  transition_lem :
      (entry : ℕ × TransitionIface O)
      → (check_transition C O self entry ≡ []) ↔ TransitionConsistent entry
  unfolding check_transition
  transition_lem (name, t) =
      let op = transition_op name in
      both_empty (metadata_lem op t.metadata) (
        both_empty (globals_lem op t.globals) (
          both_empty (assignments_lem op t.assignments) (
            both_empty (valencies_lem op t.valencies) (
              both_empty (errors_lem op t.errors) (
                both_empty (inputs_lem op t.inputs)
                  (default_lem (has t.assignments) _ t.default_assignment))))))

  extension_lem :
      (entry : ℕ × ExtensionIface O)
      → (check_extension C O self entry ≡ []) ↔ ExtensionConsistent entry
  unfolding check_extension
  extension_lem (name, e) =
      let op = extension_op name in
      both_empty (metadata_lem op e.metadata) (
        both_empty (globals_lem op e.globals) (
          both_empty (assignments_lem op e.assignments) (
            both_empty (valencies_lem op e.valencies) (
              both_empty (errors_lem op e.errors) (
                both_empty (gather_lem _ (known_lem _ _) e.redeems.elements)
                  (default_lem (has e.assignments) _ e.default_assignment))))))

  -- `Iface::check` passes exactly the interfaces whose time is not in the future, whose operations
  -- use declared names only, by several values only where that is declared, whose defaults exist,
  -- whose genesis has what is required, and whose transitions and extensions have different names.
  pub check_lem : (stamp : C.Stamp) → (check C O self stamp ≡ ok tt) ↔ IsConsistent stamp
  unfolding check
  check_lem stamp =
      let found = both_empty (time_lem stamp) (
        both_empty (genesis_lem self.genesis) (
          both_empty (gather_all_lem _ transition_lem self.transitions.entries) (
            both_empty (gather_all_lem _ extension_lem self.extensions.entries) (
              both_empty names_lem (
                both_empty (default_lem _ _ self.default_operation) (
                  both_empty (gather_lem _ (present_lem _ _ _) self.global_state.entries) (
                    both_empty (gather_lem _ (present_lem _ _ _) self.assignments.entries)
                      (gather_lem _ (present_lem _ _ _) self.valencies.entries)))))))) in
      ((λ h. found.0 ((report_lem _).0 h)), λ h. (report_lem _).1 (found.1 h))
