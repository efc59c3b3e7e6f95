-- ===== src/Schema/Subset.antt =====
-- When a schema is part of a root schema (src/interface/inheritance.rs).
use mathlib.Core.Path.{subst}
use rgb_wallet.Prelude.{
  ℕ, [], ◌∷◌, Option, none, some, true, if◌then◌else◌, ok, gather_lem, gather_all_lem, both_empty,
  report_lem, ◌≡◌, ◌↔◌, All, arith, refl, sym,
}
use rgb_wallet.Collections.Map
use rgb_wallet.Collections.Map.{Map}
use rgb_wallet.Collections.Set
use rgb_wallet.Collections.Set.{Set}
use rgb_wallet.Collections.Ord.{nat_ord}
use rgb_wallet.Schema.{
  Comparable, SchemaParts, OpKind, genesis_kind, transition_kind, extension_kind, OpFullType,
  genesis, InheritanceFailure, Failures, Inputs, Redeems, OpSchema, Schema, mismatch, absent,
  check_inputs, check_redeems, check_op, check_known, check_inheritance,
}

-- Each entry stands in the root with the same value.
abbrev pub Part : {V : Type 0} → Map ℕ V → Map ℕ V → Type 0
Part m root = All (λ e. Map.get root e.0 ≡ some e.1) m.entries

abbrev pub Subset : Set ℕ → Set ℕ → Type 0
Subset s root = All (λ n. Set.contains root n ≡ true) s.elements

module _ (P : SchemaParts) where
  abbrev pub InputsPart : (kind : OpKind) → Inputs P kind → Inputs P kind → Type 0
  InputsPart transition_kind m root = Part m root
  InputsPart genesis_kind m root = Unit
  InputsPart extension_kind m root = Unit

  abbrev pub RedeemsPart : (kind : OpKind) → Redeems P kind → Redeems P kind → Type 0
  RedeemsPart extension_kind s root = Subset s root
  RedeemsPart genesis_kind s root = Unit
  RedeemsPart transition_kind s root = Unit

  abbrev pub OpPart : (kind : OpKind) → OpSchema P kind → OpSchema P kind → Type 0
  OpPart kind op root =
      Part op.globals root.globals
      × (InputsPart kind op.inputs root.inputs
          × (Part op.assignments root.assignments
              × (RedeemsPart kind op.redeems root.redeems × Subset op.valencies root.valencies)))

  -- The root has an operation of that type, which the operation is part of.
  abbrev pub OpsPart : (kind : OpKind) → Map ℕ (OpSchema P kind) → Map ℕ (OpSchema P kind) → Type 0
  OpsPart kind m root =
      All (λ e. (r : OpSchema P kind) × (Map.get root e.0 ≡ some r) × OpPart kind e.1 r) m.entries

  abbrev pub SubSchema : Schema P → Schema P → Type 0
  SubSchema self root =
      Part self.global_types root.global_types
      × (Part self.owned_types root.owned_types
          × (Subset self.valency_types root.valency_types
              × (OpPart genesis_kind self.genesis root.genesis
                  × (OpsPart transition_kind self.transitions root.transitions
                      × OpsPart extension_kind self.extensions root.extensions))))

matched :
    (C : Comparable) (o : Option C.Value) (v : C.Value) (e : InheritanceFailure)
    → ((elim o [ none ↦ some e | some r ↦ if C.same r v then none else some e ]) ≡ none)
      ↔ (o ≡ some v)
matched C none v e = ((λ h. cc), λ h. cc)
matched C (some r) v e = ground (arith, C.same_iff r v)

mismatch_lem :
    (C : Comparable) (root : Map ℕ C.Value) (failure : ℕ → InheritanceFailure) (x : ℕ × C.Value)
    → (mismatch C root failure x ≡ none) ↔ (Map.get root x.0 ≡ some x.1)
unfolding mismatch
mismatch_lem C root failure (k, v) = matched C (Map.get root k) v (failure k)

absent_lem :
    (root : Set ℕ) (failure : ℕ → InheritanceFailure) (n : ℕ)
    → (absent root failure n ≡ none) ↔ (Set.contains root n ≡ true)
unfolding absent
absent_lem root failure n = ground arith

some_inj : {A : Type 0} {a b : A} → some a ≡ some b → a ≡ b
some_inj h = cc

module _ (P : SchemaParts) where
  inputs_lem :
      (kind : OpKind) (op : OpFullType) (m root : Inputs P kind)
      → (check_inputs P kind op m root ≡ []) ↔ InputsPart P kind m root
  unfolding check_inputs
  inputs_lem transition_kind op m root = gather_lem _ (mismatch_lem P.occurrences root _) m.entries
  inputs_lem genesis_kind op m root = ((λ e. tt), λ _. refl)
  inputs_lem extension_kind op m root = ((λ e. tt), λ _. refl)

  redeems_lem :
      (kind : OpKind) (op : OpFullType) (s root : Redeems P kind)
      → (check_redeems P kind op s root ≡ []) ↔ RedeemsPart P kind s root
  unfolding check_redeems
  redeems_lem extension_kind op s root = gather_lem _ (absent_lem root _) s.elements
  redeems_lem genesis_kind op s root = ((λ e. tt), λ _. refl)
  redeems_lem transition_kind op s root = ((λ e. tt), λ _. refl)

  op_lem :
      (kind : OpKind) (op : OpFullType) (self root : OpSchema P kind)
      → (check_op P kind op self root ≡ []) ↔ OpPart P kind self root
  unfolding check_op
  op_lem kind op self root =
      both_empty (gather_lem _ (mismatch_lem P.occurrences root.globals _) self.globals.entries) (
        both_empty (inputs_lem kind op self.inputs root.inputs) (
          both_empty
            (gather_lem _ (mismatch_lem P.occurrences root.assignments _) self.assignments.entries)
            (both_empty (redeems_lem kind op self.redeems root.redeems)
              (gather_lem _ (absent_lem root.valencies _) self.valencies.elements))))

  known_lem :
      (kind : OpKind) (full : ℕ → OpFullType) (failure : ℕ → InheritanceFailure)
      (root : Map ℕ (OpSchema P kind)) (e : ℕ × OpSchema P kind)
      → (check_known P kind full failure root e ≡ [])
        ↔ ((r : OpSchema P kind) × (Map.get root e.0 ≡ some r) × OpPart P kind e.1 r)
  unfolding check_known
  known_lem kind full failure root (k, op) = found (Map.get root k)
    where
      found :
          (o : Option (OpSchema P kind))
          → (◌≡◌ {A = Failures}
              (elim o [ some r ↦ check_op P kind (full k) op r | none ↦ failure k ∷ [] ])
              [])
            ↔ ((r : OpSchema P kind) × (o ≡ some r) × OpPart P kind op r)
      found none = ((λ e. cc), λ (r, e, _). cc)
      found (some s) =
          let here = op_lem kind (full k) op s in
          (
            (λ e. (s, refl, here.0 e)),
            λ (r, same, h). here.1 (subst (OpPart P kind op) (some_inj (sym same)) h),
          )

  -- The check of a schema against a root passes exactly if each type, each operation and each
  -- field of an operation stands in the root with the same format, state schema or occurrences.
  pub check_inheritance_lem :
      (self root : Schema P) → (check_inheritance P self root ≡ ok tt) ↔ SubSchema P self root
  unfolding check_inheritance
  check_inheritance_lem self root =
      let found =
        both_empty
          (gather_lem _ (mismatch_lem P.global_format root.global_types _)
            self.global_types.entries)
          (both_empty
            (gather_lem _ (mismatch_lem P.state_schema root.owned_types _) self.owned_types.entries)
            (both_empty (gather_lem _ (absent_lem root.valency_types _) self.valency_types.elements)
              (both_empty (op_lem genesis_kind genesis self.genesis root.genesis) (
                both_empty
                  (gather_all_lem _ (known_lem _ _ _ root.transitions) self.transitions.entries)
                  (gather_all_lem _ (known_lem _ _ _ root.extensions)
                    self.extensions.entries))))) in
      ((λ h. found.0 ((report_lem _).0 h)), λ h. (report_lem _).1 (found.1 h))
