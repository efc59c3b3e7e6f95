-- ===== src/Builder/Transition/Completed.antt =====
-- The transition that a `TransitionBuilder` (src/interface/builder.rs) completes.
use rgb_wallet.Prelude.{ℕ, List, map, All, ◌≡◌, refl, ap}
use rgb_wallet.Collections.Map
use rgb_wallet.Collections.Map.{Map}
use rgb_wallet.Collections.Ord.{nat_ord}
use rgb_wallet.Builder.{BuilderCore, built, ◌>>=◌}
use rgb_wallet.Builder.WellFormed.{Fitting}
use rgb_wallet.Builder.Complete.Parts.{AmountsAt}
use rgb_wallet.Builder.Complete.Whole.{assignments_of, Room, Balances, complete_lem}
use rgb_wallet.Builder.Transition.{
  TransitionBuilder, Transition, transition_of, complete_transition,
}
use rgb_wallet.Builder.Transition.Calls.{Reachable}
use rgb_wallet.Builder.Transition.Reachable.{Reachable-IsWellFormed}

module _ (C : BuilderCore) (balanced : (inputs outputs : List C.Blinding) → C.Blinding)
    (self : TransitionBuilder C) where
  -- A transition with the parts of the builder, and without metadata
  abbrev pub IsCompleted : Transition C → Type 0
  IsCompleted t =
      (t.contract_id ≡ self.contract_id)
      × ((t.nonce ≡ self.nonce)
          × ((t.transition_type ≡ self.transition_type)
              × ((t.metadata ≡ C.no_metadata)
                  × ((t.globals ≡ self.builder.global)
                      × ((t.inputs ≡ map (λ i. i.0) self.inputs.entries)
                          × ((ty : ℕ)
                              → Map.get t.assignments ty
                                ≡ assignments_of C balanced self.inputs.entries self.builder
                                    ty))))))

  -- For a transition builder that calls lead to, whose inputs of types with amounts are amounts,
  -- where the collection of assignments is not full before all types are in it, a vector takes one
  -- assignment and one more where a collection of seals is not full, and balancing the factors of
  -- each type with amounts gives one for its last amount, `complete_transition` does not panic and
  -- gives a transition with the builder's contract, nonce, type, global state and inputs, without
  -- metadata, and with all states of each assignment type at their seals, of which the last amount
  -- of each type is blinded to balance.
  pub complete_transition_lem :
      Fitting C
      → Reachable C self
      → Balances C balanced self.inputs.entries self.builder
      → Room C self.builder
      → All (λ e. AmountsAt C self.inputs.entries e.0) self.builder.fungible.entries
      → (t : Transition C) × (complete_transition C self ≡ built t) × IsCompleted t
  unfolding complete_transition transition_of
  complete_transition_lem F r balances room amounts =
      let (out, made, found) =
        complete_lem C balanced self.inputs.entries self.builder (Reachable-IsWellFormed C F self r)
          balances room amounts in
      (
        transition_of C self out,
        ap (λ m. m >>= λ a. built (transition_of C self a)) made,
        (refl, (refl, (refl, (refl, (refl, (refl, found)))))),
      )
