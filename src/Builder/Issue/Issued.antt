-- ===== src/Builder/Issue/Issued.antt =====
-- The genesis that a `ContractBuilder` (src/interface/builder.rs) issues.
use rgb_wallet.Prelude.{ℕ, List, [], All, ◌≡◌, refl, ap, ◌∷◌}
use rgb_wallet.Collections.Map
use rgb_wallet.Collections.Map.{Map}
use rgb_wallet.Collections.Ord.{nat_ord}
use rgb_wallet.Builder.{BuilderCore, RevealedValue, BuilderSeal, built, ◌>>=◌}
use rgb_wallet.Builder.WellFormed.{Fitting}
use rgb_wallet.Builder.Complete.Parts.{AmountsAt}
use rgb_wallet.Builder.Complete.Whole.{assignments_of, Room, Balances, complete_lem}
use rgb_wallet.Builder.Issue.{ContractBuilder, Genesis, genesis_of, issue_genesis}
use rgb_wallet.Builder.Issue.Calls.{Reachable}
use rgb_wallet.Builder.Issue.Reachable.{Reachable-IsWellFormed_contract}

module _ (C : BuilderCore) (balanced : (inputs outputs : List C.Blinding) → C.Blinding)
    (self : ContractBuilder C) where
  -- A genesis with the parts of the builder, and without metadata
  abbrev pub IsIssued : C.Timestamp → Genesis C → Type 0
  IsIssued timestamp g =
      (g.timestamp ≡ timestamp)
      × ((g.testnet ≡ self.testnet)
          × ((g.alt_layers1 ≡ self.alt_layers1)
              × ((g.asset_tags ≡ self.builder.asset_tags)
                  × ((g.metadata ≡ C.no_metadata)
                      × ((g.globals ≡ self.builder.global)
                          × ((g.issuer ≡ self.issuer)
                              × ((ty : ℕ)
                                  → Map.get g.assignments ty
                                    ≡ assignments_of C balanced [] self.builder ty)))))))

  -- For a contract builder that calls lead to, where the collection of assignments is not full
  -- before all types are in it, a vector takes one assignment and one more where a collection of
  -- seals is not full, and balancing the factors of each type with amounts gives one for its last
  -- amount, the genesis is made with no panic, with the time given, the builder's network, chains,
  -- asset tags, global state and issuer, without metadata, and with all states of each assignment
  -- type at their seals, of which the last amount of each type is blinded to balance.
  pub issue_genesis_lem :
      Fitting C
      → Reachable C self
      → Balances C balanced [] self.builder
      → Room C self.builder
      → (timestamp : C.Timestamp)
      → (g : Genesis C) × (issue_genesis C self timestamp ≡ built g) × IsIssued timestamp g
  unfolding issue_genesis genesis_of
  issue_genesis_lem F r balances room timestamp =
      let (out, made, found) =
        complete_lem C balanced [] self.builder (Reachable-IsWellFormed_contract C F self r)
          balances room (no_inputs self.builder.fungible.entries) in
      (
        genesis_of C self timestamp out,
        ap (λ m. m >>= λ a. built (genesis_of C self timestamp a)) made,
        (refl, (refl, (refl, (refl, (refl, (refl, (refl, found))))))),
      )
    where
      no_inputs :
          (l : List (ℕ × Map (BuilderSeal C) (RevealedValue C))) → All (λ e. AmountsAt C [] e.0) l
      no_inputs [] = tt
      no_inputs (e ∷ l) = (tt, no_inputs l)
