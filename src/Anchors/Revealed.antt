-- ===== src/Anchors/Revealed.antt =====
-- What the seal that `WitnessBundle::reveal_seal` (src/containers/anchors.rs) reveals leaves unchanged.
use rgb_wallet.Prelude.{ℕ, List, [], ◌∷◌, map, Bool, eqb, any_of, ◌≡◌, refl, Bool-cases, inl, inr}
use rgb_wallet.Contract.Types.{Assignments, Op}
use rgb_wallet.Contract.MergeReveal.Assigns.{Concealed, conceal_typed}
use rgb_wallet.Contract.Reveal.{reveal_seal, reveal_seal-conceal}
use rgb_wallet.Anchors.{
  AnchorCore, CloseMethod, ClosedBundle, AnchoredBundles, tapret, opret, double, bundles, reveal_in,
  in_client, reveal_anchored,
}

module _ (C : AnchorCore) where
  -- The commitments of the assignments of an operation, with their types
  abbrev pub committed : Assignments C.states C.GraphSeal → List (ℕ × Concealed)
  committed l = map (λ a. (a.0, conceal_typed C.ids a.1)) l

  abbrev pub committed_ops :
      List (ℕ × Op C.states C.GraphSeal) → List (ℕ × ℕ × List (ℕ × Concealed))
  committed_ops l = map (λ e. (e.0, e.1.id, committed e.1.assignments)) l

  -- All of a bundle but what is revealed of it
  abbrev pub BundleCommitment : Type 0
  BundleCommitment = CloseMethod × ℕ × List (ℕ × ℕ) × List (ℕ × ℕ × List (ℕ × Concealed))

  abbrev pub commitment : ClosedBundle C → BundleCommitment
  commitment c = (
    c.close_method,
    c.bundle.bundle_id,
    c.bundle.input_map,
    committed_ops c.bundle.known_transitions,
  )

  assignments-committed :
      (seal : C.GraphSeal) (l : Assignments C.states C.GraphSeal)
      → committed (map (λ a. (a.0, reveal_seal C.ids seal a.1)) l) ≡ committed l
  assignments-committed seal [] = refl
  assignments-committed seal ((ty, a) ∷ l) =
      rw (reveal_seal-conceal C.ids seal a, assignments-committed seal l) refl

  ops-committed :
      (seal : C.GraphSeal) (l : List (ℕ × Op C.states C.GraphSeal))
      → committed_ops (
          map
            (λ (e : ℕ × Op C.states C.GraphSeal). (
              e.0,
              record e.1 {
                assignments = map (λ a. (a.0, reveal_seal C.ids seal a.1)) e.1.assignments;
              },
            ))
            l)
        ≡ committed_ops l
  ops-committed seal [] = refl
  ops-committed seal ((id, op) ∷ l) =
      rw (assignments-committed seal op.assignments, ops-committed seal l) refl

  reveal_in-commitment :
      (seal : C.GraphSeal) (c : ClosedBundle C) → commitment (reveal_in C seal c) ≡ commitment c
  unfolding reveal_in
  reveal_in-commitment seal c = rw (ops-committed seal c.bundle.known_transitions) refl

  abbrev pub Unchanged : ℕ → AnchoredBundles C → Bool × AnchoredBundles C → Type 0
  Unchanged id self (answer, next) =
      (answer ≡ any_of (λ (c : ClosedBundle C). eqb c.bundle.bundle_id id) (bundles C self))
      × (map commitment (bundles C next) ≡ map commitment (bundles C self))

  -- Revealing a seal in the anchored bundles of a witness answers whether a bundle has the
  -- identifier given, and leaves the method, the identifier, the input map, the transitions and
  -- the commitments of their assignments of every bundle unchanged.
  pub reveal_anchored_lem :
      (id : ℕ) (seal : C.GraphSeal) (self : AnchoredBundles C)
      → Unchanged id self (reveal_anchored C id seal self)
  unfolding reveal_anchored bundles in_client
  reveal_anchored_lem id seal (tapret t) = elim (Bool-cases (eqb t.closed.bundle.bundle_id id)) [
    | inl same ↦ rw (same, reveal_in-commitment seal t.closed) (refl, refl)
    | inr other ↦ rw other (refl, refl)
  ]
  reveal_anchored_lem id seal (opret o) = elim (Bool-cases (eqb o.closed.bundle.bundle_id id)) [
    | inl same ↦ rw (same, reveal_in-commitment seal o.closed) (refl, refl)
    | inr other ↦ rw other (refl, refl)
  ]
  reveal_anchored_lem id seal (double t o) = elim (Bool-cases (eqb t.closed.bundle.bundle_id id)) [
    | inl same ↦ rw (same, reveal_in-commitment seal t.closed) (refl, refl)
    | inr other ↦ elim (Bool-cases (eqb o.closed.bundle.bundle_id id)) [
      | inl same ↦ rw (other, same, reveal_in-commitment seal o.closed) (refl, refl)
      | inr neither ↦ rw (other, neither) (refl, refl)
    ]
  ]
