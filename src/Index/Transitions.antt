-- ===== src/Index/Transitions.antt =====
-- Indexing a bundle and its transitions (src/persistence/index.rs).
use mathlib.Core.Path.{subst}
use rgb_wallet.Prelude.{ℕ, Option, some, true, ◌≡◌, ap, Result, ok, All, All-weaken}
use rgb_wallet.Collections.Map
use rgb_wallet.Collections.Ord.{nat_ord}
use rgb_wallet.Collections.Confinement.{Confinement}
use rgb_wallet.Exec.{for_each}
use rgb_wallet.Exec.Laws.{Keeps, Keeps-bind, Keeps-for_each, for_each-All, resume-ok}
use rgb_wallet.Contract.Types.{States, Op, Bundle}
use rgb_wallet.Index.Defs.{MemIndex}
use rgb_wallet.Index.View.{witnessed}
use rgb_wallet.Index.Write
use rgb_wallet.Index.Grows.{
  Grows, Grows-refl, Grows-trans, register_bundle-Grows, register_operation-Grows,
}
use rgb_wallet.Index.Bundles.{register_bundle_lem, register_operation_lem}
use rgb_wallet.Index.Front.{IndexError, call, graph_assigns, index_transition, index_bundle}
use rgb_wallet.Index.Operations.{
  Keeps-call, call-ok, AssignsAt, AssignsAt-stable, graph_assigns-Grows, graph_assigns_lem,
}

-- The state after a step that succeeded is related to the state before it.
pub after :
    (s t : MemIndex) {p : Result IndexError (Unit {0}) × MemIndex}
    → p ≡ (ok tt, t)
    → Grows s p.1
    → Grows s t
after s t e g = subst (Grows s) (ap (λ (q : Result IndexError (Unit {0}) × MemIndex). q.1) e) g

module _ (conf : Confinement) {S : States} {Seal : Type 0}
    (try_to_output_seal : Seal → ℕ → Option ℕ) where
  -- The transition is known by its bundle, and its revealed assignments at their outputs.
  abbrev pub TransitionAt : MemIndex → ℕ → ℕ → ℕ → ℕ × Op S Seal → Type 0
  TransitionAt t id b w (op, transition) =
      (Map.get t.op_bundle_index op ≡ some b)
      × All (AssignsAt (λ z. try_to_output_seal z w) t id op) transition.assignments

  TransitionAt-stable :
      (id b w : ℕ) (p : ℕ × Op S Seal) (s t : MemIndex)
      → Grows s t
      → TransitionAt s id b w p
      → TransitionAt t id b w p
  TransitionAt-stable id b w (op, transition) s t g (known, all) = (
    g.ops op b known,
    All-weaken (λ a. AssignsAt-stable (λ z. try_to_output_seal z w) id op a s t g)
        transition.assignments all,
  )

  assigns_loop-Grows :
      (id op w : ℕ) (transition : Op S Seal)
      → Keeps Grows (
          for_each
            (λ a. call (graph_assigns conf try_to_output_seal id op w a))
            transition.assignments)
  assigns_loop-Grows id op w transition =
      Keeps-for_each Grows-refl Grows-trans _ transition.assignments
        (graph_assigns-Grows conf try_to_output_seal id op w)

  index_transition-Grows :
      (id b w : ℕ) (p : ℕ × Op S Seal)
      → Keeps Grows (index_transition conf try_to_output_seal id b w p)
  unfolding index_transition
  index_transition-Grows id b w (op, transition) =
      Keeps-bind Grows-refl Grows-trans (call (Write.register_operation conf op b))
        (λ _.
          for_each (λ a. call (graph_assigns conf try_to_output_seal id op w a))
            transition.assignments)
        (Keeps-call _ (register_operation-Grows conf op b))
        (λ _. assigns_loop-Grows id op w transition)

  index_transition_lem :
      (id b w : ℕ) (p : ℕ × Op S Seal) (s t : MemIndex)
      → index_transition conf try_to_output_seal id b w p s ≡ (ok tt, t)
      → TransitionAt t id b w p
  unfolding index_transition
  index_transition_lem id b w (op, transition) s t h =
      let (r, u, first, rest) =
        resume-ok (call (Write.register_operation conf op b) s)
          (λ _.
            for_each (λ a. call (graph_assigns conf try_to_output_seal id op w a))
              transition.assignments)
          tt t h in
      (
        (after u t rest (assigns_loop-Grows id op w transition u)).ops op b
            (register_operation_lem conf op b r s u (call-ok _ r s u first)),
        for_each-All Grows-refl Grows-trans
            (λ a v. AssignsAt (λ z. try_to_output_seal z w) v id op a)
            (λ a. call (graph_assigns conf try_to_output_seal id op w a)) transition.assignments
            (AssignsAt-stable (λ z. try_to_output_seal z w) id op)
            (graph_assigns-Grows conf try_to_output_seal id op w)
            (graph_assigns_lem conf try_to_output_seal id op w) u t rest,
      )

  -- The bundle is known with its witness and its contract, and so are its transitions.
  pub record BundleAt (t : MemIndex) (id w : ℕ) (b : Bundle S Seal) : Type 0 where
    pub committed : witnessed t b.bundle_id w ≡ true
    pub contract : Map.get t.bundle_contract_index b.bundle_id ≡ some id
    pub transitions : All (TransitionAt t id b.bundle_id w) b.known_transitions

  pub BundleAt-stable :
      (id w : ℕ) (b : Bundle S Seal) (s t : MemIndex)
      → Grows s t
      → BundleAt s id w b
      → BundleAt t id w b
  BundleAt-stable id w b s t g h = record {
    committed = g.witnesses b.bundle_id w h.committed;
    contract = g.bundles b.bundle_id id h.contract;
    transitions =
        All-weaken (λ p. TransitionAt-stable id b.bundle_id w p s t g) b.known_transitions
          h.transitions;
  }

  transitions-Grows :
      (id w : ℕ) (b : Bundle S Seal)
      → Keeps Grows
          (for_each (index_transition conf try_to_output_seal id b.bundle_id w) b.known_transitions)
  transitions-Grows id w b =
      Keeps-for_each Grows-refl Grows-trans _ b.known_transitions
        (index_transition-Grows id b.bundle_id w)

  pub index_bundle-Grows :
      (id w : ℕ) (b : Bundle S Seal) → Keeps Grows (index_bundle conf try_to_output_seal id b w)
  unfolding index_bundle
  index_bundle-Grows id w b =
      Keeps-bind Grows-refl Grows-trans (call (Write.register_bundle conf b.bundle_id w id))
        (λ _.
          for_each (index_transition conf try_to_output_seal id b.bundle_id w) b.known_transitions)
        (Keeps-call _ (register_bundle-Grows conf b.bundle_id w id)) (λ _. transitions-Grows id w b)

  pub index_bundle_lem :
      (id w : ℕ) (b : Bundle S Seal) (s t : MemIndex)
      → index_bundle conf try_to_output_seal id b w s ≡ (ok tt, t)
      → BundleAt t id w b
  unfolding index_bundle
  index_bundle_lem id w b s t h =
      let (r, u, first, rest) =
        resume-ok (call (Write.register_bundle conf b.bundle_id w id) s)
          (λ _.
            for_each (index_transition conf try_to_output_seal id b.bundle_id w)
              b.known_transitions)
          tt t h in
      let g = after u t rest (transitions-Grows id w b u) in
      let (seen, owned) = register_bundle_lem conf b.bundle_id w id r s u (call-ok _ r s u first) in
      record {
        committed = g.witnesses b.bundle_id w seen;
        contract = g.bundles b.bundle_id id owned;
        transitions =
            for_each-All Grows-refl Grows-trans (λ p v. TransitionAt v id b.bundle_id w p)
              (index_transition conf try_to_output_seal id b.bundle_id w) b.known_transitions
              (TransitionAt-stable id b.bundle_id w) (index_transition-Grows id b.bundle_id w)
              (index_transition_lem id b.bundle_id w) u t rest;
      }
