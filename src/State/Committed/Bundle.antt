-- ===== src/State/Committed/Bundle.antt =====
-- What `update_from_bundle` (src/persistence/state.rs) records of transitions whose identifiers commit to their contents
use rgb_wallet.Prelude.{ℕ, List, [], Result, ok, ◌∷◌, All, ◌⊎◌, ◌≡◌, ap}
use rgb_wallet.Collections.Ord.{nat_ord}
use rgb_wallet.State.Types.{Core, MemState, Operation, transition_op, StateError}
use rgb_wallet.State.Write.{
  Resolver, resolve, update_contract, update_transition, update_from_bundle,
}
use rgb_wallet.State.Write.Laws.{StateGrows}
use rgb_wallet.State.Write.Bundle.{WitnessIs, TransitionHeld, update_from_bundle_lem}
use rgb_wallet.State.Committed.{Contents, Commits, Agrees, OpRecorded}
use rgb_wallet.State.Committed.Writes.{
  Agreed, then-Agreed, add_transition-Agrees, resolve-Agrees, update_contract-Agrees,
  for_each-Agrees, OpRecorded-Held, ItemsKept, ItemsKept-StateGrows,
}

module _ (C : Core) where
  -- The contract has the items and the revealed assignments of a transition, for whose witness
  -- the resolver gives an order.
  abbrev pub TransitionRecorded : Resolver C → ℕ → ℕ → MemState C → Operation C → Type 0
  TransitionRecorded ords id w s op =
      (ord : C.WitnessOrd) × (ords w ≡ ok ord) × OpRecorded C id (transition_op op w ord) s

module _ (C : Core) (E : Contents C) (ords : Resolver C) (id : ℕ) where
  update_transition-Agrees :
      (w : ℕ) (op : Operation C) → Commits C E op → Agreed C E (update_transition C ords id w op)
  unfolding update_transition
  update_transition-Agrees w op right =
      then-Agreed C E (resolve C ords w) _ (resolve-Agrees C E ords w)
        (λ ord. add_transition-Agrees C E id op w ord right)

  update_from_bundle-Agrees :
      (ops : List (Operation C)) (w : ℕ)
      → All (Commits C E) ops
      → Agreed C E (update_from_bundle C ords id ops w)
  unfolding update_from_bundle
  update_from_bundle-Agrees ops w right =
      then-Agreed C E (update_contract C id) _ (update_contract-Agrees C E id) (λ _.
        for_each-Agrees C E (update_transition C ords id w) (update_transition-Agrees w) ops right)

  pub TransitionRecorded-Held :
      (w : ℕ) (ops : List (Operation C)) (s : MemState C)
      → All (Commits C E) ops
      → Agrees C E s
      → All (TransitionHeld C ords id w s) ops
      → All (TransitionRecorded C ords id w s) ops
  TransitionRecorded-Held w [] s right g held = tt
  TransitionRecorded-Held w (op ∷ ops) s (here, later) g ((ord, given, held), rest) = (
    (ord, given, OpRecorded-Held C E id (transition_op op w ord) s here g held),
    TransitionRecorded-Held w ops s later g rest,
  )

  -- Where the identifiers of the transitions stand for what they hold, and the state has the same
  -- under them, after `update_from_bundle` succeeds nothing is taken back from the state and each
  -- global item is as it was; the contract has, as they are, the global items and the states of
  -- the revealed assignments of each transition, and if there is a transition the witness has the
  -- order that the resolver gives for it.
  pub update_from_bundle-Recorded :
      (ops : List (Operation C)) (w : ℕ) (s t : MemState C)
      → All (Commits C E) ops
      → Agrees C E s
      → update_from_bundle C ords id ops w s ≡ (ok tt, t)
      → (StateGrows C s t × ItemsKept C s t)
        × All (TransitionRecorded C ords id w t) ops
        × ((ops ≡ []) ⊎ WitnessIs C ords w t)
  update_from_bundle-Recorded ops w s t right g h =
      let agrees =
        rw (ap (λ (p : Result StateError (Unit {0}) × MemState C). p.1) h) at
          (update_from_bundle-Agrees ops w right s g) in
      let (grows, held, order) = update_from_bundle_lem C ords id ops w s t h in
      (
        (grows, ItemsKept-StateGrows C E s t grows g agrees),
        TransitionRecorded-Held w ops t right agrees held,
        order,
      )
