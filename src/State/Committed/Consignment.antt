-- ===== src/State/Committed/Consignment.antt =====
-- What `update_from_consignment` (src/persistence/state.rs) keeps and records, where identifiers commit to contents
use rgb_wallet.Prelude.{
  ℕ, List, [], ◌∷◌, map, false, Result, ok, All, ◌≡◌, ap, Option-cases, inl, inr,
}
use rgb_wallet.Collections.Map
use rgb_wallet.Collections.Map.{Map}
use rgb_wallet.Collections.Ord.{nat_ord}
use rgb_wallet.State.Types.{Core, MemState, Operation, genesis_op, StateError}
use rgb_wallet.State.Write.{Resolver, resolve, add_transition, register_contract}
use rgb_wallet.State.Write.Laws.{StateGrows}
use rgb_wallet.State.Update.{
  Marks, note_extensions, update_transitions, update_bundles, update_extension, StateConsignment,
  update_from_consignment,
}
use rgb_wallet.State.Update.Consignment.{
  BundleHeld, update_from_consignment-Keeps, update_from_consignment_lem,
}
use rgb_wallet.State.Committed.{Contents, Commits, Agrees, OpRecorded}
use rgb_wallet.State.Committed.Writes.{
  Follows-refl, Agreed, then-Agreed, add_transition-Agrees, add_extension-Agrees, resolve-Agrees,
  register_contract-Agrees, for_each-Agrees, OpRecorded-Held, ItemsKept, ItemsKept-StateGrows,
}
use rgb_wallet.State.Committed.Bundle.{TransitionRecorded, TransitionRecorded-Held}

module _ (C : Core) (ords : Resolver C) (id : ℕ) where
  -- The contract has each transition of a witness.
  abbrev pub BundleRecorded : MemState C → ℕ × List (Operation C) → Type 0
  BundleRecorded s (w, ops) = All (TransitionRecorded C ords id w s) ops

module _ (C : Core) (E : Contents C) (ords : Resolver C) (id : ℕ) where
  update_transitions-Agrees :
      (w : ℕ) (ops : List (Operation C)) (marks : Marks C)
      → All (Commits C E) ops
      → Agreed C E (update_transitions C ords id w ops marks)
  unfolding update_transitions
  update_transitions-Agrees w [] marks right = Follows-refl C E
  update_transitions-Agrees w (op ∷ ops) marks (here, later) =
      then-Agreed C E (resolve C ords w) _ (resolve-Agrees C E ords w) (λ ord.
        then-Agreed C E (add_transition C id op w ord) _
          (add_transition-Agrees C E id op w ord here)
          (λ _.
            update_transitions-Agrees w ops
              (note_extensions C w ord op.inputs marks.used marks.ordered) later))

  pub update_bundles-Agrees :
      (l : List (ℕ × List (Operation C))) (marks : Marks C)
      → All (λ b. All (Commits C E) b.1) l
      → Agreed C E (update_bundles C ords id l marks)
  unfolding update_bundles
  update_bundles-Agrees [] marks right = Follows-refl C E
  update_bundles-Agrees ((w, ops) ∷ l) marks (here, later) =
      then-Agreed C E (update_transitions C ords id w ops marks) _
        (update_transitions-Agrees w ops marks here) (λ next. update_bundles-Agrees l next later)

  pub update_extension-Agrees :
      (ordered : Map ℕ (ℕ × C.WitnessOrd)) (op : Operation C)
      → Commits C E op
      → Agreed C E (update_extension C id ordered op)
  unfolding update_extension
  update_extension-Agrees ordered op right s g = elim (Option-cases (Map.get ordered op.id)) [
    | inl e ↦ rw (e, update_extension) g
    | inr ((w, ord), e) ↦ rw (e, update_extension) (add_extension-Agrees C E id op w ord right s g)
  ]

  pub BundleRecorded-Held :
      (l : List (ℕ × List (Operation C))) (s : MemState C)
      → All (λ b. All (Commits C E) b.1) l
      → Agrees C E s
      → All (BundleHeld C ords id s) l
      → All (BundleRecorded C ords id s) l
  BundleRecorded-Held [] s right g held = tt
  BundleRecorded-Held ((w, ops) ∷ l) s (here, later) g (held, rest) = (
    TransitionRecorded-Held C E ords id w ops s here g held,
    BundleRecorded-Held l s later g rest,
  )

module _ (C : Core) (E : Contents C) (ords : Resolver C) (c : StateConsignment C) where
  -- The identifiers of all operations of a consignment commit to their contents.
  abbrev pub CommitsConsignment : Type 0
  CommitsConsignment =
      Commits C E c.genesis
      × All (λ b. All (Commits C E) b.1) c.witnesses
      × All (Commits C E) c.extensions

  pub update_from_consignment-Agrees :
      CommitsConsignment → Agreed C E (update_from_consignment C ords c)
  unfolding update_from_consignment
  update_from_consignment-Agrees (genesis, bundles, extensions) =
      then-Agreed C E (register_contract C c.schema c.contract_id c.genesis) _
        (register_contract-Agrees C E c.schema c.contract_id c.genesis genesis)
        (λ _.
          then-Agreed C E
            (update_bundles C ords c.contract_id c.witnesses
              (record { used = map (λ id. (id, false)) c.extension_ids; ordered = Map.empty }))
            _ (update_bundles-Agrees C E ords c.contract_id c.witnesses _ bundles)
            (λ marks.
              for_each-Agrees C E (update_extension C c.contract_id marks.ordered)
                (update_extension-Agrees C E ords c.contract_id marks.ordered) c.extensions
                extensions))

  -- Where the identifiers of the operations of a consignment stand for what they hold, and the
  -- state has the same under them, `update_from_consignment` takes nothing back, whether it
  -- succeeds or fails: each contract keeps its schema, its assignments, its global types with
  -- their limits and each item of them as it was, and each witness stays known.
  pub update_from_consignment-Kept :
      (s : MemState C)
      → CommitsConsignment
      → Agrees C E s
      → StateGrows C s (update_from_consignment C ords c s).1
        × ItemsKept C s (update_from_consignment C ords c s).1
  update_from_consignment-Kept s right g =
      let grows = update_from_consignment-Keeps C ords c s in
      (grows, ItemsKept-StateGrows C E s _ grows g (update_from_consignment-Agrees right s g))

  -- Where the identifiers of the operations of a consignment stand for what they hold, and the
  -- state has the same under them, after `update_from_consignment` succeeds the contract has, as
  -- they are, each item of global state of the genesis and of each transition under its operation
  -- and number, and the state of each of their revealed assignments at its operation output and
  -- output seal; the resolver has an order for the witness of each transition.
  pub update_from_consignment-Recorded :
      (s t : MemState C)
      → CommitsConsignment
      → Agrees C E s
      → update_from_consignment C ords c s ≡ (ok tt, t)
      → OpRecorded C c.contract_id (genesis_op c.genesis) t
        × All (BundleRecorded C ords c.contract_id t) c.witnesses
  update_from_consignment-Recorded s t (genesis, bundles, extensions) g h =
      let agrees =
        rw (ap (λ (p : Result StateError (Unit {0}) × MemState C). p.1) h) at
          (update_from_consignment-Agrees (genesis, bundles, extensions) s g) in
      let (first, held) = update_from_consignment_lem C ords c s t h in
      (
        OpRecorded-Held C E c.contract_id (genesis_op c.genesis) t genesis agrees first,
        BundleRecorded-Held C E ords c.contract_id c.witnesses t bundles agrees held,
      )
