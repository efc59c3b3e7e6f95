-- ===== src/State/Update/Consignment.antt =====
-- What `update_from_consignment` keeps of the state, and what it puts there (src/persistence/state.rs).
use rgb_wallet.Prelude.{
  ℕ, List, [], ◌∷◌, map, false, Result, ok, All, All-weaken, ◌≡◌, ap, Option-cases, inl, inr,
}
use rgb_wallet.Collections.Map
use rgb_wallet.Collections.Map.{Map}
use rgb_wallet.Collections.Ord.{nat_ord}
use rgb_wallet.Exec.{◌>>=◌, ◌>>◌, for_each}
use rgb_wallet.Exec.Laws.{Keeps, Keeps-bind, Keeps-for_each, resume-ok}
use rgb_wallet.State.Types.{Core, MemState, Operation, genesis_op, transition_op, StateError}
use rgb_wallet.State.Write.{
  Write, Resolver, resolve, add_genesis, add_transition, open_contract, register_contract,
}
use rgb_wallet.State.Write.Laws.{
  StateGrows, StateGrows-refl, StateGrows-trans, resolve-Keeps, resolve_lem, OpHeld, OpHeld-stable,
  write_operation_lem,
}
use rgb_wallet.State.Write.Bundle.{
  add_transition-Keeps, add_extension-Keeps, register_contract-Keeps, TransitionHeld,
  add_transition_lem,
}
use rgb_wallet.State.Update.{
  Marks, note_extensions, update_transitions, update_bundles, update_extension, StateConsignment,
  update_from_consignment,
}

module _ (C : Core) where
  abbrev Kept : {A : Type 0} (m : Write C A) → Type 0
  Kept m = Keeps (StateGrows C) m

  then-Kept :
      {A B : Type 0} (m : Write C A) (f : A → Write C B)
      → Kept m
      → ((a : A) → Kept (f a))
      → Kept (m >>= f)
  then-Kept m f h k = Keeps-bind (StateGrows-refl C) (StateGrows-trans C) m f h k

  ends_at :
      {A : Type 0} (f : Write C A) (s t : MemState C) (a : A)
      → f s ≡ (ok a, t)
      → StateGrows C s (f s).1
      → StateGrows C s t
  ends_at {A} f s t a h g = rw (ap (λ (p : Result StateError A × MemState C). p.1) h) at g

module _ (C : Core) (ords : Resolver C) (id : ℕ) where
  update_transitions-Keeps :
      (w : ℕ) (ops : List (Operation C)) (marks : Marks C)
      → Kept C (update_transitions C ords id w ops marks)
  unfolding update_transitions
  update_transitions-Keeps w [] marks = StateGrows-refl C
  update_transitions-Keeps w (op ∷ ops) marks =
      then-Kept C (resolve C ords w) _ (resolve-Keeps C ords w) (λ ord.
        then-Kept C (add_transition C id op w ord) _ (add_transition-Keeps C id op w ord) (λ _.
          update_transitions-Keeps w ops
            (note_extensions C w ord op.inputs marks.used marks.ordered)))

  update_bundles-Keeps :
      (l : List (ℕ × List (Operation C))) (marks : Marks C)
      → Kept C (update_bundles C ords id l marks)
  unfolding update_bundles
  update_bundles-Keeps [] marks = StateGrows-refl C
  update_bundles-Keeps ((w, ops) ∷ l) marks =
      then-Kept C (update_transitions C ords id w ops marks) _
        (update_transitions-Keeps w ops marks) (λ next. update_bundles-Keeps l next)

  update_extension-Keeps :
      (ordered : Map ℕ (ℕ × C.WitnessOrd)) (op : Operation C)
      → Kept C (update_extension C id ordered op)
  unfolding update_extension
  update_extension-Keeps ordered op s = elim (Option-cases (Map.get ordered op.id)) [
    | inl e ↦ rw (e, update_extension) (StateGrows-refl C s)
    | inr ((w, ord), e) ↦ rw (e, update_extension) (add_extension-Keeps C id op w ord s)
  ]

  -- After the transitions of a witness, each of them is in the contract.
  update_transitions_lem :
      (w : ℕ) (ops : List (Operation C)) (marks marks' : Marks C) (s t : MemState C)
      → update_transitions C ords id w ops marks s ≡ (ok marks', t)
      → All (TransitionHeld C ords id w t) ops
  unfolding update_transitions
  update_transitions_lem w [] marks marks' s t h = tt
  update_transitions_lem w (op ∷ ops) marks marks' s t h =
      let next : C.WitnessOrd → Marks C =
        λ ord. note_extensions C w ord op.inputs marks.used marks.ordered in
      let (ord, u, first, rest) =
        resume-ok (resolve C ords w s)
          (λ ord. add_transition C id op w ord >> update_transitions C ords id w ops (next ord))
          marks' t h in
      let (_, v, second, others) =
        resume-ok (add_transition C id op w ord u)
          (λ _. update_transitions C ords id w ops (next ord)) marks' t rest in
      let (given, _) = resolve_lem C ords w ord s u first in
      let (held, _) = add_transition_lem C id op w ord u v second in
      let grows = update_transitions-Keeps w ops (next ord) v in
      (
        (
          ord,
          given,
          OpHeld-stable C id (transition_op op w ord) v t
              (rw (ap (λ (p : Result StateError (Marks C) × MemState C). p.1) others) at grows)
              held,
        ),
        update_transitions_lem w ops (next ord) marks' v t others,
      )

  abbrev pub BundleHeld : MemState C → ℕ × List (Operation C) → Type 0
  BundleHeld s (w, ops) = All (TransitionHeld C ords id w s) ops

  TransitionsHeld-stable :
      (w : ℕ) (ops : List (Operation C)) (s t : MemState C)
      → StateGrows C s t
      → All (TransitionHeld C ords id w s) ops
      → All (TransitionHeld C ords id w t) ops
  TransitionsHeld-stable w ops s t g h =
      All-weaken
        (λ op (ord, given, held).
          (ord, given, OpHeld-stable C id (transition_op op w ord) s t g held))
        ops h

  update_bundles_lem :
      (l : List (ℕ × List (Operation C))) (marks marks' : Marks C) (s t : MemState C)
      → update_bundles C ords id l marks s ≡ (ok marks', t)
      → All (BundleHeld t) l
  unfolding update_bundles
  update_bundles_lem [] marks marks' s t h = tt
  update_bundles_lem ((w, ops) ∷ l) marks marks' s t h =
      let (next, u, first, rest) =
        resume-ok (update_transitions C ords id w ops marks s) (update_bundles C ords id l) marks' t
          h in
      (
        TransitionsHeld-stable w ops u t
            (ends_at C (update_bundles C ords id l next) u t marks' rest
              (update_bundles-Keeps l next u))
            (update_transitions_lem w ops marks next s u first),
        update_bundles_lem l next marks' u t rest,
      )

module _ (C : Core) (ords : Resolver C) (c : StateConsignment C) where
  abbrev unused : Marks C
  unused = record { used = map (λ id. (id, false)) c.extension_ids; ordered = Map.empty }

  abbrev add_marked : Marks C → Write C (Unit {0})
  add_marked marks = for_each (update_extension C c.contract_id marks.ordered) c.extensions

  abbrev add_rest : Write C (Unit {0})
  add_rest = update_bundles C ords c.contract_id c.witnesses unused >>= add_marked

  add_marked-Keeps : (marks : Marks C) → Keeps (StateGrows C) (add_marked marks)
  add_marked-Keeps marks =
      Keeps-for_each (StateGrows-refl C) (StateGrows-trans C)
        (update_extension C c.contract_id marks.ordered) c.extensions
        (update_extension-Keeps C ords c.contract_id marks.ordered)

  add_rest-Keeps : Keeps (StateGrows C) add_rest
  add_rest-Keeps =
      then-Kept C (update_bundles C ords c.contract_id c.witnesses unused) add_marked
        (update_bundles-Keeps C ords c.contract_id c.witnesses unused) add_marked-Keeps

  -- Whether it succeeds or fails, `update_from_consignment` takes nothing back: each contract
  -- keeps its schema, its assignments, the keys of its global items and their limits, and each
  -- witness stays known.
  pub update_from_consignment-Keeps : Keeps (StateGrows C) (update_from_consignment C ords c)
  unfolding update_from_consignment
  update_from_consignment-Keeps =
      then-Kept C (register_contract C c.schema c.contract_id c.genesis) (λ _. add_rest)
        (register_contract-Keeps C c.schema c.contract_id c.genesis) (λ _. add_rest-Keeps)

  -- After `update_from_consignment` succeeds, the contract has an item under each key of the global
  -- state of the genesis and of each transition, and an assignment at the place of each of their
  -- revealed assignments; the resolver gives an order for the witness of each transition.
  pub update_from_consignment_lem :
      (s t : MemState C)
      → update_from_consignment C ords c s ≡ (ok tt, t)
      → OpHeld C c.contract_id (genesis_op c.genesis) t
        × All (BundleHeld C ords c.contract_id t) c.witnesses
  unfolding update_from_consignment register_contract add_genesis
  update_from_consignment_lem s t h =
      let (_, u, first, rest) =
        resume-ok (register_contract C c.schema c.contract_id c.genesis s) (λ _. add_rest) tt t h in
      let (_, v, opened, added) =
        resume-ok (open_contract C c.schema c.contract_id s)
          (λ _. add_genesis C c.contract_id c.genesis) tt u first in
      let (marks, w, bundles, extensions) =
        resume-ok (update_bundles C ords c.contract_id c.witnesses unused u) add_marked tt t rest in
      let later =
        ends_at C (for_each (update_extension C c.contract_id marks.ordered) c.extensions) w t tt
          extensions (add_marked-Keeps marks w) in
      (
        OpHeld-stable C c.contract_id (genesis_op c.genesis) u t
            (ends_at C add_rest u t tt rest (add_rest-Keeps u))
            (write_operation_lem C c.contract_id (genesis_op c.genesis) v u added),
        All-weaken (λ b h. TransitionsHeld-stable C ords c.contract_id b.0 b.1 w t later h)
            c.witnesses
            (update_bundles_lem C ords c.contract_id c.witnesses unused marks u w bundles),
      )
