-- ===== src/State/Write/Bundle.antt =====
-- What the writes of transitions of a bundle keep of the in-memory state, and what they put there
-- (src/persistence/memory.rs, src/persistence/state.rs).
use rgb_wallet.Prelude.{
  ℕ, List, [], ◌∷◌, some, Result, ok, All, ◌⊎◌, ◌≡◌, refl, sym, ◌∙◌, ap, inl, inr,
}
use rgb_wallet.Collections.Map
use rgb_wallet.Collections.Map.{Map, get-insert}
use rgb_wallet.Collections.Ord.{nat_ord}
use rgb_wallet.Exec.{for_each}
use rgb_wallet.Exec.Laws.{Keeps, Keeps-bind, Keeps-for_each, for_each-All, resume-ok}
use rgb_wallet.State.Types.{
  Core, MemState, Operation, OrdOp, genesis_op, transition_op, extension_op, StateSchema,
  StateError,
}
use rgb_wallet.State.Write.{
  Write, write_witness, write_operation, add_genesis, add_transition, add_extension, open_contract,
  register_contract, update_contract, Resolver, resolve, update_transition, update_from_bundle,
}
use rgb_wallet.State.Write.Laws.{
  StateGrows, StateGrows-refl, StateGrows-trans, write_witness-Keeps, write_operation-Keeps,
  write_operation_lem, open_contract-Keeps, update_contract-Keeps, resolve-Keeps, resolve_lem,
  OpHeld, OpHeld-stable, write_witness_lem, write_operation_witness,
}

module _ (C : Core) where
  abbrev Kept : {A : Type 0} (m : Write C A) → Type 0
  Kept m = Keeps (StateGrows C) m

  pub add_transition-Keeps :
      (id : ℕ) (op : Operation C) (w : ℕ) (ord : C.WitnessOrd) → Kept (add_transition C id op w ord)
  unfolding add_transition
  add_transition-Keeps id op w ord =
      Keeps-bind (StateGrows-refl C) (StateGrows-trans C) (write_witness C w ord)
        (λ _. write_operation C id (transition_op op w ord)) (write_witness-Keeps C w ord)
        (λ _. write_operation-Keeps C id (transition_op op w ord))

  pub add_extension-Keeps :
      (id : ℕ) (op : Operation C) (w : ℕ) (ord : C.WitnessOrd) → Kept (add_extension C id op w ord)
  unfolding add_extension
  add_extension-Keeps id op w ord =
      Keeps-bind (StateGrows-refl C) (StateGrows-trans C) (write_witness C w ord)
        (λ _. write_operation C id (extension_op op w ord)) (write_witness-Keeps C w ord)
        (λ _. write_operation-Keeps C id (extension_op op w ord))

  pub register_contract-Keeps :
      (schema : StateSchema C) (id : ℕ) (genesis : Operation C)
      → Kept (register_contract C schema id genesis)
  unfolding register_contract add_genesis
  register_contract-Keeps schema id genesis =
      Keeps-bind (StateGrows-refl C) (StateGrows-trans C) (open_contract C schema id)
        (λ _. write_operation C id (genesis_op genesis)) (open_contract-Keeps C schema id)
        (λ _. write_operation-Keeps C id (genesis_op genesis))

  update_transition-Keeps :
      (ords : Resolver C) (id w : ℕ) (op : Operation C) → Kept (update_transition C ords id w op)
  unfolding update_transition
  update_transition-Keeps ords id w op =
      Keeps-bind (StateGrows-refl C) (StateGrows-trans C) (resolve C ords w)
        (λ ord. add_transition C id op w ord) (resolve-Keeps C ords w)
        (λ ord. add_transition-Keeps id op w ord)

  update_from_bundle-Keeps :
      (ords : Resolver C) (id : ℕ) (ops : List (Operation C)) (w : ℕ)
      → Kept (update_from_bundle C ords id ops w)
  unfolding update_from_bundle
  update_from_bundle-Keeps ords id ops w =
      Keeps-bind (StateGrows-refl C) (StateGrows-trans C) (update_contract C id)
        (λ _. for_each (update_transition C ords id w) ops) (update_contract-Keeps C id)
        (λ _.
          Keeps-for_each (StateGrows-refl C) (StateGrows-trans C) (update_transition C ords id w)
            ops (update_transition-Keeps ords id w))

  -- The witness has the order that the resolver gives it.
  abbrev pub WitnessIs : Resolver C → ℕ → MemState C → Type 0
  WitnessIs ords w s = (ord : C.WitnessOrd) × (ords w ≡ ok ord) × (Map.get s.witnesses w ≡ some ord)

  abbrev pub TransitionHeld : Resolver C → ℕ → ℕ → MemState C → Operation C → Type 0
  TransitionHeld ords id w s op =
      (ord : C.WitnessOrd) × (ords w ≡ ok ord) × OpHeld C id (transition_op op w ord) s

  pub add_transition_lem :
      (id : ℕ) (op : Operation C) (w : ℕ) (ord : C.WitnessOrd) (s t : MemState C)
      → add_transition C id op w ord s ≡ (ok tt, t)
      → OpHeld C id (transition_op op w ord) t × (Map.get t.witnesses w ≡ some ord)
  unfolding add_transition
  add_transition_lem id op w ord s t h =
      let o : OrdOp C = transition_op op w ord in
      let (_, u, first, second) =
        resume-ok (write_witness C w ord s) (λ _. write_operation C id o) tt t h in
      let kept : t.witnesses ≡ u.witnesses =
        ap (λ (p : Result StateError (Unit {0}) × MemState C). p.1.witnesses) (sym second)
        ∙ write_operation_witness C id o u in
      (write_operation_lem C id o u t second, rw kept (write_witness_lem C w ord s u first))

  update_transition_lem :
      (ords : Resolver C) (id w : ℕ) (op : Operation C) (s t : MemState C)
      → update_transition C ords id w op s ≡ (ok tt, t)
      → TransitionHeld ords id w t op × WitnessIs ords w t
  unfolding update_transition
  update_transition_lem ords id w op s t h =
      let (ord, u, first, second) =
        resume-ok (resolve C ords w s) (λ ord. add_transition C id op w ord) tt t h in
      let (given, _) = resolve_lem C ords w ord s u first in
      let (held, is) = add_transition_lem id op w ord u t second in
      ((ord, given, held), (ord, given, is))

  last_witness :
      (ords : Resolver C) (id w : ℕ) (ops : List (Operation C)) (s t : MemState C)
      → for_each (update_transition C ords id w) ops s ≡ (ok tt, t)
      → (ops ≡ []) ⊎ WitnessIs ords w t
  unfolding for_each
  last_witness ords id w [] s t h = inl refl
  last_witness ords id w (op ∷ ops) s t h =
      let (_, u, first, rest) =
        resume-ok (update_transition C ords id w op s)
          (λ _. for_each (update_transition C ords id w) ops) tt t h in
      let (_, is) = update_transition_lem ords id w op s u first in
      elim (last_witness ords id w ops u t rest) [
        | inl none_left ↦ inr (rw (done ops none_left u t rest) is)
        | inr known ↦ inr known
      ]
    where
      done :
          (l : List (Operation C))
          → l ≡ []
          → (u t : MemState C) → for_each (update_transition C ords id w) l u ≡ (ok tt, t)
          → t ≡ u
      done [] e u t h = cc
      done (a ∷ l) e u t h = cc

  -- After `update_from_bundle` succeeds, no key or assignment is taken back from the state, the
  -- keys of the global state and the places of the revealed assignments of each transition are
  -- taken, and if there is a transition the witness has the order that the resolver gives for it.
  pub update_from_bundle_lem :
      (ords : Resolver C) (id : ℕ) (ops : List (Operation C)) (w : ℕ) (s t : MemState C)
      → update_from_bundle C ords id ops w s ≡ (ok tt, t)
      → StateGrows C s t × All (TransitionHeld ords id w t) ops × ((ops ≡ []) ⊎ WitnessIs ords w t)
  unfolding update_from_bundle
  update_from_bundle_lem ords id ops w s t h =
      let (_, u, first, rest) =
        resume-ok (update_contract C id s) (λ _. for_each (update_transition C ords id w) ops) tt t
          h in
      (
        rw (ap (λ (p : Result StateError (Unit {0}) × MemState C). p.1) h) at
            (update_from_bundle-Keeps ords id ops w s),
        for_each-All (StateGrows-refl C) (StateGrows-trans C)
            (λ op m. TransitionHeld ords id w m op) (update_transition C ords id w) ops
            (λ op m n g (ord, given, held).
              (ord, given, OpHeld-stable C id (transition_op op w ord) m n g held))
            (update_transition-Keeps ords id w)
            (λ op m n e. (update_transition_lem ords id w op m n e).0) u t rest,
        last_witness ords id w ops u t rest,
      )
