-- ===== src/State/Committed/Writes.antt =====
-- Writes to the in-memory state (src/persistence/memory.rs), where identifiers commit to contents
use rgb_wallet.Prelude.{
  ℕ, List, [], ◌∷◌, some, Result, ok, err, All, ◌≡◌, sym, ◌∙◌, Bool-cases, Option-cases, inl, inr,
}
use Prim.Native.String.{String}
use rgb_wallet.Collections.Map
use rgb_wallet.Collections.Map.{Map}
use rgb_wallet.Collections.Growth.{insert-Everywhere}
use rgb_wallet.Collections.Ord.{nat_ord}
use rgb_wallet.Collections.Confinement.{map_len}
use rgb_wallet.Exec.{◌>>=◌, for_each}
use rgb_wallet.Exec.Laws.{Keeps, Keeps-bind}
use rgb_wallet.State.Types.{
  Core, global_ord, ContractState, GlobalOut, GlobalState, MemState, Operation, OrdOp, genesis_op,
  transition_op, extension_op, StateSchema,
}
use rgb_wallet.State.Contract.{operation_of, new_contract, add_operation}
use rgb_wallet.State.Write.{
  Write, write_witness, write_operation, add_genesis, add_transition, add_extension, open_contract,
  register_contract, update_contract, Resolver, resolved, resolve,
}
use rgb_wallet.State.Write.Laws.{StateGrows, OpHeld}
use rgb_wallet.State.Committed.{Contents, Commits, AgreesContract, Agrees, OpRecorded}
use rgb_wallet.State.Committed.Added.{
  new_contract-Agrees, add_operation-Agrees, GlobalsRecorded-Held, OutputsRecorded-Held,
}

module _ (C : Core) where
  -- Each item of global state of a contract is there still, and is what it was.
  abbrev pub ItemsKept : MemState C → MemState C → Type 0
  ItemsKept s t =
      (id : ℕ) (c : ContractState C)
      → Map.get s.contracts id ≡ some c
      → (ty : ℕ) (g : GlobalState C) → Map.get c.global ty ≡ some g
      → (out : GlobalOut) (v : C.Datum) → Map.get g.known out ≡ some v
      → (d : ContractState C) × (h : GlobalState C) × (Map.get t.contracts id ≡ some d)
        × (Map.get d.global ty ≡ some h)
        × (Map.get h.known out ≡ some v)

module _ (C : Core) (E : Contents C) where
  -- A state that agrees with the contents of identifiers is followed by one that does.
  abbrev pub Follows : MemState C → MemState C → Type 0
  Follows s t = Agrees C E s → Agrees C E t

  pub Follows-refl : (s : MemState C) → Follows s s
  Follows-refl s g = g

  pub Follows-trans : (s t u : MemState C) → Follows s t → Follows t u → Follows s u
  Follows-trans s t u h k g = k (h g)

  abbrev pub Agreed : {A : Type 0} → Write C A → Type 0
  Agreed m = Keeps Follows m

  pub then-Agreed :
      {A B : Type 0} (m : Write C A) (f : A → Write C B)
      → Agreed m
      → ((a : A) → Agreed (f a))
      → Agreed (m >>= f)
  then-Agreed m f h k = Keeps-bind Follows-refl Follows-trans m f h k

  write_witness-Agrees : (w : ℕ) (ord : C.WitnessOrd) → Agreed (write_witness C w ord)
  unfolding write_witness
  write_witness-Agrees w ord s g = elim (Bool-cases (C.conf.large_full (map_len s.witnesses))) [
    | inl full ↦ rw full g
    | inr room ↦ rw room g
  ]

  write_operation-Agrees :
      (id : ℕ) (o : OrdOp C) → Commits C E (operation_of C o) → Agreed (write_operation C id o)
  unfolding write_operation
  write_operation-Agrees id o right s g = elim (Option-cases (Map.get s.contracts id)) [
    | inl e ↦ rw (e, write_operation) g
    | inr (c, e) ↦ elim (Option-cases (add_operation C o c)) [
      | inl f ↦ rw (e, f, write_operation) g
      | inr (d, f) ↦
          rw (e, f, write_operation)
            (insert-Everywhere (λ _ (c : ContractState C). AgreesContract C E c) s.contracts id d
              (add_operation-Agrees C E o c d f right (g id c e)) g)
    ]
  ]

  pub add_transition-Agrees :
      (id : ℕ) (op : Operation C) (w : ℕ) (ord : C.WitnessOrd)
      → Commits C E op
      → Agreed (add_transition C id op w ord)
  unfolding add_transition
  add_transition-Agrees id op w ord right =
      then-Agreed (write_witness C w ord) _ (write_witness-Agrees w ord)
        (λ _. write_operation-Agrees id (transition_op op w ord) right)

  pub add_extension-Agrees :
      (id : ℕ) (op : Operation C) (w : ℕ) (ord : C.WitnessOrd)
      → Commits C E op
      → Agreed (add_extension C id op w ord)
  unfolding add_extension
  add_extension-Agrees id op w ord right =
      then-Agreed (write_witness C w ord) _ (write_witness-Agrees w ord)
        (λ _. write_operation-Agrees id (extension_op op w ord) right)

  open_contract-Agrees : (schema : StateSchema C) (id : ℕ) → Agreed (open_contract C schema id)
  unfolding open_contract
  open_contract-Agrees schema id s g = elim (Option-cases (Map.get s.contracts id)) [
    | inr (c, e) ↦ rw (e, open_contract) g
    | inl e ↦ elim (Bool-cases (C.conf.tiny_full (map_len s.contracts))) [
      | inl full ↦ rw (e, open_contract, full) g
      | inr room ↦
          rw (e, open_contract, room)
            (insert-Everywhere (λ _ (c : ContractState C). AgreesContract C E c) s.contracts id
              (new_contract C schema id) (new_contract-Agrees C E schema id) g)
    ]
  ]

  pub register_contract-Agrees :
      (schema : StateSchema C) (id : ℕ) (genesis : Operation C)
      → Commits C E genesis
      → Agreed (register_contract C schema id genesis)
  unfolding register_contract add_genesis
  register_contract-Agrees schema id genesis right =
      then-Agreed (open_contract C schema id) _ (open_contract-Agrees schema id)
        (λ _. write_operation-Agrees id (genesis_op genesis) right)

  resolved-Agrees : (w : ℕ) (r : Result String C.WitnessOrd) → Agreed (resolved C w r)
  resolved-Agrees w (err reason) s g = g
  resolved-Agrees w (ok ord) s g = g

  pub resolve-Agrees : (ords : Resolver C) (w : ℕ) → Agreed (resolve C ords w)
  unfolding resolve
  resolve-Agrees ords w = resolved-Agrees w (ords w)

  pub update_contract-Agrees : (id : ℕ) → Agreed (update_contract C id)
  unfolding update_contract
  update_contract-Agrees id s g = elim (Option-cases (Map.get s.contracts id)) [
    | inl e ↦ rw (e, update_contract) g
    | inr (c, e) ↦ rw (e, update_contract) g
  ]

  -- A loop whose rounds agree for elements that commit
  pub for_each-Agrees :
      (f : Operation C → Write C (Unit {0}))
      → ((op : Operation C) → Commits C E op → Agreed (f op))
      → (l : List (Operation C)) → All (Commits C E) l
      → Agreed (for_each f l)
  unfolding for_each
  for_each-Agrees f each [] right = Follows-refl
  for_each-Agrees f each (op ∷ l) (here, later) =
      then-Agreed (f op) (λ _. for_each f l) (each op here) (λ _. for_each-Agrees f each l later)

  -- What is held in a state that agrees is recorded.
  pub OpRecorded-Held :
      (id : ℕ) (o : OrdOp C) (s : MemState C)
      → Commits C E (operation_of C o)
      → Agrees C E s
      → OpHeld C id o s
      → OpRecorded C id o s
  OpRecorded-Held id o s (globals, outputs) g (c, found, (held, there)) =
      let agrees : AgreesContract C E c = g id c found in
      (
        c,
        found,
        GlobalsRecorded-Held C E o (operation_of C o).globals c globals agrees held,
        OutputsRecorded-Held C E o (operation_of C o).assignments c outputs agrees there,
      )

  pub ItemsKept-StateGrows :
      (s t : MemState C) → StateGrows C s t → Agrees C E s → Agrees C E t → ItemsKept C s t
  ItemsKept-StateGrows s t grows before later id c at_id ty g at_ty out v there =
      let (d, at_id', more) = grows.more_contracts id c at_id in
      let (h, at_ty', (_, keys)) = more.more_global ty g at_ty in
      let (w, there') = keys out v there in
      let old : v ≡ E.datum ty out.opid out.index =
        (before id c at_id).items ty g at_ty out v there in
      let new : w ≡ E.datum ty out.opid out.index =
        (later id d at_id').items ty h at_ty' out w there' in
      let same : w ≡ v = new ∙ sym old in (d, h, at_id', at_ty', rw same at there')
