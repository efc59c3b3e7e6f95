-- ===== src/State/Write/Laws.antt =====
-- What the writes of the in-memory state keep of it (src/persistence/memory.rs, src/persistence/state.rs).
use Prim.Native.String.{String}
use rgb_wallet.Prelude.{
  ℕ, none, some, Result, ok, err, ◌≡◌, refl, sym, ◌∙◌, Option-cases, Bool-cases, inl, inr,
  some-injective, none-ne-some,
}
use rgb_wallet.Collections.Map
use rgb_wallet.Collections.Map.{Map, get-insert}
use rgb_wallet.Collections.Ord.{nat_ord, ◌==◌}
use rgb_wallet.Collections.Confinement.{map_len}
use rgb_wallet.Exec.Laws.{Keeps}
use rgb_wallet.State.Types.{Core, ContractState, MemState, OrdOp, StateSchema, StateError}
use rgb_wallet.State.Contract.{new_contract, add_operation}
use rgb_wallet.State.Write.{
  write_witness, write_operation, open_contract, update_contract, Resolver, resolved, resolve,
}
use rgb_wallet.Collections.Growth.{KeysGrow, insert-KeysGrow}
use rgb_wallet.State.Grows.Contract.{ContractGrows, ContractGrows-refl, ContractGrows-trans}
use rgb_wallet.State.Grows.Added.{HeldOp, HeldOp-stable, add_operation_lem}

module _ (C : Core) where
  -- Every contract has what it had, and every witness is known still.
  pub record StateGrows (s t : MemState C) : Type 0 where
    pub more_contracts :
        (id : ℕ) (c : ContractState C)
        → Map.get s.contracts id ≡ some c
        → (d : ContractState C) × (Map.get t.contracts id ≡ some d) × ContractGrows C c d
    pub more_witnesses : KeysGrow s.witnesses t.witnesses

  pub StateGrows-refl : (s : MemState C) → StateGrows s s
  StateGrows-refl s = record {
    more_contracts = λ id c h. (c, h, ContractGrows-refl C c);
    more_witnesses = λ w ord h. (ord, h);
  }

  pub StateGrows-trans : (s t u : MemState C) → StateGrows s t → StateGrows t u → StateGrows s u
  StateGrows-trans s t u g h = record {
    more_contracts = λ id c e.
        let (d, f, more) = g.more_contracts id c e in
        let (d', f', more') = h.more_contracts id d f in
        (d', f', ContractGrows-trans C c d d' more more');
    more_witnesses =
        λ w ord e. let (ord', f) = g.more_witnesses w ord e in h.more_witnesses w ord' f;
  }

  pub write_witness-Keeps : (w : ℕ) (ord : C.WitnessOrd) → Keeps StateGrows (write_witness C w ord)
  unfolding write_witness
  write_witness-Keeps w ord s = elim (Bool-cases (C.conf.large_full (map_len s.witnesses))) [
    | inl full ↦ rw full (StateGrows-refl s)
    | inr room ↦ rw room (record {
      more_contracts = λ id c h. (c, h, ContractGrows-refl C c);
      more_witnesses = insert-KeysGrow s.witnesses w ord;
    })
  ]

  -- A contract is replaced by one that has all of it.
  replaced :
      (s : MemState C) (id : ℕ) (c d : ContractState C)
      → Map.get s.contracts id ≡ some c
      → ContractGrows C c d
      → StateGrows s (record s { contracts = Map.insert s.contracts id d })
  replaced s id c d at_id grows = record {
    more_contracts = more;
    more_witnesses = λ w ord h. (ord, h);
  }
    where
      more :
          (k : ℕ) (a : ContractState C)
          → Map.get s.contracts k ≡ some a
          → (b : ContractState C) × (Map.get (Map.insert s.contracts id d) k ≡ some b)
            × ContractGrows C a b
      more k a h = elim (Bool-cases (id == k)) [
        | inl same ↦ (
          d,
          get-insert s.contracts id k d ∙ rw same refl,
          rw (some-injective c a (sym at_id ∙ rw ((nat_ord.eq_iff id k).0 same) h)) at grows,
        )
        | inr other ↦ (a, get-insert s.contracts id k d ∙ rw other h, ContractGrows-refl C a)
      ]

  -- The contract has the assignments and the global state of an operation.
  abbrev pub OpHeld : ℕ → OrdOp C → MemState C → Type 0
  OpHeld id o s = (c : ContractState C) × (Map.get s.contracts id ≡ some c) × HeldOp C o c

  pub OpHeld-stable :
      (id : ℕ) (o : OrdOp C) (s t : MemState C) → StateGrows s t → OpHeld id o s → OpHeld id o t
  OpHeld-stable id o s t g (c, found, held) =
      let (d, found', more) = g.more_contracts id c found in
      (d, found', HeldOp-stable C o c d more held)

  -- `write_operation` keeps the state, and on success the contract has the operation.
  pub write_operation-Keeps : (id : ℕ) (o : OrdOp C) → Keeps StateGrows (write_operation C id o)
  unfolding write_operation
  write_operation-Keeps id o s = elim (Option-cases (Map.get s.contracts id)) [
    | inl e ↦ rw (e, write_operation) (StateGrows-refl s)
    | inr (c, e) ↦ elim (Option-cases (add_operation C o c)) [
      | inl f ↦ rw (e, f, write_operation) (StateGrows-refl s)
      | inr (d, f) ↦
          rw (e, f, write_operation) (replaced s id c d e (add_operation_lem C o c d f).0)
    ]
  ]

  pub write_operation_lem :
      (id : ℕ) (o : OrdOp C) (s t : MemState C)
      → write_operation C id o s ≡ (ok tt, t)
      → OpHeld id o t
  unfolding write_operation
  write_operation_lem id o s t h = elim (Option-cases (Map.get s.contracts id)) [
    | inl e ↦ elim (failed (rw (e, write_operation) at h)) [ ]
    | inr (c, e) ↦ elim (Option-cases (add_operation C o c)) [
      | inl f ↦ elim (failed (rw (e, f, write_operation) at h)) [ ]
      | inr (d, f) ↦
          rw (same _ (rw (e, f, write_operation) at h))
            (d, Map.get-insert_self s.contracts id d, (add_operation_lem C o c d f).1)
    ]
  ]
    where
      failed :
          {e : StateError} {u : MemState C}
          → ◌≡◌ {A = Result StateError (Unit {0}) × MemState C} (err e, u) (ok tt, t)
          → ⊥
      failed h = cc

      same :
          (u : MemState C)
          → ◌≡◌ {A = Result StateError (Unit {0}) × MemState C} (ok tt, u) (ok tt, t)
          → t ≡ u
      same u h = cc

  pub open_contract-Keeps :
      (schema : StateSchema C) (id : ℕ) → Keeps StateGrows (open_contract C schema id)
  unfolding open_contract
  open_contract-Keeps schema id s = elim (Option-cases (Map.get s.contracts id)) [
    | inr (c, e) ↦ rw (e, open_contract) (StateGrows-refl s)
    | inl e ↦ elim (Bool-cases (C.conf.tiny_full (map_len s.contracts))) [
      | inl full ↦ rw (e, open_contract, full) (StateGrows-refl s)
      | inr room ↦
          rw (e, open_contract, room)
            (record { more_contracts = more e; more_witnesses = λ w ord h. (ord, h) })
    ]
  ]
    where
      more :
          Map.get s.contracts id ≡ none
          → (k : ℕ) (a : ContractState C) → Map.get s.contracts k ≡ some a
          → (b : ContractState C) × (Map.get
                (Map.insert s.contracts id (new_contract C schema id))
                k
              ≡ some b)
            × ContractGrows C a b
      more e k a h = elim (Bool-cases (id == k)) [
        | inl same ↦ elim (none-ne-some a (sym e ∙ rw ((nat_ord.eq_iff id k).0 same) h)) [ ]
        | inr other ↦ (
          a,
          get-insert s.contracts id k (new_contract C schema id) ∙ rw other h,
          ContractGrows-refl C a,
        )
      ]

  pub update_contract-Keeps : (id : ℕ) → Keeps StateGrows (update_contract C id)
  unfolding update_contract
  update_contract-Keeps id s = elim (Option-cases (Map.get s.contracts id)) [
    | inl e ↦ rw (e, update_contract) (StateGrows-refl s)
    | inr (c, e) ↦ rw (e, update_contract) (StateGrows-refl s)
  ]

  resolved-Keeps : (w : ℕ) (r : Result String C.WitnessOrd) → Keeps StateGrows (resolved C w r)
  resolved-Keeps w (err reason) s = StateGrows-refl s
  resolved-Keeps w (ok ord) s = StateGrows-refl s

  pub resolve-Keeps : (ords : Resolver C) (w : ℕ) → Keeps StateGrows (resolve C ords w)
  unfolding resolve
  resolve-Keeps ords w = resolved-Keeps w (ords w)

  pub resolve_lem :
      (ords : Resolver C) (w : ℕ) (ord : C.WitnessOrd) (s t : MemState C)
      → resolve C ords w s ≡ (ok ord, t)
      → (ords w ≡ ok ord) × (s ≡ t)
  unfolding resolve
  resolve_lem ords w ord s t h = by_order (ords w) h
    where
      by_order :
          (r : Result String C.WitnessOrd) → resolved C w r s ≡ (ok ord, t) → (r ≡ ok ord) × (s ≡ t)
      by_order (err reason) h = cc
      by_order (ok new) h = (cc, cc)

  pub write_witness_lem :
      (w : ℕ) (ord : C.WitnessOrd) (s t : MemState C)
      → write_witness C w ord s ≡ (ok tt, t)
      → Map.get t.witnesses w ≡ some ord
  unfolding write_witness
  write_witness_lem w ord s t h = elim (Bool-cases (C.conf.large_full (map_len s.witnesses))) [
    | inl full ↦ elim (failed (rw full at h)) [ ]
    | inr room ↦ rw (same _ (rw room at h)) (Map.get-insert_self s.witnesses w ord)
  ]
    where
      failed :
          {e : StateError} {u : MemState C}
          → ◌≡◌ {A = Result StateError (Unit {0}) × MemState C} (err e, u) (ok tt, t)
          → ⊥
      failed h = cc

      same :
          (u : MemState C)
          → ◌≡◌ {A = Result StateError (Unit {0}) × MemState C} (ok tt, u) (ok tt, t)
          → t ≡ u
      same u h = cc

  pub write_operation_witness :
      (id : ℕ) (o : OrdOp C) (s : MemState C) → (write_operation C id o s).1.witnesses ≡ s.witnesses
  unfolding write_operation
  write_operation_witness id o s = elim (Option-cases (Map.get s.contracts id)) [
    | inl e ↦ rw (e, write_operation) refl
    | inr (c, e) ↦ elim (Option-cases (add_operation C o c)) [
      | inl f ↦ rw (e, f, write_operation) refl
      | inr (d, f) ↦ rw (e, f, write_operation) refl
    ]
  ]
