-- ===== src/State/Grows/Added.antt =====
-- What a contract state keeps and gets when an operation is added (src/persistence/memory.rs).
use rgb_wallet.Prelude.{
  ℕ, suc, List, [], ◌∷◌, some, ◌≡◌, refl, sym, Bool-cases, inl, inr, some-injective, none-ne-some,
  chain-some,
}
use rgb_wallet.Collections.Map
use rgb_wallet.Collections.Map.{Map, get-insert}
use rgb_wallet.Collections.Ord.{nat_ord}
use rgb_wallet.Collections.Confinement.{map_len}
use rgb_wallet.State.Types.{
  Core, place_ord, GlobalOut, global_ord, GlobalState, ContractState, AssignmentsRef,
  genesis_assigns, graph_assigns, OrdOp,
}
use rgb_wallet.State.Contract.{
  operation_of, witness_of, global_out, add_items, add_globals, add_outputs, add_operation,
  genesis_output_by, graph_output_by,
}
use rgb_wallet.Collections.Growth.{KeysGrow, insert-KeysGrow}
use rgb_wallet.State.Grows.Contract.{
  ContractGrows, ContractGrows-refl, ContractGrows-trans, with_global,
}
use rgb_wallet.State.Grows.Outputs.{HeldAll, HeldAll-stable, add_assignments_lem}

module _ (C : Core) where
  -- The items of a global type are keys of its map, and the type is one of the schema's.
  abbrev pub HeldItems : OrdOp C → ℕ → List C.Datum → Map GlobalOut C.Datum → Type 0
  HeldItems o n [] known = Unit
  HeldItems o n (_ ∷ items) known =
      ((v : C.Datum) × (Map.get known (global_out C o n) ≡ some v))
      × HeldItems o (suc n) items known

  abbrev pub HeldType : OrdOp C → ℕ × List C.Datum → ContractState C → Type 0
  HeldType o (ty, items) s =
      (g : GlobalState C) × (Map.get s.global ty ≡ some g) × HeldItems o 0 items g.known

  abbrev pub HeldGlobals : OrdOp C → List (ℕ × List C.Datum) → ContractState C → Type 0
  HeldGlobals o [] s = Unit
  HeldGlobals o (e ∷ l) s = HeldType o e s × HeldGlobals o l s

  HeldItems-stable :
      (o : OrdOp C) (n : ℕ) (items : List C.Datum) (s t : Map GlobalOut C.Datum)
      → KeysGrow s t
      → HeldItems o n items s
      → HeldItems o n items t
  HeldItems-stable o n [] s t g h = tt
  HeldItems-stable o n (item ∷ items) s t g ((v, found), hs) =
      (g (global_out C o n) v found, HeldItems-stable o (suc n) items s t g hs)

  pub HeldGlobals-stable :
      (o : OrdOp C) (l : List (ℕ × List C.Datum)) (s t : ContractState C)
      → ContractGrows C s t
      → HeldGlobals o l s
      → HeldGlobals o l t
  HeldGlobals-stable o [] s t g h = tt
  HeldGlobals-stable o ((ty, items) ∷ l) s t g ((a, found, held), hs) =
      let (b, found', (_, more)) = g.more_global ty a found in
      (
        (b, found', HeldItems-stable o 0 items a.known b.known more held),
        HeldGlobals-stable o l s t g hs,
      )

  add_items_lem :
      (o : OrdOp C) (n : ℕ) (items : List C.Datum) (s t : Map GlobalOut C.Datum)
      → add_items C o n items s ≡ some t
      → KeysGrow s t × HeldItems o n items t
  unfolding add_items
  add_items_lem o n [] s t h = (rw (sym (some-injective s t h)) (λ k v e. (v, e)), tt)
  add_items_lem o n (item ∷ items) s t h = elim (Bool-cases (C.conf.large_full (map_len s))) [
    | inl full ↦ elim (none-ne-some t (rw full at h)) [ ]
    | inr room ↦
        let (rest, held) =
          add_items_lem o (suc n) items (Map.insert s (global_out C o n) item) t (rw room at h) in
        let (v, found) =
          rest (global_out C o n) item (Map.get-insert_self s (global_out C o n) item) in
        (
          (λ k v e. let (w, f) = insert-KeysGrow s (global_out C o n) item k v e in rest k w f),
          ((v, found), held),
        )
  ]

  add_globals_lem :
      (o : OrdOp C) (l : List (ℕ × List C.Datum)) (s t : ContractState C)
      → add_globals C o l s ≡ some t
      → ContractGrows C s t × HeldGlobals o l t
  unfolding add_globals
  add_globals_lem o [] s t h = (rw (sym (some-injective s t h)) (ContractGrows-refl C s), tt)
  add_globals_lem o ((ty, items) ∷ l) s t h =
      let (state, found, rest_of) = chain-some (Map.get s.global ty) _ t h in
      let (known, made, rest) = chain-some (add_items C o 0 items state.known) _ t rest_of in
      let (keys, held) = add_items_lem o 0 items state.known known made in
      let next = record state { known = known } in
      let u = record s { global = Map.insert s.global ty next } in
      let (grows, later) = add_globals_lem o l u t rest in
      let (g, found', (_, more)) =
        grows.more_global ty next (Map.get-insert_self s.global ty next) in
      (
        ContractGrows-trans C s u t (with_global C s ty state next found (refl, keys)) grows,
        ((g, found', HeldItems-stable o 0 items known g.known more held), later),
      )

  -- The revealed assignments and the global state of an operation are in the state of its contract.
  abbrev pub HeldOutputs : OrdOp C → AssignmentsRef C → ContractState C → Type 0
  HeldOutputs o (genesis_assigns a) s =
      HeldAll C (genesis_output_by C (witness_of C o)) (witness_of C o) (operation_of C o).id a s
  HeldOutputs o (graph_assigns a) s =
      HeldAll C (graph_output_by C (witness_of C o)) (witness_of C o) (operation_of C o).id a s

  abbrev pub HeldOp : OrdOp C → ContractState C → Type 0
  HeldOp o s =
      HeldGlobals o (operation_of C o).globals s × HeldOutputs o (operation_of C o).assignments s

  HeldOutputs-stable :
      (o : OrdOp C) (a : AssignmentsRef C) (s t : ContractState C)
      → ContractGrows C s t
      → HeldOutputs o a s
      → HeldOutputs o a t
  HeldOutputs-stable o (genesis_assigns a) s t g h =
      HeldAll-stable C (genesis_output_by C (witness_of C o)) (witness_of C o) (operation_of C o).id
        a s t g h
  HeldOutputs-stable o (graph_assigns a) s t g h =
      HeldAll-stable C (graph_output_by C (witness_of C o)) (witness_of C o) (operation_of C o).id a
        s t g h

  pub HeldOp-stable :
      (o : OrdOp C) (s t : ContractState C) → ContractGrows C s t → HeldOp o s → HeldOp o t
  HeldOp-stable o s t g (h, k) =
      (HeldGlobals-stable o _ s t g h, HeldOutputs-stable o (operation_of C o).assignments s t g k)

  add_outputs_lem :
      (o : OrdOp C) (a : AssignmentsRef C) (s t : ContractState C)
      → add_outputs C o a s ≡ some t
      → ContractGrows C s t × HeldOutputs o a t
  unfolding add_outputs
  add_outputs_lem o (genesis_assigns a) s t h = add_assignments_lem C _ _ _ a s t h
  add_outputs_lem o (graph_assigns a) s t h = add_assignments_lem C _ _ _ a s t h

  -- An operation that is added is held by the state, and nothing of the state is taken away.
  pub add_operation_lem :
      (o : OrdOp C) (s t : ContractState C)
      → add_operation C o s ≡ some t
      → ContractGrows C s t × HeldOp o t
  unfolding add_operation
  add_operation_lem o s t h =
      let (u, one, rest) = chain-some _ (add_outputs C o (operation_of C o).assignments) t h in
      let (first, globals) = add_globals_lem o (operation_of C o).globals s u one in
      let (second, outputs) = add_outputs_lem o (operation_of C o).assignments u t rest in
      (
        ContractGrows-trans C s u t first second,
        (HeldGlobals-stable o (operation_of C o).globals u t second globals, outputs),
      )
