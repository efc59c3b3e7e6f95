-- ===== src/State/Committed/Added.antt =====
-- Operations that are added to a contract state (src/persistence/memory.rs), where identifiers commit to contents
use rgb_wallet.Prelude.{
  ℕ, suc, List, [], ◌∷◌, some, ◌≡◌, sym, ◌∙◌, some-injective, none-ne-some, chain-some, Bool-cases,
  inl, inr,
}
use rgb_wallet.Collections.Map
use rgb_wallet.Collections.Map.{Map}
use rgb_wallet.Collections.Growth.{Everywhere, empty-Everywhere, insert-Everywhere}
use rgb_wallet.Collections.Ord.{nat_ord}
use rgb_wallet.Collections.Confinement.{map_len}
use rgb_wallet.State.Types.{
  Core, place_ord, GlobalOut, global_ord, GlobalState, ContractState, AssignmentsRef,
  genesis_assigns, graph_assigns, OrdOp, StateSchema,
}
use rgb_wallet.State.Contract.{
  operation_of, witness_of, genesis_output_by, graph_output_by, global_out, new_globals,
  new_contract, add_items, add_globals, add_outputs, add_operation,
}
use rgb_wallet.State.Grows.Added.{HeldItems, HeldGlobals, HeldOutputs}
use rgb_wallet.State.Committed.{
  Contents, CommitsItems, CommitsGlobals, CommitsRef, Commits, AgreesItems, AgreesContract,
  ItemsRecorded, GlobalsRecorded, OutputsRecorded,
}
use rgb_wallet.State.Committed.Outputs.{add_assignments-AgreesContract, AllRecorded-Held}

module _ (C : Core) (E : Contents C) where
  new_globals-Agrees :
      (l : List (ℕ × ℕ))
      → Everywhere (λ ty (g : GlobalState C). AgreesItems C E ty g.known) (new_globals C l)
  unfolding new_globals
  new_globals-Agrees [] = empty-Everywhere _
  new_globals-Agrees ((ty, limit) ∷ l) =
      insert-Everywhere (λ ty (g : GlobalState C). AgreesItems C E ty g.known) (new_globals C l) ty
        (record { known = Map.empty; limit = limit }) (empty-Everywhere _) (new_globals-Agrees l)

  pub new_contract-Agrees :
      (schema : StateSchema C) (id : ℕ) → AgreesContract C E (new_contract C schema id)
  unfolding new_contract
  new_contract-Agrees schema id = record {
    items = new_globals-Agrees schema.max_items;
    rights = empty-Everywhere _;
    values = empty-Everywhere _;
    structures = empty-Everywhere _;
    attaches = empty-Everywhere _;
  }

  add_items-Agrees :
      (o : OrdOp C) (ty n : ℕ) (items : List C.Datum) (s t : Map GlobalOut C.Datum)
      → add_items C o n items s ≡ some t
      → CommitsItems C E ty (operation_of C o).id n items
      → AgreesItems C E ty s
      → AgreesItems C E ty t
  unfolding add_items
  add_items-Agrees o ty n [] s t h right agrees = rw (sym (some-injective _ _ h)) agrees
  add_items-Agrees o ty n (item ∷ items) s t h (here, later) agrees =
      elim (Bool-cases (C.conf.large_full (map_len s))) [
        | inl full ↦ elim (none-ne-some t (rw full at h)) [ ]
        | inr room ↦
            add_items-Agrees o ty (suc n) items (Map.insert s (global_out C o n) item) t
              (rw room at h) later
              (insert-Everywhere (λ out v. v ≡ E.datum ty out.opid out.index) s (global_out C o n)
                item here agrees)
      ]

  add_globals-Agrees :
      (o : OrdOp C) (l : List (ℕ × List C.Datum)) (s t : ContractState C)
      → add_globals C o l s ≡ some t
      → CommitsGlobals C E (operation_of C o).id l
      → AgreesContract C E s
      → AgreesContract C E t
  unfolding add_globals
  add_globals-Agrees o [] s t h right g = rw (sym (some-injective _ _ h)) g
  add_globals-Agrees o ((ty, items) ∷ l) s t h (here, later) g =
      let (state, found, rest_of) = chain-some (Map.get s.global ty) _ t h in
      let (known, made, rest) = chain-some (add_items C o 0 items state.known) _ t rest_of in
      let next = record state { known = known } in
      let agrees =
        add_items-Agrees o ty 0 items state.known known made here (g.items ty state found) in
      add_globals-Agrees o l (record s { global = Map.insert s.global ty next }) t rest later
        (record {
          items =
              insert-Everywhere (λ ty (g : GlobalState C). AgreesItems C E ty g.known) s.global ty
                next agrees g.items;
          rights = g.rights;
          values = g.values;
          structures = g.structures;
          attaches = g.attaches;
        })

  add_outputs-Agrees :
      (o : OrdOp C) (a : AssignmentsRef C) (s t : ContractState C)
      → add_outputs C o a s ≡ some t
      → CommitsRef C E (operation_of C o).id a
      → AgreesContract C E s
      → AgreesContract C E t
  unfolding add_outputs
  add_outputs-Agrees o (genesis_assigns a) s t h right g =
      add_assignments-AgreesContract C E _ _ _ a s t h right g
  add_outputs-Agrees o (graph_assigns a) s t h right g =
      add_assignments-AgreesContract C E _ _ _ a s t h right g

  pub add_operation-Agrees :
      (o : OrdOp C) (s t : ContractState C)
      → add_operation C o s ≡ some t
      → Commits C E (operation_of C o)
      → AgreesContract C E s
      → AgreesContract C E t
  unfolding add_operation
  add_operation-Agrees o s t h (globals, outputs) g =
      let (u, one, rest) = chain-some _ (add_outputs C o (operation_of C o).assignments) t h in
      add_outputs-Agrees o (operation_of C o).assignments u t rest outputs
        (add_globals-Agrees o (operation_of C o).globals s u one globals g)

  ItemsRecorded-Held :
      (o : OrdOp C) (ty n : ℕ) (items : List C.Datum) (known : Map GlobalOut C.Datum)
      → CommitsItems C E ty (operation_of C o).id n items
      → AgreesItems C E ty known
      → HeldItems C o n items known
      → ItemsRecorded C o n items known
  ItemsRecorded-Held o ty n [] known right agrees held = tt
  ItemsRecorded-Held o ty n (item ∷ items) known (here, later) agrees ((v, found), held) =
      let same : v ≡ item = agrees (global_out C o n) v found ∙ sym here in
      (rw same at found, ItemsRecorded-Held o ty (suc n) items known later agrees held)

  pub GlobalsRecorded-Held :
      (o : OrdOp C) (l : List (ℕ × List C.Datum)) (s : ContractState C)
      → CommitsGlobals C E (operation_of C o).id l
      → AgreesContract C E s
      → HeldGlobals C o l s
      → GlobalsRecorded C o l s
  GlobalsRecorded-Held o [] s right g held = tt
  GlobalsRecorded-Held o ((ty, items) ∷ l) s (here, later) g ((a, found, held), rest) = (
    (a, found, ItemsRecorded-Held o ty 0 items a.known here (g.items ty a found) held),
    GlobalsRecorded-Held o l s later g rest,
  )

  pub OutputsRecorded-Held :
      (o : OrdOp C) (a : AssignmentsRef C) (s : ContractState C)
      → CommitsRef C E (operation_of C o).id a
      → AgreesContract C E s
      → HeldOutputs C o a s
      → OutputsRecorded C o a s
  OutputsRecorded-Held o (genesis_assigns a) s right g held =
      AllRecorded-Held C E (genesis_output_by C (witness_of C o)) (witness_of C o)
        (operation_of C o).id a s right g held
  OutputsRecorded-Held o (graph_assigns a) s right g held =
      AllRecorded-Held C E (graph_output_by C (witness_of C o)) (witness_of C o)
        (operation_of C o).id a s right g held
