-- ===== src/Examples/States.antt =====
-- A state that takes a consignment, and what its views show (src/persistence/memory.rs, src/persistence/state.rs).
use rgb_wallet.Prelude.{
  ℕ, ◌+◌, [], ◌∷◌, ◌⊎◌, Option, none, some, false, ok, err, ◌≡◌, refl, sym, ap, some-injective,
  none-ne-some, eqb, ltb, if◌then◌else◌, All,
}
use rgb_wallet.Collections.Map
use rgb_wallet.Collections.Map.{Map}
use rgb_wallet.Collections.Ord.{nat_ord}
use rgb_wallet.Collections.Confinement.{Confinement}
use rgb_wallet.Contract.Types.{Opout, States, revealed, confidential_seal, fungible, declarative}
use rgb_wallet.State.Types.{
  Core, place_ord, MemState, Operation, StateSchema, genesis_assigns, graph_assigns, genesis_op,
  global_ord,
}
use rgb_wallet.State.Assigned.{
  push, to_revealed, add_output, add_revealed, process, add_typed, add_assignments,
}
use rgb_wallet.State.Contract.{
  new_globals, new_contract, add_items, add_globals, add_outputs, add_operation,
}
use rgb_wallet.Exec.{for_each}
use rgb_wallet.State.Write.{
  in_memory, write_witness, write_operation, add_genesis, add_transition, add_extension,
  open_contract, register_contract, update_contract, Resolver, resolve, update_transition,
  update_from_bundle,
}
use rgb_wallet.State.Write.Laws.{StateGrows}
use rgb_wallet.State.Write.Bundle.{WitnessIs}
use rgb_wallet.Collections.Growth.{empty-Everywhere}
use rgb_wallet.State.Committed.{Contents, Commits, Agrees, OpRecorded}
use rgb_wallet.State.Committed.Writes.{ItemsKept}
use rgb_wallet.State.Committed.Bundle.{TransitionRecorded, update_from_bundle-Recorded}
use rgb_wallet.State.Committed.Consignment.{
  BundleRecorded, CommitsConsignment, update_from_consignment-Agrees, update_from_consignment-Kept,
  update_from_consignment-Recorded,
}
use rgb_wallet.State.Update.{
  StateConsignment, note_use, note_inputs, note_extensions, update_transitions, update_bundles,
  update_extension, update_from_consignment,
}

abbrev pub numbers : States
numbers = record { Rights = ℕ; Value = ℕ; Structure = ℕ; Attach = ℕ }

abbrev pub endless : Confinement
endless = record {
  tiny_full = λ n. false;
  small_full = λ n. false;
  medium_full = λ n. false;
  large_full = λ n. false;
}

-- Seals and orders are numbers; an order is a height, and the order 0 is that of an archived witness.
abbrev pub core : Core
core = record {
  conf = endless;
  states = numbers;
  Datum = ℕ;
  GenesisSeal = ℕ;
  GraphSeal = ℕ;
  genesis_output = λ seal. some seal;
  genesis_output_at = λ seal w. some seal;
  graph_output = λ seal. none;
  graph_output_at = λ seal w. some (seal + w);
  WitnessOrd = ℕ;
  is_archived = λ ord. eqb ord 0;
  is_valid = λ ord. ltb 0 ord;
  ord_lt = ltb;
  mined_height = λ ord. some ord;
  to_outpoint = λ seal. seal;
  GlobalOrd = ℕ;
  genesis_place = λ index. index;
  transition_place = λ opid index ty nonce ord. ord + index;
  extension_place = λ opid index ty nonce ord. ord + index;
}

abbrev genesis : Operation core
genesis = record {
  id = 1;
  nonce = 0;
  ty = 0;
  globals = (2000, 7 ∷ []) ∷ [];
  inputs = [];
  assignments = genesis_assigns ((4000, fungible (revealed 50 100 0 ∷ [])) ∷ []);
}

abbrev transfer : Operation core
transfer = record {
  id = 2;
  nonce = 1;
  ty = 10000;
  globals = (2000, 8 ∷ []) ∷ [];
  inputs = 3 ∷ [];
  assignments =
      graph_assigns ((4000, fungible (confidential_seal 60 30 0 ∷ revealed 61 70 0 ∷ [])) ∷ []);
}

-- An extension whose right the transfer uses
abbrev mint : Operation core
mint = record {
  id = 3;
  nonce = 0;
  ty = 5;
  globals = [];
  inputs = [];
  assignments = genesis_assigns ((4001, declarative (revealed 51 1 0 ∷ [])) ∷ []);
}

abbrev schema : StateSchema core
schema = record { schema_id = 5; max_items = (2000, 1) ∷ [] }

-- Witness 500 is mined at the height 20, and no other is known.
abbrev pub ords : Resolver core
ords w = if eqb w 500 then ok 20 else err "unknown"

abbrev consignment : StateConsignment core
consignment = record {
  contract_id = 90;
  schema = schema;
  genesis = genesis;
  extensions = mint ∷ [];
  extension_ids = 3 ∷ [];
  witnesses = (500, transfer ∷ []) ∷ [];
}

abbrev after : MemState core
after = (update_from_consignment core ords consignment (in_memory core)).1

consumed : update_from_consignment core ords consignment (in_memory core) ≡ (ok tt, after)
unfolding update_from_consignment register_contract open_contract Map.get add_genesis
    write_operation Map.insert add_operation add_globals new_contract new_globals add_items
    add_outputs add_assignments add_typed process add_revealed to_revealed for_each add_output push
    note_extensions note_inputs note_use update_bundles update_extension update_transitions
    add_extension add_transition resolve write_witness
consumed = refl

-- What the identifiers stand for: an item for each operation, and the amount of each output
abbrev item_of : ℕ → ℕ
item_of opid = if eqb opid 1 then 7 else if eqb opid 2 then 8 else 9

abbrev amount_of : Opout → ℕ
amount_of out = if eqb out.op 1 then 100 else if eqb out.no 1 then 70 else 40

abbrev contents : Contents core
contents = record {
  datum = λ ty opid index. item_of opid;
  right = λ out. 1;
  value = amount_of;
  structure = λ out. 0;
  attach = λ out. 0;
}

only :
    {A B : Type 0} {a : A} {b : B} {a' : A} {b' : B}
    → ◌≡◌ {A = Option (A × B)} (some (a, b)) (some (a', b'))
    → b' ≡ b
only {A = A} {B = B} e = sym (ap (λ (r : A × B). r.1) (some-injective _ _ e))

genesis-Commits : Commits core contents genesis
unfolding to_revealed
genesis-Commits = (((refl, tt), tt), (((λ seal state e. only e), tt), tt))

transfer-Commits : Commits core contents transfer
unfolding to_revealed
transfer-Commits = (
  ((refl, tt), tt),
  (((λ seal state e. elim (none-ne-some (seal, state) e) [ ]), ((λ seal state e. only e), tt)), tt),
)

mint-Commits : Commits core contents mint
unfolding to_revealed
mint-Commits = (tt, (((λ seal state e. only e), tt), tt))

consignment-CommitsConsignment : CommitsConsignment core contents ords consignment
consignment-CommitsConsignment = (genesis-Commits, ((transfer-Commits, tt), tt), (mint-Commits, tt))

empty-Agrees : Agrees core contents (in_memory core)
empty-Agrees = empty-Everywhere _

after-Agrees : Agrees core contents after
after-Agrees =
    update_from_consignment-Agrees core contents ords consignment consignment-CommitsConsignment
      (in_memory core) empty-Agrees

update_from_consignment-Recorded_example :
    OpRecorded core 90 (genesis_op genesis) after
    × All (BundleRecorded core ords 90 after) consignment.witnesses
update_from_consignment-Recorded_example =
    update_from_consignment-Recorded core contents ords consignment (in_memory core) after
      consignment-CommitsConsignment empty-Agrees consumed

-- A second run, where a resolver fails
abbrev silent : Resolver core
silent w = err "offline"

update_from_consignment-Kept_example :
    StateGrows core after (update_from_consignment core silent consignment after).1
    × ItemsKept core after (update_from_consignment core silent consignment after).1
update_from_consignment-Kept_example =
    update_from_consignment-Kept core contents silent consignment after
      consignment-CommitsConsignment after-Agrees

abbrev payment : Operation core
payment = record {
  id = 4;
  nonce = 2;
  ty = 10000;
  globals = (2000, 9 ∷ []) ∷ [];
  inputs = 2 ∷ [];
  assignments = graph_assigns ((4000, fungible (revealed 62 40 0 ∷ [])) ∷ []);
}

abbrev paid : MemState core
paid = (update_from_bundle core ords 90 (payment ∷ []) 500 after).1

pays : update_from_bundle core ords 90 (payment ∷ []) 500 after ≡ (ok tt, paid)
unfolding update_from_consignment register_contract open_contract Map.get add_genesis
    write_operation Map.insert add_operation add_globals new_contract new_globals add_items
    add_outputs add_assignments add_typed process add_revealed to_revealed for_each add_output push
    note_extensions note_inputs note_use update_bundles update_extension update_transitions
    add_extension add_transition resolve write_witness update_from_bundle update_contract
    update_transition
pays = refl

payment-Commits : Commits core contents payment
unfolding to_revealed
payment-Commits = (((refl, tt), tt), (((λ seal state e. only e), tt), tt))

update_from_bundle-Recorded_example :
    (StateGrows core after paid × ItemsKept core after paid)
    × All (TransitionRecorded core ords 90 500 paid) (payment ∷ [])
    × ((payment ∷ [] ≡ []) ⊎ WitnessIs core ords 500 paid)
update_from_bundle-Recorded_example =
    update_from_bundle-Recorded core contents ords 90 (payment ∷ []) 500 after paid
      (payment-Commits, tt) after-Agrees pays
