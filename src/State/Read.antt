-- ===== src/State/Read.antt =====
-- `StateReadProvider for MemState` and the filtered view of a contract that it gives, `MemContract`
-- (src/persistence/memory.rs).
pub mod Shown
pub mod Filtered
use rgb_wallet.Prelude.{
  ℕ, zero, suc, ◌+◌, List, [], ◌∷◌, map, reverse, Option, none, some, Bool, true, false, not, ◌&&◌,
  ◌||◌, if◌then◌else◌, eqb, Result, ok, err, length, any_of, keep,
}
use rgb_wallet.Collections.Map
use rgb_wallet.Collections.Map.{Map}
use rgb_wallet.Collections.Ord.{nat_ord}
use rgb_wallet.State.Types.{
  Core, OutputAssignment, Place, Assigned, GlobalOut, OpWitness, genesis, transition, extension,
  witness_id, GlobalState, ContractState, MemState, StateError, unknown_contract,
}

abbrev pub is_witness : Option ℕ → ℕ → Bool
is_witness none w = false
is_witness (some v) w = eqb v w

module _ (C : Core) where
  -- `OutputAssignment::check_witness`
  unfoldable pub check_witness :
      {State : Type 0} → Map ℕ C.WitnessOrd → OutputAssignment State → Bool
  check_witness filter a = elim a.witness [
    | none ↦ true
    | some w ↦ elim (Map.get filter w) [ none ↦ false | some ord ↦ not (C.is_archived ord) ]
  ]

  abbrev pub in_assigned : {State : Type 0} → ℕ → Assigned State → Bool
  in_assigned w set = any_of (λ e. is_witness e.1.witness w) set.entries

  abbrev pub in_globals : ℕ → Map ℕ (GlobalState C) → Bool
  in_globals w globals =
      any_of (λ g. any_of (λ e. is_witness (witness_id e.0.op_witness) w) g.1.known.entries)
        globals.entries

  -- The filter of `contract_state`: the witnesses that the contract mentions
  unfoldable pub mentions : ContractState C → ℕ → Bool
  mentions s w =
      in_globals w s.global
      || (in_assigned w s.rights
          || (in_assigned w s.fungibles || (in_assigned w s.structured || in_assigned w s.attach)))

  -- `MemContract`
  pub record ContractView : Type 0 where
    pub filter : Map ℕ C.WitnessOrd
    pub unfiltered : ContractState C

  unfoldable pub contract_state : MemState C → ℕ → Result StateError ContractView
  contract_state s id = elim (Map.get s.contracts id) [
    | none ↦ err (unknown_contract id)
    | some contract ↦ ok (record {
      filter = record { entries = keep (λ e. mentions contract e.0) s.witnesses.entries };
      unfiltered = contract;
    })
  ]

  -- The assignments that pass the filter, as `rights_all`, `fungible_all`, `data_all` and `attach_all` give them
  abbrev pub shown :
      {State : Type 0} → Map ℕ C.WitnessOrd → Assigned State → List (OutputAssignment State)
  shown filter set = keep (check_witness filter) (map (λ e. e.1) set.entries)

  -- The assignments of a type at an outpoint that pass the filter
  abbrev pub shown_at :
      {State : Type 0} → Map ℕ C.WitnessOrd → Assigned State → ℕ → ℕ → List (OutputAssignment State)
  shown_at filter set outpoint ty = keep (check_witness filter) (
      keep (λ a. eqb (C.to_outpoint a.seal) outpoint && eqb a.opout.ty ty)
        (map (λ e. e.1) set.entries))

  -- The four reads of `ContractStateAccess`; the number of rights is below 2 ^ 32.
  unfoldable pub rights : ContractView → ℕ → ℕ → ℕ
  rights v outpoint ty = length (shown_at v.filter v.unfiltered.rights outpoint ty)

  unfoldable pub fungible : ContractView → ℕ → ℕ → List C.states.Value
  fungible v outpoint ty = map (λ a. a.state) (shown_at v.filter v.unfiltered.fungibles outpoint ty)

  unfoldable pub structured_at : ContractView → ℕ → ℕ → List C.states.Structure
  structured_at v outpoint ty =
      map (λ a. a.state) (shown_at v.filter v.unfiltered.structured outpoint ty)

  unfoldable pub attach_at : ContractView → ℕ → ℕ → List C.states.Attach
  attach_at v outpoint ty = map (λ a. a.state) (shown_at v.filter v.unfiltered.attach outpoint ty)

  -- The place of a global state item in the order of the view, if its witness passes
  unfoldable pub global_place : Map ℕ C.WitnessOrd → GlobalOut → Option C.GlobalOrd
  global_place filter out = elim out.op_witness [
    | genesis ↦ some (C.genesis_place out.index)
    | transition w ty ↦ elim (Map.get filter w) [
      | none ↦ none
      | some ord ↦ some (C.transition_place out.opid out.index ty out.nonce ord)
    ]
    | extension w ty ↦ elim (Map.get filter w) [
      | none ↦ none
      | some ord ↦ some (C.extension_place out.opid out.index ty out.nonce ord)
    ]
  ]

  abbrev pub Items : Type 0
  Items = List (C.GlobalOrd × C.Datum)

  -- An item that has no place is left out.
  abbrev pub with_place : Option C.GlobalOrd → C.Datum → Items → Items
  with_place none item later = later
  with_place (some place) item later = (place, item) ∷ later

  unfoldable pub global_places : Map ℕ C.WitnessOrd → List (GlobalOut × C.Datum) → Items
  global_places filter [] = []
  global_places filter ((out, item) ∷ rest) =
      with_place (global_place filter out) item (global_places filter rest)
