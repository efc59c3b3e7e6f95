-- ===== src/Builder/Transition.antt =====
-- `TransitionBuilder` (src/interface/builder.rs).
pub mod Calls
pub mod Reachable
pub mod Completed
use rgb_wallet.Prelude.{ℕ, List, map, Option, none, some, Bool, true, false, not, eqb, ◌-◌, ◌^◌}
use rgb_wallet.Collections.Map
use rgb_wallet.Collections.Map.{Map}
use rgb_wallet.Collections.Set.{Set}
use rgb_wallet.Collections.Confinement.{map_len}
use rgb_wallet.Contract.Types.{Opout, opout_ord, TypedAssigns}
use rgb_wallet.Interface.Types.{Iface}
use rgb_wallet.Interface.Implementation
use rgb_wallet.Interface.Implementation.{IfaceImpl}
use rgb_wallet.Builder.{
  BuilderCore, Schema, RevealedValue, RevealedData, RevealedAttach, PersistedState, void, amount,
  persisted_data, attached, BuilderSeal, BuilderError, transition_not_found, no_operation_subtype,
  no_default_assignment, confinement, Built, built, refused, panicked, ◌>>=◌, ◌>>◌, required,
  refuse_if, OperationBuilder, with_iface,
}
use rgb_wallet.Builder.Tags.{type_named, transition_iface, asset_tag_raw}
use rgb_wallet.Builder.Add
use rgb_wallet.Builder.Add.{check_tag}
use rgb_wallet.Builder.Complete.{Typed, complete}

module _ (C : BuilderCore) where
  pub record TransitionBuilder : Type 0 where
    pub contract_id : ℕ
    pub builder : OperationBuilder C
    pub nonce : ℕ
    pub transition_type : ℕ
    pub inputs : Map Opout (PersistedState C)

  -- `with`, and `deterministic`: the nonce is `u64::MAX`. A blank transition has the number `BLANK` of `rgb-core`.
  unfoldable pub with_type :
      ℕ
      → Iface C.occurrences
      → Schema
      → IfaceImpl
      → (transition_type : ℕ) → C.TypeSystem
      → TransitionBuilder
  unfolding with_iface
  with_type contract_id iface schema iimpl ty types = record {
    contract_id = contract_id;
    builder = with_iface C iface schema iimpl types;
    nonce = 2 ^ 64 - 1;
    transition_type = ty;
    inputs = Map.empty;
  }

  abbrev default_type : IfaceImpl → Option ℕ → Option ℕ
  default_type iimpl none = none
  default_type iimpl (some name) = Implementation.transition_type iimpl name

  unfoldable pub default_transition :
      ℕ → Iface C.occurrences → Schema → IfaceImpl → C.TypeSystem → Built TransitionBuilder
  default_transition contract_id iface schema iimpl types = do
    ty ← required (default_type iimpl iface.default_operation) no_operation_subtype
    built (with_type contract_id iface schema iimpl ty types)

  unfoldable pub named_transition :
      ℕ
      → Iface C.occurrences
      → Schema
      → IfaceImpl
      → (name : ℕ) → C.TypeSystem
      → Built TransitionBuilder
  named_transition contract_id iface schema iimpl name types = do
    ty ← required (Implementation.transition_type iimpl name) (transition_not_found name)
    built (with_type contract_id iface schema iimpl ty types)

  -- A step of the builder inside
  abbrev pub within : TransitionBuilder → Built (OperationBuilder C) → Built TransitionBuilder
  within self (built b) = built (record self { builder = b })
  within self (refused e) = refused e
  within self panicked = panicked

  unfoldable pub set_nonce : TransitionBuilder → ℕ → TransitionBuilder
  set_nonce self nonce = record self { nonce = nonce }

  unfoldable pub add_input : TransitionBuilder → Opout → PersistedState C → Built TransitionBuilder
  add_input self opout state = do
    refuse_if (C.conf.tiny_full (map_len self.inputs)) confinement
    built (record self { inputs = Map.insert self.inputs opout state })

  unfoldable pub default_assignment : TransitionBuilder → Built ℕ
  default_assignment self = do
    iface ← transition_iface C self.builder self.transition_type
    required iface.default_assignment no_default_assignment

  unfoldable pub check_amount_tag : OperationBuilder C → ℕ → PersistedState C → Built (Unit {0})
  check_amount_tag self type_id (amount value blinding tag) = check_tag C self type_id tag
  check_amount_tag self type_id void = built tt
  check_amount_tag self type_id (persisted_data value salt) = built tt
  check_amount_tag self type_id (attached id media_type salt) = built tt

  unfoldable pub add_owned_state_raw :
      TransitionBuilder → ℕ → BuilderSeal C → PersistedState C → Built TransitionBuilder
  add_owned_state_raw self type_id seal state = do
    check_amount_tag self.builder type_id state
    within self (Add.add_owned_state_raw C self.builder type_id seal state)

  unfoldable pub add_fungible_state :
      TransitionBuilder
      → ℕ
      → BuilderSeal C
      → (value : ℕ) (random : C.Blinding) → Built TransitionBuilder
  add_fungible_state self name seal value random =
      within self (Add.add_fungible_state C self.builder name seal value random)

  unfoldable pub add_fungible_state_raw :
      TransitionBuilder → ℕ → BuilderSeal C → (value : ℕ) → C.Blinding → Built TransitionBuilder
  add_fungible_state_raw self type_id seal value blinding = do
    tag ← asset_tag_raw C self.builder type_id
    within self (
        Add.add_fungible_state_raw C self.builder type_id seal
          (record { value = value; blinding = blinding; tag = tag }))

  unfoldable pub add_fungible_state_det :
      TransitionBuilder → ℕ → BuilderSeal C → (value : ℕ) → C.Blinding → Built TransitionBuilder
  add_fungible_state_det self name seal value blinding = do
    type_id ← type_named C self.builder name
    tag ← asset_tag_raw C self.builder type_id
    within self (
        Add.add_fungible_state_det C self.builder name seal
          (record { value = value; blinding = blinding; tag = tag }))

  unfoldable pub add_fungible_default_state :
      TransitionBuilder
      → BuilderSeal C
      → (value : ℕ) (random : C.Blinding) → Built TransitionBuilder
  add_fungible_default_state self seal value random = do
    name ← default_assignment self
    add_fungible_state self name seal value random

  unfoldable pub add_fungible_default_state_det :
      TransitionBuilder → BuilderSeal C → (value : ℕ) → C.Blinding → Built TransitionBuilder
  add_fungible_default_state_det self seal value blinding = do
    name ← default_assignment self
    add_fungible_state_det self name seal value blinding

  unfoldable pub add_data :
      TransitionBuilder → ℕ → BuilderSeal C → C.Value → (random : ℕ) → Built TransitionBuilder
  add_data self name seal value random =
      within self (Add.add_data C self.builder name seal value random)

  unfoldable pub add_data_default :
      TransitionBuilder → BuilderSeal C → C.Value → (random : ℕ) → Built TransitionBuilder
  add_data_default self seal value random = do
    name ← default_assignment self
    add_data self name seal value random

  -- `Transition`, whose other fields are empty: the metadata too
  pub record Transition : Type 0 where
    pub contract_id : ℕ
    pub nonce : ℕ
    pub transition_type : ℕ
    pub metadata : C.Metadata
    pub globals : C.GlobalState
    pub inputs : List Opout
    pub assignments : Map ℕ (Typed C)

  unfoldable pub transition_of : TransitionBuilder → Map ℕ (Typed C) → Transition
  transition_of self assignments = record {
    contract_id = self.contract_id;
    nonce = self.nonce;
    transition_type = self.transition_type;
    metadata = C.no_metadata;
    globals = self.builder.global;
    inputs = map (λ i. i.0) self.inputs.entries;
    assignments = assignments;
  }

  unfoldable pub complete_transition : TransitionBuilder → Built Transition
  complete_transition self = do
    assignments ← complete C self.builder self.inputs.entries
    built (transition_of self assignments)
