-- ===== src/Builder/Transition/Calls.antt =====
-- The calls that change a `TransitionBuilder` (src/interface/builder.rs), and where sequences of them lead.
use rgb_wallet.Prelude.{ℕ, ◌≡◌}
use rgb_wallet.Contract.Types.{Opout, opout_ord}
use rgb_wallet.Interface.Types.{Iface}
use rgb_wallet.Interface.Implementation.{IfaceImpl}
use rgb_wallet.Builder.{
  BuilderCore, Schema, RevealedData, RevealedAttach, PersistedState, BuilderSeal, Built, built,
}
use rgb_wallet.Builder.Tags
use rgb_wallet.Builder.Tags.{type_named, asset_tag_raw}
use rgb_wallet.Builder.Add
use rgb_wallet.Builder.Transition
use rgb_wallet.Builder.Transition.{TransitionBuilder, with_type, within}

module _ (C : BuilderCore) where
  -- The calls, with the random values that they draw
  pub data TransitionCall : Type 0 where
    set_nonce : ℕ → TransitionCall
    add_asset_tag : (name tag : ℕ) → TransitionCall
    add_asset_tag_raw : (ty tag : ℕ) → TransitionCall
    add_metadata : (name : ℕ) → C.Value → TransitionCall
    add_global_state : (name : ℕ) → C.Value → TransitionCall
    add_input : Opout → PersistedState C → TransitionCall
    add_owned_state_det : (name : ℕ) → BuilderSeal C → PersistedState C → TransitionCall
    add_owned_state_raw : (ty : ℕ) → BuilderSeal C → PersistedState C → TransitionCall
    add_rights : (name : ℕ) → BuilderSeal C → TransitionCall
    add_fungible_default_state : BuilderSeal C → (value : ℕ) (random : C.Blinding) → TransitionCall
    add_fungible_default_state_det : BuilderSeal C → (value : ℕ) → C.Blinding → TransitionCall
    add_fungible_state :
        (name : ℕ) → BuilderSeal C → (value : ℕ) (random : C.Blinding) → TransitionCall
    add_fungible_state_det : (name : ℕ) → BuilderSeal C → (value : ℕ) → C.Blinding → TransitionCall
    add_fungible_state_raw : (ty : ℕ) → BuilderSeal C → (value : ℕ) → C.Blinding → TransitionCall
    add_data : (name : ℕ) → BuilderSeal C → C.Value → (random : ℕ) → TransitionCall
    add_data_det : (name : ℕ) → BuilderSeal C → RevealedData C → TransitionCall
    add_data_raw : (ty : ℕ) → BuilderSeal C → (allocation : C.Datum) (blinding : ℕ) → TransitionCall
    add_data_default : BuilderSeal C → C.Value → (random : ℕ) → TransitionCall
    add_attachment : (name : ℕ) → BuilderSeal C → (id media_type random : ℕ) → TransitionCall
    add_attachment_det : (name : ℕ) → BuilderSeal C → RevealedAttach C → TransitionCall

  unfoldable pub call : TransitionBuilder C → TransitionCall → Built (TransitionBuilder C)
  call self (set_nonce nonce) = built (Transition.set_nonce C self nonce)
  call self (add_asset_tag name tag) = within C self (Tags.add_asset_tag C self.builder name tag)
  call self (add_asset_tag_raw ty tag) =
      within C self (Tags.add_asset_tag_raw C self.builder ty tag)
  call self (add_metadata name value) = within C self (Add.add_metadata C self.builder name value)
  call self (add_global_state name value) =
      within C self (Add.add_global_state C self.builder name value)
  call self (add_input opout state) = Transition.add_input C self opout state
  call self (add_owned_state_det name seal state) =
      within C self (Add.add_owned_state_det C self.builder name seal state)
  call self (add_owned_state_raw ty seal state) =
      Transition.add_owned_state_raw C self ty seal state
  call self (add_rights name seal) = within C self (Add.add_rights C self.builder name seal)
  call self (add_fungible_default_state seal value random) =
      Transition.add_fungible_default_state C self seal value random
  call self (add_fungible_default_state_det seal value blinding) =
      Transition.add_fungible_default_state_det C self seal value blinding
  call self (add_fungible_state name seal value random) =
      Transition.add_fungible_state C self name seal value random
  call self (add_fungible_state_det name seal value blinding) =
      Transition.add_fungible_state_det C self name seal value blinding
  call self (add_fungible_state_raw ty seal value blinding) =
      Transition.add_fungible_state_raw C self ty seal value blinding
  call self (add_data name seal value random) = Transition.add_data C self name seal value random
  call self (add_data_det name seal state) =
      within C self (Add.add_data_det C self.builder name seal state)
  call self (add_data_raw ty seal allocation blinding) =
      within C self
        (Add.add_data_raw C self.builder ty seal (record { value = allocation; salt = blinding }))
  call self (add_data_default seal value random) =
      Transition.add_data_default C self seal value random
  call self (add_attachment name seal id media_type random) =
      within C self (Add.add_attachment C self.builder name seal id media_type random)
  call self (add_attachment_det name seal state) =
      within C self (Add.add_attachment_det C self.builder name seal state)

  -- The builders that calls lead to, from one that the constructors give
  pub data Reachable : TransitionBuilder C → Type 0 where
    start :
        (contract_id : ℕ) (iface : Iface C.occurrences) (schema : Schema) (iimpl : IfaceImpl)
        (ty : ℕ) (types : C.TypeSystem)
        → Reachable (with_type C contract_id iface schema iimpl ty types)
    step :
        (self : TransitionBuilder C) (c : TransitionCall) (next : TransitionBuilder C)
        → Reachable self
        → call self c ≡ built next
        → Reachable next
