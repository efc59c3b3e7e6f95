-- ===== src/Builder/Issue/Calls.antt =====
-- The calls that change a `ContractBuilder` (src/interface/builder.rs), and where sequences of them lead.
use rgb_wallet.Prelude.{ℕ, Bool, ◌≡◌}
use rgb_wallet.Interface.Types.{Iface}
use rgb_wallet.Interface.Implementation.{IfaceImpl}
use rgb_wallet.Builder.{
  BuilderCore, Schema, RevealedData, RevealedAttach, PersistedState, BuilderSeal, Built, built,
}
use rgb_wallet.Builder.Tags
use rgb_wallet.Builder.Add
use rgb_wallet.Builder.Issue
use rgb_wallet.Builder.Issue.{ContractBuilder, with_issuer, inside}

module _ (C : BuilderCore) where
  -- The calls, with the random values that they draw. A call of `add_layer1` says when its set is full.
  pub data ContractCall : Type 0 where
    set_mainnet : ContractCall
    add_layer1 : (layers_full : ℕ → Bool) (layer : ℕ) → ContractCall
    add_asset_tag : (name tag : ℕ) → ContractCall
    add_metadata : (name : ℕ) → C.Value → ContractCall
    add_global_state : (name : ℕ) → C.Value → ContractCall
    add_owned_state_det : (name : ℕ) → BuilderSeal C → PersistedState C → ContractCall
    add_rights : (name : ℕ) → BuilderSeal C → ContractCall
    add_fungible_state :
        (name : ℕ) → BuilderSeal C → (value fresh : ℕ) (random : C.Blinding) → ContractCall
    add_fungible_state_det :
        (name : ℕ) → BuilderSeal C → (value fresh : ℕ) → C.Blinding → ContractCall
    add_data : (name : ℕ) → BuilderSeal C → C.Value → (random : ℕ) → ContractCall
    add_data_det : (name : ℕ) → BuilderSeal C → RevealedData C → ContractCall
    add_attachment : (name : ℕ) → BuilderSeal C → (id media_type random : ℕ) → ContractCall
    add_attachment_det : (name : ℕ) → BuilderSeal C → RevealedAttach C → ContractCall

  unfoldable pub call : ContractBuilder C → ContractCall → Built (ContractBuilder C)
  call self set_mainnet = built (Issue.set_mainnet C self)
  call self (add_layer1 layers_full layer) = Issue.add_layer1 C layers_full self layer
  call self (add_asset_tag name tag) = inside C self (Tags.add_asset_tag C self.builder name tag)
  call self (add_metadata name value) = inside C self (Add.add_metadata C self.builder name value)
  call self (add_global_state name value) =
      inside C self (Add.add_global_state C self.builder name value)
  call self (add_owned_state_det name seal state) = Issue.add_owned_state_det C self name seal state
  call self (add_rights name seal) = Issue.add_rights C self name seal
  call self (add_fungible_state name seal value fresh random) =
      Issue.add_fungible_state C self name seal value fresh random
  call self (add_fungible_state_det name seal value fresh blinding) =
      Issue.add_fungible_state_det C self name seal value fresh blinding
  call self (add_data name seal value random) = Issue.add_data C self name seal value random
  call self (add_data_det name seal state) = Issue.add_data_det C self name seal state
  call self (add_attachment name seal id media_type random) =
      Issue.add_attachment C self name seal id media_type random
  call self (add_attachment_det name seal state) = Issue.add_attachment_det C self name seal state

  -- The builders that calls lead to, from one that the constructors give
  pub data Reachable : ContractBuilder C → Type 0 where
    start :
        (issuer : ℕ) (iface : Iface C.occurrences) (schema : Schema) (iimpl : IfaceImpl)
        (types : C.TypeSystem)
        → Reachable (with_issuer C issuer iface schema iimpl types)
    step :
        (self : ContractBuilder C) (c : ContractCall) (next : ContractBuilder C)
        → Reachable self
        → call self c ≡ built next
        → Reachable next
