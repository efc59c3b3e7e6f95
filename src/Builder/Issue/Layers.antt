-- ===== src/Builder/Issue/Layers.antt =====
-- The chains that a `ContractBuilder` (src/interface/builder.rs) takes seals of.
use rgb_wallet.Prelude.{false, Option, none, some, some-injective, ◌≡◌, refl}
use rgb_wallet.Builder.{BuilderCore, BuilderSeal, layer1, invalid_layer1, refused}
use rgb_wallet.Builder.Issue
use rgb_wallet.Builder.Issue.{ContractBuilder, has_layer1, check_layer1}
use rgb_wallet.Builder.Issue.Calls.{
  ContractCall, set_mainnet, add_layer1, add_asset_tag, add_metadata, add_global_state,
  add_owned_state_det, add_rights, add_fungible_state, add_fungible_state_det, add_data,
  add_data_det, add_attachment, add_attachment_det, call,
}

module _ (C : BuilderCore) where
  -- The seal that a call adds an assignment at
  abbrev pub seal_of : ContractCall C → Option (BuilderSeal C)
  seal_of set_mainnet = none
  seal_of (add_layer1 full layer) = none
  seal_of (add_asset_tag name tag) = none
  seal_of (add_metadata name value) = none
  seal_of (add_global_state name value) = none
  seal_of (add_owned_state_det name seal state) = some seal
  seal_of (add_rights name seal) = some seal
  seal_of (add_fungible_state name seal value fresh random) = some seal
  seal_of (add_fungible_state_det name seal value fresh blinding) = some seal
  seal_of (add_data name seal value random) = some seal
  seal_of (add_data_det name seal state) = some seal
  seal_of (add_attachment name seal id media_type random) = some seal
  seal_of (add_attachment_det name seal state) = some seal

  module _ (self : ContractBuilder C) (seal : BuilderSeal C) where
    no_layer :
        has_layer1 C self (layer1 C seal) ≡ false
        → check_layer1 C self (layer1 C seal) ≡ refused (invalid_layer1 (layer1 C seal))
    unfolding check_layer1
    no_layer h = rw h refl

    -- Whatever else is wrong with it, a call that adds an assignment at a seal of a chain that the
    -- contract does not have is refused for that chain.
    pub call-no_layer :
        (c : ContractCall C)
        → seal_of c ≡ some seal
        → has_layer1 C self (layer1 C seal) ≡ false
        → call C self c ≡ refused (invalid_layer1 (layer1 C seal))
    unfolding call Issue.add_owned_state_det Issue.add_rights Issue.add_fungible_state
        Issue.add_fungible_state_det Issue.add_data Issue.add_data_det Issue.add_attachment
        Issue.add_attachment_det
    call-no_layer set_mainnet e h = cc
    call-no_layer (add_layer1 full layer) e h = cc
    call-no_layer (add_asset_tag name tag) e h = cc
    call-no_layer (add_metadata name value) e h = cc
    call-no_layer (add_global_state name value) e h = cc
    call-no_layer (add_owned_state_det name s state) e h =
        rw (some-injective s seal e, no_layer h) refl
    call-no_layer (add_rights name s) e h = rw (some-injective s seal e, no_layer h) refl
    call-no_layer (add_fungible_state name s value fresh random) e h =
        rw (some-injective s seal e, no_layer h) refl
    call-no_layer (add_fungible_state_det name s value fresh blinding) e h =
        rw (some-injective s seal e, no_layer h) refl
    call-no_layer (add_data name s value random) e h = rw (some-injective s seal e, no_layer h) refl
    call-no_layer (add_data_det name s state) e h = rw (some-injective s seal e, no_layer h) refl
    call-no_layer (add_attachment name s id media_type random) e h =
        rw (some-injective s seal e, no_layer h) refl
    call-no_layer (add_attachment_det name s state) e h =
        rw (some-injective s seal e, no_layer h) refl
