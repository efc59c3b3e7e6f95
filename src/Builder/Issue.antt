-- ===== src/Builder/Issue.antt =====
-- `ContractBuilder` (src/interface/builder.rs).
pub mod Calls
pub mod Layers
pub mod Issued
pub mod Reachable
use rgb_wallet.Prelude.{ℕ, List, [], Option, none, some, Bool, true, false, not, eqb}
use rgb_wallet.Collections.Map.{Map}
use rgb_wallet.Collections.Set
use rgb_wallet.Collections.Set.{Set}
use rgb_wallet.Collections.Confinement.{set_len}
use rgb_wallet.Collections.Ord.{nat_ord}
use rgb_wallet.Interface.Types.{Iface}
use rgb_wallet.Interface.Implementation.{IfaceImpl}
use rgb_wallet.Builder.{
  BuilderCore, Layer1, bitcoin, liquid, Schema, RevealedData, RevealedAttach, PersistedState,
  BuilderSeal, layer1, BuilderError, invalid_layer1, too_many_layers1, Built, built, refused,
  panicked, ◌>>=◌, ◌>>◌, refuse_if, OperationBuilder, with_iface,
}
use rgb_wallet.Builder.Tags.{init_asset_tag}
use rgb_wallet.Builder.Add
use rgb_wallet.Builder.Complete.{Typed, complete}

module _ (C : BuilderCore) where
  -- `alt_layers1` is a set of `AltLayer1`, of which Liquid is number 0. The scripts are passed on unread.
  pub record ContractBuilder : Type 0 where
    pub builder : OperationBuilder C
    pub testnet : Bool
    pub alt_layers1 : Set ℕ
    pub issuer : ℕ

  -- `with`, and `deterministic`
  unfoldable pub with_issuer :
      ℕ → Iface C.occurrences → Schema → IfaceImpl → C.TypeSystem → ContractBuilder
  unfolding with_iface
  with_issuer issuer iface schema iimpl types = record {
    builder = with_iface C iface schema iimpl types;
    testnet = true;
    alt_layers1 = Set.empty;
    issuer = issuer;
  }

  unfoldable pub set_mainnet : ContractBuilder → ContractBuilder
  set_mainnet self = record self { testnet = false }

  unfoldable pub has_layer1 : ContractBuilder → Layer1 → Bool
  has_layer1 self bitcoin = true
  has_layer1 self liquid = Set.contains self.alt_layers1 0

  unfoldable pub check_layer1 : ContractBuilder → Layer1 → Built (Unit {0})
  check_layer1 self layer = refuse_if (not (has_layer1 self layer)) (invalid_layer1 layer)

  unfoldable pub add_layer1 : (layers_full : ℕ → Bool) → ContractBuilder → ℕ → Built ContractBuilder
  add_layer1 layers_full self layer = do
    refuse_if (layers_full (set_len self.alt_layers1)) too_many_layers1
    built (record self { alt_layers1 = Set.insert self.alt_layers1 layer })

  -- A step of the builder inside
  abbrev pub inside : ContractBuilder → Built (OperationBuilder C) → Built ContractBuilder
  inside self (built b) = built (record self { builder = b })
  inside self (refused e) = refused e
  inside self panicked = panicked

  unfoldable pub add_owned_state_det :
      ContractBuilder → ℕ → BuilderSeal C → PersistedState C → Built ContractBuilder
  add_owned_state_det self name seal state = do
    check_layer1 self (layer1 C seal)
    inside self (Add.add_owned_state_det C self.builder name seal state)

  unfoldable pub add_rights : ContractBuilder → ℕ → BuilderSeal C → Built ContractBuilder
  add_rights self name seal = do
    check_layer1 self (layer1 C seal)
    inside self (Add.add_rights C self.builder name seal)

  unfoldable pub add_fungible_state :
      ContractBuilder
      → ℕ
      → BuilderSeal C
      → (value : ℕ) (fresh : ℕ) (random : C.Blinding) → Built ContractBuilder
  add_fungible_state self name seal value fresh random = do
    check_layer1 self (layer1 C seal)
    (tag, tagged) ← init_asset_tag C self.builder name fresh
    inside self (Add.add_fungible_state C tagged name seal value random)

  unfoldable pub add_fungible_state_det :
      ContractBuilder
      → ℕ
      → BuilderSeal C
      → (value : ℕ) (fresh : ℕ) → C.Blinding
      → Built ContractBuilder
  add_fungible_state_det self name seal value fresh blinding = do
    check_layer1 self (layer1 C seal)
    (tag, tagged) ← init_asset_tag C self.builder name fresh
    inside self (
        Add.add_fungible_state_det C tagged name seal
          (record { value = value; blinding = blinding; tag = tag }))

  unfoldable pub add_data :
      ContractBuilder → ℕ → BuilderSeal C → C.Value → (random : ℕ) → Built ContractBuilder
  add_data self name seal value random = do
    check_layer1 self (layer1 C seal)
    inside self (Add.add_data C self.builder name seal value random)

  unfoldable pub add_data_det :
      ContractBuilder → ℕ → BuilderSeal C → RevealedData C → Built ContractBuilder
  add_data_det self name seal state = do
    check_layer1 self (layer1 C seal)
    inside self (Add.add_data_det C self.builder name seal state)

  unfoldable pub add_attachment :
      ContractBuilder → ℕ → BuilderSeal C → (id media_type random : ℕ) → Built ContractBuilder
  add_attachment self name seal id media_type random = do
    check_layer1 self (layer1 C seal)
    inside self (Add.add_attachment C self.builder name seal id media_type random)

  unfoldable pub add_attachment_det :
      ContractBuilder → ℕ → BuilderSeal C → RevealedAttach C → Built ContractBuilder
  add_attachment_det self name seal state = do
    check_layer1 self (layer1 C seal)
    inside self (Add.add_attachment_det C self.builder name seal state)

  -- The genesis that `issue_contract_raw` makes, whose other fields are empty: the metadata too
  pub record Genesis : Type 0 where
    pub timestamp : C.Timestamp
    pub testnet : Bool
    pub alt_layers1 : Set ℕ
    pub asset_tags : Map ℕ ℕ
    pub metadata : C.Metadata
    pub globals : C.GlobalState
    pub assignments : Map ℕ (Typed C)
    pub issuer : ℕ

  unfoldable pub genesis_of : ContractBuilder → C.Timestamp → Map ℕ (Typed C) → Genesis
  genesis_of self timestamp assignments = record {
    timestamp = timestamp;
    testnet = self.testnet;
    alt_layers1 = self.alt_layers1;
    asset_tags = self.builder.asset_tags;
    metadata = C.no_metadata;
    globals = self.builder.global;
    assignments = assignments;
    issuer = self.issuer;
  }

  unfoldable pub issue_genesis : ContractBuilder → C.Timestamp → Built Genesis
  issue_genesis self timestamp = do
    assignments ← complete C self.builder []
    built (genesis_of self timestamp assignments)
