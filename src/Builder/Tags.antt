-- ===== src/Builder/Tags.antt =====
-- The lookups of `OperationBuilder` and its asset tags (src/interface/builder.rs).
use rgb_wallet.Prelude.{ℕ, Option, none, some, Bool, true, false}
use rgb_wallet.Collections.Map
use rgb_wallet.Collections.Map.{Map}
use rgb_wallet.Collections.Confinement.{map_len}
use rgb_wallet.Collections.Ord.{nat_ord}
use rgb_wallet.Interface.Types.{TransitionIface}
use rgb_wallet.Interface.Implementation.{assignments_type, transition_name}
use rgb_wallet.Builder.{
  BuilderCore, OwnedStateSchema, assignment_not_found, asset_tag_missed, asset_tag_automatic,
  confinement, Built, built, ◌>>=◌, ◌>>◌, required, expected, refuse_if, OperationBuilder,
}

module _ (C : BuilderCore) where
  abbrev pub type_named : OperationBuilder C → ℕ → Built ℕ
  type_named self name = required (assignments_type self.iimpl name) (assignment_not_found name)

  unfoldable pub transition_iface : OperationBuilder C → ℕ → Built (TransitionIface C.occurrences)
  transition_iface self ty = do
    name ← expected (transition_name self.iimpl ty)
    expected (Map.get self.iface.transitions name)

  unfoldable pub state_schema : OperationBuilder C → ℕ → Built OwnedStateSchema
  state_schema self type_id = expected (Map.get self.schema.owned_types type_id)

  unfoldable pub meta_schema : OperationBuilder C → ℕ → Built ℕ
  meta_schema self type_id = expected (Map.get self.schema.meta_types type_id)

  unfoldable pub global_schema : OperationBuilder C → ℕ → Built ℕ
  global_schema self type_id = expected (Map.get self.schema.global_types type_id)

  unfoldable pub asset_tag_raw : OperationBuilder C → ℕ → Built ℕ
  asset_tag_raw self type_id = required (Map.get self.asset_tags type_id) (asset_tag_missed type_id)

  unfoldable pub asset_tag : OperationBuilder C → ℕ → Built ℕ
  asset_tag self name = do type_id ← type_named self name; asset_tag_raw self type_id

  abbrev pub is_some : {A : Type 0} → Option A → Bool
  is_some (some _) = true
  is_some none = false

  unfoldable pub insert_tag : OperationBuilder C → (ty tag : ℕ) → Built (OperationBuilder C)
  insert_tag self ty tag = do
    refuse_if (C.tags_full (map_len self.asset_tags)) confinement
    built (record self { asset_tags = Map.insert self.asset_tags ty tag })

  unfoldable pub add_asset_tag_raw : OperationBuilder C → (ty tag : ℕ) → Built (OperationBuilder C)
  add_asset_tag_raw self type_id tag = do
    refuse_if (is_some (Map.get self.fungible type_id)) (asset_tag_automatic type_id)
    insert_tag self type_id tag

  unfoldable pub add_asset_tag : OperationBuilder C → (name tag : ℕ) → Built (OperationBuilder C)
  add_asset_tag self name tag = do
    type_id ← type_named self name
    add_asset_tag_raw self type_id tag

  -- The tag that is there, or the new random one `fresh`
  unfoldable pub init_tag :
      OperationBuilder C → (ty fresh : ℕ) → Option ℕ → Built (ℕ × OperationBuilder C)
  init_tag self ty fresh (some tag) = built (tag, self)
  init_tag self ty fresh none = do tagged ← insert_tag self ty fresh; built (fresh, tagged)

  unfoldable pub init_asset_tag :
      OperationBuilder C → (name fresh : ℕ) → Built (ℕ × OperationBuilder C)
  init_asset_tag self name fresh = do
    type_id ← type_named self name
    init_tag self type_id fresh (Map.get self.asset_tags type_id)
