-- ===== src/Builder/Add.antt =====
-- The state that `OperationBuilder` adds (src/interface/builder.rs). Random blinding factors and salts are arguments.
use rgb_wallet.Prelude.{ℕ, Option, none, some, Bool, true, false, not, eqb}
use rgb_wallet.Collections.Map
use rgb_wallet.Collections.Map.{Map}
use rgb_wallet.Collections.Set
use rgb_wallet.Collections.Set.{Set}
use rgb_wallet.Collections.Confinement.{map_len, set_len}
use rgb_wallet.Collections.Ord.{nat_ord}
use rgb_wallet.Interface.Implementation.{global_type, meta_type}
use rgb_wallet.Builder.{
  BuilderCore, OwnedStateSchema, declarative, fungible, structured, attachment, unsigned64_bit,
  RevealedValue, RevealedData, RevealedAttach, PersistedState, void, amount, persisted_data,
  attached, BuilderSeal, builder_seal_ord, metadata_not_found, metadata_invalid, global_not_found,
  invalid_state_type, asset_tag_invalid, strict_encode, reify, confinement, Built, built, ◌>>=◌,
  ◌>>◌, required, refuse_if, StateMap, OperationBuilder,
}
use rgb_wallet.Builder.Tags.{type_named, state_schema, meta_schema, global_schema, asset_tag_raw}

abbrev pub is_declarative : OwnedStateSchema → Bool
is_declarative declarative = true
is_declarative _ = false

abbrev pub is_fungible : OwnedStateSchema → Bool
is_fungible (fungible unsigned64_bit) = true
is_fungible _ = false

abbrev pub is_structured : OwnedStateSchema → Bool
is_structured (structured _) = true
is_structured _ = false

abbrev pub is_attachment : OwnedStateSchema → Bool
is_attachment (attachment _) = true
is_attachment _ = false

module _ (C : BuilderCore) where
  -- A state at a seal of an assignment type: the seals that are there take one more, or there is a first one.
  unfoldable pub put_state :
      {V : Type 0}
      → StateMap C V
      → ℕ
      → BuilderSeal C
      → V
      → Option (Map (BuilderSeal C) V)
      → Built (StateMap C V)
  put_state m ty seal state (some assignments) = do
    refuse_if (C.conf.small_full (map_len assignments)) confinement
    built (Map.insert m ty (Map.insert assignments seal state))
  put_state m ty seal state none = do
    refuse_if (C.conf.tiny_full (map_len m)) confinement
    built (Map.insert m ty (Map.insert Map.empty seal state))

  unfoldable pub put_right :
      Map ℕ (Set (BuilderSeal C))
      → ℕ
      → BuilderSeal C
      → Option (Set (BuilderSeal C))
      → Built (Map ℕ (Set (BuilderSeal C)))
  put_right m ty seal (some assignments) = do
    refuse_if (C.conf.small_full (set_len assignments)) confinement
    built (Map.insert m ty (Set.insert assignments seal))
  put_right m ty seal none = do
    refuse_if (C.conf.tiny_full (map_len m)) confinement
    built (Map.insert m ty (Set.singleton seal))

  -- The schema of an assignment type is of the kind that is asked.
  unfoldable pub check_kind : OperationBuilder C → (OwnedStateSchema → Bool) → ℕ → Built (Unit {0})
  check_kind self kind type_id = do
    schema ← state_schema C self type_id
    refuse_if (not (kind schema)) (invalid_state_type type_id)

  unfoldable pub add_rights_raw :
      OperationBuilder C → ℕ → BuilderSeal C → Built (OperationBuilder C)
  add_rights_raw self type_id seal = do
    check_kind self is_declarative type_id
    rights ← put_right self.rights type_id seal (Map.get self.rights type_id)
    built (record self { rights = rights })

  unfoldable pub add_fungible_state_raw :
      OperationBuilder C → ℕ → BuilderSeal C → RevealedValue C → Built (OperationBuilder C)
  add_fungible_state_raw self type_id seal state = do
    check_kind self is_fungible type_id
    states ← put_state self.fungible type_id seal state (Map.get self.fungible type_id)
    built (record self { fungible = states })

  unfoldable pub add_data_raw :
      OperationBuilder C → ℕ → BuilderSeal C → RevealedData C → Built (OperationBuilder C)
  add_data_raw self type_id seal state = do
    check_kind self is_structured type_id
    states ← put_state self.structure type_id seal state (Map.get self.structure type_id)
    built (record self { structure = states })

  unfoldable pub add_attachment_raw :
      OperationBuilder C → ℕ → BuilderSeal C → RevealedAttach C → Built (OperationBuilder C)
  add_attachment_raw self type_id seal state = do
    check_kind self is_attachment type_id
    states ← put_state self.attachments type_id seal state (Map.get self.attachments type_id)
    built (record self { attachments = states })

  -- The amount has the tag that the builder has for the type.
  unfoldable pub check_tag : OperationBuilder C → (ty tag : ℕ) → Built (Unit {0})
  check_tag self type_id tag = do
    known ← asset_tag_raw C self type_id
    refuse_if (not (eqb known tag)) (asset_tag_invalid type_id)

  unfoldable pub add_owned_state_raw :
      OperationBuilder C → ℕ → BuilderSeal C → PersistedState C → Built (OperationBuilder C)
  add_owned_state_raw self type_id seal void = add_rights_raw self type_id seal
  add_owned_state_raw self type_id seal (amount value blinding tag) = do
    check_tag self type_id tag
    add_fungible_state_raw self type_id seal
        (record { value = value; blinding = blinding; tag = tag })
  add_owned_state_raw self type_id seal (persisted_data value salt) =
      add_data_raw self type_id seal (record { value = value; salt = salt })
  add_owned_state_raw self type_id seal (attached id media_type salt) =
      add_attachment_raw self type_id seal
        (record { id = id; media_type = media_type; salt = salt })

  unfoldable pub add_owned_state_det :
      OperationBuilder C → ℕ → BuilderSeal C → PersistedState C → Built (OperationBuilder C)
  add_owned_state_det self name seal state = do
    type_id ← type_named C self name
    add_owned_state_raw self type_id seal state

  unfoldable pub add_rights : OperationBuilder C → ℕ → BuilderSeal C → Built (OperationBuilder C)
  add_rights self name seal = do type_id ← type_named C self name; add_rights_raw self type_id seal

  unfoldable pub add_fungible_state :
      OperationBuilder C
      → ℕ
      → BuilderSeal C
      → (value : ℕ) (random : C.Blinding) → Built (OperationBuilder C)
  add_fungible_state self name seal value random = do
    type_id ← type_named C self name
    tag ← asset_tag_raw C self type_id
    add_fungible_state_raw self type_id seal
        (record { value = value; blinding = random; tag = tag })

  unfoldable pub add_fungible_state_det :
      OperationBuilder C → ℕ → BuilderSeal C → RevealedValue C → Built (OperationBuilder C)
  add_fungible_state_det self name seal state = do
    type_id ← type_named C self name
    add_fungible_state_raw self type_id seal state

  unfoldable pub add_data :
      OperationBuilder C → ℕ → BuilderSeal C → C.Value → (random : ℕ) → Built (OperationBuilder C)
  add_data self name seal value random = do
    serialized ← required (C.to_strict_serialized value) strict_encode
    type_id ← type_named C self name
    add_data_raw self type_id seal (record { value = serialized; salt = random })

  unfoldable pub add_data_det :
      OperationBuilder C → ℕ → BuilderSeal C → RevealedData C → Built (OperationBuilder C)
  add_data_det self name seal state = do
    type_id ← type_named C self name
    add_data_raw self type_id seal state

  unfoldable pub add_attachment :
      OperationBuilder C
      → ℕ
      → BuilderSeal C
      → (id media_type random : ℕ) → Built (OperationBuilder C)
  add_attachment self name seal id media_type random = do
    type_id ← type_named C self name
    add_attachment_raw self type_id seal
        (record { id = id; media_type = media_type; salt = random })

  unfoldable pub add_attachment_det :
      OperationBuilder C → ℕ → BuilderSeal C → RevealedAttach C → Built (OperationBuilder C)
  add_attachment_det self name seal state = do
    type_id ← type_named C self name
    add_attachment_raw self type_id seal state

  unfoldable pub add_metadata : OperationBuilder C → ℕ → C.Value → Built (OperationBuilder C)
  add_metadata self name value = do
    serialized ← required (C.to_strict_serialized value) strict_encode
    type_id ← required (meta_type self.iimpl name) (metadata_not_found name)
    sem_id ← meta_schema C self type_id
    refuse_if (not (C.strict_deserialize_type self.types sem_id serialized)) reify
    meta ← required (C.add_value self.meta type_id serialized) metadata_invalid
    built (record self { meta = meta })

  unfoldable pub add_global_state : OperationBuilder C → ℕ → C.Value → Built (OperationBuilder C)
  add_global_state self name value = do
    serialized ← required (C.to_strict_serialized value) strict_encode
    type_id ← required (global_type self.iimpl name) (global_not_found name)
    sem_id ← global_schema C self type_id
    refuse_if (not (C.strict_deserialize_type self.types sem_id serialized)) reify
    global ← required (C.add_state self.global type_id serialized) confinement
    built (record self { global = global })
