-- ===== src/Builder/Steps.antt =====
-- The operations of `OperationBuilder` (src/interface/builder.rs) by names of the interface: what each keeps.
use rgb_wallet.Prelude.{ℕ, some, not, ◌≡◌, refl, sym, ◌∙◌, ap, arith}
use rgb_wallet.Collections.Map
use rgb_wallet.Collections.Map.{Map, Values-empty}
use rgb_wallet.Collections.Ord.{nat_ord}
use rgb_wallet.Interface.Types.{Iface}
use rgb_wallet.Interface.Implementation.{IfaceImpl, assignments_type, meta_type, global_type}
use rgb_wallet.Builder.{
  BuilderCore, Schema, with_iface, RevealedValue, RevealedData, RevealedAttach, PersistedState,
  BuilderSeal, assignment_not_found, metadata_not_found, global_not_found, strict_encode, reify,
  confinement, metadata_invalid, built, required, refuse_if, OperationBuilder,
}
use rgb_wallet.Builder.Tags.{
  type_named, asset_tag_raw, meta_schema, global_schema, add_asset_tag, init_asset_tag,
}
use rgb_wallet.Builder.Add.{
  add_owned_state_det, add_rights, add_fungible_state, add_fungible_state_det, add_data,
  add_data_det, add_attachment, add_attachment_det, add_metadata, add_global_state,
}
use rgb_wallet.Builder.WellFormed.{bind-built, Fitting}
use rgb_wallet.Builder.Invariant.{
  TagIs, IsWellFormed, Sound, Sound-bind, Sound-built, add_rights_raw-Sound,
  add_fungible_state_raw-Sound, add_data_raw-Sound, add_attachment_raw-Sound,
  add_owned_state_raw-Sound, add_asset_tag_raw-Sound, init_tag-Sound,
}

pub with_iface-IsWellFormed :
    (C : BuilderCore) (iface : Iface C.occurrences) (schema : Schema) (iimpl : IfaceImpl)
    (types : C.TypeSystem)
    → IsWellFormed C (with_iface C iface schema iimpl types)
unfolding with_iface
with_iface-IsWellFormed C iface schema iimpl types = record {
  rights_hold = (tt, tt);
  fungible_hold = (tt, tt);
  structure_hold = (tt, tt);
  attachments_hold = (tt, tt);
}

pub asset_tag_raw-get :
    (C : BuilderCore) (self : OperationBuilder C) (ty tag : ℕ)
    → asset_tag_raw C self ty ≡ built tag
    → Map.get self.asset_tags ty ≡ some tag
unfolding asset_tag_raw
asset_tag_raw-get C self ty tag h = ground (arith, h)

module _ (C : BuilderCore) (F : Fitting C) (self : OperationBuilder C)
    (w : IsWellFormed C self) where
  pub add_asset_tag-Sound : (name tag : ℕ) → Sound C (add_asset_tag C self name tag)
  unfolding add_asset_tag
  add_asset_tag-Sound name tag =
      Sound-bind C _ _ (λ ty _. add_asset_tag_raw-Sound C F self w ty tag)

  pub init_asset_tag-Sound :
      (name fresh tag : ℕ) (next : OperationBuilder C)
      → init_asset_tag C self name fresh ≡ built (tag, next)
      → IsWellFormed C next
        × ((ty : ℕ) × (type_named C next name ≡ built ty) × (Map.get next.asset_tags ty ≡ some tag))
  unfolding init_asset_tag
  init_asset_tag-Sound name fresh tag next h =
      let (ty, named, rest) = bind-built (type_named C self name) _ (tag, next) h in
      let (sound, (same, known)) =
        init_tag-Sound C F self w ty fresh (Map.get self.asset_tags ty) refl tag next rest in
      (
        sound,
        (
          ty,
          ap (λ i. required (assignments_type i name) (assignment_not_found name)) (sym same)
              ∙ named,
          known,
        ),
      )

  pub add_owned_state_det-Sound :
      (name : ℕ) (seal : BuilderSeal C) (state : PersistedState C)
      → Sound C (add_owned_state_det C self name seal state)
  unfolding add_owned_state_det
  add_owned_state_det-Sound name seal state =
      Sound-bind C _ _ (λ ty _. add_owned_state_raw-Sound C F self w ty seal state)

  pub add_rights-Sound : (name : ℕ) (seal : BuilderSeal C) → Sound C (add_rights C self name seal)
  unfolding add_rights
  add_rights-Sound name seal = Sound-bind C _ _ (λ ty _. add_rights_raw-Sound C F self w ty seal)

  pub add_fungible_state-Sound :
      (name : ℕ) (seal : BuilderSeal C) (value : ℕ) (random : C.Blinding)
      → Sound C (add_fungible_state C self name seal value random)
  unfolding add_fungible_state
  add_fungible_state-Sound name seal value random = Sound-bind C (type_named C self name) _ (λ ty _.
      Sound-bind C (asset_tag_raw C self ty) _ (λ tag known.
        add_fungible_state_raw-Sound C F self w ty seal
          (record { value = value; blinding = random; tag = tag })
          (asset_tag_raw-get C self ty tag known)))

  -- An amount with the tag of the type with that name
  pub add_fungible_state_det-Sound :
      (name : ℕ) (seal : BuilderSeal C) (state : RevealedValue C)
      → ((ty : ℕ) → type_named C self name ≡ built ty → TagIs C self.asset_tags ty state)
      → Sound C (add_fungible_state_det C self name seal state)
  unfolding add_fungible_state_det
  add_fungible_state_det-Sound name seal state tagged =
      Sound-bind C _ _
        (λ ty named. add_fungible_state_raw-Sound C F self w ty seal state (tagged ty named))

  pub add_data-Sound :
      (name : ℕ) (seal : BuilderSeal C) (value : C.Value) (random : ℕ)
      → Sound C (add_data C self name seal value random)
  unfolding add_data
  add_data-Sound name seal value random =
      Sound-bind C (required (C.to_strict_serialized value) strict_encode) _ (λ serialized _.
        Sound-bind C (type_named C self name) _ (λ ty _.
          add_data_raw-Sound C F self w ty seal (record { value = serialized; salt = random })))

  pub add_data_det-Sound :
      (name : ℕ) (seal : BuilderSeal C) (state : RevealedData C)
      → Sound C (add_data_det C self name seal state)
  unfolding add_data_det
  add_data_det-Sound name seal state =
      Sound-bind C _ _ (λ ty _. add_data_raw-Sound C F self w ty seal state)

  pub add_attachment-Sound :
      (name : ℕ) (seal : BuilderSeal C) (id media_type random : ℕ)
      → Sound C (add_attachment C self name seal id media_type random)
  unfolding add_attachment
  add_attachment-Sound name seal id media_type random =
      Sound-bind C (type_named C self name) _ (λ ty _.
        add_attachment_raw-Sound C F self w ty seal
          (record { id = id; media_type = media_type; salt = random }))

  pub add_attachment_det-Sound :
      (name : ℕ) (seal : BuilderSeal C) (state : RevealedAttach C)
      → Sound C (add_attachment_det C self name seal state)
  unfolding add_attachment_det
  add_attachment_det-Sound name seal state =
      Sound-bind C _ _ (λ ty _. add_attachment_raw-Sound C F self w ty seal state)

  with_meta : (meta : C.Metadata) → IsWellFormed C (record self { meta = meta })
  with_meta meta = record {
    rights_hold = w.rights_hold;
    fungible_hold = w.fungible_hold;
    structure_hold = w.structure_hold;
    attachments_hold = w.attachments_hold;
  }

  with_global : (global : C.GlobalState) → IsWellFormed C (record self { global = global })
  with_global global = record {
    rights_hold = w.rights_hold;
    fungible_hold = w.fungible_hold;
    structure_hold = w.structure_hold;
    attachments_hold = w.attachments_hold;
  }

  pub add_metadata-Sound : (name : ℕ) (value : C.Value) → Sound C (add_metadata C self name value)
  unfolding add_metadata
  add_metadata-Sound name value =
      Sound-bind C (required (C.to_strict_serialized value) strict_encode) _ (λ serialized _.
        Sound-bind C (required (meta_type self.iimpl name) (metadata_not_found name)) _ (λ ty _.
          Sound-bind C (meta_schema C self ty) _ (λ sem_id _.
            Sound-bind C
              (refuse_if (not (C.strict_deserialize_type self.types sem_id serialized)) reify) _
              (λ _ _.
                Sound-bind C (required (C.add_value self.meta ty serialized) metadata_invalid) _
                  (λ meta _. Sound-built C (record self { meta = meta }) (with_meta meta))))))

  pub add_global_state-Sound :
      (name : ℕ) (value : C.Value) → Sound C (add_global_state C self name value)
  unfolding add_global_state
  add_global_state-Sound name value =
      Sound-bind C (required (C.to_strict_serialized value) strict_encode) _ (λ serialized _.
        Sound-bind C (required (global_type self.iimpl name) (global_not_found name)) _ (λ ty _.
          Sound-bind C (global_schema C self ty) _ (λ sem_id _.
            Sound-bind C
              (refuse_if (not (C.strict_deserialize_type self.types sem_id serialized)) reify) _
              (λ _ _.
                Sound-bind C (required (C.add_state self.global ty serialized) confinement) _
                  (λ global _.
                    Sound-built C (record self { global = global }) (with_global global))))))
