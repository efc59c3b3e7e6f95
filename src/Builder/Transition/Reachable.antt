-- ===== src/Builder/Transition/Reachable.antt =====
-- What the calls of a `TransitionBuilder` (src/interface/builder.rs) keep.
use rgb_wallet.Prelude.{ℕ, ◌≡◌, refl, sym, ◌∙◌}
use rgb_wallet.Collections.Map
use rgb_wallet.Collections.Map.{Map, Values-empty}
use rgb_wallet.Collections.Confinement.{map_len}
use rgb_wallet.Contract.Types.{Opout, opout_ord}
use rgb_wallet.Builder.{
  BuilderCore, PersistedState, BuilderSeal, confinement, Built, built, refused, panicked, ◌>>=◌,
  OperationBuilder,
}
use rgb_wallet.Builder.Tags.{type_named, asset_tag_raw}
use rgb_wallet.Builder.Add
use rgb_wallet.Builder.Transition
use rgb_wallet.Builder.Transition.{TransitionBuilder, with_type, within}
use rgb_wallet.Builder.WellFormed.{bind-built, refuse_if-built, built-injective, Fitting}
use rgb_wallet.Builder.Invariant.{
  IsWellFormed, Sound, add_fungible_state_raw-Sound, add_data_raw-Sound, add_owned_state_raw-Sound,
  add_asset_tag_raw-Sound,
}
use rgb_wallet.Builder.Steps.{
  with_iface-IsWellFormed, asset_tag_raw-get, add_asset_tag-Sound, add_owned_state_det-Sound,
  add_rights-Sound, add_fungible_state-Sound, add_fungible_state_det-Sound, add_data-Sound,
  add_data_det-Sound, add_attachment-Sound, add_attachment_det-Sound, add_metadata-Sound,
  add_global_state-Sound,
}
use rgb_wallet.Builder.Transition.Calls.{
  TransitionCall, set_nonce, add_asset_tag, add_asset_tag_raw, add_metadata, add_global_state,
  add_input, add_owned_state_det, add_owned_state_raw, add_rights, add_fungible_default_state,
  add_fungible_default_state_det, add_fungible_state, add_fungible_state_det,
  add_fungible_state_raw, add_data, add_data_det, add_data_raw, add_data_default, add_attachment,
  add_attachment_det, call, Reachable, start, step,
}

module _ (C : BuilderCore) where
  -- A step that, where it gives a builder, gives one with a well-formed builder inside
  abbrev SoundStep : Built (TransitionBuilder C) → Type 0
  SoundStep m = (next : TransitionBuilder C) → m ≡ built next → IsWellFormed C next.builder

  SoundStep-bind :
      {A : Type 0} (m : Built A) (f : A → Built (TransitionBuilder C))
      → ((a : A) → m ≡ built a → SoundStep (f a))
      → SoundStep (m >>= f)
  SoundStep-bind m f h next e = let (a, first, rest) = bind-built m f next e in h a first next rest

  SoundStep-built :
      (self : TransitionBuilder C) → IsWellFormed C self.builder → SoundStep (built self)
  SoundStep-built self w next e = rw (built-injective self next e) at w

  SoundStep-within :
      (self : TransitionBuilder C) (m : Built (OperationBuilder C))
      → Sound C m
      → SoundStep (within C self m)
  SoundStep-within self (built b) h next e =
      SoundStep-built (record self { builder = b }) (h b refl) next e
  SoundStep-within self (refused e) h next q = cc
  SoundStep-within self panicked h next q = cc

  module _ (F : Fitting C) (self : TransitionBuilder C) (w : IsWellFormed C self.builder) where
    add_input-SoundStep :
        (opout : Opout) (state : PersistedState C)
        → SoundStep (Transition.add_input C self opout state)
    unfolding Transition.add_input
    add_input-SoundStep opout state next e =
        let wanted : TransitionBuilder C = record self {
          inputs = Map.insert self.inputs opout state;
        } in
        SoundStep-built wanted w next
          (refuse_if-built (C.conf.tiny_full (map_len self.inputs)) confinement (built wanted) next
            e).1

    fungible_det-SoundStep :
        (name : ℕ) (seal : BuilderSeal C) (value : ℕ) (blinding : C.Blinding)
        → SoundStep (Transition.add_fungible_state_det C self name seal value blinding)
    unfolding Transition.add_fungible_state_det
    fungible_det-SoundStep name seal value blinding =
        SoundStep-bind (type_named C self.builder name) _ (λ ty named.
          SoundStep-bind (asset_tag_raw C self.builder ty) _ (λ tag known.
            SoundStep-within self
              (Add.add_fungible_state_det C self.builder name seal
                (record { value = value; blinding = blinding; tag = tag }))
              (add_fungible_state_det-Sound C F self.builder w name seal
                (record { value = value; blinding = blinding; tag = tag })
                (λ other same.
                  let this : ty ≡ other = built-injective ty other (sym named ∙ same) in
                  rw this at (asset_tag_raw-get C self.builder ty tag known)))))

    fungible_raw-SoundStep :
        (ty : ℕ) (seal : BuilderSeal C) (value : ℕ) (blinding : C.Blinding)
        → SoundStep (Transition.add_fungible_state_raw C self ty seal value blinding)
    unfolding Transition.add_fungible_state_raw
    fungible_raw-SoundStep ty seal value blinding =
        SoundStep-bind (asset_tag_raw C self.builder ty) _ (λ tag known.
          SoundStep-within self
            (Add.add_fungible_state_raw C self.builder ty seal
              (record { value = value; blinding = blinding; tag = tag }))
            (add_fungible_state_raw-Sound C F self.builder w ty seal
              (record { value = value; blinding = blinding; tag = tag })
              (asset_tag_raw-get C self.builder ty tag known)))

    owned_raw-SoundStep :
        (ty : ℕ) (seal : BuilderSeal C) (state : PersistedState C)
        → SoundStep (Transition.add_owned_state_raw C self ty seal state)
    unfolding Transition.add_owned_state_raw
    owned_raw-SoundStep ty seal state =
        SoundStep-bind (Transition.check_amount_tag C self.builder ty state)
          (λ _. within C self (Add.add_owned_state_raw C self.builder ty seal state))
          (λ _ _.
            SoundStep-within self _ (add_owned_state_raw-Sound C F self.builder w ty seal state))

    fungible-SoundStep :
        (name : ℕ) (seal : BuilderSeal C) (value : ℕ) (random : C.Blinding)
        → SoundStep (Transition.add_fungible_state C self name seal value random)
    unfolding Transition.add_fungible_state
    fungible-SoundStep name seal value random =
        SoundStep-within self _ (add_fungible_state-Sound C F self.builder w name seal value random)

    data-SoundStep :
        (name : ℕ) (seal : BuilderSeal C) (value : C.Value) (random : ℕ)
        → SoundStep (Transition.add_data C self name seal value random)
    unfolding Transition.add_data
    data-SoundStep name seal value random =
        SoundStep-within self _ (add_data-Sound C F self.builder w name seal value random)

    call-SoundStep : (c : TransitionCall C) → SoundStep (call C self c)
    unfolding call Transition.set_nonce Transition.add_fungible_default_state
        Transition.add_fungible_default_state_det Transition.add_data_default
    call-SoundStep (set_nonce nonce) = SoundStep-built (Transition.set_nonce C self nonce) w
    call-SoundStep (add_asset_tag name tag) =
        SoundStep-within self _ (add_asset_tag-Sound C F self.builder w name tag)
    call-SoundStep (add_asset_tag_raw ty tag) =
        SoundStep-within self _ (add_asset_tag_raw-Sound C F self.builder w ty tag)
    call-SoundStep (add_metadata name value) =
        SoundStep-within self _ (add_metadata-Sound C F self.builder w name value)
    call-SoundStep (add_global_state name value) =
        SoundStep-within self _ (add_global_state-Sound C F self.builder w name value)
    call-SoundStep (add_input opout state) = add_input-SoundStep opout state
    call-SoundStep (add_owned_state_det name seal state) =
        SoundStep-within self _ (add_owned_state_det-Sound C F self.builder w name seal state)
    call-SoundStep (add_owned_state_raw ty seal state) = owned_raw-SoundStep ty seal state
    call-SoundStep (add_rights name seal) =
        SoundStep-within self _ (add_rights-Sound C F self.builder w name seal)
    call-SoundStep (add_fungible_default_state seal value random) =
        SoundStep-bind (Transition.default_assignment C self) _
          (λ name _. fungible-SoundStep name seal value random)
    call-SoundStep (add_fungible_default_state_det seal value blinding) =
        SoundStep-bind (Transition.default_assignment C self) _
          (λ name _. fungible_det-SoundStep name seal value blinding)
    call-SoundStep (add_fungible_state name seal value random) =
        fungible-SoundStep name seal value random
    call-SoundStep (add_fungible_state_det name seal value blinding) =
        fungible_det-SoundStep name seal value blinding
    call-SoundStep (add_fungible_state_raw ty seal value blinding) =
        fungible_raw-SoundStep ty seal value blinding
    call-SoundStep (add_data name seal value random) = data-SoundStep name seal value random
    call-SoundStep (add_data_det name seal state) =
        SoundStep-within self _ (add_data_det-Sound C F self.builder w name seal state)
    call-SoundStep (add_data_raw ty seal allocation blinding) = SoundStep-within self _ (
        add_data_raw-Sound C F self.builder w ty seal
          (record { value = allocation; salt = blinding }))
    call-SoundStep (add_data_default seal value random) =
        SoundStep-bind (Transition.default_assignment C self) _
          (λ name _. data-SoundStep name seal value random)
    call-SoundStep (add_attachment name seal id media_type random) =
        SoundStep-within self _
          (add_attachment-Sound C F self.builder w name seal id media_type random)
    call-SoundStep (add_attachment_det name seal state) =
        SoundStep-within self _ (add_attachment_det-Sound C F self.builder w name seal state)

  -- In each transition builder that calls lead to, the types are in order, the states of an
  -- assignment type are of the kind of its schema, and are neither none nor too many for a vector,
  -- and each amount has the asset tag that the builder has for its type; a vector takes one
  -- assignment, and one more where a collection of seals is not full.
  pub Reachable-IsWellFormed :
      (F : Fitting C) (self : TransitionBuilder C) → Reachable C self → IsWellFormed C self.builder
  unfolding with_type
  Reachable-IsWellFormed F self (start contract_id iface schema iimpl ty types) =
      with_iface-IsWellFormed C iface schema iimpl types
  Reachable-IsWellFormed F _ (step self c next r e) =
      call-SoundStep F self (Reachable-IsWellFormed F self r) c next e
