-- ===== src/Builder/Issue/Reachable.antt =====
-- What the calls of a `ContractBuilder` (src/interface/builder.rs) keep.
use rgb_wallet.Prelude.{ℕ, Bool, ◌≡◌, refl, sym, ◌∙◌}
use rgb_wallet.Collections.Set
use rgb_wallet.Collections.Set.{Set}
use rgb_wallet.Collections.Confinement.{set_len}
use rgb_wallet.Collections.Ord.{nat_ord}
use rgb_wallet.Builder.{
  BuilderCore, RevealedValue, BuilderSeal, layer1, too_many_layers1, Built, built, refused,
  panicked, ◌>>=◌, OperationBuilder,
}
use rgb_wallet.Builder.Tags.{init_asset_tag}
use rgb_wallet.Builder.Add
use rgb_wallet.Builder.Issue
use rgb_wallet.Builder.Issue.{ContractBuilder, with_issuer, inside, check_layer1}
use rgb_wallet.Builder.Issue.Calls.{
  ContractCall, set_mainnet, add_layer1, add_asset_tag, add_metadata, add_global_state,
  add_owned_state_det, add_rights, add_fungible_state, add_fungible_state_det, add_data,
  add_data_det, add_attachment, add_attachment_det, call, Reachable, start, step,
}
use rgb_wallet.Builder.WellFormed.{bind-built, refuse_if-built, built-injective, Fitting}
use rgb_wallet.Builder.Invariant.{IsWellFormed, Sound}
use rgb_wallet.Builder.Steps.{
  with_iface-IsWellFormed, add_asset_tag-Sound, init_asset_tag-Sound, add_owned_state_det-Sound,
  add_rights-Sound, add_fungible_state-Sound, add_fungible_state_det-Sound, add_data-Sound,
  add_data_det-Sound, add_attachment-Sound, add_attachment_det-Sound, add_metadata-Sound,
  add_global_state-Sound,
}

module _ (C : BuilderCore) where
  -- A step that, where it gives a builder, gives one with a well-formed builder inside
  abbrev SoundStep : Built (ContractBuilder C) → Type 0
  SoundStep m = (next : ContractBuilder C) → m ≡ built next → IsWellFormed C next.builder

  SoundStep-built :
      (self : ContractBuilder C) → IsWellFormed C self.builder → SoundStep (built self)
  SoundStep-built self w next e = rw (built-injective self next e) at w

  SoundStep-inside :
      (self : ContractBuilder C) (m : Built (OperationBuilder C))
      → Sound C m
      → SoundStep (inside C self m)
  SoundStep-inside self (built b) h next e =
      SoundStep-built (record self { builder = b }) (h b refl) next e
  SoundStep-inside self (refused e) h next q = cc
  SoundStep-inside self panicked h next q = cc

  -- The chain of a seal is checked first.
  SoundStep-checked :
      (self : ContractBuilder C) (seal : BuilderSeal C) (m : Built (OperationBuilder C))
      → Sound C m
      → SoundStep (check_layer1 C self (layer1 C seal) >>= λ _. inside C self m)
  SoundStep-checked self seal m h next e =
      let (_, _, rest) =
        bind-built (check_layer1 C self (layer1 C seal)) (λ _. inside C self m) next e in
      SoundStep-inside self m h next rest

  module _ (F : Fitting C) (self : ContractBuilder C) (w : IsWellFormed C self.builder) where
    layer-SoundStep : (full : ℕ → Bool) (layer : ℕ) → SoundStep (Issue.add_layer1 C full self layer)
    unfolding Issue.add_layer1
    layer-SoundStep full layer next e =
        let wanted : ContractBuilder C = record self {
          alt_layers1 = Set.insert self.alt_layers1 layer;
        } in
        SoundStep-built wanted w next
          (refuse_if-built (full (set_len self.alt_layers1)) too_many_layers1 (built wanted) next
            e).1

    fungible-SoundStep :
        (name : ℕ) (seal : BuilderSeal C) (value fresh : ℕ) (random : C.Blinding)
        → SoundStep (Issue.add_fungible_state C self name seal value fresh random)
    unfolding Issue.add_fungible_state
    fungible-SoundStep name seal value fresh random next e =
        let (_, _, rest) = bind-built (check_layer1 C self (layer1 C seal)) _ next e in
        let ((tag, tagged), init, last) =
          bind-built (init_asset_tag C self.builder name fresh) _ next rest in
        let (sound, _) = init_asset_tag-Sound C F self.builder w name fresh tag tagged init in
        SoundStep-inside self _ (add_fungible_state-Sound C F tagged sound name seal value random)
          next last

    fungible_det-SoundStep :
        (name : ℕ) (seal : BuilderSeal C) (value fresh : ℕ) (blinding : C.Blinding)
        → SoundStep (Issue.add_fungible_state_det C self name seal value fresh blinding)
    unfolding Issue.add_fungible_state_det
    fungible_det-SoundStep name seal value fresh blinding next e =
        let (_, _, rest) = bind-built (check_layer1 C self (layer1 C seal)) _ next e in
        let ((tag, tagged), init, last) =
          bind-built (init_asset_tag C self.builder name fresh) _ next rest in
        let (sound, (ty, named, known)) =
          init_asset_tag-Sound C F self.builder w name fresh tag tagged init in
        let state : RevealedValue C = record { value = value; blinding = blinding; tag = tag } in
        SoundStep-inside self (Add.add_fungible_state_det C tagged name seal state)
          (add_fungible_state_det-Sound C F tagged sound name seal state (λ other same.
            let this : ty ≡ other = built-injective ty other (sym named ∙ same) in
            rw this at known))
          next last

    call-SoundStep : (c : ContractCall C) → SoundStep (call C self c)
    unfolding call Issue.set_mainnet Issue.add_owned_state_det Issue.add_rights Issue.add_data
        Issue.add_data_det Issue.add_attachment Issue.add_attachment_det
    call-SoundStep set_mainnet = SoundStep-built (Issue.set_mainnet C self) w
    call-SoundStep (add_layer1 full layer) = layer-SoundStep full layer
    call-SoundStep (add_asset_tag name tag) =
        SoundStep-inside self _ (add_asset_tag-Sound C F self.builder w name tag)
    call-SoundStep (add_metadata name value) =
        SoundStep-inside self _ (add_metadata-Sound C F self.builder w name value)
    call-SoundStep (add_global_state name value) =
        SoundStep-inside self _ (add_global_state-Sound C F self.builder w name value)
    call-SoundStep (add_owned_state_det name seal state) =
        SoundStep-checked self seal _ (add_owned_state_det-Sound C F self.builder w name seal state)
    call-SoundStep (add_rights name seal) =
        SoundStep-checked self seal _ (add_rights-Sound C F self.builder w name seal)
    call-SoundStep (add_fungible_state name seal value fresh random) =
        fungible-SoundStep name seal value fresh random
    call-SoundStep (add_fungible_state_det name seal value fresh blinding) =
        fungible_det-SoundStep name seal value fresh blinding
    call-SoundStep (add_data name seal value random) =
        SoundStep-checked self seal _ (add_data-Sound C F self.builder w name seal value random)
    call-SoundStep (add_data_det name seal state) =
        SoundStep-checked self seal _ (add_data_det-Sound C F self.builder w name seal state)
    call-SoundStep (add_attachment name seal id media_type random) =
        SoundStep-checked self seal _
          (add_attachment-Sound C F self.builder w name seal id media_type random)
    call-SoundStep (add_attachment_det name seal state) =
        SoundStep-checked self seal _ (add_attachment_det-Sound C F self.builder w name seal state)

  -- In each contract builder that calls lead to, the types are in order, the states of an
  -- assignment type are of the kind of its schema, and are neither none nor too many for a vector,
  -- and each amount has the asset tag that the builder has for its type; a vector takes one
  -- assignment, and one more where a collection of seals is not full.
  pub Reachable-IsWellFormed_contract :
      (F : Fitting C) (self : ContractBuilder C) → Reachable C self → IsWellFormed C self.builder
  unfolding with_issuer
  Reachable-IsWellFormed_contract F self (start issuer iface schema iimpl types) =
      with_iface-IsWellFormed C iface schema iimpl types
  Reachable-IsWellFormed_contract F _ (step self c next r e) =
      call-SoundStep F self (Reachable-IsWellFormed_contract F self r) c next e
