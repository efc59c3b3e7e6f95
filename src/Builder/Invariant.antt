-- ===== src/Builder/Invariant.antt =====
-- What each step of the operation builder (src/interface/builder.rs) keeps: the kinds of the states and the asset tags.
use rgb_wallet.Prelude.{
  ℕ, Option, none, some, false, eqb_iff, ◌≡◌, refl, sym, ◌∙◌, ap, arith, Option-cases, inl, inr,
}
use rgb_wallet.Collections.Map
use rgb_wallet.Collections.Map.{Map, get-insert, get-insert_self, get-All, get-absent}
use rgb_wallet.Collections.Confinement.{map_len}
use rgb_wallet.Collections.Ord.{nat_ord, ◌==◌}
use rgb_wallet.Builder.{
  BuilderCore, Schema, RevealedValue, RevealedData, RevealedAttach, PersistedState, void, amount,
  persisted_data, attached, BuilderSeal, asset_tag_automatic, confinement, Built, built, ◌>>=◌,
  refuse_if, StateMap, OperationBuilder,
}
use rgb_wallet.Builder.Tags.{is_some, asset_tag_raw, insert_tag, add_asset_tag_raw, init_tag}
use rgb_wallet.Builder.Add.{
  is_declarative, is_fungible, is_structured, is_attachment, add_rights_raw, add_fungible_state_raw,
  add_data_raw, add_attachment_raw, check_tag, add_owned_state_raw,
}
use rgb_wallet.Builder.WellFormed.{
  bind-built, refuse_if-built, built-injective, Fitting, Kept, Holds, put_state-Holds, RightsHold,
  put_right-Holds, HasKind, check_kind-HasKind,
}

module _ (C : BuilderCore) where
  abbrev pub TagIs : Map ℕ ℕ → ℕ → RevealedValue C → Type 0
  TagIs tags ty v = Map.get tags ty ≡ some v.tag

  abbrev pub FungibleTagged : Schema → Map ℕ ℕ → ℕ → Type 0
  FungibleTagged schema tags ty =
      HasKind C is_fungible schema ty × ((tag : ℕ) × (Map.get tags ty ≡ some tag))

  abbrev pub FungibleHolds : Schema → Map ℕ ℕ → StateMap C (RevealedValue C) → Type 0
  FungibleHolds schema tags m = Holds C (FungibleTagged schema tags) (TagIs tags) m

  -- The states of each type are of the kind of its schema, not empty and not too many, and the amounts have the
  -- asset tag of their type.
  pub record IsWellFormed (self : OperationBuilder C) : Type 0 where
    pub rights_hold : RightsHold C (HasKind C is_declarative self.schema) self.rights
    pub fungible_hold : FungibleHolds self.schema self.asset_tags self.fungible
    pub structure_hold : Holds C (HasKind C is_structured self.schema) (λ _ _. Unit) self.structure
    pub attachments_hold :
        Holds C (HasKind C is_attachment self.schema) (λ _ _. Unit) self.attachments

  -- A step that, where it gives a builder, gives a well-formed one
  abbrev pub Sound : Built (OperationBuilder C) → Type 0
  Sound step = (next : OperationBuilder C) → step ≡ built next → IsWellFormed next

  pub Sound-bind :
      {A : Type 0} (m : Built A) (f : A → Built (OperationBuilder C))
      → ((a : A) → m ≡ built a → Sound (f a))
      → Sound (m >>= f)
  Sound-bind m f h next e = let (a, first, rest) = bind-built m f next e in h a first next rest

  pub Sound-built : (self : OperationBuilder C) → IsWellFormed self → Sound (built self)
  Sound-built self w next e = rw (built-injective self next e) at w

  module _ (F : Fitting C) (self : OperationBuilder C) (w : IsWellFormed self) where
    pub add_rights_raw-Sound :
        (ty : ℕ) (seal : BuilderSeal C) → Sound (add_rights_raw C self ty seal)
    unfolding add_rights_raw
    add_rights_raw-Sound ty seal = Sound-bind _ _ (λ _ kind. Sound-bind _ _ (λ m put.
        Sound-built _ (record {
          rights_hold =
              put_right-Holds C F _ self.rights m ty seal (Map.get self.rights ty) put w.rights_hold
                refl (check_kind-HasKind C self is_declarative ty kind);
          fungible_hold = w.fungible_hold;
          structure_hold = w.structure_hold;
          attachments_hold = w.attachments_hold;
        })))

    pub add_fungible_state_raw-Sound :
        (ty : ℕ) (seal : BuilderSeal C) (state : RevealedValue C)
        → TagIs self.asset_tags ty state
        → Sound (add_fungible_state_raw C self ty seal state)
    unfolding add_fungible_state_raw
    add_fungible_state_raw-Sound ty seal state tagged = Sound-bind _ _ (λ _ kind.
        Sound-bind _ _ (λ m put. Sound-built _ (record {
          rights_hold = w.rights_hold;
          fungible_hold =
              put_state-Holds C F (FungibleTagged self.schema self.asset_tags)
                (TagIs self.asset_tags) self.fungible m ty seal state put w.fungible_hold
                (check_kind-HasKind C self is_fungible ty kind, (state.tag, tagged)) tagged;
          structure_hold = w.structure_hold;
          attachments_hold = w.attachments_hold;
        })))

    pub add_data_raw-Sound :
        (ty : ℕ) (seal : BuilderSeal C) (state : RevealedData C)
        → Sound (add_data_raw C self ty seal state)
    unfolding add_data_raw
    add_data_raw-Sound ty seal state = Sound-bind _ _ (λ _ kind. Sound-bind _ _ (λ m put.
        Sound-built _ (record {
          rights_hold = w.rights_hold;
          fungible_hold = w.fungible_hold;
          structure_hold =
              put_state-Holds C F (HasKind C is_structured self.schema) (λ _ _. Unit) self.structure
                m ty seal state put w.structure_hold
                (check_kind-HasKind C self is_structured ty kind) tt;
          attachments_hold = w.attachments_hold;
        })))

    pub add_attachment_raw-Sound :
        (ty : ℕ) (seal : BuilderSeal C) (state : RevealedAttach C)
        → Sound (add_attachment_raw C self ty seal state)
    unfolding add_attachment_raw
    add_attachment_raw-Sound ty seal state = Sound-bind _ _ (λ _ kind. Sound-bind _ _ (λ m put.
        Sound-built _ (record {
          rights_hold = w.rights_hold;
          fungible_hold = w.fungible_hold;
          structure_hold = w.structure_hold;
          attachments_hold =
              put_state-Holds C F (HasKind C is_attachment self.schema) (λ _ _. Unit)
                self.attachments m ty seal state put w.attachments_hold
                (check_kind-HasKind C self is_attachment ty kind) tt;
        })))

    check_tag-TagIs :
        (ty tag : ℕ) → check_tag C self ty tag ≡ built tt → Map.get self.asset_tags ty ≡ some tag
    unfolding check_tag asset_tag_raw
    check_tag-TagIs ty tag h = ground (arith, h)

    pub add_owned_state_raw-Sound :
        (ty : ℕ) (seal : BuilderSeal C) (state : PersistedState C)
        → Sound (add_owned_state_raw C self ty seal state)
    unfolding add_owned_state_raw
    add_owned_state_raw-Sound ty seal void = add_rights_raw-Sound ty seal
    add_owned_state_raw-Sound ty seal (amount value blinding tag) =
        Sound-bind _ _
          (λ _ known. add_fungible_state_raw-Sound ty seal _ (check_tag-TagIs ty tag known))
    add_owned_state_raw-Sound ty seal (persisted_data value salt) = add_data_raw-Sound ty seal _
    add_owned_state_raw-Sound ty seal (attached id media_type salt) =
        add_attachment_raw-Sound ty seal _

    -- A tag for a type that has no amounts yet
    tagged-Holds :
        (ty tag : ℕ)
        → Map.get self.fungible ty ≡ none
        → FungibleHolds self.schema (Map.insert self.asset_tags ty tag) self.fungible
    tagged-Holds ty tag fresh = (
      w.fungible_hold.0,
      get-absent _ _ ty self.fungible fresh
          (λ (j, inner) other ((kind, (old, known)), (fits, states)).
            let unchanged : Map.get (Map.insert self.asset_tags ty tag) j
                ≡ Map.get self.asset_tags j =
              kept j other in
            ((kind, (old, unchanged ∙ known)), (fits, λ seal v f. unchanged ∙ states seal v f)))
          w.fungible_hold.1,
    )
      where
        kept :
            (j : ℕ)
            → (j == ty) ≡ false
            → Map.get (Map.insert self.asset_tags ty tag) j ≡ Map.get self.asset_tags j
        kept j other =
            ground (arith, get-insert self.asset_tags ty j tag, other, eqb_iff j ty, eqb_iff ty j)

    insert_tag-Sound :
        (ty tag : ℕ) → Map.get self.fungible ty ≡ none → Sound (insert_tag C self ty tag)
    unfolding insert_tag
    insert_tag-Sound ty tag fresh next e =
        let wanted : OperationBuilder C = record self {
          asset_tags = Map.insert self.asset_tags ty tag;
        } in
        Sound-built wanted
          (record {
            rights_hold = w.rights_hold;
            fungible_hold = tagged-Holds ty tag fresh;
            structure_hold = w.structure_hold;
            attachments_hold = w.attachments_hold;
          })
          next
          (refuse_if-built (C.tags_full (map_len self.asset_tags)) confinement (built wanted) next
            e).1

    pub add_asset_tag_raw-Sound : (ty tag : ℕ) → Sound (add_asset_tag_raw C self ty tag)
    unfolding add_asset_tag_raw
    add_asset_tag_raw-Sound ty tag =
        Sound-bind _ _
          (λ _ fresh. insert_tag-Sound ty tag (nothing (Map.get self.fungible ty) fresh))
      where
        nothing :
            (o : Option (Map (BuilderSeal C) (RevealedValue C)))
            → refuse_if (is_some C o) (asset_tag_automatic ty) ≡ built tt
            → o ≡ none
        nothing none h = refl
        nothing (some m) h = cc

    insert_tag-get :
        (ty tag : ℕ) (next : OperationBuilder C)
        → insert_tag C self ty tag ≡ built next
        → (self.iimpl ≡ next.iimpl) × (Map.get next.asset_tags ty ≡ some tag)
    unfolding insert_tag
    insert_tag-get ty tag next e =
        let made =
          built-injective _ next
            (refuse_if-built (C.tags_full (map_len self.asset_tags)) confinement _ next e).1 in
        (
          ap (λ (b : OperationBuilder C). b.iimpl) made,
          sym (ap (λ (b : OperationBuilder C). Map.get b.asset_tags ty) made)
              ∙ get-insert_self self.asset_tags ty tag,
        )

    untagged-fresh : (ty : ℕ) → Map.get self.asset_tags ty ≡ none → Map.get self.fungible ty ≡ none
    untagged-fresh ty e = elim (Option-cases (Map.get self.fungible ty)) [
      | inl nothing ↦ nothing
      | inr (inner, there) ↦
          let ((_, (tag, known)), _) =
            get-All
              (λ e.
                Kept C (FungibleTagged self.schema self.asset_tags) (TagIs self.asset_tags) e.0 e.1)
              self.fungible ty inner w.fungible_hold.1 there in
          ground (arith, e, known)
    ]

    -- The tag that a type gets, and a well-formed builder with it
    pub init_tag-Sound :
        (ty fresh : ℕ) (o : Option ℕ)
        → Map.get self.asset_tags ty ≡ o
        → (tag : ℕ) (next : OperationBuilder C) → init_tag C self ty fresh o ≡ built (tag, next)
        → IsWellFormed next × ((self.iimpl ≡ next.iimpl) × (Map.get next.asset_tags ty ≡ some tag))
    unfolding init_tag
    init_tag-Sound ty fresh (some old) e tag next h =
        let same : (old, self) ≡ (tag, next) = built-injective (old, self) (tag, next) h in
        let value : old ≡ tag = ap (λ p. p.0) same in
        let builder : self ≡ next = ap (λ p. p.1) same in
        let known : Map.get self.asset_tags ty ≡ some tag = e ∙ ap some value in
        (rw builder at w, (ap (λ (b : OperationBuilder C). b.iimpl) builder, rw builder at known))
    init_tag-Sound ty fresh none e tag next h =
        let (tagged, first, rest) = bind-built (insert_tag C self ty fresh) _ (tag, next) h in
        let same : (fresh, tagged) ≡ (tag, next) =
          built-injective (fresh, tagged) (tag, next) rest in
        let value : fresh ≡ tag = ap (λ p. p.0) same in
        let builder : tagged ≡ next = ap (λ p. p.1) same in
        let (named, got) = insert_tag-get ty fresh tagged first in
        let known : Map.get tagged.asset_tags ty ≡ some tag = got ∙ ap some value in
        let sound : IsWellFormed tagged =
          insert_tag-Sound ty fresh (untagged-fresh ty e) tagged first in
        (
          rw builder at sound,
          (named ∙ ap (λ (b : OperationBuilder C). b.iimpl) builder, rw builder at known),
        )
