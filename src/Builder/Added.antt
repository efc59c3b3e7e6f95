-- ===== src/Builder/Added.antt =====
-- The states that the steps of `OperationBuilder` (src/interface/builder.rs) add, at their seals.
use rgb_wallet.Prelude.{
  ℕ, Option, none, some, ◌&&◌, if◌then◌else◌, eqb, eqb_iff, ◌≡◌, refl, sym, ◌∙◌, ap, Bool-cases,
  inl, inr,
}
use rgb_wallet.Collections.Map
use rgb_wallet.Collections.Map.{Map, get-insert, get-empty}
use rgb_wallet.Collections.Ord.{nat_ord}
use rgb_wallet.Builder.{
  BuilderCore, RevealedValue, BuilderSeal, builder_seal_ord, seal_eq, built, StateMap,
  OperationBuilder,
}
use rgb_wallet.Builder.Tags.{type_named, asset_tag_raw}
use rgb_wallet.Builder.Add.{
  is_fungible, put_state, check_kind, add_fungible_state_raw, add_fungible_state,
}
use rgb_wallet.Builder.Steps.{asset_tag_raw-get}
use rgb_wallet.Builder.WellFormed.{
  bind-built, built-injective, or_empty, put_state-built, HasKind, check_kind-HasKind,
}

module _ (C : BuilderCore) where
  module _ {V : Type 0} where
    abbrev pub at_seal : Option (Map (BuilderSeal C) V) → BuilderSeal C → Option V
    at_seal none seal = none
    at_seal (some states) seal = Map.get states seal

    -- The state at a seal of a type
    abbrev pub state_at : StateMap C V → ℕ → BuilderSeal C → Option V
    state_at m ty seal = at_seal (Map.get m ty) seal

    get-or_empty :
        (o : Option (Map (BuilderSeal C) V)) (seal : BuilderSeal C)
        → Map.get (or_empty o) seal ≡ at_seal o seal
    get-or_empty none seal = get-empty seal
    get-or_empty (some m) seal = refl

    put_state-at :
        (m n : StateMap C V) (ty : ℕ) (seal : BuilderSeal C) (v : V)
        → put_state C m ty seal v (Map.get m ty) ≡ built n
        → (j : ℕ) (other : BuilderSeal C)
        → state_at n j other
          ≡ (if eqb ty j && seal_eq C seal other then some v else state_at m j other)
    put_state-at m n ty seal v put j other = elim (Bool-cases (eqb ty j)) [
      | inl same ↦
          let this : ty ≡ j = (eqb_iff ty j).0 same in
          rw (sym made, get-insert m ty j new, same)
            (get-insert (or_empty (Map.get m ty)) seal other v
              ∙ ap (λ x. if seal_eq C seal other then some v else x)
                  (get-or_empty (Map.get m ty) other ∙ ap (λ k. state_at m k other) this))
      | inr differ ↦ rw (sym made, get-insert m ty j new, differ) refl
    ]
      where
        new : Map (BuilderSeal C) V
        new = Map.insert (or_empty (Map.get m ty)) seal v

        made : Map.insert m ty new ≡ n
        made = put_state-built C m ty seal v (Map.get m ty) n put

  raw_lem :
      (self next : OperationBuilder C) (ty : ℕ) (seal : BuilderSeal C) (state : RevealedValue C)
      → add_fungible_state_raw C self ty seal state ≡ built next
      → HasKind C is_fungible self.schema ty
        × ((j : ℕ) (other : BuilderSeal C)
            → state_at next.fungible j other ≡ (
                if eqb ty j && seal_eq C seal other
                then some state
                else state_at self.fungible j other))
  unfolding add_fungible_state_raw
  raw_lem self next ty seal state h =
      let (_, kind, rest) = bind-built (check_kind C self is_fungible ty) _ next h in
      let (m, put, made) =
        bind-built (put_state C self.fungible ty seal state (Map.get self.fungible ty)) _ next
          rest in
      let this : m ≡ next.fungible =
        ap (λ (b : OperationBuilder C). b.fungible)
          (built-injective (record self { fungible = m }) next made) in
      (
        check_kind-HasKind C self is_fungible ty kind,
        rw this at (put_state-at self.fungible m ty seal state put),
      )

  -- After `add_fungible_state` succeeds, the name is that of a fungible assignment type with an
  -- asset tag, the amount is at the seal of that type with this tag, in place of one that was
  -- there, and all others are as before.
  pub add_fungible_state_lem :
      (self next : OperationBuilder C) (name : ℕ) (seal : BuilderSeal C) (value : ℕ)
      (random : C.Blinding)
      → add_fungible_state C self name seal value random ≡ built next
      → (ty : ℕ) × (tag : ℕ) × (type_named C self name ≡ built ty)
        × (Map.get self.asset_tags ty ≡ some tag)
        × (HasKind C is_fungible self.schema ty
            × ((j : ℕ) (other : BuilderSeal C)
                → state_at next.fungible j other ≡ (
                    if eqb ty j && seal_eq C seal other
                    then some (record { value = value; blinding = random; tag = tag })
                    else state_at self.fungible j other)))
  unfolding add_fungible_state
  add_fungible_state_lem self next name seal value random h =
      let (ty, named, rest) = bind-built (type_named C self name) _ next h in
      let (tag, tagged, last) = bind-built (asset_tag_raw C self ty) _ next rest in
      (ty, tag, named, asset_tag_raw-get C self ty tag tagged, raw_lem self next ty seal _ last)
