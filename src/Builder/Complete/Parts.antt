-- ===== src/Builder/Complete/Parts.antt =====
-- What the loops of `OperationBuilder::complete` (src/interface/builder.rs) make of the states of each type.
use rgb_wallet.Prelude.{
  ℕ, suc, ◌+◌, ◌<◌, ◌≤◌, List, [], ◌∷◌, map, length, is_empty, keep, some, Bool, true, false, eqb,
  if◌then◌else◌, All, ◌⊎◌, inl, inr, Bool-cases, ◌≡◌, refl, ◌∙◌, ap, arith,
}
use rgb_wallet.Collections.Map
use rgb_wallet.Collections.Map.{Map, get-insert, length-insert}
use rgb_wallet.Collections.Map.Ordered.{with_values, overlay}
use rgb_wallet.Collections.Set.{Set}
use rgb_wallet.Collections.Confinement.{map_len}
use rgb_wallet.Collections.Ord.{nat_ord}
use rgb_wallet.Contract.Types.{
  Opout, Assign, confidential, confidential_seal, confidential_state, declarative, fungible,
  structured, attachment,
}
use rgb_wallet.Builder.{
  BuilderCore, RevealedValue, RevealedData, RevealedAttach, PersistedState, void, amount,
  persisted_data, attached, BuilderSeal, revealed, concealed, Built, built,
}
use rgb_wallet.Builder.Complete.{
  Inputs, Typed, assign_at, assigns, all_but_last, input_blinding, input_blindings,
  or_empty_blinding, set_blinding, update_last, balance, owned_value, owned_data, owned_right,
  owned_attachment, collect, extend,
}
use rgb_wallet.Builder.WellFormed.{Fits}

-- A loop that succeeds for each entry collects what it makes of each.
module _ (C : BuilderCore) {V : Type 0} (f : ℕ × V → Built (ℕ × Typed C))
    (h : ℕ → V → Typed C) where
  pub collect_lem :
      (l : List (ℕ × V))
      → All (λ e. f e ≡ built (e.0, h e.0 e.1)) l
      → collect C f l ≡ built (with_values h l)
  unfolding collect
  collect_lem [] made = refl
  collect_lem ((j, v) ∷ l) (first, made) = rw (first, collect_lem l made) refl

module _ (C : BuilderCore) where
  assigns_lem : {V : Type 0} (l : List (Assign C.Seal V)) → Fits C l → assigns C l ≡ built l
  unfolding assigns
  assigns_lem l (nonempty, fits) = rw (nonempty, fits) refl

  length-map : {A B : Type 0} (f : A → B) (l : List A) → length (map f l) ≡ length l
  length-map f [] = refl
  length-map f (a ∷ l) = ap suc (length-map f l)

  pub Fits-map : {A B : Type 0} (f : A → B) (l : List A) → Fits C l → Fits C (map f l)
  Fits-map f [] fits = fits
  Fits-map f (a ∷ l) (nonempty, fits) = (refl, ap (λ n. C.vec_fits (suc n)) (length-map f l) ∙ fits)

  -- Written over a map that does not become too large, entries are found by the last with their key.
  pub extend_lem :
      (m : Map ℕ (Typed C)) (l : List (ℕ × Typed C))
      → ((n : ℕ) → n < map_len m + length l → C.conf.tiny_full n ≡ false)
      → (out : Map ℕ (Typed C)) × (extend C m l ≡ built out)
        × ((k : ℕ) → Map.get out k ≡ overlay l k (Map.get m k))
        × (map_len out ≤ map_len m + length l)
  unfolding extend
  extend_lem m [] room = (m, refl, (λ k. refl), omega arith)
  extend_lem m ((id, typed) ∷ l) room =
      let m1 = Map.insert m id typed in
      let grown : map_len m1 ≤ suc (map_len m) = at_most (length-insert m id typed) in
      let (out, made, got, size) =
        extend_lem m1 l (λ n below. room n (ground (arith, below, grown))) in
      let here : C.conf.tiny_full (map_len m) ≡ false = room (map_len m) (ground arith) in
      (
        out,
        rw here made,
        (λ k. got k ∙ ap (overlay l k) (get-insert m id k typed)),
        ground (arith, size, grown),
      )
    where
      at_most :
          (map_len (Map.insert m id typed) ≡ map_len m)
            ⊎ (map_len (Map.insert m id typed) ≡ suc (map_len m))
          → map_len (Map.insert m id typed) ≤ suc (map_len m)
      at_most h = ground (arith, h)

  -- The seals are those that the states are at, and nothing else is concealed.
  pub data_lem :
      (id : ℕ) (m : Map (BuilderSeal C) (RevealedData C))
      → Fits C m.entries
      → owned_data C (id, m) ≡ built (id, structured (map (assign_at C) m.entries))
  unfolding owned_data
  data_lem id m fits = rw (assigns_lem _ (Fits-map (assign_at C) m.entries fits)) refl

  pub attachment_lem :
      (id : ℕ) (m : Map (BuilderSeal C) (RevealedAttach C))
      → Fits C m.entries
      → owned_attachment C (id, m) ≡ built (id, attachment (map (assign_at C) m.entries))
  unfolding owned_attachment
  attachment_lem id m fits = rw (assigns_lem _ (Fits-map (assign_at C) m.entries fits)) refl

  pub right_lem :
      (id : ℕ) (s : Set (BuilderSeal C))
      → Fits C s.elements
      → owned_right C (id, s)
        ≡ built (id, declarative (map (λ seal. assign_at C (seal, tt)) s.elements))
  unfolding owned_right
  right_lem id s fits =
      rw (assigns_lem _ (Fits-map (λ seal. assign_at C (seal, tt)) s.elements fits)) refl

  abbrev pub is_amount : PersistedState C → Bool
  is_amount (amount value blinding tag) = true
  is_amount void = false
  is_amount (persisted_data value salt) = false
  is_amount (attached id media_type salt) = false

  -- Each input of a type is an amount.
  abbrev pub AmountsAt : Inputs C → ℕ → Type 0
  AmountsAt inputs id = All (λ i. (eqb i.0.ty id ≡ false) ⊎ (is_amount i.1 ≡ true)) inputs

  -- The blinding factors of the inputs of a type
  abbrev pub spent_state : PersistedState C → List C.Blinding → List C.Blinding
  spent_state (amount value blinding tag) rest = blinding ∷ rest
  spent_state void rest = rest
  spent_state (persisted_data value salt) rest = rest
  spent_state (attached id media_type salt) rest = rest

  abbrev pub spent : ℕ → Inputs C → List C.Blinding
  spent id [] = []
  spent id ((out, state) ∷ inputs) =
      let rest = spent id inputs in if eqb out.ty id then spent_state state rest else rest

  spent_more :
      (out : Opout) (state : PersistedState C) (kept : Inputs C) (rest : List C.Blinding)
      → is_amount state ≡ true
      → input_blindings C kept ≡ built rest
      → input_blindings C ((out, state) ∷ kept) ≡ built (spent_state state rest)
  unfolding input_blindings input_blinding
  spent_more out (amount value blinding tag) kept rest h more = rw more refl
  spent_more out void kept rest h more = cc
  spent_more out (persisted_data value salt) kept rest h more = cc
  spent_more out (attached id media_type salt) kept rest h more = cc

  spent_lem :
      (id : ℕ) (inputs : Inputs C)
      → AmountsAt inputs id
      → input_blindings C (keep (λ i. eqb i.0.ty id) inputs) ≡ built (spent id inputs)
  unfolding input_blindings
  spent_lem id [] h = refl
  spent_lem id ((out, state) ∷ inputs) (h, hs) = elim (Bool-cases (eqb out.ty id)) [
    | inl same ↦ rw same (
        spent_more out state _ (spent id inputs) (ground (arith, same, h)) (spent_lem id inputs hs))
    | inr other ↦ rw other (spent_lem id inputs hs)
  ]

  abbrev pub with_blinding :
      C.Blinding → Assign C.Seal (RevealedValue C) → Assign C.Seal (RevealedValue C)
  with_blinding b (Assign.revealed seal state lock) =
      Assign.revealed seal (record state { blinding = b }) lock
  with_blinding b (confidential_seal seal state lock) =
      confidential_seal seal (record state { blinding = b }) lock
  with_blinding b (confidential_state seal state lock) = confidential_state seal state lock
  with_blinding b (confidential seal state lock) = confidential seal state lock

  -- The last assignment with another blinding factor
  abbrev pub blind_last :
      C.Blinding → List (Assign C.Seal (RevealedValue C)) → List (Assign C.Seal (RevealedValue C))
  blind_last b [] = []
  blind_last b (a ∷ []) = with_blinding b a ∷ []
  blind_last b (a ∷ c ∷ l) = a ∷ blind_last b (c ∷ l)

  blind_lem :
      (b : C.Blinding) (l : List (BuilderSeal C × RevealedValue C))
      → update_last C (set_blinding C b) (map (assign_at C) l)
        ≡ built (blind_last b (map (assign_at C) l))
  unfolding update_last set_blinding assign_at
  blind_lem b [] = refl
  blind_lem b ((revealed seal, state) ∷ []) = refl
  blind_lem b ((concealed seal, state) ∷ []) = refl
  blind_lem b (x ∷ y ∷ l) = rw (blind_lem b (y ∷ l)) refl

  length-blind_last :
      (b : C.Blinding) (l : List (Assign C.Seal (RevealedValue C)))
      → length (blind_last b l) ≡ length l
  length-blind_last b [] = refl
  length-blind_last b (a ∷ []) = refl
  length-blind_last b (a ∷ c ∷ l) = ap suc (length-blind_last b (c ∷ l))

  Fits-blind_last :
      (b : C.Blinding) (l : List (Assign C.Seal (RevealedValue C)))
      → Fits C l
      → Fits C (blind_last b l)
  Fits-blind_last b [] fits = fits
  Fits-blind_last b (a ∷ []) fits = fits
  Fits-blind_last b (a ∷ c ∷ l) (nonempty, fits) =
      (refl, ap (λ n. C.vec_fits n) (length-blind_last b (a ∷ c ∷ l)) ∙ fits)

  module _ (balanced : (inputs outputs : List C.Blinding) → C.Blinding) where
    -- The amounts of a type, of which the last one is blinded so that they balance the inputs
    abbrev pub amounts_of :
        Inputs C
        → ℕ
        → Map (BuilderSeal C) (RevealedValue C)
        → List (Assign C.Seal (RevealedValue C))
    amounts_of inputs id m =
        blind_last
          (balanced (or_empty_blinding C (spent id inputs))
            (all_but_last C (map (λ e. e.1.blinding) m.entries)))
          (map (assign_at C) m.entries)

    -- Balancing the factors of a type gives a factor for its last amount.
    abbrev pub BalancesAt : Inputs C → ℕ → Map (BuilderSeal C) (RevealedValue C) → Type 0
    BalancesAt inputs id m =
        let spent_factors = or_empty_blinding C (spent id inputs) in
        let made = all_but_last C (map (λ e. e.1.blinding) m.entries) in
        C.zero_balanced spent_factors made ≡ some (balanced spent_factors made)

    balance_lem :
        (inputs : Inputs C) (id : ℕ) (blindings : List C.Blinding)
        (l : List (BuilderSeal C × RevealedValue C))
        → C.zero_balanced (or_empty_blinding C (spent id inputs)) (all_but_last C blindings)
          ≡ some (balanced (or_empty_blinding C (spent id inputs)) (all_but_last C blindings))
        → AmountsAt inputs id
        → is_empty l ≡ false
        → balance C inputs id blindings (map (assign_at C) l)
          ≡ built (
              blind_last
                (balanced (or_empty_blinding C (spent id inputs)) (all_but_last C blindings))
                (map (assign_at C) l))
    unfolding balance
    balance_lem inputs id blindings [] balances h nonempty = cc
    balance_lem inputs id blindings (a ∷ l) balances h nonempty =
        rw (spent_lem id inputs h, balances) (blind_lem _ (a ∷ l))

    pub value_lem :
        (inputs : Inputs C) (id : ℕ) (m : Map (BuilderSeal C) (RevealedValue C))
        → BalancesAt inputs id m
        → AmountsAt inputs id
        → Fits C m.entries
        → owned_value C inputs (id, m) ≡ built (id, fungible (amounts_of inputs id m))
    unfolding owned_value
    value_lem inputs id m balances h fits =
        let b =
          balanced (or_empty_blinding C (spent id inputs))
            (all_but_last C (map (λ e. e.1.blinding) m.entries)) in
        let kept =
          Fits-blind_last b (map (assign_at C) m.entries) (Fits-map (assign_at C) m.entries fits) in
        rw
          (
            balance_lem inputs id (map (λ e. e.1.blinding) m.entries) m.entries balances h fits.0,
            assigns_lem (amounts_of inputs id m) kept,
          )
          refl
