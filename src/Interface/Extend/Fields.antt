-- ===== src/Interface/Extend/Fields.antt =====
-- What the loops over fields of src/interface/inheritance.rs leave when they push no error.
use rgb_wallet.Prelude.{
  ℕ, List, [], ◌∷◌, Option, none, some, eqb, eqb_iff, ◌≡◌, refl, sym, ◌∙◌, ap, arith, Bool-cases,
  inl, inr,
}
use rgb_wallet.Collections.Map
use rgb_wallet.Collections.Map.{Map, get-insert}
use rgb_wallet.Collections.Map.Ordered.{overlay}
use rgb_wallet.Collections.Ord.{nat_ord}
use rgb_wallet.Collections.Confinement.{Confinement}
use rgb_wallet.Interface.Types.{ExtensionError}
use rgb_wallet.Interface.Extend.{merge_fields}

-- The values of a key that replaced one another, by a relation of an old to a new value
abbrev pub Refined {ℓ} : {V : Type ℓ} → (V → V → Type 0) → Option V → Option V → Type ℓ
Refined {V = V} R old new = (v : V) → old ≡ some v → (w : V) × (new ≡ some w) × R v w

-- A refinement of a map with an insertion is one of the map, if the entry inserted refines what it replaced.
insert-Refined :
    {V : Type 0} (R : V → V → Type 0) (t : (u v w : V) → R u v → R v w → R u w) (m : Map ℕ V)
    (j k : ℕ) (e : V) (new : Option V)
    → ((v : V) → Map.get m j ≡ some v → R v e)
    → Refined R (Map.get (Map.insert m j e) k) new
    → Refined R (Map.get m k) new
insert-Refined R t m j k e new better kept v found = elim (Bool-cases (eqb j k)) [
  | inl same ↦
      let (w, at, re) = kept e (get-insert m j k e ∙ rw same refl) in
      (w, at, t v e w (better v (rw ((eqb_iff j k).0 same) found)) re)
  | inr other ↦ kept v (get-insert m j k e ∙ rw other found)
]

module _ {V : Type 0} (conf : Confinement) (check : ℕ → V → V → Option ExtensionError)
    (overflow : ExtensionError) where
  -- A field that is gone through without an error is inserted, after its check against what was there.
  field_lem :
      (j : ℕ) (e : V) (rest : List (ℕ × V)) (m : Map ℕ V)
      → (merge_fields conf check overflow ((j, e) ∷ rest) m).1 ≡ []
      → (merge_fields conf check overflow ((j, e) ∷ rest) m
          ≡ merge_fields conf check overflow rest (Map.insert m j e))
        × ((v : V) → Map.get m j ≡ some v → check j v e ≡ none)
  unfolding merge_fields
  field_lem j e rest m h = (ground arith, λ v found. ground arith)

  -- When no error is pushed, the map holds the extension's entries over its own, and each entry that was there
  -- is related to what stands at its key.
  pub merge_fields_lem :
      (R : V → V → Type 0)
      → ((v : V) → R v v)
      → ((u v w : V) → R u v → R v w → R u w)
      → ((k : ℕ) (v w : V) → check k v w ≡ none → R v w)
      → (ext : List (ℕ × V)) (m : Map ℕ V) → (merge_fields conf check overflow ext m).1 ≡ []
      → (k : ℕ)
      → (Map.get (merge_fields conf check overflow ext m).0 k ≡ overlay ext k (Map.get m k))
        × Refined R (Map.get m k) (Map.get (merge_fields conf check overflow ext m).0 k)
  unfolding merge_fields
  merge_fields_lem R r t c [] m h k = (refl, λ v e. (v, e, r v))
  merge_fields_lem R r t c ((j, e) ∷ rest) m h k =
      let (step, checked) = field_lem j e rest m h in
      let (result, kept) = merge_fields_lem R r t c rest (Map.insert m j e) (rw (sym step) h) k in
      let here = get-insert m j k e in
      (
        rw step (result ∙ ap (overlay rest k) here),
        rw step (insert-Refined R t m j k e _ (λ v at. c j v e (checked v at)) kept),
      )
