-- ===== src/Collections/Growth.antt =====
-- Maps that keep what they have while more is put into them.
use mathlib.Core.Path.{subst}
use rgb_wallet.Prelude.{
  none, some, ◌≡◌, refl, sym, ◌∙◌, Bool-cases, inl, inr, none-ne-some, some-injective,
}
use rgb_wallet.Collections.Map
use rgb_wallet.Collections.Map.{Map, get-insert}
use rgb_wallet.Collections.Ord.{Ord, ◌==◌}

-- What a map has at a key, another has there.
abbrev pub MapGrows : {K V : Type 0} ⦃o : Ord K⦄ → Map K V → Map K V → Type 0
MapGrows {K} {V} s t = (k : K) (v : V) → Map.get s k ≡ some v → Map.get t k ≡ some v

-- A key of a map is one of another.
abbrev pub KeysGrow : {K V : Type 0} ⦃o : Ord K⦄ → Map K V → Map K V → Type 0
KeysGrow {K} {V} s t = (k : K) (v : V) → Map.get s k ≡ some v → (w : V) × (Map.get t k ≡ some w)

pub MapGrows-trans :
    {K V : Type 0} ⦃o : Ord K⦄ (s t u : Map K V) → MapGrows s t → MapGrows t u → MapGrows s u
MapGrows-trans s t u h k j v e = k j v (h j v e)

pub insert-KeysGrow :
    {K V : Type 0} ⦃o : Ord K⦄ (m : Map K V) (k : K) (v : V) → KeysGrow m (Map.insert m k v)
insert-KeysGrow m k v j w h = elim (Bool-cases (k == j)) [
  | inl same ↦ (v, get-insert m k j v ∙ rw same refl)
  | inr other ↦ (w, get-insert m k j v ∙ rw other h)
]

-- A key that is new takes nothing away.
pub insert-MapGrows :
    {K V : Type 0} ⦃o : Ord K⦄ (m : Map K V) (k : K) (v : V)
    → Map.get m k ≡ none
    → MapGrows m (Map.insert m k v)
insert-MapGrows ⦃o⦄ m k v absent j w h = elim (Bool-cases (k == j)) [
  | inl same ↦ elim (none-ne-some w (sym absent ∙ rw ((o.eq_iff k j).0 same) h)) [ ]
  | inr other ↦ get-insert m k j v ∙ rw other h
]

-- Every value that a map has is right for its key.
abbrev pub Everywhere : {K V : Type 0} ⦃o : Ord K⦄ → (K → V → Type 0) → Map K V → Type 0
Everywhere {K} {V} P m = (k : K) (v : V) → Map.get m k ≡ some v → P k v

pub empty-Everywhere :
    {K V : Type 0} ⦃o : Ord K⦄ (P : K → V → Type 0) → Everywhere P (Map.empty {K = K} {V = V})
unfolding Map.get
empty-Everywhere P k v h = elim (none-ne-some v h) [ ]

pub insert-Everywhere :
    {K V : Type 0} ⦃o : Ord K⦄ (P : K → V → Type 0) (m : Map K V) (k : K) (v : V)
    → P k v
    → Everywhere P m
    → Everywhere P (Map.insert m k v)
insert-Everywhere ⦃o⦄ P m k v here all j w h = elim (Bool-cases (k == j)) [
  | inl same ↦
      subst (λ x. P x w) ((o.eq_iff k j).0 same)
        (subst (λ y. P k y) (some-injective v w (rw same at (sym (get-insert m k j v) ∙ h))) here)
  | inr other ↦ all j w (rw other at (sym (get-insert m k j v) ∙ h))
]
