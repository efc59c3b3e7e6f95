-- ===== src/Collections/Map.antt =====
-- `BTreeMap`: a list of entries in the order of their keys.
pub mod Ordered
use rgb_wallet.Prelude.{
  ℕ, suc, ◌⊎◌, false, length, is_empty, List, [], ◌∷◌, Option, none, some, Bool, true, keep, any_of,
  if◌then◌else◌, ◌≡◌, refl, arith, Bool-cases, eqb, eqb_iff, inl, inr, some-injective, sym, ◌∙◌, ap,
  All, All-weaken, ◌<◌, ◌≤◌, ◌++◌,
}
use rgb_wallet.Collections.Ord.{Ord, ◌==◌, less, ==_refl, nat_ord}

pub record Map {ℓ κ} (K : Type ℓ) (V : Type κ) : Type (ℓ ⊔ κ) where
  pub entries : List (K × V)

abbrev pub empty {ℓ κ} : {K : Type ℓ} {V : Type κ} → Map K V
empty = record { entries = [] }

module _ {ℓ κ} {K : Type ℓ} {V : Type κ} ⦃o : Ord K⦄ where
  pub find : K → List (K × V) → Option V
  find k [] = none
  find k ((j, v) ∷ m) = if j == k then some v else find k m

  pub put : K → V → List (K × V) → List (K × V)
  put k v [] = (k, v) ∷ []
  put k v ((j, w) ∷ m) =
      let later = (j, w) ∷ put k v m in
      if j == k then (k, v) ∷ m else if less k j then (k, v) ∷ (j, w) ∷ m else later

  pub without : K → List (K × V) → List (K × V)
  without k [] = []
  without k ((j, w) ∷ m) = let rest = without k m in if j == k then rest else (j, w) ∷ rest

  unfoldable pub get : Map K V → K → Option V
  unfolding find
  get m k = find k m.entries

  unfoldable pub insert : Map K V → K → V → Map K V
  unfolding put
  insert m k v = record { entries = put k v m.entries }

  unfoldable pub remove : Map K V → K → Map K V
  unfolding without
  remove m k = record { entries = without k m.entries }

  find-put :
      (k j : K) (v : V) (m : List (K × V))
      → find j (put k v m) ≡ (if k == j then some v else find j m)
  unfolding find put
  find-put k j v [] = refl
  find-put k j v ((i, w) ∷ m) =
      ground (arith, o.eq_iff k j, o.eq_iff i k, o.eq_iff i j, find-put k j v m)

  find-without :
      (k j : K) (m : List (K × V)) → find j (without k m) ≡ (if k == j then none else find j m)
  unfolding find without
  find-without k j [] = ground arith
  find-without k j ((i, w) ∷ m) =
      ground (arith, o.eq_iff k j, o.eq_iff i k, o.eq_iff i j, find-without k j m)

  pub get-insert :
      (m : Map K V) (k j : K) (v : V) → get (insert m k v) j ≡ (if k == j then some v else get m j)
  unfolding get insert
  get-insert m k j v = find-put k j v m.entries

  pub get-remove : (m : Map K V) (k j : K) → get (remove m k) j ≡ (if k == j then none else get m j)
  unfolding get remove
  get-remove m k j = find-without k j m.entries

  find-keep :
      (p : K → Bool) (k : K) (m : List (K × V))
      → find k (keep (λ e. p e.0) m) ≡ (if p k then find k m else none)
  unfolding find
  find-keep p k [] = ground arith
  find-keep p k ((j, v) ∷ m) = ground (arith, o.eq_iff j k, find-keep p k m)

  -- A map without the keys that fail a test
  pub get-keep :
      (p : K → Bool) (m : Map K V) (k : K)
      → get (record { entries = keep (λ e. p e.0) m.entries }) k ≡ (if p k then get m k else none)
  unfolding get
  get-keep p m k = find-keep p k m.entries

  find-any :
      (p : V → Bool) (k : K) (v : V) (m : List (K × V))
      → find k m ≡ some v
      → p v ≡ true
      → any_of (λ e. p e.1) m ≡ true
  unfolding find
  find-any p k v [] h hit = cc
  find-any p k v ((j, w) ∷ m) h hit = ground (arith, find-any p k v m)

  -- A value of a map that passes a test is found by it.
  pub get-any :
      (p : V → Bool) (m : Map K V) (k : K) (v : V)
      → get m k ≡ some v
      → p v ≡ true
      → any_of (λ e. p e.1) m.entries ≡ true
  unfolding get
  get-any p m k v h hit = find-any p k v m.entries h hit

  find-All :
      (P : K × V → Type 0) (k : K) (v : V) (m : List (K × V))
      → All P m
      → find k m ≡ some v
      → P (k, v)
  unfolding find
  find-All P k v [] h e = cc
  find-All P k v ((j, w) ∷ m) (h, hs) e = elim (Bool-cases (j == k)) [
    | inl same ↦
        let this : j ≡ k = (o.eq_iff j k).0 same in
        let value : w ≡ v = some-injective w v (rw (same, find) at e) in rw value at (rw this at h)
    | inr other ↦ find-All P k v m hs (rw (other, find) at e)
  ]

  put-All :
      (P : K × V → Type 0) (k : K) (v : V) (m : List (K × V))
      → All P m
      → P (k, v)
      → All P (put k v m)
  unfolding put
  put-All P k v [] h p = (p, tt)
  put-All P k v ((j, w) ∷ m) (h, hs) p = elim (Bool-cases (j == k)) [
    | inl same ↦ rw (same, put) (p, hs)
    | inr other ↦ elim (Bool-cases (less k j)) [
      | inl below ↦ rw (other, below, put) (p, (h, hs))
      | inr above ↦ rw (other, above, put) (h, put-All P k v m hs p)
    ]
  ]

  -- What holds of all entries holds of what a key gives, and of all entries after one that it holds of is put in.
  pub get-All :
      (P : K × V → Type 0) (m : Map K V) (k : K) (v : V)
      → All P m.entries
      → get m k ≡ some v
      → P (k, v)
  unfolding get
  get-All P m k v h e = find-All P k v m.entries h e

  pub insert-All :
      (P : K × V → Type 0) (m : Map K V) (k : K) (v : V)
      → All P m.entries
      → P (k, v)
      → All P (insert m k v).entries
  unfolding insert
  insert-All P m k v h p = put-All P k v m.entries h p

  find-absent :
      (P Q : K × V → Type 0) (k : K) (m : List (K × V))
      → find k m ≡ none
      → ((e : K × V) → (e.0 == k) ≡ false → P e → Q e)
      → All P m
      → All Q m
  unfolding find
  find-absent P Q k [] e step h = tt
  find-absent P Q k ((j, w) ∷ m) e step (h, hs) = elim (Bool-cases (j == k)) [
    | inl same ↦ let found : some w ≡ none = rw (same, find) at e in absurd-found found
    | inr other ↦ (step (j, w) other h, find-absent P Q k m (rw (other, find) at e) step hs)
  ]
    where
      absurd-found : some w ≡ none → Q (j, w) × All Q m
      absurd-found found = cc

  -- What holds of all entries with other keys than one that the map lacks
  pub get-absent :
      (P Q : K × V → Type 0) (k : K) (m : Map K V)
      → get m k ≡ none
      → ((e : K × V) → (e.0 == k) ≡ false → P e → Q e)
      → All P m.entries
      → All Q m.entries
  unfolding get
  get-absent P Q k m e step h = find-absent P Q k m.entries e step h

  put-length :
      (k : K) (v : V) (m : List (K × V))
      → (length (put k v m) ≡ length m) ⊎ (length (put k v m) ≡ suc (length m))
  unfolding put
  put-length k v [] = inr refl
  put-length k v ((j, w) ∷ m) = ground (arith, put-length k v m)

  -- An insertion adds one entry at most, and what it leaves is not empty.
  pub length-insert :
      (m : Map K V) (k : K) (v : V)
      → (length (insert m k v).entries ≡ length m.entries)
        ⊎ (length (insert m k v).entries ≡ suc (length m.entries))
  unfolding insert
  length-insert m k v = put-length k v m.entries

  length-without : (k : K) (m : List (K × V)) → length (without k m) ≤ length m
  unfolding without
  length-without k [] = omega arith
  length-without k ((j, w) ∷ m) = ground (arith, length-without k m)

  pub length-remove : (m : Map K V) (k : K) → length (remove m k).entries ≤ length m.entries
  unfolding remove
  length-remove m k = length-without k m.entries

  put-some : (k : K) (v : V) (m : List (K × V)) → is_empty (put k v m) ≡ false
  unfolding put
  put-some k v [] = refl
  put-some k v ((j, w) ∷ m) = ground arith

  pub is_empty-insert : (m : Map K V) (k : K) (v : V) → is_empty (insert m k v).entries ≡ false
  unfolding insert
  is_empty-insert m k v = put-some k v m.entries

  -- What holds of each value of a map holds of each after one more that it holds of.
  pub Values-insert :
      (P : V → Type 0) (m : Map K V) (k : K) (v : V)
      → ((j : K) (w : V) → get m j ≡ some w → P w)
      → P v
      → (j : K) (w : V) → get (insert m k v) j ≡ some w
      → P w
  Values-insert P m k v h p j w e = elim (Bool-cases (k == j)) [
    | inl same ↦ rw (some-injective v w (rw (get-insert m k j v, same) at e)) at p
    | inr other ↦ h j w (rw (get-insert m k j v, other) at e)
  ]

  pub get-insert_self : (m : Map K V) (k : K) (v : V) → get (insert m k v) k ≡ some v
  get-insert_self m k v = simp (get-insert, ==_refl)

  pub get-empty : (k : K) → get empty k ≡ none
  unfolding get
  get-empty k = refl

  pub Values-empty : (P : V → Type 0) (j : K) (w : V) → get empty j ≡ some w → P w
  unfolding get
  Values-empty P j w e = cc

pub ruleset map_laws = (get-insert, get-remove, get-empty)
