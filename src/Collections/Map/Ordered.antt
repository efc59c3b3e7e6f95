-- ===== src/Collections/Map/Ordered.antt =====
-- Maps whose keys are in order, and the entries of one written over another.
use rgb_wallet.Prelude.{
  ℕ, suc, length, List, [], ◌∷◌, Option, none, some, if◌then◌else◌, ◌≡◌, refl, arith, Bool-cases,
  eqb, eqb_iff, inl, inr, sym, ◌∙◌, ap, All, All-weaken, ◌<◌, ◌++◌,
}
use rgb_wallet.Collections.Ord.{◌==◌, less, nat_ord}
use rgb_wallet.Collections.Map.{Map, get, insert, find, put, put-All}

-- The keys of a map, in their order.
abbrev pub Ascending {ℓ} : {V : Type ℓ} → List (ℕ × V) → Type 0
Ascending [] = Unit
Ascending ((k, _) ∷ m) = All (λ e. k < e.0) m × Ascending m

-- A key above all others is put at the end.
put-last {ℓ} :
    {V : Type ℓ} (k : ℕ) (v : V) (m : List (ℕ × V))
    → All (λ e. e.0 < k) m
    → put k v m ≡ m ++ (k, v) ∷ []
unfolding put
put-last k v [] h = refl
put-last k v ((j, w) ∷ m) (h, hs) = ground (arith, put-last k v m hs)

pub entries-insert_last {ℓ} :
    {V : Type ℓ} (m : Map ℕ V) (k : ℕ) (v : V)
    → All (λ e. e.0 < k) m.entries
    → (insert m k v).entries ≡ m.entries ++ (k, v) ∷ []
unfolding insert
entries-insert_last m k v h = put-last k v m.entries h

-- The value of a key after the entries of a list were written over it in their order.
abbrev pub overlay {ℓ} : {V : Type ℓ} → List (ℕ × V) → ℕ → Option V → Option V
overlay [] k old = old
overlay ((j, v) ∷ rest) k old = overlay rest k (if j == k then some v else old)

put-Ascending {ℓ} :
    {V : Type ℓ} (k : ℕ) (v : V) (m : List (ℕ × V)) → Ascending m → Ascending (put k v m)
unfolding put
put-Ascending k v [] h = (tt, tt)
put-Ascending k v ((j, w) ∷ m) (low, asc) = elim (Bool-cases (eqb j k)) [
  | inl same ↦ let this : j ≡ k = (eqb_iff j k).0 same in rw same (rw this at low, asc)
  | inr other ↦ elim (Bool-cases (less k j)) [
    | inl below ↦
        rw (other, below)
          (
            (ground (arith, below), All-weaken (λ e above. ground (arith, below, above)) m low),
            (low, asc),
          )
    | inr above ↦
        rw (other, above)
          (put-All (λ e. j < e.0) k v m low (ground (arith, other, above)), put-Ascending k v m asc)
  ]
]

-- An insertion keeps the keys in order.
pub insert-Ascending {ℓ} :
    {V : Type ℓ} (m : Map ℕ V) (k : ℕ) (v : V)
    → Ascending m.entries
    → Ascending (insert m k v).entries
unfolding insert
insert-Ascending m k v h = put-Ascending k v m.entries h

overlay-find-none {ℓ} :
    {V : Type ℓ} (m : List (ℕ × V)) (k : ℕ) (old : Option V)
    → find k m ≡ none
    → overlay m k old ≡ old
unfolding find
overlay-find-none [] k old h = refl
overlay-find-none ((j, w) ∷ m) k old h = elim (Bool-cases (eqb j k)) [
  | inl same ↦ ground (arith, same, h)
  | inr other ↦ rw other (overlay-find-none m k old (ground (arith, other, h)))
]

-- What a map lacks, it does not write over.
pub overlay-get-none {ℓ} :
    {V : Type ℓ} (m : Map ℕ V) (k : ℕ) (old : Option V)
    → get m k ≡ none
    → overlay m.entries k old ≡ old
unfolding get
overlay-get-none m k old h = overlay-find-none m.entries k old h

overlay-above {ℓ} :
    {V : Type ℓ} (m : List (ℕ × V)) (k : ℕ) (old : Option V)
    → All (λ e. k < e.0) m
    → overlay m k old ≡ old
overlay-above [] k old h = refl
overlay-above ((j, v) ∷ m) k old (h, hs) = ground (arith, overlay-above m k old hs)

overlay-find {ℓ} :
    {V : Type ℓ} (m : List (ℕ × V)) (k : ℕ) (v : V) (old : Option V)
    → Ascending m
    → find k m ≡ some v
    → overlay m k old ≡ some v
unfolding find
overlay-find [] k v old asc h = cc
overlay-find ((j, w) ∷ m) k v old (low, asc) h = elim (Bool-cases (eqb j k)) [
  | inl same ↦
      let this : j ≡ k = (eqb_iff j k).0 same in
      let found : some w ≡ some v = rw (sym (ap (λ b. if b then some w else find k m) same)) h in
      rw same (overlay-above m k (some w) (rw (sym this) low) ∙ found)
  | inr other ↦
      rw other
        (overlay-find m k v old asc (rw (sym (ap (λ b. if b then some w else find k m) other)) h))
]

-- What a map holds, it writes over anything.
pub overlay-get {ℓ} :
    {V : Type ℓ} (m : Map ℕ V) (k : ℕ) (v : V) (old : Option V)
    → Ascending m.entries
    → get m k ≡ some v
    → overlay m.entries k old ≡ some v
unfolding get
overlay-get m k v old asc h = overlay-find m.entries k v old asc h

-- The values of a map, each replaced by what a function gives of its key and it
abbrev pub with_values {ℓ κ} : {V : Type ℓ} {W : Type κ} → (ℕ → V → W) → List (ℕ × V) → List (ℕ × W)
with_values h [] = []
with_values h ((j, v) ∷ l) = (j, h j v) ∷ with_values h l

-- The first of two values that is there
abbrev pub or_else {ℓ} : {V : Type ℓ} → Option V → Option V → Option V
or_else (some v) other = some v
or_else none other = other

module _ {ℓ κ} {V : Type ℓ} {W : Type κ} (h : ℕ → V → W) where
  abbrev pub value_of : ℕ → Option V → Option W
  value_of k (some v) = some (h k v)
  value_of k none = none

  find-with_values : (k : ℕ) (m : List (ℕ × V)) → find k (with_values h m) ≡ value_of k (find k m)
  unfolding find
  find-with_values k [] = refl
  find-with_values k ((j, v) ∷ m) = elim (Bool-cases (eqb j k)) [
    | inl same ↦ rw same (rw ((eqb_iff j k).0 same) refl)
    | inr other ↦ rw other (find-with_values k m)
  ]

  pub get-with_values :
      (m : Map ℕ V) (k : ℕ)
      → get (record { entries = with_values h m.entries }) k ≡ value_of k (get m k)
  unfolding get
  get-with_values m k = find-with_values k m.entries

  pub length-with_values : (m : List (ℕ × V)) → length (with_values h m) ≡ length m
  length-with_values [] = refl
  length-with_values ((j, v) ∷ m) = ap suc (length-with_values m)

  above-with_values :
      (j : ℕ) (m : List (ℕ × V)) → All (λ e. j < e.0) m → All (λ e. j < e.0) (with_values h m)
  above-with_values j [] low = tt
  above-with_values j ((i, v) ∷ m) (low, lows) = (low, above-with_values j m lows)

  Ascending-with_values : (m : List (ℕ × V)) → Ascending m → Ascending (with_values h m)
  Ascending-with_values [] asc = tt
  Ascending-with_values ((j, v) ∷ m) (low, asc) =
      (above-with_values j m low, Ascending-with_values m asc)

  -- The replaced values of a map, written over a value
  pub overlay-with_values :
      (m : Map ℕ V) (k : ℕ) (old : Option W)
      → Ascending m.entries
      → overlay (with_values h m.entries) k old ≡ or_else (value_of k (get m k)) old
  overlay-with_values m k old asc = over (get new k) refl (get-with_values m k)
    where
      new : Map ℕ W
      new = record { entries = with_values h m.entries }

      over :
          (o : Option W)
          → get new k ≡ o
          → get new k ≡ value_of k (get m k)
          → overlay (with_values h m.entries) k old ≡ or_else (value_of k (get m k)) old
      over none e f = overlay-get-none new k old e ∙ ap (λ x. or_else x old) (sym e ∙ f)
      over (some w) e f =
          overlay-get new k w old (Ascending-with_values m.entries asc) e
          ∙ ap (λ x. or_else x old) (sym e ∙ f)
