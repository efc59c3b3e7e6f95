-- ===== src/Collections/Confinement.antt =====
-- `Confined` collections: an insertion is refused where the collection is full. When a collection of
-- a number of elements is full is a matter of the crate `amplify`, and a parameter.
use rgb_wallet.Prelude.{ℕ, Bool, length}
use rgb_wallet.Collections.Map.{Map}
use rgb_wallet.Collections.Set.{Set}

-- For each capacity class, whether a collection with that many elements takes one more.
pub record Confinement : Type 0 where
  pub tiny_full : ℕ → Bool
  pub small_full : ℕ → Bool
  pub medium_full : ℕ → Bool
  pub large_full : ℕ → Bool

abbrev pub map_len {ℓ κ} : {K : Type ℓ} {V : Type κ} → Map K V → ℕ
map_len m = length m.entries

abbrev pub set_len {ℓ} : {A : Type ℓ} → Set A → ℕ
set_len s = length s.elements
