-- ===== src/Index/Bundles.antt =====
-- The registration of bundles and of operations (src/persistence/memory.rs).
use rgb_wallet.Prelude.{ℕ, List, Option, none, some, Bool, true, ◌≡◌, refl, arith, ok}
use rgb_wallet.Collections.Map
use rgb_wallet.Collections.Map.{Map, get-insert, get-insert_self}
use rgb_wallet.Collections.Set
use rgb_wallet.Collections.Set.{Set, contains-insert_self}
use rgb_wallet.Collections.Ord.{nat_ord}
use rgb_wallet.Collections.Confinement.{Confinement}
use rgb_wallet.Index.Defs.{MemIndex, empty_contract}
use rgb_wallet.Index.View.{witnessed, has_contract, in_witnesses}
use rgb_wallet.Index.Write.{
  or_default, register_contract, push_witness, put_contract, register_bundle, register_operation,
}
use rgb_wallet.Index.Read.{bundle_info}

-- `bundle_info` answers with the contract `c` and with witnesses among which `w` is.
abbrev pub BundleKnown : MemIndex → ℕ → ℕ → ℕ → Type 0
BundleKnown t b w c = (ws : List ℕ) × (bundle_info t b ≡ ok (ws, c)) × (Set.has w ws ≡ true)

pub BundleKnown_lem :
    (t : MemIndex) (b w c : ℕ)
    → witnessed t b w ≡ true
    → Map.get t.bundle_contract_index b ≡ some c
    → BundleKnown t b w c
unfolding bundle_info Set.contains
BundleKnown_lem t b w c h e = go (Map.get t.bundle_witness_index b) refl h
  where
    go :
        (o : Option (Set ℕ))
        → Map.get t.bundle_witness_index b ≡ o
        → in_witnesses o w ≡ true
        → BundleKnown t b w c
    go none f k = cc
    go (some s) f k = (s.elements, rw (f, e) refl, k)

module _ (conf : Confinement) where
  pub register_contract_lem :
      (id : ℕ) (r : Bool) (s t : MemIndex)
      → register_contract conf id s ≡ (ok r, t)
      → has_contract t id ≡ true
  unfolding register_contract
  register_contract_lem id r s t h =
      ground (arith, get-insert_self s.contract_index id empty_contract)

  pub register_bundle_lem :
      (b w c : ℕ) (r : Bool) (s t : MemIndex)
      → register_bundle conf b w c s ≡ (ok r, t)
      → (witnessed t b w ≡ true) × (Map.get t.bundle_contract_index b ≡ some c)
  unfolding register_bundle push_witness put_contract
  register_bundle_lem b w c r s t h =
      let set = or_default (Map.get s.bundle_witness_index b) in
      ground (
        arith,
        get-insert_self s.bundle_witness_index b (Set.insert set w),
        contains-insert_self set w,
        get-insert_self s.bundle_contract_index b c,
      )

  pub register_operation_lem :
      (op b : ℕ) (r : Bool) (s t : MemIndex)
      → register_operation conf op b s ≡ (ok r, t)
      → Map.get t.op_bundle_index op ≡ some b
  unfolding register_operation
  register_operation_lem op b r s t h = ground (arith, get-insert_self s.op_bundle_index op b)
