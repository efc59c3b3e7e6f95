-- ===== src/Invoice/CoinAmount/Laws.antt =====
-- `CoinAmount` against the amount that it was made of.
use rgb_wallet.Prelude.{ℕ, ◌+◌, ◌*◌, ◌^◌, ◌%◌, ◌≡◌, none, some, ok, err, ltb, if◌then◌else◌, arith}
use rgb_wallet.Invoice.Precision.{
  Precision, decimals, multiplier, multiplier-eq-pow, multiplier_bounds,
}
use rgb_wallet.Invoice.Amount.{Amount, amount, u64_mod, IsU64}
use rgb_wallet.Invoice.Amount.Laws.{split_lem}
use rgb_wallet.Invoice.CoinAmount.{new, with_parts, to_amount_unchecked, invalid_precision}

-- `10u64.pow(decimals)` does not overflow, and is the multiplier of the precision.
pub power_lem : (p : Precision) → (10 ^ decimals p) % u64_mod ≡ multiplier p
power_lem p = rw (← multiplier-eq-pow p) (omega (arith, multiplier_bounds p))

-- An amount of 64 bits that is split at any precision is put together again, with no panic.
pub to_amount_unchecked-new :
    (a : Amount) (p : Precision) → IsU64 a.value → to_amount_unchecked (new a p) ≡ some a
unfolding to_amount_unchecked new
to_amount_unchecked-new a p fits = rw (power_lem p) (ground (arith, split_lem a p))

-- `with` accepts exactly the fractions below the multiplier of the precision;
-- `to_amount_unchecked` gives the sum of the parts, and panics exactly where the sum does not fit
-- 64 bits.
pub with_parts_lem :
    (int fract : ℕ) (p : Precision)
    → (with_parts int fract p ≡ (
        if ltb fract (multiplier p)
        then ok (record { int = int; fract = fract; precision = p })
        else err invalid_precision))
      × (to_amount_unchecked (record { int = int; fract = fract; precision = p }) ≡ (
          if ltb (int * multiplier p + fract) u64_mod
          then some (amount (int * multiplier p + fract))
          else none))
unfolding with_parts to_amount_unchecked
with_parts_lem int fract p = rw (power_lem p) (ground arith, ground arith)
