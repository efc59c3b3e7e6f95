-- ===== src/Invoice/CoinAmount.antt =====
-- `CoinAmount`: an amount split at its precision (invoice/src/amount.rs).
pub mod Text
pub mod Laws
use rgb_wallet.Prelude.{
  ℕ, ◌+◌, ◌*◌, ◌^◌, ◌%◌, Option, none, some, Result, ok, err, leb, ltb, if◌then◌else◌,
}
use rgb_wallet.Invoice.Precision.{Precision, decimals}
use rgb_wallet.Invoice.Amount.{Amount, amount, split, u64_mod}

pub record CoinAmount : Type 0 where
  pub int : ℕ
  pub fract : ℕ
  pub precision : Precision

-- `CoinAmount::new`
unfoldable pub new : Amount → Precision → CoinAmount
new a p = record { int = (split a p).0; fract = (split a p).1; precision = p }

pub data PrecisionError : Type 0 where
  invalid_precision : PrecisionError

-- `CoinAmount::with`
unfoldable pub with_parts : ℕ → ℕ → Precision → Result PrecisionError CoinAmount
with_parts int fract precision =
    let pow = (10 ^ decimals precision) % u64_mod in
    if leb pow fract
    then err invalid_precision
    else ok (record { int = int; fract = fract; precision = precision })

-- `none` is one of the two panics of `expect`.
unfoldable pub to_amount_unchecked : CoinAmount → Option Amount
to_amount_unchecked c =
    let pow = (10 ^ decimals c.precision) % u64_mod in
    let product = c.int * pow in
    if ltb product u64_mod
    then (if ltb (product + c.fract) u64_mod then some (amount (product + c.fract)) else none)
    else none
