-- ===== src/Invoice/Amount.antt =====
-- `Amount`, a u64 with its conversions and its arithmetic (invoice/src/amount.rs).
pub mod Laws
use rgb_wallet.Prelude.{
  ℕ, ◌+◌, ◌-◌, ◌*◌, ◌/◌, ◌%◌, ◌^◌, Option, none, some, List, [], ◌∷◌, ltb, eqb, if◌then◌else◌, ◌<◌,
}
use rgb_wallet.Invoice.Precision.{Precision, multiplier}

abbrev pub u64_mod : ℕ
u64_mod = 2 ^ 64

abbrev pub u64_max : ℕ
u64_max = 2 ^ 64 - 1

pub record Amount : Type 0 where
  pub value : ℕ

abbrev pub IsU64 : ℕ → Type 0
IsU64 n = n < u64_mod

abbrev pub amount : ℕ → Amount
amount n = record { value = n }

-- The operations of u64 in the standard library.
abbrev pub checked : ℕ → Option ℕ
checked n = if ltb n u64_mod then some n else none

abbrev pub saturate : ℕ → ℕ
saturate n = if ltb n u64_mod then n else u64_max

unfoldable pub rem : Amount → Precision → ℕ
rem a p = a.value % multiplier p

unfoldable pub floor : Amount → Precision → ℕ
floor a p = if eqb a.value 0 then 0 else a.value / multiplier p

unfoldable pub ceil : Amount → Precision → ℕ
unfolding rem
ceil a p =
    if eqb a.value 0
    then 0
    else let inc = if ltb 0 (rem a p) then 1 else 0 in (a.value / multiplier p + inc) % u64_mod

unfoldable pub round : Amount → Precision → ℕ
unfolding rem
round a p =
    let mul = multiplier p in
    if eqb a.value 0
    then 0
    else let inc = ((2 * rem a p) % u64_mod) / mul in (a.value / mul + inc) % u64_mod

unfoldable pub split : Amount → Precision → ℕ × ℕ
unfolding floor rem
split a p = (floor a p, rem a p)

unfoldable pub unchecked_convert : Precision → ℕ → Amount
unchecked_convert p n = amount ((n * multiplier p) % u64_mod)

unfoldable pub checked_convert : Precision → ℕ → Option Amount
checked_convert p n =
    let product = n * multiplier p in if ltb product u64_mod then some (amount product) else none

unfoldable pub saturating_convert : Precision → ℕ → Amount
saturating_convert p n = amount (saturate (n * multiplier p))

unfoldable pub saturating_add : Amount → Amount → Amount
saturating_add a b = amount (saturate (a.value + b.value))

unfoldable pub saturating_sub : Amount → Amount → Amount
saturating_sub a b = amount (a.value - b.value)

unfoldable pub checked_add : Amount → Amount → Option Amount
checked_add a b =
    let total = a.value + b.value in if ltb total u64_mod then some (amount total) else none

unfoldable pub checked_sub : Amount → Amount → Option Amount
checked_sub a b = if ltb a.value b.value then none else some (amount (a.value - b.value))

-- `iter.fold(Amount::ZERO, |sum, value| sum.saturating_add(value))`
sum_from : Amount → List Amount → Amount
unfolding saturating_add
sum_from acc [] = acc
sum_from acc (a ∷ rest) = sum_from (saturating_add acc a) rest

unfoldable pub sum : List Amount → Amount
unfolding sum_from
sum = sum_from (amount 0)
