-- ===== src/Invoice/Amount/Laws.antt =====
-- The conversions, the roundings and the sums of `Amount` (invoice/src/amount.rs).
use native.Mathlib.Nat.{div-eq_of_lt, div-eq_of_lt-le}
use rgb_wallet.Prelude.{
  ℕ, ◌+◌, ◌*◌, ◌/◌, ◌%◌, ◌≤◌, ◌<◌, min, List, [], ◌∷◌, ltb, if◌then◌else◌, ◌≡◌, inl, inr, arith,
  Bool-cases, ltb→lt,
}
use rgb_wallet.Invoice.Precision.{Precision, multiplier, multiplier_bounds}
use rgb_wallet.Invoice.Amount.{
  Amount, amount, IsU64, u64_mod, u64_max, ceil, round, split, saturating_add, sum, sum_from,
}

-- Division by a positive number, as a quotient and a remainder.
divided : (a m : ℕ) → 0 < m → (a ≡ a / m * m + a % m) × (a % m < m) × (a / m ≤ a)
divided a m h = grind arith

-- The two parts of `split` make up the amount, and the fraction is below the multiplier.
pub split_lem :
    (a : Amount) (p : Precision)
    → ((split a p).0 * multiplier p + (split a p).1 ≡ a.value) × ((split a p).1 < multiplier p)
unfolding split
split_lem a p = ground (arith, divided a.value (multiplier p) (multiplier_bounds p).0)

-- With one part left over, the quotient is not the whole range.
below : (a m : ℕ) → 0 < m → 0 < a % m → a < u64_mod → a / m + 1 < u64_mod
below a m h r fits = grind (arith, divided a m h)

-- The rounded-up quotient of `a`, by its quotient and its remainder.
up : ℕ → ℕ → ℕ
up q r = if ltb 0 r then q + 1 else q

up_bounds : (a m q r : ℕ) → a ≡ q * m + r → r < m → (a ≤ up q r * m) × (up q r * m < a + m)
unfolding up
up_bounds a m q r e h = elim (Bool-cases (ltb 0 r)) [
  | inl pos ↦ rw pos (omega arith, omega (arith, ltb→lt 0 r pos))
  | inr no_rest ↦ rw no_rest (ground arith, ground arith)
]

zero_divided : (a m : ℕ) → 0 < m → a ≡ 0 → (a / m ≡ 0) × (a % m ≡ 0)
zero_divided a m h e = grind (arith, divided a m h)

ceil-eq-up :
    (a : Amount) (p : Precision)
    → IsU64 a.value
    → ceil a p ≡ up (a.value / multiplier p) (a.value % multiplier p)
unfolding ceil up
ceil-eq-up a p fits = ground (
  arith,
  divided a.value (multiplier p) (multiplier_bounds p).0,
  zero_divided a.value (multiplier p) (multiplier_bounds p).0,
  below a.value (multiplier p) (multiplier_bounds p).0,
)

-- `ceil` of an amount of 64 bits gives the least number of whole units that is not below the
-- amount.
pub ceil_lem :
    (a : Amount) (p : Precision)
    → IsU64 a.value
    → (a.value ≤ ceil a p * multiplier p) × (ceil a p * multiplier p < a.value + multiplier p)
ceil_lem a p fits =
    let (e, small, _) = divided a.value (multiplier p) (multiplier_bounds p).0 in
    rw (ceil-eq-up a p fits) (up_bounds _ _ _ _ e small)

-- Below the unit, twice the remainder holds the unit once or not at all.
twice_divided : (r m : ℕ) → r < m → (2 * r < m → 2 * r / m ≡ 0) × (m ≤ 2 * r → 2 * r / m ≡ 1)
twice_divided r m h = (λ s. div-eq_of_lt s, λ s. div-eq_of_lt-le m (omega arith) (omega arith))

nearest : ℕ → ℕ → ℕ → ℕ
nearest q r m = if ltb (2 * r) m then q else q + 1

nearest_bounds :
    (a m q r : ℕ)
    → a ≡ q * m + r
    → r < m
    → (2 * (nearest q r m * m) ≤ 2 * a + m) × (2 * a < 2 * (nearest q r m * m) + m)
unfolding nearest
nearest_bounds a m q r e h = elim (Bool-cases (ltb (2 * r) m)) [
  | inl low ↦ rw low (omega arith, omega (arith, ltb→lt (2 * r) m low))
  | inr high ↦ rw high (ground arith, ground arith)
]

round-eq-nearest :
    (a : Amount) (p : Precision)
    → IsU64 a.value
    → round a p ≡ nearest (a.value / multiplier p) (a.value % multiplier p) (multiplier p)
unfolding round nearest
round-eq-nearest a p fits = ground (
  arith,
  multiplier_bounds p,
  divided a.value (multiplier p) (multiplier_bounds p).0,
  zero_divided a.value (multiplier p) (multiplier_bounds p).0,
  twice_divided (a.value % multiplier p) (multiplier p),
  below a.value (multiplier p) (multiplier_bounds p).0,
)

-- `round` of an amount of 64 bits gives the nearest number of whole units, and the greater of two
-- that are as near.
pub round_lem :
    (a : Amount) (p : Precision)
    → IsU64 a.value
    → (2 * (round a p * multiplier p) ≤ 2 * a.value + multiplier p)
      × (2 * a.value < 2 * (round a p * multiplier p) + multiplier p)
round_lem a p fits =
    let (e, small, _) = divided a.value (multiplier p) (multiplier_bounds p).0 in
    rw (round-eq-nearest a p fits) (nearest_bounds _ _ _ _ e small)

abbrev pub total : List Amount → ℕ
total [] = 0
total (a ∷ rest) = a.value + total rest

sum_from-eq-min :
    (acc : Amount) (l : List Amount)
    → acc.value ≤ u64_max
    → (sum_from acc l).value ≡ min (acc.value + total l) u64_max
unfolding sum_from saturating_add
sum_from-eq-min acc [] h = omega arith
sum_from-eq-min acc (a ∷ l) h = ground (arith, sum_from-eq-min (saturating_add acc a) l)

-- The sum of a list of amounts is the sum of the numbers, or the greatest number of 64 bits if
-- that is less.
pub sum-eq-min : (l : List Amount) → (sum l).value ≡ min (total l) u64_max
unfolding sum
sum-eq-min l = omega (arith, sum_from-eq-min (amount 0) l (omega arith))
