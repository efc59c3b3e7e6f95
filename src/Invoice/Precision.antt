-- ===== src/Invoice/Precision.antt =====
-- `Precision`: the number of decimals of an asset (invoice/src/amount.rs).
use rgb_wallet.Prelude.{ℕ, zero, suc, ◌*◌, ◌^◌, ◌≤◌, ◌<◌, ◌≡◌, refl, Option, none, some, arith}

pub data Precision : Type 0 where
  indivisible deci centi milli deci_milli centi_milli micro deci_micro centi_micro nano : Precision
  deci_nano centi_nano pico deci_pico centi_pico femto deci_femto centi_femto atto : Precision

-- `self as u8`
unfoldable pub decimals : Precision → ℕ
decimals indivisible = 0
decimals deci = 1
decimals centi = 2
decimals milli = 3
decimals deci_milli = 4
decimals centi_milli = 5
decimals micro = 6
decimals deci_micro = 7
decimals centi_micro = 8
decimals nano = 9
decimals deci_nano = 10
decimals centi_nano = 11
decimals pico = 12
decimals deci_pico = 13
decimals centi_pico = 14
decimals femto = 15
decimals deci_femto = 16
decimals centi_femto = 17
decimals atto = 18

unfoldable pub multiplier : Precision → ℕ
multiplier indivisible = 1
multiplier deci = 10
multiplier centi = 100
multiplier milli = 1000
multiplier deci_milli = 10_000
multiplier centi_milli = 100_000
multiplier micro = 1_000_000
multiplier deci_micro = 10_000_000
multiplier centi_micro = 100_000_000
multiplier nano = 1_000_000_000
multiplier deci_nano = 10_000_000_000
multiplier centi_nano = 100_000_000_000
multiplier pico = 1_000_000_000_000
multiplier deci_pico = 10_000_000_000_000
multiplier centi_pico = 100_000_000_000_000
multiplier femto = 1_000_000_000_000_000
multiplier deci_femto = 10_000_000_000_000_000
multiplier centi_femto = 100_000_000_000_000_000
multiplier atto = 1_000_000_000_000_000_000

-- The derived `Precision::try_from(u8)`: the tags run from 0 to 18.
unfoldable pub try_from : ℕ → Option Precision
try_from zero = some indivisible
try_from (suc zero) = some deci
try_from (suc (suc zero)) = some centi
try_from (suc (suc (suc zero))) = some milli
try_from (suc (suc (suc (suc zero)))) = some deci_milli
try_from (suc (suc (suc (suc (suc zero))))) = some centi_milli
try_from (suc (suc (suc (suc (suc (suc zero)))))) = some micro
try_from (suc (suc (suc (suc (suc (suc (suc zero))))))) = some deci_micro
try_from (suc (suc (suc (suc (suc (suc (suc (suc zero)))))))) = some centi_micro
try_from (suc (suc (suc (suc (suc (suc (suc (suc (suc zero))))))))) = some nano
try_from (suc (suc (suc (suc (suc (suc (suc (suc (suc (suc zero)))))))))) = some deci_nano
try_from (suc (suc (suc (suc (suc (suc (suc (suc (suc (suc (suc zero))))))))))) = some centi_nano
try_from (suc (suc (suc (suc (suc (suc (suc (suc (suc (suc (suc (suc zero)))))))))))) = some pico
try_from (suc (suc (suc (suc (suc (suc (suc (suc (suc (suc (suc (suc (suc zero))))))))))))) =
    some deci_pico
try_from (suc (suc (suc (suc (suc (suc (suc (suc (suc (suc (suc (suc (suc (suc zero)))))))))))))) =
    some centi_pico
try_from
      (suc
        (suc (suc (suc (suc (suc (suc (suc (suc (suc (suc (suc (suc (suc (suc zero))))))))))))))) =
    some femto
try_from
      (suc (
        suc (
          suc
            (suc (suc (suc (suc (suc (suc (suc (suc (suc (suc (suc (suc (suc zero)))))))))))))))) =
    some deci_femto
try_from
      (suc (
        suc (
          suc (
            suc (
              suc
                (suc (suc (suc (suc (suc (suc (suc (suc (suc (suc (suc (suc zero))))))))))))))))) =
    some centi_femto
try_from
      (suc (
        suc (
          suc (
            suc (
              suc (
                suc (
                  suc
                    (suc (suc (suc (suc (suc (suc (suc (suc (suc (suc (suc zero)))))))))))))))))) =
    some atto
try_from _ = none

-- The multiplier of each precision is the power of ten of its number of decimals.
pub multiplier-eq-pow : (p : Precision) → multiplier p ≡ 10 ^ decimals p
unfolding multiplier decimals
multiplier-eq-pow indivisible = refl
multiplier-eq-pow deci = refl
multiplier-eq-pow centi = refl
multiplier-eq-pow milli = refl
multiplier-eq-pow deci_milli = refl
multiplier-eq-pow centi_milli = refl
multiplier-eq-pow micro = refl
multiplier-eq-pow deci_micro = refl
multiplier-eq-pow centi_micro = refl
multiplier-eq-pow nano = refl
multiplier-eq-pow deci_nano = refl
multiplier-eq-pow centi_nano = refl
multiplier-eq-pow pico = refl
multiplier-eq-pow deci_pico = refl
multiplier-eq-pow centi_pico = refl
multiplier-eq-pow femto = refl
multiplier-eq-pow deci_femto = refl
multiplier-eq-pow centi_femto = refl
multiplier-eq-pow atto = refl

pub try_from-decimals : (p : Precision) → try_from (decimals p) ≡ some p
unfolding try_from decimals
try_from-decimals indivisible = refl
try_from-decimals deci = refl
try_from-decimals centi = refl
try_from-decimals milli = refl
try_from-decimals deci_milli = refl
try_from-decimals centi_milli = refl
try_from-decimals micro = refl
try_from-decimals deci_micro = refl
try_from-decimals centi_micro = refl
try_from-decimals nano = refl
try_from-decimals deci_nano = refl
try_from-decimals centi_nano = refl
try_from-decimals pico = refl
try_from-decimals deci_pico = refl
try_from-decimals centi_pico = refl
try_from-decimals femto = refl
try_from-decimals deci_femto = refl
try_from-decimals centi_femto = refl
try_from-decimals atto = refl

-- A multiplier is positive and far below `u64::MAX`.
pub multiplier_bounds : (p : Precision) → (0 < multiplier p) × (multiplier p * 18 < 2 ^ 64)
unfolding multiplier
multiplier_bounds indivisible = omega arith
multiplier_bounds deci = omega arith
multiplier_bounds centi = omega arith
multiplier_bounds milli = omega arith
multiplier_bounds deci_milli = omega arith
multiplier_bounds centi_milli = omega arith
multiplier_bounds micro = omega arith
multiplier_bounds deci_micro = omega arith
multiplier_bounds centi_micro = omega arith
multiplier_bounds nano = omega arith
multiplier_bounds deci_nano = omega arith
multiplier_bounds centi_nano = omega arith
multiplier_bounds pico = omega arith
multiplier_bounds deci_pico = omega arith
multiplier_bounds centi_pico = omega arith
multiplier_bounds femto = omega arith
multiplier_bounds deci_femto = omega arith
multiplier_bounds centi_femto = omega arith
multiplier_bounds atto = omega arith

pub decimals-le : (p : Precision) → decimals p ≤ 18
unfolding decimals
decimals-le indivisible = omega arith
decimals-le deci = omega arith
decimals-le centi = omega arith
decimals-le milli = omega arith
decimals-le deci_milli = omega arith
decimals-le centi_milli = omega arith
decimals-le micro = omega arith
decimals-le deci_micro = omega arith
decimals-le centi_micro = omega arith
decimals-le nano = omega arith
decimals-le deci_nano = omega arith
decimals-le centi_nano = omega arith
decimals-le pico = omega arith
decimals-le deci_pico = omega arith
decimals-le centi_pico = omega arith
decimals-le femto = omega arith
decimals-le deci_femto = omega arith
decimals-le centi_femto = omega arith
decimals-le atto = omega arith
