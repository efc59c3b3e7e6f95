-- ===== src/Examples/Invoices.antt =====
-- Amounts, coins and their texts (invoice/src/amount.rs).
use Prim.Native.Nat.{ℕ, ◌<◌, ◌≤◌}
use rgb_wallet.Prelude.{
  [], ◌∷◌, ℕ, ◌+◌, ◌*◌, ◌^◌, ◌%◌, ◌≤◌, ◌<◌, min, some, ok, err, List, ◌≡◌, ◌≢◌, refl, arith,
}
use rgb_wallet.Invoice.Precision.{indivisible, milli, centi_micro, multiplier, decimals}
use rgb_wallet.Invoice.Amount.{amount, u64_max, round}
use rgb_wallet.Invoice.Amount.{sum}
use rgb_wallet.Invoice.Amount.Laws.{round_lem, total, sum-eq-min}
use rgb_wallet.Invoice.CoinAmount.{CoinAmount, new, to_amount_unchecked}
use rgb_wallet.Invoice.CoinAmount.Laws.{to_amount_unchecked-new}
use rgb_wallet.Invoice.CoinAmount.Text
use rgb_wallet.Invoice.CoinAmount.Text.{AmountParseError, invalid_int, plain, pretty}
use rgb_wallet.Invoice.CoinAmount.Text.RoundTrip.{
  IsValid, from_str-fmt_alternate, from_str-fmt-plain, from_str-fmt_whole,
}
use rgb_wallet.Invoice.Decimal.{to_string, parse_u64, invalid_digit}
use rgb_wallet.Invoice.Decimal.RoundTrip.{parse_u64-to_string}
use rgb_wallet.Invoice.AmountText
use rgb_wallet.Invoice.AmountText.{Base32}
use rgb_wallet.Invoice.AmountText.RoundTrip.{from_str-fmt}

abbrev bitcoin : CoinAmount
bitcoin = record { int = 10; fract = 500; precision = centi_micro }

fits : 500 < 10 ^ decimals centi_micro
unfolding decimals
fits = omega arith

bitcoin_divisible : centi_micro ≢ indivisible
bitcoin_divisible h = cc

bitcoin-IsValid : IsValid bitcoin
bitcoin-IsValid = record { int_fits = omega arith; fract_fits = fits }

round_example :
    (2 * (round (amount 1234567) milli * multiplier milli) ≤ 2 * 1234567 + multiplier milli)
    × (2 * 1234567 < 2 * (round (amount 1234567) milli * multiplier milli) + multiplier milli)
round_example = round_lem (amount 1234567) milli (omega arith)

coin_example : to_amount_unchecked (new (amount 1234567) milli) ≡ some (amount 1234567)
coin_example = to_amount_unchecked-new (amount 1234567) milli (omega arith)

parse_u64_example : parse_u64 (to_string 1234567) ≡ ok 1234567
parse_u64_example = parse_u64-to_string 1234567 (omega arith)

alternate_example :
    (text : List ℕ) × (Text.fmt pretty bitcoin ≡ some text) × (Text.from_str text ≡ ok bitcoin)
alternate_example =
    from_str-fmt_alternate pretty bitcoin refl refl refl bitcoin-IsValid bitcoin_divisible

plain_example :
    (text : List ℕ) × (m : ℕ) × (zeros : ℕ) × (Text.fmt plain bitcoin ≡ some text)
    × (Text.from_str text ≡ ok (record bitcoin { fract = m }))
    × (500 ≡ m * 10 ^ zeros)
    × (m % 10 ≢ 0)
plain_example = from_str-fmt-plain bitcoin bitcoin-IsValid (omega arith)

abbrev whole : CoinAmount
whole = record { int = 10; fract = 0; precision = centi_micro }

whole_example :
    (text : List ℕ) × (Text.fmt plain whole ≡ some text)
    × (Text.from_str text ≡ err (invalid_int invalid_digit))
whole_example = from_str-fmt_whole whole (omega arith) refl

-- The bytes as they are
abbrev verbatim : Base32
verbatim = record {
  DecodeError = ℕ;
  invalid_length = λ n. n;
  encode = λ bs. bs;
  decode_str = λ text. ok text;
  decode-encode = λ bs h. refl;
}

amount_text_example :
    AmountText.from_str verbatim (AmountText.fmt verbatim (amount 1234567)) ≡ ok (amount 1234567)
amount_text_example = from_str-fmt verbatim (amount 1234567) (omega arith)

sum_example :
    (sum (amount (2 ^ 63) ∷ amount (2 ^ 63) ∷ amount 1 ∷ [])).value
    ≡ min (total (amount (2 ^ 63) ∷ amount (2 ^ 63) ∷ amount 1 ∷ [])) u64_max
sum_example = sum-eq-min (amount (2 ^ 63) ∷ amount (2 ^ 63) ∷ amount 1 ∷ [])
