-- ===== src/Invoice/Decimal/RoundTrip.antt =====
-- The digits of a printed number, as they are read (for invoice/src/amount.rs).
use native.Mathlib.Nat.{pow-suc}
use rgb_wallet.Prelude.{
  ℕ, zero, suc, ◌+◌, ◌/◌, ◌%◌, ◌^◌, ◌≤◌, ◌<◌, ◌≡◌, refl, [], ◌∷◌, length, All, ok, ltb, arith,
  Bool-cases, inl, inr,
}
use rgb_wallet.Invoice.Amount.{IsU64}
use rgb_wallet.Invoice.Decimal.{Text, IsDigit, digits, to_string, scan, parse_u64}

pub digits-All : (f n : ℕ) (out : Text) → All IsDigit out → All IsDigit (digits f n out)
unfolding digits
digits-All zero n out h = (omega arith, h)
digits-All (suc f) n out h = elim (Bool-cases (ltb n 10)) [
  | inl last ↦ rw last (omega arith, h)
  | inr more ↦ rw more (digits-All f (n / 10) _ (omega arith, h))
]

pub to_string-All : (n : ℕ) → All IsDigit (to_string n)
unfolding to_string
to_string-All n = digits-All n n [] tt

-- The length of the print is read from the powers of ten.
digits-length :
    (d f n : ℕ) (out : Text) → n < 10 ^ suc d → length (digits f n out) ≤ suc d + length out
unfolding digits
digits-length d zero n out h = omega arith
digits-length zero (suc f) n out h = ground arith
digits-length (suc d) (suc f) n out h =
    ground (arith, pow-suc 10 (suc d), digits-length d f (n / 10) ((b'0' + n % 10) ∷ out))

pub to_string-length : (d n : ℕ) → n < 10 ^ suc d → length (to_string n) ≤ suc d
unfolding to_string
to_string-length d n h = omega (arith, digits-length d n n [] h)

length-digits-lt : (f n : ℕ) (out : Text) → length out < length (digits f n out)
unfolding digits
length-digits-lt zero n out = omega arith
length-digits-lt (suc f) n out = ground (arith, length-digits-lt f (n / 10) ((b'0' + n % 10) ∷ out))

pub to_string-ne-nil : (n : ℕ) → 0 < length (to_string n)
unfolding to_string
to_string-ne-nil n = length-digits-lt n n []

-- Reading the digits of `n` and then `out` is reading `out` behind `n`.
scan-digits : (f n : ℕ) (out : Text) → n ≤ f → IsU64 n → scan 0 (digits f n out) ≡ scan n out
unfolding digits scan
scan-digits zero n out h fits = ground arith
scan-digits (suc f) n out h fits = ground (arith, scan-digits f (n / 10) ((b'0' + n % 10) ∷ out))

scan-zeros : (k : ℕ) (s : Text) → scan 0 (b'0' ∷ s) ≡ scan 0 s
unfolding scan
scan-zeros k s = ground arith

-- A text of digits that is not empty has no sign.
pub parse-scan : (s : Text) → All IsDigit s → 0 < length s → parse_u64 s ≡ scan 0 s
unfolding parse_u64
parse-scan [] h pos = elim pos [ ]
parse-scan (c ∷ []) h pos = refl
parse-scan (c ∷ d ∷ s) h pos = ground arith

-- Every u64 is read back from its print.
pub parse_u64-to_string : (n : ℕ) → IsU64 n → parse_u64 (to_string n) ≡ ok n
parse_u64-to_string n h =
    rw (parse-scan _ (to_string-All n) (to_string-ne-nil n))
      (unfold to_string scan in scan-digits n n [] (omega arith) h)
