-- ===== src/Invoice/AmountText/RoundTrip.antt =====
-- The base32 text of an amount, and its bytes (invoice/src/amount.rs).
use native.Mathlib.Nat.{pow-suc}
use rgb_wallet.Prelude.{
  ℕ, zero, suc, ◌+◌, ◌-◌, ◌*◌, ◌/◌, ◌<◌, ◌≤◌, ◌^◌, List, [], ◌∷◌, ◌++◌, ok, ◌≡◌, eqb, All, length,
  none, refl, ap, ◌∙◌, arith, Option-cases, Bool-cases, le→ltb, inl, inr,
}
use rgb_wallet.Invoice.Amount.{Amount, amount, IsU64}
use rgb_wallet.Invoice.AmountText.{
  IsByte, Base32, le_bytes, from_le_bytes, rposition, take, zeros, fmt, from_bytes, from_str,
}
use rgb_wallet.Invoice.CoinAmount.Text.{get_or}

le_bytes-All : (k n : ℕ) → All IsByte (le_bytes k n)
unfolding le_bytes
le_bytes-All zero n = tt
le_bytes-All (suc k) n = (omega arith, le_bytes-All k (n / 256))

length-le_bytes : (k n : ℕ) → length (le_bytes k n) ≡ k
unfolding le_bytes
length-le_bytes zero n = refl
length-le_bytes (suc k) n = ap (λ m. suc m) (length-le_bytes k (n / 256))

take-All : (i : ℕ) (bs : List ℕ) → All IsByte bs → All IsByte (take i bs)
unfolding take
take-All zero bs h = tt
take-All (suc i) [] h = tt
take-All (suc i) (b ∷ bs) (hb, h) = (hb, take-All i bs h)

length-take : (i : ℕ) (bs : List ℕ) → length (take i bs) ≤ length bs
unfolding take
length-take zero bs = omega arith
length-take (suc i) [] = omega arith
length-take (suc i) (b ∷ bs) = omega (arith, length-take i bs)

from_le_bytes-zeros : (n : ℕ) → from_le_bytes (zeros n) ≡ 0
unfolding from_le_bytes zeros
from_le_bytes-zeros zero = refl
from_le_bytes-zeros (suc n) = omega (arith, from_le_bytes-zeros n)

from_le_bytes-append-zeros :
    (bs : List ℕ) (n : ℕ) → from_le_bytes (bs ++ zeros n) ≡ from_le_bytes bs
unfolding from_le_bytes
from_le_bytes-append-zeros [] n = from_le_bytes-zeros n
from_le_bytes-append-zeros (b ∷ bs) n = omega (arith, from_le_bytes-append-zeros bs n)

-- Behind the last byte that is not zero nothing counts.
none-zero : (bs : List ℕ) → rposition bs ≡ none → from_le_bytes bs ≡ 0
unfolding rposition from_le_bytes
none-zero [] h = refl
none-zero (b ∷ bs) h = ground (arith, none-zero bs)

from_le_bytes-take :
    (bs : List ℕ) → from_le_bytes (take (get_or (rposition bs) 0 + 1) bs) ≡ from_le_bytes bs
unfolding rposition from_le_bytes take
from_le_bytes-take [] = refl
from_le_bytes-take (b ∷ bs) = elim (Option-cases (rposition bs)) [
  | inr (i, e) ↦
      let later : suc i + 1 ≡ suc (i + 1) = omega arith in
      rw (e, later) (ap (λ k. b + 256 * k) (rw e at (from_le_bytes-take bs)))
  | inl e ↦ elim (Bool-cases (eqb b 0)) [
    | inl z ↦ rw (e, z) (omega (arith, none-zero bs e))
    | inr p ↦ rw (e, p) (omega (arith, none-zero bs e))
  ]
]

from_le_bytes-le_bytes : (k n : ℕ) → n < 256 ^ k → from_le_bytes (le_bytes k n) ≡ n
unfolding le_bytes from_le_bytes
from_le_bytes-le_bytes zero n h = omega arith
from_le_bytes-le_bytes (suc k) n h =
    let small : n / 256 < 256 ^ k = omega (arith, pow-suc 256 k) in
    omega (arith, from_le_bytes-le_bytes k (n / 256) small)

module _ (codec : Base32) where
  from_bytes_lem :
      (bs : List ℕ) → length bs ≤ 8 → from_bytes codec bs ≡ ok (amount (from_le_bytes bs))
  unfolding from_bytes
  from_bytes_lem bs h = rw (le→ltb 8 (length bs) h, from_le_bytes-append-zeros bs (8 - length bs))

  from_str-encode :
      (bs : List ℕ)
      → All IsByte bs
      → length bs ≤ 8
      → from_str codec (codec.encode bs) ≡ ok (amount (from_le_bytes bs))
  unfolding from_str
  from_str-encode bs hb h = rw (codec.decode-encode bs hb, from_str) (from_bytes_lem bs h)

  fmt_lem :
      (a : Amount)
      → fmt codec a
        ≡ codec.encode (take (get_or (rposition (le_bytes 8 a.value)) 0 + 1) (le_bytes 8 a.value))
  unfolding fmt
  fmt_lem a = refl

  -- The text of an amount of 64 bits is read as that amount, for any base32 codec that decodes
  -- what it encoded.
  pub from_str-fmt : (a : Amount) → IsU64 a.value → from_str codec (fmt codec a) ≡ ok a
  from_str-fmt a h =
      let bytes = le_bytes 8 a.value in
      let i = get_or (rposition bytes) 0 + 1 in
      ap (from_str codec) (fmt_lem a)
      ∙ from_str-encode (take i bytes) (take-All i bytes (le_bytes-All 8 a.value))
          (omega (arith, length-take i bytes, length-le_bytes 8 a.value))
      ∙ ap (λ n. ok (amount n)) (from_le_bytes-take bytes ∙ from_le_bytes-le_bytes 8 a.value h)
