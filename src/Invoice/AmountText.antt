-- ===== src/Invoice/AmountText.antt =====
-- `Display` and `FromStr` of `Amount`: the little-endian bytes in a base32 alphabet without digits
-- (invoice/src/amount.rs). The codec is the crate `fast32`, a parameter here.
pub mod RoundTrip
use rgb_wallet.Prelude.{
  ℕ, zero, suc, ◌+◌, ◌-◌, ◌*◌, ◌/◌, ◌%◌, ◌<◌, List, [], ◌∷◌, ◌++◌, Result, ok, err, ◌≡◌, ltb, eqb,
  All, length, if◌then◌else◌, Option, none, some,
}
use rgb_wallet.Invoice.Amount.{Amount, amount}
use rgb_wallet.Invoice.Decimal.{Text}
use rgb_wallet.Invoice.CoinAmount.Text.{get_or}

abbrev pub IsByte : ℕ → Type 0
IsByte b = b < 256

-- What the code uses of `fast32`: an encoding of bytes that decodes to those bytes.
pub record Base32 : Type 1 where
  pub DecodeError : Type 0
  pub invalid_length : ℕ → DecodeError
  pub encode : List ℕ → Text
  pub decode_str : Text → Result DecodeError (List ℕ)
  pub decode-encode : (bs : List ℕ) → All IsByte bs → decode_str (encode bs) ≡ ok bs

-- `u64::to_le_bytes` at `k` = 8
pub le_bytes : ℕ → ℕ → List ℕ
le_bytes zero n = []
le_bytes (suc k) n = n % 256 ∷ le_bytes k (n / 256)

-- `u64::from_le_bytes`; a shorter list stands for the list with zeros behind it
pub from_le_bytes : List ℕ → ℕ
from_le_bytes [] = 0
from_le_bytes (b ∷ bs) = b + 256 * from_le_bytes bs

-- `bytes.iter().rposition(|b| *b != 0)`
pub rposition : List ℕ → Option ℕ
rposition [] = none
rposition (b ∷ bs) = elim (rposition bs) [
  | some i ↦ some (suc i)
  | none ↦ if eqb b 0 then none else some 0
]

pub take : ℕ → List ℕ → List ℕ
take zero bs = []
take (suc n) [] = []
take (suc n) (b ∷ bs) = b ∷ take n bs

pub zeros : ℕ → List ℕ
zeros zero = []
zeros (suc n) = 0 ∷ zeros n

module _ (codec : Base32) where
  unfoldable pub fmt : Amount → Text
  unfolding le_bytes rposition take
  fmt a =
      let bytes = le_bytes 8 a.value in
      let pos = get_or (rposition bytes) 0 + 1 in codec.encode (take pos bytes)

  from_bytes : List ℕ → Result codec.DecodeError Amount
  unfolding from_le_bytes zeros
  from_bytes bytes =
      let len = length bytes in
      if ltb 8 len
      then err (codec.invalid_length len)
      else ok (amount (from_le_bytes (bytes ++ zeros (8 - len))))

  unfoldable pub from_str : Text → Result codec.DecodeError Amount
  unfolding from_bytes
  from_str text = elim (codec.decode_str text) [ ok bytes ↦ from_bytes bytes | err e ↦ err e ]
