-- ===== src/Invoice/Decimal.antt =====
-- `u64` to text and back, as the standard library does (`to_string`, `str::parse`), for the texts
-- of invoice/src/amount.rs. A text is the list of its bytes.
pub mod RoundTrip
use Prim.Native.Char.{code}
use Prim.Native.String.{String}
use rgb_wallet.Prelude.{
  ℕ, zero, suc, ◌+◌, ◌-◌, ◌*◌, ◌/◌, ◌%◌, ◌≤◌, List, [], ◌∷◌, Result, ok, err, ltb, leb, eqb, Bool,
  ◌&&◌, if◌then◌else◌,
}
use rgb_wallet.Invoice.Amount.{u64_mod}

abbrev pub Text : Type 0
Text = List ℕ

-- The bytes of an ASCII literal.
abbrev pub codes : String → Text
codes String.[] = []
codes (String.◌∷◌ c s) = code c ∷ codes s

abbrev pub IsDigit : ℕ → Type 0
IsDigit c = (b'0' ≤ c) × (c ≤ b'9')

abbrev pub is_digit : ℕ → Bool
is_digit c = leb b'0' c && leb c b'9'

-- The digits of `n` before `out`; every round divides by ten, so `n` rounds are enough.
pub digits : ℕ → ℕ → Text → Text
digits zero n out = (b'0' + n % 10) ∷ out
digits (suc f) n out =
    let rest = digits f (n / 10) ((b'0' + n % 10) ∷ out) in
    if ltb n 10 then (b'0' + n % 10) ∷ out else rest

unfoldable pub to_string : ℕ → Text
unfolding digits
to_string n = digits n n []

-- `core::num::IntErrorKind`, as far as u64 has it
pub data ParseIntError : Type 0 where
  empty invalid_digit pos_overflow : ParseIntError

unfoldable pub scan : ℕ → Text → Result ParseIntError ℕ
scan n [] = ok n
scan n (c ∷ s) =
    let m = n * 10 + (c - b'0') in
    let rest = scan m s in
    if is_digit c then (if ltb m u64_mod then rest else err pos_overflow) else err invalid_digit

-- A sign `+` is accepted in front of the digits.
unfoldable pub parse_u64 : Text → Result ParseIntError ℕ
unfolding scan
parse_u64 [] = err empty
parse_u64 (c ∷ []) = scan 0 (c ∷ [])
parse_u64 (c ∷ d ∷ s) =
    let rest = scan 0 (d ∷ s) in
    let whole = scan 0 (c ∷ d ∷ s) in if eqb c b'+' then rest else whole
