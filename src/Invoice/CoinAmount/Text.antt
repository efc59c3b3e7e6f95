-- ===== src/Invoice/CoinAmount/Text.antt =====
-- `Display` and `FromStr` of `CoinAmount` (invoice/src/amount.rs).
pub mod Chunks
pub mod Trim
pub mod RoundTrip
use rgb_wallet.Prelude.{
  ℕ, zero, suc, ◌+◌, ◌-◌, ◌≤◌, ◌<◌, Option, none, some, List, [], ◌∷◌, ◌++◌, map, reverse, Bool,
  true, false, not, ◌&&◌, ◌||◌, if◌then◌else◌, Result, ok, err, ◌>>=◌, map_err, ok_or, ltb, eqb,
  length, is_empty, ◌≡◌, refl,
}
use rgb_wallet.Invoice.Precision
use rgb_wallet.Invoice.Precision.{Precision, decimals, centi_micro}
use rgb_wallet.Invoice.Decimal.{Text, ParseIntError, invalid_digit, codes, to_string, parse_u64}
use rgb_wallet.Invoice.CoinAmount.{CoinAmount}

-- The parts of `core::fmt::Formatter` that are read.
pub record Formatter : Type 0 where
  pub fill : ℕ
  pub alternate : Bool
  pub precision : Option ℕ

abbrev pub is_fill : ℕ → Bool
is_fill c = eqb c b' ' || eqb c b'_'

-- `slice::chunks(3)`
pub chunks : Text → List Text
chunks [] = []
chunks (a ∷ []) = (a ∷ []) ∷ []
chunks (a ∷ b ∷ []) = (a ∷ b ∷ []) ∷ []
chunks (a ∷ b ∷ c ∷ s) = (a ∷ b ∷ c ∷ []) ∷ chunks s

-- `[String]::join` with a separator of one character
pub join : ℕ → List Text → Text
join fill [] = []
join fill (p ∷ []) = p
join fill (p ∷ q ∷ ps) = p ++ fill ∷ join fill (q ∷ ps)

-- The closure `to_chunks`: groups of three, counted from the right.
unfoldable pub to_chunks : ℕ → Text → Text
unfolding chunks join
to_chunks fill s = join fill (reverse (map reverse (chunks (reverse s))))

pub replicate : ℕ → ℕ → Text
replicate zero c = []
replicate (suc n) c = c ∷ replicate n c

-- `trim_end_matches('0')`
pub trim_zeros : Text → Text
trim_zeros [] = []
trim_zeros (c ∷ s) = let rest = trim_zeros s in if is_empty rest && eqb c b'0' then [] else c ∷ rest

-- The fraction with its leading zeros; `none` is the panic "float precision overflow".
unfoldable pub padded : ℕ → ℕ → Option Text
unfolding replicate
padded places fract =
    let float = to_string fract in
    if ltb places (length float)
    then none
    else some (replicate (places - length float) b'0' ++ float)

-- What stands behind the integer part.
unfoldable pub fraction : Formatter → CoinAmount → Option Text
unfolding padded trim_zeros to_chunks
fraction f c =
    if ltb 0 c.fract || f.alternate
    then elim (padded (decimals c.precision) c.fract) [
      | none ↦ none
      | some float ↦
          some (b'.' ∷ (if f.alternate then to_chunks f.fill float else trim_zeros float))
    ]
    else some []

abbrev pub integer : Formatter → CoinAmount → Text
integer f c = if f.alternate then to_chunks f.fill (to_string c.int) else to_string c.int

abbrev pub places : Formatter → CoinAmount → Text
places f c = if f.alternate then [] else b'~' ∷ to_string (decimals c.precision)

-- `Display::fmt`; `none` is a panic.
unfoldable pub fmt : Formatter → CoinAmount → Option Text
unfolding fraction
fmt f c = if not (is_fill f.fill) then none else elim f.precision [
  | some _ ↦ none
  | none ↦ elim (fraction f c) [
    | none ↦ none
    | some float ↦ some (integer f c ++ float ++ places f c)
  ]
]

pub data AmountParseError : Type 0 where
  invalid_int invalid_fract invalid_precision : ParseIntError → AmountParseError
  precision_overflow : AmountParseError
  unknown_precision : ℕ → AmountParseError

-- `s.replace([' ', '_'], "")`
pub strip : Text → Text
strip [] = []
strip (c ∷ s) = if is_fill c then strip s else c ∷ strip s

cons_first : ℕ → Option (Text × Text) → Option (Text × Text)
cons_first c none = none
cons_first c (some (a, b)) = some (c ∷ a, b)

-- `str::split_once`
pub split_once : ℕ → Text → Option (Text × Text)
unfolding cons_first
split_once sep [] = none
split_once sep (c ∷ s) =
    let rest = cons_first c (split_once sep s) in if eqb c sep then some ([], s) else rest

abbrev pub get_or {ℓ} : {A : Type ℓ} → Option A → A → A
get_or none d = d
get_or (some a) d = a

-- `u8::try_from(precision)?` and `Precision::try_from(precision)?`
pub to_precision : ℕ → Result AmountParseError Precision
to_precision n =
    if ltb n 256 then ok_or (Precision.try_from n) (unknown_precision n) else err precision_overflow

pub parse_precision : Text → Text → Result AmountParseError ℕ
parse_precision fract [] = ok (length fract)
parse_precision fract (c ∷ s) = map_err invalid_precision (parse_u64 (c ∷ s))

unfoldable pub from_str : Text → Result AmountParseError CoinAmount
unfolding strip split_once parse_precision to_precision
from_str text = do
  let s = strip text
  let (int, remain) = get_or (split_once b'.' s) (s, codes "0")
  let (fract, precision) = get_or (split_once b'~' remain) (remain, [])
  precision ← parse_precision fract precision
  int ← map_err invalid_int (parse_u64 int)
  fract ← map_err invalid_fract (parse_u64 fract)
  precision ← to_precision precision
  ok (record { int = int; fract = fract; precision = precision })

abbrev pub plain : Formatter
plain = record { fill = b' '; alternate = false; precision = none }

abbrev pub pretty : Formatter
pretty = record { fill = b' '; alternate = true; precision = none }

abbrev pub pretty_low : Formatter
pretty_low = record { fill = b'_'; alternate = true; precision = none }

-- The examples of the tests of the source.
plain-fmt :
    (fmt plain (record { int = 10_000; fract = 43608195; precision = centi_micro })
      ≡ some (codes "10000.43608195~8"))
    × (fmt pretty (record { int = 10_000; fract = 43608195; precision = centi_micro })
        ≡ some (codes "10 000.43 608 195"))
    × (fmt plain (record { int = 10; fract = 500; precision = centi_micro })
        ≡ some (codes "10.000005~8"))
    × (fmt pretty_low (record { int = 10; fract = 500; precision = centi_micro })
        ≡ some (codes "10.00_000_500"))
    × (fmt plain (record { int = 10; fract = 0; precision = centi_micro }) ≡ some (codes "10~8"))
    × (fmt pretty_low (record { int = 10; fract = 0; precision = centi_micro })
        ≡ some (codes "10.00_000_000"))
unfolding fmt to_string decimals
plain-fmt = (refl, refl, refl, refl, refl, refl)

plain_from_str :
    (from_str (codes "10.000005~8") ≡ ok (record { int = 10; fract = 5; precision = centi_micro }))
    × (from_str (codes "10~8") ≡ err (invalid_int invalid_digit))
    × (from_str (codes "10.00_000_500")
        ≡ ok (record { int = 10; fract = 500; precision = centi_micro }))
    × (from_str (codes "1.5~256") ≡ err precision_overflow)
    × (from_str (codes "1.5~19") ≡ err (unknown_precision 19))
unfolding from_str parse_u64 Precision.try_from
plain_from_str = (refl, refl, refl, refl, refl)
