-- ===== src/Invoice/CoinAmount/Text/RoundTrip.antt =====
-- What `FromStr` of `CoinAmount` makes of the text that its `Display` writes.
use mathlib.Core.Path.{subst}
use mathlib.Core.List.{append_assoc, append-nil}
use rgb_wallet.Prelude.{
  ℕ, zero, suc, ◌+◌, ◌-◌, ◌*◌, ◌%◌, ◌^◌, ◌<◌, [], ◌∷◌, ◌++◌, true, ◌≡◌, ◌≢◌, ◌⊎◌, refl, sym, ap,
  ◌∙◌, arith, All, le→ltb, ok, err, map_err, length, none, some,
}
use rgb_wallet.Invoice.Precision.{
  Precision, multiplier_bounds, multiplier-eq-pow, decimals, decimals-le, indivisible,
  try_from-decimals,
}
use rgb_wallet.Invoice.Amount.{IsU64}
use rgb_wallet.Invoice.Decimal.{Text, IsDigit, invalid_digit, scan, parse_u64, to_string}
use rgb_wallet.Invoice.Decimal.RoundTrip.{
  to_string-All, parse-scan, parse_u64-to_string, to_string-ne-nil,
}
use rgb_wallet.Invoice.CoinAmount.{CoinAmount}
use rgb_wallet.Invoice.CoinAmount.Text.{
  Formatter, plain, is_fill, to_chunks, trim_zeros, padded, fmt, invalid_int, invalid_precision,
  strip, split_once, parse_precision, to_precision, from_str,
}
use rgb_wallet.Invoice.CoinAmount.Text.Chunks.{strip-append, strip-to_chunks, strip-digits}
use rgb_wallet.Invoice.CoinAmount.Text.Trim.{
  IsPadded, padded_lem, IsTrimmed, trim_lem, trim_zeros-All, nil_rest,
}

-- A value that the constructors with checks make, in machine range.
pub record IsValid (c : CoinAmount) : Type 0 where
  pub int_fits : IsU64 c.int
  pub fract_fits : c.fract < 10 ^ decimals c.precision

split_once-digits :
    (sep : ℕ) (s t : Text)
    → All IsDigit s
    → sep < b'0' ⊎ b'9' < sep
    → split_once sep (s ++ sep ∷ t) ≡ some (s, t)
unfolding split_once
split_once-digits sep [] t h out = ground arith
split_once-digits sep (c ∷ s) t (hc, hs) out = ground (arith, split_once-digits sep s t hs out)

split_once-none :
    (sep : ℕ) (s : Text) → All IsDigit s → sep < b'0' ⊎ b'9' < sep → split_once sep s ≡ none
unfolding split_once
split_once-none sep [] h out = refl
split_once-none sep (c ∷ s) (hc, hs) out = ground (arith, split_once-none sep s hs out)

to_precision-decimals : (p : Precision) → to_precision (decimals p) ≡ ok p
unfolding to_precision
to_precision-decimals p = rw (try_from-decimals p) (ground (arith, decimals-le p))

-- The text `int.float`, spread by fill characters, and with as many decimals as the precision.
from_str-point :
    (s int float : Text) (n m : ℕ) (p : Precision)
    → strip s ≡ int ++ b'.' ∷ float
    → All IsDigit int
    → All IsDigit float
    → parse_u64 int ≡ ok n
    → parse_u64 float ≡ ok m
    → length float ≡ decimals p
    → from_str s ≡ ok (record { int = n; fract = m; precision = p })
unfolding from_str parse_precision
from_str-point s int float n m p e hi hf pi pf len = rw (
  e,
  split_once-digits b'.' int float hi (omega arith),
  split_once-none b'~' float hf (omega arith),
  len,
  pi,
  pf,
  to_precision-decimals p,
)

parse_precision-print :
    (float s : Text)
    → 0 < length s
    → parse_precision float s ≡ map_err invalid_precision (parse_u64 s)
unfolding parse_precision
parse_precision-print float [] h = elim h [ ]
parse_precision-print float (c ∷ s) h = refl

explicit :
    (float : Text) (p : Precision)
    → parse_precision float (to_string (decimals p)) ≡ ok (decimals p)
explicit float p = rw (
  parse_precision-print float (to_string (decimals p)) (to_string-ne-nil (decimals p)),
  parse_u64-to_string (decimals p) (omega (arith, decimals-le p)),
)

-- The text `int.float~places`.
from_str-places :
    (s int float : Text) (n m : ℕ) (p : Precision)
    → strip s ≡ int ++ b'.' ∷ (float ++ b'~' ∷ to_string (decimals p))
    → All IsDigit int
    → All IsDigit float
    → parse_u64 int ≡ ok n
    → parse_u64 float ≡ ok m
    → from_str s ≡ ok (record { int = n; fract = m; precision = p })
unfolding from_str
from_str-places s int float n m p e hi hf pi pf = rw (
  e,
  split_once-digits b'.' int _ hi (omega arith),
  split_once-digits b'~' float _ hf (omega arith),
  explicit float p,
  pi,
  pf,
  to_precision-decimals p,
)

positive : (p : Precision) → p ≢ indivisible → 0 < decimals p
unfolding decimals
positive indivisible h = absurd (h refl)
positive _ h = omega arith

fract-IsU64 : (c : CoinAmount) → IsValid c → IsU64 c.fract
fract-IsU64 c v =
    omega (arith, v.fract_fits, multiplier_bounds c.precision, multiplier-eq-pow c.precision)

IsPadded-fract :
    (c : CoinAmount)
    → IsValid c
    → 0 < decimals c.precision
    → (float : Text) × IsPadded (decimals c.precision) c.fract float
IsPadded-fract c v h =
    let e : suc (decimals c.precision - 1) ≡ decimals c.precision = omega arith in
    subst (λ d. (float : Text) × IsPadded d c.fract float) e
      (padded_lem (decimals c.precision - 1) c.fract (rw e v.fract_fits) (fract-IsU64 c v))

strip_point : (s : Text) → strip (b'.' ∷ s) ≡ b'.' ∷ strip s
unfolding strip
strip_point s = refl

strip_tilde : (s : Text) → strip (b'~' ∷ s) ≡ b'~' ∷ strip s
unfolding strip
strip_tilde s = refl

parse_digits :
    (s : Text) (n : ℕ) → All IsDigit s → scan 0 s ≡ ok n → 0 < length s → parse_u64 s ≡ ok n
parse_digits s n h read pos = parse-scan s h pos ∙ read

fmt_alternate :
    (f : Formatter) (c : CoinAmount) (float : Text)
    → is_fill f.fill ≡ true
    → f.alternate ≡ true
    → f.precision ≡ none
    → padded (decimals c.precision) c.fract ≡ some float
    → fmt f c ≡ some (to_chunks f.fill (to_string c.int) ++ (b'.' ∷ to_chunks f.fill float) ++ [])
unfolding fmt
fmt_alternate f c float fill alt none_given printed = ground arith

strip_alternate :
    (fill : ℕ) (int float : Text)
    → is_fill fill ≡ true
    → All IsDigit int
    → All IsDigit float
    → strip (to_chunks fill int ++ (b'.' ∷ to_chunks fill float) ++ []) ≡ int ++ b'.' ∷ float
strip_alternate fill int float h hi hf = simp (
  append-nil,
  strip-append,
  strip-to_chunks fill int h,
  strip_point,
  strip-to_chunks fill float h,
  strip-digits int hi,
  strip-digits float hf,
)

-- The alternate form of a valid coin amount that is divisible, written with a space or an
-- underscore between groups and with no width for the fraction, is read as the same coin amount.
pub from_str-fmt_alternate :
    (f : Formatter) (c : CoinAmount)
    → is_fill f.fill ≡ true
    → f.alternate ≡ true
    → f.precision ≡ none
    → IsValid c
    → c.precision ≢ indivisible
    → (text : Text) × (fmt f c ≡ some text) × (from_str text ≡ ok c)
from_str-fmt_alternate f c fill alt none_given v h =
    let (float, good) = IsPadded-fract c v (positive c.precision h) in
    (
      to_chunks f.fill (to_string c.int) ++ (b'.' ∷ to_chunks f.fill float) ++ [],
      fmt_alternate f c float fill alt none_given good.printed,
      from_str-point _ (to_string c.int) float c.int c.fract c.precision
          (strip_alternate f.fill (to_string c.int) float fill (to_string-All c.int)
            good.all_digits)
          (to_string-All c.int) good.all_digits (parse_u64-to_string c.int v.int_fits)
          (parse_digits float c.fract good.all_digits good.read
            (rw good.full (positive c.precision h)))
          good.full,
    )

strip_places :
    (int float places : Text)
    → All IsDigit int
    → All IsDigit float
    → All IsDigit places
    → strip (int ++ (b'.' ∷ float) ++ b'~' ∷ places) ≡ int ++ b'.' ∷ (float ++ b'~' ∷ places)
strip_places int float places hi hf hp = simp (
  append_assoc,
  strip-append,
  strip_point,
  strip_tilde,
  strip-digits int hi,
  strip-digits float hf,
  strip-digits places hp,
)

fmt-plain :
    (c : CoinAmount) (float : Text)
    → 0 < c.fract
    → padded (decimals c.precision) c.fract ≡ some float
    → fmt plain c
      ≡ some
          (to_string c.int ++ (b'.' ∷ trim_zeros float) ++ b'~' ∷ to_string (decimals c.precision))
unfolding fmt
fmt-plain c float pos printed = ground arith

trimmed_pos : (v m z : ℕ) → 0 < v → v ≡ m * 10 ^ z → m ≢ 0
trimmed_pos v m z pos e nil =
    let e' : v ≡ 0 = e ∙ ap (λ k. k * 10 ^ z) nil ∙ omega arith in omega arith

trimmed_ne_nil : (v : ℕ) (float : Text) → 0 < v → IsTrimmed 0 v float → trim_zeros float ≢ []
trimmed_ne_nil v float pos cut nil =
    trimmed_pos v cut.rest cut.zeros pos cut.divided (nil_rest float 0 cut.rest nil cut.read)

length_pos : (s : Text) → s ≢ [] → 0 < length s
length_pos [] h = absurd (h refl)
length_pos (c ∷ s) h = omega arith

places_pos : (d v : ℕ) → 0 < v → v < 10 ^ d → 0 < d
places_pos zero v pos h = omega arith
places_pos (suc d) v pos h = omega arith

-- The plain form of a valid coin amount with a fraction is read as the coin amount whose fraction
-- lost its trailing zeros, at the same precision.
pub from_str-fmt-plain :
    (c : CoinAmount)
    → IsValid c
    → 0 < c.fract
    → (text : Text) × (m : ℕ) × (zeros : ℕ) × (fmt plain c ≡ some text)
      × (from_str text ≡ ok (record c { fract = m }))
      × (c.fract ≡ m * 10 ^ zeros)
      × (m % 10 ≢ 0)
from_str-fmt-plain c v pos =
    let (float, good) =
      IsPadded-fract c v (places_pos (decimals c.precision) c.fract pos v.fract_fits) in
    let cut = trim_lem 0 c.fract float good.read in
    let kept = trimmed_ne_nil c.fract float pos cut in
    (
      to_string c.int ++ (b'.' ∷ trim_zeros float) ++ b'~' ∷ to_string (decimals c.precision),
      cut.rest,
      cut.zeros,
      fmt-plain c float pos good.printed,
      from_str-places _ (to_string c.int) (trim_zeros float) c.int cut.rest c.precision
          (strip_places (to_string c.int) (trim_zeros float) (to_string (decimals c.precision))
            (to_string-All c.int) (trim_zeros-All float good.all_digits)
            (to_string-All (decimals c.precision)))
          (to_string-All c.int) (trim_zeros-All float good.all_digits)
          (parse_u64-to_string c.int v.int_fits)
          (parse_digits (trim_zeros float) cut.rest (trim_zeros-All float good.all_digits) cut.read
            (length_pos _ kept)),
      cut.divided,
      cut.last kept,
    )

fmt_whole :
    (c : CoinAmount)
    → c.fract ≡ 0
    → fmt plain c ≡ some (to_string c.int ++ b'~' ∷ to_string (decimals c.precision))
unfolding fmt
fmt_whole c e = rw (le→ltb 0 c.fract (omega arith), append-nil)

strip_whole :
    (int places : Text)
    → All IsDigit int
    → All IsDigit places
    → strip (int ++ b'~' ∷ places) ≡ int ++ b'~' ∷ places
strip_whole int places hi hp =
    simp (strip-append, strip_tilde, strip-digits int hi, strip-digits places hp)

no_point :
    (int places : Text)
    → All IsDigit int
    → All IsDigit places
    → split_once b'.' (int ++ b'~' ∷ places) ≡ none
unfolding split_once
no_point [] places hi hp = rw (split_once-none b'.' places hp (omega arith))
no_point (c ∷ int) places (hc, hi) hp = ground (arith, no_point int places hi hp)

scan_tilde :
    (n m : ℕ) (int places : Text)
    → scan n int ≡ ok m
    → scan n (int ++ b'~' ∷ places) ≡ err invalid_digit
unfolding scan
scan_tilde n m [] places h = refl
scan_tilde n m (c ∷ int) places h = ground (arith, scan_tilde (n * 10 + (c - b'0')) m int places)

parse_tilde :
    (int places : Text) (n : ℕ)
    → All IsDigit int
    → 0 < length int
    → scan 0 int ≡ ok n
    → parse_u64 (int ++ b'~' ∷ places) ≡ err invalid_digit
unfolding parse_u64
parse_tilde [] places n hi pos h = elim pos [ ]
parse_tilde (c ∷ []) places n hi pos h = ground (arith, scan_tilde 0 n (c ∷ []) places h)
parse_tilde (c ∷ d ∷ int) places n hi pos h = ground (arith, scan_tilde 0 n (c ∷ d ∷ int) places h)

from_str_no_point :
    (s int places : Text) (n : ℕ)
    → strip s ≡ int ++ b'~' ∷ places
    → All IsDigit int
    → All IsDigit places
    → 0 < length int
    → scan 0 int ≡ ok n
    → from_str s ≡ err (invalid_int invalid_digit)
unfolding from_str
from_str_no_point s int places n e hi hp pos h =
    rw (e, no_point int places hi hp, parse_tilde int places n hi pos h)

-- The plain form of a coin amount of 64 bits with no fraction is written, and is refused by the
-- parser as an invalid integer.
pub from_str-fmt_whole :
    (c : CoinAmount)
    → IsU64 c.int
    → c.fract ≡ 0
    → (text : Text) × (fmt plain c ≡ some text) × (from_str text ≡ err (invalid_int invalid_digit))
from_str-fmt_whole c h e = (
  to_string c.int ++ b'~' ∷ to_string (decimals c.precision),
  fmt_whole c e,
  from_str_no_point _ (to_string c.int) (to_string (decimals c.precision)) c.int
      (strip_whole (to_string c.int) (to_string (decimals c.precision)) (to_string-All c.int)
        (to_string-All (decimals c.precision)))
      (to_string-All c.int) (to_string-All (decimals c.precision)) (to_string-ne-nil c.int)
      (sym (parse-scan (to_string c.int) (to_string-All c.int) (to_string-ne-nil c.int))
        ∙ parse_u64-to_string c.int h),
)
