-- ===== src/Invoice/CoinAmount/Text/Trim.antt =====
-- Leading and trailing zeros of a fraction.
use mathlib.Core.List.{cons-ne-nil}
use native.Mathlib.Nat.{pow-suc}
use rgb_wallet.Prelude.{
  ℕ, zero, suc, ◌+◌, ◌-◌, ◌*◌, ◌%◌, ◌^◌, ◌<◌, [], ◌∷◌, ◌++◌, Bool, true, false, ◌≡◌, ◌≢◌, ◌⊎◌, refl,
  sym, ap, ◌∙◌, arith, All, Bool-cases, inl, inr, Result, ok, length, is_empty, ◌&&◌, eqb, some,
  All-append, length-append,
}
use rgb_wallet.Invoice.Amount.{IsU64, u64_mod}
use rgb_wallet.Invoice.Decimal.{Text, IsDigit, ParseIntError, scan, to_string}
use rgb_wallet.Invoice.Decimal.RoundTrip.{
  to_string-All, to_string-length, parse-scan, parse_u64-to_string, to_string-ne-nil,
}
use rgb_wallet.Invoice.CoinAmount.Text.{trim_zeros, replicate, padded}

replicate-All : (n : ℕ) → All IsDigit (replicate n b'0')
unfolding replicate
replicate-All zero = tt
replicate-All (suc n) = (omega arith, replicate-All n)

length-replicate : (n c : ℕ) → length (replicate n c) ≡ n
unfolding replicate
length-replicate zero c = refl
length-replicate (suc n) c = ap (λ k. suc k) (length-replicate n c)

scan-replicate : (n : ℕ) (s : Text) → scan 0 (replicate n b'0' ++ s) ≡ scan 0 s
unfolding scan replicate
scan-replicate zero s = refl
scan-replicate (suc n) s = ground (arith, scan-replicate n s)

-- A fraction that fits its precision is padded to exactly as many digits, which read back.
pub record IsPadded (places fract : ℕ) (float : Text) : Type 0 where
  pub printed : padded places fract ≡ some float
  pub all_digits : All IsDigit float
  pub full : length float ≡ places
  pub read : scan 0 float ≡ ok fract

pub padded_lem :
    (places fract : ℕ)
    → fract < 10 ^ suc places
    → IsU64 fract
    → (float : Text) × IsPadded (suc places) fract float
unfolding padded
padded_lem places fract h fits =
    let float = to_string fract in
    let short = to_string-length places fract h in
    (
      replicate (suc places - length float) b'0' ++ float,
      record {
        printed = ground arith;
        all_digits =
            All-append IsDigit (replicate _ b'0') float (replicate-All _) (to_string-All fract);
        full = omega (
          arith,
          length-append {0} (replicate (suc places - length float) b'0') float,
          length-replicate (suc places - length float) b'0',
          short,
        );
        read =
            scan-replicate _ float
            ∙ sym (parse-scan float (to_string-All fract) (to_string-ne-nil fract))
            ∙ parse_u64-to_string fract fits;
      },
    )

-- Trimming the zeros at the end divides the number that is read by a power of ten.
pub record IsTrimmed (n v : ℕ) (s : Text) : Type 0 where
  pub rest : ℕ
  pub zeros : ℕ
  pub read : scan n (trim_zeros s) ≡ ok rest
  pub divided : v ≡ rest * 10 ^ zeros
  pub last : trim_zeros s ≢ [] → rest % 10 ≢ 0

pub trim_zeros-All : (s : Text) → All IsDigit s → All IsDigit (trim_zeros s)
unfolding trim_zeros
trim_zeros-All [] h = tt
trim_zeros-All (c ∷ s) (hc, hs) = elim (Bool-cases (is_empty (trim_zeros s) && eqb c b'0')) [
  | inl gone ↦ rw gone tt
  | inr kept ↦ rw kept (hc, trim_zeros-All s hs)
]

scan-cons-ok :
    (n c v : ℕ) (s : Text)
    → scan n (c ∷ s) ≡ ok v
    → IsDigit c × (n * 10 + (c - b'0') < u64_mod) × (scan (n * 10 + (c - b'0')) s ≡ ok v)
unfolding scan
scan-cons-ok n c v s h = ground arith

scan-cons :
    (n c : ℕ) (s : Text)
    → IsDigit c
    → n * 10 + (c - b'0') < u64_mod
    → scan n (c ∷ s) ≡ scan (n * 10 + (c - b'0')) s
unfolding scan
scan-cons n c s hc hm = ground arith

is_empty-nil : (s : Text) → is_empty s ≡ true → s ≡ []
is_empty-nil [] h = refl
is_empty-nil (c ∷ s) h = cc

kept_ne : (b : Bool) (c : ℕ) → b ≡ true → c ≡ b'0' → (b && eqb c b'0') ≢ false
kept_ne b c hb z = ground arith

ok-injective : {a b : ℕ} → ◌≡◌ {A = Result ParseIntError ℕ} (ok a) (ok b) → a ≡ b
ok-injective h = cc

last_digit :
    (n c : ℕ) (s : Text)
    → IsDigit c
    → (trim_zeros s ≡ [] → c ≢ b'0')
    → (m : ℕ) → scan (n * 10 + (c - b'0')) (trim_zeros s) ≡ ok m
    → (trim_zeros s ≢ [] → m % 10 ≢ 0)
    → m % 10 ≢ 0
last_digit n c s hc ne m read last = go (trim_zeros s) ne read last
  where
    go :
        (t : Text)
        → (t ≡ [] → c ≢ b'0')
        → scan (n * 10 + (c - b'0')) t ≡ ok m
        → (t ≢ [] → m % 10 ≢ 0)
        → m % 10 ≢ 0
    go [] ne read last =
        let e : n * 10 + (c - b'0') ≡ m = ok-injective (unfold scan in read) in
        let d : c ≢ b'0' = ne refl in omega arith
    go (x ∷ t) ne read last = last (cons-ne-nil x t)

-- A zero with nothing but zeros behind it goes; any other character stays.
trim_cons :
    (c : ℕ) (s : Text)
    → ((trim_zeros s ≡ []) × (c ≡ b'0') × (trim_zeros (c ∷ s) ≡ []))
      ⊎ ((trim_zeros (c ∷ s) ≡ c ∷ trim_zeros s) × (trim_zeros s ≡ [] → c ≢ b'0'))
unfolding trim_zeros
trim_cons c s = elim (Bool-cases (is_empty (trim_zeros s) && eqb c b'0')) [
  | inl gone ↦ inl (is_empty-nil _ (ground arith), ground arith, rw gone refl)
  | inr kept ↦ inr (rw kept refl, λ e z. kept_ne (is_empty (trim_zeros s)) c (rw e refl) z kept)
]

pub nil_rest : (s : Text) (n m : ℕ) → trim_zeros s ≡ [] → scan n (trim_zeros s) ≡ ok m → m ≡ n
nil_rest s n m nil read = ok-injective (sym read ∙ ap (scan n) nil ∙ (unfold scan in refl))

shifted : (n v k m z : ℕ) → k ≡ n * 10 → m ≡ k → v ≡ m * 10 ^ z → v ≡ n * 10 ^ suc z
shifted n v k m z e e' d = rw (d, e', e, pow-suc 10 z) (omega arith)

trim_step :
    (n c v : ℕ) (s : Text)
    → IsDigit c
    → n * 10 + (c - b'0') < u64_mod
    → IsTrimmed (n * 10 + (c - b'0')) v s
    → IsTrimmed n v (c ∷ s)
trim_step n c v s hc hm t = elim (trim_cons c s) [
  | inl (nil, z, gone) ↦ record {
    rest = n;
    zeros = suc t.zeros;
    read = rw gone (unfold scan in refl);
    divided =
        shifted n v (n * 10 + (c - b'0')) t.rest t.zeros (omega arith) (nil_rest _ _ _ nil t.read)
          t.divided;
    last = λ h. absurd (h gone);
  }
  | inr (kept, ne) ↦ record {
    rest = t.rest;
    zeros = t.zeros;
    read = rw kept (scan-cons n c _ hc hm ∙ t.read);
    divided = t.divided;
    last = λ _. last_digit n c s hc ne t.rest t.read t.last;
  }
]

pub trim_lem : (n v : ℕ) (s : Text) → scan n s ≡ ok v → IsTrimmed n v s
trim_lem n v [] h = record {
  rest = n;
  zeros = 0;
  read = unfold scan trim_zeros in refl;
  divided = unfold scan in ground arith;
  last = λ e. absurd (e (unfold trim_zeros in refl));
}
trim_lem n v (c ∷ s) h =
    let (hc, hm, hs) = scan-cons-ok n c v s h in
    trim_step n c v s hc hm (trim_lem (n * 10 + (c - b'0')) v s hs)
