-- ===== src/Invoice/CoinAmount/Text/Chunks.antt =====
-- Grouping digits by a fill character, and dropping that character again.
use mathlib.Core.List.{reverse-append, reverse-reverse, reverse-cons, append_assoc, append-nil}
use rgb_wallet.Prelude.{ℕ, List, [], ◌∷◌, ◌++◌, map, reverse, true, ◌≡◌, refl, ap, ◌∙◌, arith, All}
use rgb_wallet.Invoice.Decimal.{Text, IsDigit}
use rgb_wallet.Invoice.CoinAmount.Text.{is_fill, chunks, join, to_chunks, strip}

concat : List Text → Text
concat [] = []
concat (p ∷ ps) = p ++ concat ps

concat-append : (ps qs : List Text) → concat (ps ++ qs) ≡ concat ps ++ concat qs
unfolding concat
concat-append [] qs = refl
concat-append (p ∷ ps) qs = simp (concat-append ps qs, append_assoc)

concat-chunks : (s : Text) → concat (chunks s) ≡ s
unfolding concat chunks
concat-chunks [] = refl
concat-chunks (a ∷ []) = refl
concat-chunks (a ∷ b ∷ []) = refl
concat-chunks (a ∷ b ∷ c ∷ s) = ap (λ r. a ∷ b ∷ c ∷ r) (concat-chunks s)

concat-reverse : (ps : List Text) → concat (reverse (map reverse ps)) ≡ reverse (concat ps)
unfolding concat
concat-reverse [] = refl
concat-reverse (p ∷ ps) =
    simp (reverse-cons, concat-append, concat-reverse ps, reverse-append, append-nil)

pub strip-append : (s t : Text) → strip (s ++ t) ≡ strip s ++ strip t
unfolding strip
strip-append [] t = refl
strip-append (c ∷ s) t = ground (arith, strip-append s t)

strip-fill : (fill : ℕ) (s : Text) → is_fill fill ≡ true → strip (fill ∷ s) ≡ strip s
unfolding strip
strip-fill fill s h = rw h

strip-join :
    (fill : ℕ) (ps : List Text) → is_fill fill ≡ true → strip (join fill ps) ≡ strip (concat ps)
unfolding join concat
strip-join fill [] h = refl
strip-join fill (p ∷ []) h = rw append-nil
strip-join fill (p ∷ q ∷ ps) h =
    simp (strip-append, strip-fill fill (join fill (q ∷ ps)) h, strip-join fill (q ∷ ps) h)

-- Grouping loses nothing but the fill characters that it puts in.
pub strip-to_chunks :
    (fill : ℕ) (s : Text) → is_fill fill ≡ true → strip (to_chunks fill s) ≡ strip s
unfolding to_chunks
strip-to_chunks fill s h =
    strip-join fill _ h
    ∙ ap strip (
        concat-reverse (chunks (reverse s))
        ∙ ap reverse (concat-chunks (reverse s))
        ∙ reverse-reverse s)

-- Digits hold no fill character.
pub strip-digits : (s : Text) → All IsDigit s → strip s ≡ s
unfolding strip
strip-digits [] h = refl
strip-digits (c ∷ s) (hc, hs) = ground (arith, strip-digits s hs)
