-- ===== src/Prelude/Lists.antt =====
-- Lists over the native numbers.
use Prim.Native.Nat.{ℕ, zero, suc, ◌+◌, ◌-◌, min}
use mathlib.Core.Path.{◌≡◌, refl}
use mathlib.Core.Bool.{Bool, true, false, ◌||◌}
use mathlib.Core.List.{List, [], ◌∷◌, ◌++◌, reverse, reverse-append, map, reverse_aux}
use mathlib.Core.Logic.{inl, inr}
use rgb_wallet.Prelude.Tests.{if◌then◌else◌, Bool-cases}
use native.Mathlib.Omega.{arith}

module _ {ℓ} {A : Type ℓ} where
  abbrev pub length : List A → ℕ
  length [] = 0
  length (x ∷ xs) = suc (length xs)

  -- `Vec::is_empty`
  abbrev pub is_empty : List A → Bool
  is_empty [] = true
  is_empty (x ∷ xs) = false

  pub length-append : (xs ys : List A) → length (xs ++ ys) ≡ length xs + length ys
  length-append [] ys = omega arith
  length-append (x ∷ xs) ys = omega (arith, length-append xs ys)

  pub length-reverse : (xs : List A) → length (reverse xs) ≡ length xs
  length-reverse [] = omega arith
  length-reverse (x ∷ xs) =
      grind
        (arith, reverse-append (x ∷ []) xs, length-append (reverse xs) (x ∷ []), length-reverse xs)

-- `Iterator::take` and `Iterator::skip`
module _ {ℓ} {A : Type ℓ} where
  abbrev pub take : ℕ → List A → List A
  take zero l = []
  take (suc n) [] = []
  take (suc n) (a ∷ l) = a ∷ take n l

  abbrev pub drop : ℕ → List A → List A
  drop zero l = l
  drop (suc n) [] = []
  drop (suc n) (a ∷ l) = drop n l

  pub length-take : (n : ℕ) (l : List A) → length (take n l) ≡ min n (length l)
  length-take zero l = omega arith
  length-take (suc n) [] = omega arith
  length-take (suc n) (a ∷ l) = omega (arith, length-take n l)

  pub length-drop : (n : ℕ) (l : List A) → length (drop n l) ≡ length l - n
  length-drop zero l = omega arith
  length-drop (suc n) [] = omega arith
  length-drop (suc n) (a ∷ l) = omega (arith, length-drop n l)

  drop-nil : (n : ℕ) → drop n [] ≡ []
  drop-nil zero = refl
  drop-nil (suc n) = refl

  pub drop-drop : (n k : ℕ) (l : List A) → drop k (drop n l) ≡ drop (n + k) l
  drop-drop zero k l = rw same refl
    where
      same : 0 + k ≡ k
      same = omega arith
  drop-drop (suc n) k [] = rw same (drop-nil k)
    where
      same : suc n + k ≡ suc (n + k)
      same = omega arith
  drop-drop (suc n) k (a ∷ l) = rw same (drop-drop n k l)
    where
      same : suc n + k ≡ suc (n + k)
      same = omega arith

-- `Iterator::any` and `Iterator::filter`
module _ {ℓ} {A : Type ℓ} where
  abbrev pub any_of : (A → Bool) → List A → Bool
  any_of p [] = false
  any_of p (a ∷ l) = p a || any_of p l

  abbrev pub keep : (A → Bool) → List A → List A
  keep p [] = []
  keep p (a ∷ l) = let rest = keep p l in if p a then a ∷ rest else rest

module _ {ℓ κ} {A : Type ℓ} (P : A → Type κ) where
  abbrev pub All : List A → Type κ
  All [] = Unit
  All (x ∷ xs) = P x × All xs

  pub All-append : (xs ys : List A) → All xs → All ys → All (xs ++ ys)
  All-append [] ys hx hy = hy
  All-append (x ∷ xs) ys (px, hx) hy = (px, All-append xs ys hx hy)

pub All-weaken {ℓ κ ι} :
    {A : Type ℓ} {P : A → Type κ} {Q : A → Type ι}
    → ((a : A) → P a → Q a)
    → (l : List A) → All P l
    → All Q l
All-weaken f [] h = tt
All-weaken f (a ∷ l) (h, hs) = (f a h, All-weaken f l hs)

-- An element that passes a test is found by it.
pub each_any {ℓ} :
    {A : Type ℓ} (l : List A) → All (λ a. (p : A → Bool) → p a ≡ true → any_of p l ≡ true) l
each_any [] = tt
each_any (a ∷ l) =
    ((λ p h. ground arith), All-weaken (λ b f p h. ground (arith, f p h)) l (each_any l))

-- Tests that agree on a list keep the same of it.
pub keep_cong {ℓ} :
    {A : Type ℓ} (p q : A → Bool) (l : List A) → All (λ a. p a ≡ q a) l → keep p l ≡ keep q l
keep_cong p q [] h = refl
keep_cong p q (a ∷ l) (h, hs) = rw h (rw (keep_cong p q l hs) refl)

module _ {ℓ κ} {A : Type ℓ} (P : A → Type κ) where
  pub All-keep : (p : A → Bool) (l : List A) → All P l → All P (keep p l)
  All-keep p [] h = tt
  All-keep p (a ∷ l) (h, hs) = elim (Bool-cases (p a)) [
    | inl e ↦ rw e (h, All-keep p l hs)
    | inr e ↦ rw e (All-keep p l hs)
  ]

  All-reverse_aux : (xs ys : List A) → All P xs → All P ys → All P (reverse_aux xs ys)
  All-reverse_aux [] ys hx hy = hy
  All-reverse_aux (x ∷ xs) ys (px, hx) hy = All-reverse_aux xs (x ∷ ys) hx (px, hy)

  pub All-reverse : (l : List A) → All P l → All P (reverse l)
  All-reverse l h = All-reverse_aux l [] h tt

  pub All-image : {B : Type 0} (f : B → A) (l : List B) → All (λ a. P (f a)) l → All P (map f l)
  All-image f [] h = tt
  All-image f (a ∷ l) (h, hs) = (h, All-image f l hs)
