-- ===== src/Prelude/Reports.antt =====
-- Checks that report every complaint in a list, against what they check.
use mathlib.Core.Path.{◌≡◌, refl}
use mathlib.Core.Logic.{◌↔◌}
use mathlib.Core.Option.{Option, none, some}
use mathlib.Core.List.{List, [], ◌∷◌, ◌++◌}
use rgb_wallet.Prelude.Lists.{All}
use rgb_wallet.Prelude.Outcome.{Result, ok, err}
use rgb_wallet.Prelude.Tests.{Option-cases}
use mathlib.Core.Logic.{inl, inr}

module _ {ℓ κ} {A : Type ℓ} {E : Type κ} where
  -- A loop that pushes at most one complaint about each element
  unfoldable pub gather : (A → Option E) → List A → List E
  gather f [] = []
  gather f (a ∷ l) = let rest = gather f l in elim (f a) [ none ↦ rest | some e ↦ e ∷ rest ]

  -- A loop that pushes any number of complaints about each element
  unfoldable pub gather_all : (A → List E) → List A → List E
  gather_all f [] = []
  gather_all f (a ∷ l) = f a ++ gather_all f l

module _ {ℓ κ ι} {E : Type ℓ} {P : Type κ} {Q : Type ι} where
  -- Two checks find nothing exactly if each finds nothing.
  pub both_empty : {xs ys : List E} → (xs ≡ [] ↔ P) → (ys ≡ [] ↔ Q) → ((xs ++ ys ≡ []) ↔ (P × Q))
  both_empty {xs = []} {ys = ys} (f, g) (h, k) = ((λ e. (f refl, h e)), λ (p, q). k q)
  both_empty {xs = x ∷ xs} {ys = ys} (f, g) (h, k) = ((λ e. cc), λ (p, q). cc (g p))

module _ {ℓ κ ι} {A : Type ℓ} {E : Type κ} {P : A → Type ι} where
  pub gather_lem :
      (f : A → Option E)
      → ((a : A) → (f a ≡ none) ↔ P a)
      → (l : List A) → (gather f l ≡ []) ↔ All P l
  unfolding gather
  gather_lem f h [] = ((λ e. tt), λ _. refl)
  gather_lem f h (a ∷ l) =
      let (to, from) = gather_lem f h l in
      elim (Option-cases (f a)) [
        | inl quiet ↦ (
          (λ e. ((h a).0 quiet, to (rw (quiet, gather) at e))),
          λ (p, ps). rw (quiet, gather) (from ps),
        )
        | inr (e, loud) ↦ ((λ k. cc (rw (loud, gather) at k)), λ (p, ps). cc ((h a).1 p, loud))
      ]

  pub gather_all_lem :
      (f : A → List E)
      → ((a : A) → (f a ≡ []) ↔ P a)
      → (l : List A) → (gather_all f l ≡ []) ↔ All P l
  unfolding gather_all
  gather_all_lem f h [] = ((λ e. tt), λ _. refl)
  gather_all_lem f h (a ∷ l) = both_empty (h a) (gather_all_lem f h l)

-- No complaint is a success.
abbrev pub report {ℓ} : {E : Type ℓ} → List E → Result (List E) (Unit {ℓ})
report [] = ok tt
report (e ∷ es) = err (e ∷ es)

pub report_lem {ℓ} : {E : Type ℓ} (es : List E) → (report es ≡ ok tt) ↔ (es ≡ [])
report_lem [] = ((λ e. refl), λ e. refl)
report_lem (e ∷ es) = ((λ k. cc), λ k. cc)
