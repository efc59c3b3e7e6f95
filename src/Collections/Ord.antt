-- ===== src/Collections/Ord.antt =====
-- The order of keys: the derived `Ord` of identifiers and of records of identifiers.
use rgb_wallet.Prelude.{ℕ, Bool, true, ◌≡◌, ◌↔◌, refl, ltb, eqb, eqb_iff}

pub record Ord {ℓ} (A : Type ℓ) : Type ℓ where
  pub eq : A → A → Bool
  pub lt : A → A → Bool
  pub eq_iff : (a b : A) → (eq a b ≡ true) ↔ (a ≡ b)

infix 50 ◌==◌
abbrev pub ◌==◌ {ℓ} : {A : Type ℓ} ⦃o : Ord A⦄ → A → A → Bool
◌==◌ ⦃o⦄ = o.eq

abbrev pub less {ℓ} : {A : Type ℓ} ⦃o : Ord A⦄ → A → A → Bool
less ⦃o⦄ = o.lt

instance abbrev pub nat_ord : Ord ℕ
nat_ord = record { eq = eqb; lt = ltb; eq_iff = eqb_iff }

pub ==_refl {ℓ} : {A : Type ℓ} ⦃o : Ord A⦄ (a : A) → (a == a) ≡ true
==_refl ⦃o⦄ a = (o.eq_iff a a).1 refl
