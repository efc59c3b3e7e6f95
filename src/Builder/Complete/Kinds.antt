-- ===== src/Builder/Complete/Kinds.antt =====
-- The kinds of assignment types, which keep the maps of an operation builder (src/interface/builder.rs) apart.
use rgb_wallet.Prelude.{
  ℕ, none, some, true, false, eqb, All, Option-cases, inl, inr, ◌≡◌, refl, arith,
}
use rgb_wallet.Collections.Map
use rgb_wallet.Collections.Map.{Map, get-All}
use rgb_wallet.Collections.Ord.{nat_ord}
use rgb_wallet.Builder.{
  Schema, OwnedStateSchema, declarative, fungible, structured, attachment, unsigned64_bit,
}
use rgb_wallet.Builder.Add.{is_declarative, is_fungible, is_structured, is_attachment}

-- The kinds of a schema are different.
abbrev pub class : OwnedStateSchema → ℕ
class declarative = 0
class (fungible unsigned64_bit) = 1
class (structured _) = 2
class (attachment _) = 3

pub declarative-class : (s : OwnedStateSchema) → is_declarative s ≡ true → class s ≡ 0
declarative-class declarative h = refl
declarative-class (fungible unsigned64_bit) h = cc
declarative-class (structured _) h = cc
declarative-class (attachment _) h = cc

pub fungible-class : (s : OwnedStateSchema) → is_fungible s ≡ true → class s ≡ 1
fungible-class declarative h = cc
fungible-class (fungible unsigned64_bit) h = refl
fungible-class (structured _) h = cc
fungible-class (attachment _) h = cc

pub structured-class : (s : OwnedStateSchema) → is_structured s ≡ true → class s ≡ 2
structured-class declarative h = cc
structured-class (fungible unsigned64_bit) h = cc
structured-class (structured _) h = refl
structured-class (attachment _) h = cc

pub attachment-class : (s : OwnedStateSchema) → is_attachment s ≡ true → class s ≡ 3
attachment-class declarative h = cc
attachment-class (fungible unsigned64_bit) h = cc
attachment-class (structured _) h = cc
attachment-class (attachment _) h = refl

abbrev pub OfClass : Schema → ℕ → ℕ → Type 0
OfClass schema n ty =
    (s : OwnedStateSchema) × (Map.get schema.owned_types ty ≡ some s) × (class s ≡ n)

-- Of two maps with types of different classes, a type of the one is not in the other.
pub none-OfClass :
    {V W : Type 0} (schema : Schema) (a b : ℕ) (m : Map ℕ V) (n : Map ℕ W) (ty : ℕ) (v : V)
    → eqb a b ≡ false
    → All (λ e. OfClass schema a e.0) m.entries
    → All (λ e. OfClass schema b e.0) n.entries
    → Map.get m ty ≡ some v
    → Map.get n ty ≡ none
none-OfClass schema a b m n ty v differ hm hn here = elim (Option-cases (Map.get n ty)) [
  | inl nothing ↦ nothing
  | inr (w, there) ↦
      let (s, at_a, class_a) = get-All (λ e. OfClass schema a e.0) m ty v hm here in
      let (t, at_b, class_b) = get-All (λ e. OfClass schema b e.0) n ty w hn there in
      ground (arith, differ, at_a, at_b, class_a, class_b)
]
