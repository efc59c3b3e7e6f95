-- ===== src/Collections/Set.antt =====
-- `BTreeSet`: a list of elements in their order, with no repetition. An element that is equal to one
-- in the set leaves the set as it is.
use rgb_wallet.Prelude.{
  suc, ◌⊎◌, inr, length, is_empty, List, [], ◌∷◌, Bool, true, false, if◌then◌else◌, ◌≡◌, refl,
  arith, ◌||◌,
}
use rgb_wallet.Collections.Ord.{Ord, ◌==◌, less, ==_refl}

pub record Set {ℓ} (A : Type ℓ) : Type ℓ where
  pub elements : List A

abbrev pub empty {ℓ} : {A : Type ℓ} → Set A
empty = record { elements = [] }

abbrev pub singleton {ℓ} : {A : Type ℓ} → A → Set A
singleton a = record { elements = a ∷ [] }

module _ {ℓ} {A : Type ℓ} ⦃o : Ord A⦄ where
  unfoldable pub has : A → List A → Bool
  has a [] = false
  has a (b ∷ s) = b == a || has a s

  unfoldable pub add : A → List A → List A
  add a [] = a ∷ []
  add a (b ∷ s) =
      let later = b ∷ add a s in if b == a then b ∷ s else if less a b then a ∷ b ∷ s else later

  unfoldable pub contains : Set A → A → Bool
  unfolding has
  contains s a = has a s.elements

  unfoldable pub insert : Set A → A → Set A
  unfolding add
  insert s a = record { elements = add a s.elements }

  unfoldable pub extend : Set A → List A → Set A
  extend s [] = s
  extend s (a ∷ l) = extend (insert s a) l

  has-add : (a b : A) (s : List A) → has b (add a s) ≡ (a == b || has b s)
  unfolding has add
  has-add a b [] = refl
  has-add a b (c ∷ s) = ground (arith, o.eq_iff a b, o.eq_iff c a, o.eq_iff c b, has-add a b s)

  pub contains-insert : (s : Set A) (a b : A) → contains (insert s a) b ≡ (a == b || contains s b)
  unfolding contains insert
  contains-insert s a b = has-add a b s.elements

  add-length :
      (a : A) (s : List A) → (length (add a s) ≡ length s) ⊎ (length (add a s) ≡ suc (length s))
  unfolding add
  add-length a [] = inr refl
  add-length a (b ∷ s) = ground (arith, add-length a s)

  -- An insertion adds one element at most, and what it leaves is not empty.
  pub length-insert :
      (s : Set A) (a : A)
      → (length (insert s a).elements ≡ length s.elements)
        ⊎ (length (insert s a).elements ≡ suc (length s.elements))
  unfolding insert
  length-insert s a = add-length a s.elements

  add-some : (a : A) (s : List A) → is_empty (add a s) ≡ false
  unfolding add
  add-some a [] = refl
  add-some a (b ∷ s) = ground arith

  pub is_empty-insert : (s : Set A) (a : A) → is_empty (insert s a).elements ≡ false
  unfolding insert
  is_empty-insert s a = add-some a s.elements

  pub contains-insert_self : (s : Set A) (a : A) → contains (insert s a) a ≡ true
  contains-insert_self s a = simp (contains-insert, ==_refl)

  pub contains-singleton : (a b : A) → contains (singleton a) b ≡ (a == b || false)
  unfolding contains
  contains-singleton a b = refl

  pub contains-extend :
      (s : Set A) (l : List A) (b : A) → contains (extend s l) b ≡ (has b l || contains s b)
  unfolding extend has
  contains-extend s [] b = refl
  contains-extend s (a ∷ l) b =
      ground (arith, contains-extend (insert s a) l b, contains-insert s a b)

  pub contains-empty : (a : A) → contains empty a ≡ false
  unfolding contains
  contains-empty a = refl

  pub contains-singleton_self : (a : A) → contains (singleton a) a ≡ true
  contains-singleton_self a = simp (contains-singleton, ==_refl)
