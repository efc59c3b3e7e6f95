-- ===== src/Builder/WellFormed.antt =====
-- The states of an operation builder have the kinds of its schema, and its amounts the asset tags.
use rgb_wallet.Prelude.{
  ℕ, suc, List, length, is_empty, ◌⊎◌, Option, none, some, Bool, true, false, not, ◌≡◌, refl, All,
  arith, inl, inr,
}
use rgb_wallet.Collections.Map
use rgb_wallet.Collections.Map.{
  Map, get-insert, get-empty, insert-All, get-All, length-insert, is_empty-insert, Values-insert,
  Values-empty,
}
use rgb_wallet.Collections.Map.Ordered.{Ascending, insert-Ascending}
use rgb_wallet.Collections.Set
use rgb_wallet.Collections.Set.{Set}
use rgb_wallet.Collections.Ord.{nat_ord}
use rgb_wallet.Builder.{
  BuilderCore, OwnedStateSchema, Schema, BuilderSeal, builder_seal_ord, BuilderError, confinement,
  invalid_state_type, expected, Built, built, refused, panicked, ◌>>=◌, refuse_if, StateMap,
  OperationBuilder,
}
use rgb_wallet.Builder.Tags.{state_schema}
use rgb_wallet.Builder.Add.{put_state, put_right, check_kind}

module _ {A B : Type 0} where
  -- A step that gives a builder ran its first part, which gave one.
  pub bind-built :
      (m : Built A) (f : A → Built B) (b : B)
      → (m >>= f) ≡ built b
      → (a : A) × (m ≡ built a) × (f a ≡ built b)
  bind-built (built a) f b h = (a, refl, h)
  bind-built (refused e) f b h = cc
  bind-built panicked f b h = cc

module _ {A : Type 0} where
  -- A step behind a test that refuses was taken where the test fails.
  pub refuse_if-built :
      (b : Bool) (e : BuilderError) (n : Built A) (a : A)
      → (refuse_if b e >>= λ _. n) ≡ built a
      → (b ≡ false) × (n ≡ built a)
  refuse_if-built true e n a h = cc
  refuse_if-built false e n a h = (refl, h)

  pub built-injective : (a b : A) → (built a) ≡ built b → a ≡ b
  built-injective a b h = cc

-- What the crates keep to: a vector takes one assignment, and one more where a collection of seals is not full.
pub record Fitting (C : BuilderCore) : Type 0 where
  pub fits_one : C.vec_fits 1 ≡ true
  pub fits_more : (n : ℕ) → C.conf.small_full n ≡ false → C.vec_fits (suc n) ≡ true

abbrev pub or_empty : {K V : Type 0} → Option (Map K V) → Map K V
or_empty none = Map.empty
or_empty (some m) = m

-- A collection of seals that is not empty, and that fits in a vector
abbrev pub Fits : {A : Type 0} → BuilderCore → List A → Type 0
Fits C l = (is_empty l ≡ false) × (C.vec_fits (length l) ≡ true)

module _ (C : BuilderCore) (F : Fitting C) where
  -- One more seal in a collection that is not full
  more_lem :
      {A : Type 0} (old new : List A)
      → Fits C old
      → C.conf.small_full (length old) ≡ false
      → is_empty new ≡ false
      → (length new ≡ length old) ⊎ (length new ≡ suc (length old))
      → Fits C new
  more_lem old new fits room nonempty (inl same) = (nonempty, rw same fits.1)
  more_lem old new fits room nonempty (inr more) =
      (nonempty, rw more (F.fits_more (length old) room))

module _ (C : BuilderCore) {V : Type 0} where
  abbrev pub Kept : (Q : ℕ → Type 0) (P : ℕ → V → Type 0) → ℕ → Map (BuilderSeal C) V → Type 0
  Kept Q P ty inner =
      Q ty
      × (Fits C inner.entries
          × ((seal : BuilderSeal C) (v : V) → Map.get inner seal ≡ some v → P ty v))

  -- What holds of each type, of the seals of each type and of the states at them
  abbrev pub Holds : (Q : ℕ → Type 0) (P : ℕ → V → Type 0) → StateMap C V → Type 0
  Holds Q P m = Ascending m.entries × All (λ e. Kept Q P e.0 e.1) m.entries

  Holds-insert :
      (Q : ℕ → Type 0) (P : ℕ → V → Type 0) (m : StateMap C V) (ty : ℕ)
      (inner : Map (BuilderSeal C) V)
      → Holds Q P m
      → Kept Q P ty inner
      → Holds Q P (Map.insert m ty inner)
  Holds-insert Q P m ty inner (asc, all) kept =
      (insert-Ascending m ty inner asc, insert-All (λ e. Kept Q P e.0 e.1) m ty inner all kept)

  -- A state that is put is written at its seal, beside those that were there.
  pub put_state-built :
      (m : StateMap C V) (ty : ℕ) (seal : BuilderSeal C) (v : V)
      (o : Option (Map (BuilderSeal C) V)) (n : StateMap C V)
      → put_state C m ty seal v o ≡ built n
      → Map.insert m ty (Map.insert (or_empty o) seal v) ≡ n
  unfolding put_state
  put_state-built m ty seal v none n h =
      built-injective _ n ((refuse_if-built _ confinement _ n h).1)
  put_state-built m ty seal v (some inner) n h =
      built-injective _ n ((refuse_if-built _ confinement _ n h).1)

  put_state-Kept :
      (F : Fitting C) (Q : ℕ → Type 0) (P : ℕ → V → Type 0) (m : StateMap C V) (ty : ℕ)
      (seal : BuilderSeal C) (v : V) (o : Option (Map (BuilderSeal C) V)) (n : StateMap C V)
      → put_state C m ty seal v o ≡ built n
      → ((inner : Map (BuilderSeal C) V) → o ≡ some inner → Kept Q P ty inner)
      → Q ty
      → P ty v
      → Kept Q P ty (Map.insert (or_empty o) seal v)
  unfolding put_state Map.insert
  put_state-Kept F Q P m ty seal v none n put h q p =
      (q, ((refl, F.fits_one), Values-insert (P ty) Map.empty seal v (Values-empty (P ty)) p))
  put_state-Kept F Q P m ty seal v (some inner) n put h q p =
      let (_, (fits, there)) = h inner refl in
      (
        q,
        (
          more_lem C F inner.entries (Map.insert inner seal v).entries fits
              (refuse_if-built _ confinement _ n put).0 (is_empty-insert inner seal v)
              (length-insert inner seal v),
          Values-insert (P ty) inner seal v there p,
        ),
      )

  -- A state that is put keeps what holds of all states.
  pub put_state-Holds :
      (F : Fitting C) (Q : ℕ → Type 0) (P : ℕ → V → Type 0) (m n : StateMap C V) (ty : ℕ)
      (seal : BuilderSeal C) (v : V)
      → put_state C m ty seal v (Map.get m ty) ≡ built n
      → Holds Q P m
      → Q ty
      → P ty v
      → Holds Q P n
  put_state-Holds F Q P m n ty seal v put h q p =
      rw (put_state-built m ty seal v (Map.get m ty) n put) at (
        Holds-insert Q P m ty _ h (
          put_state-Kept F Q P m ty seal v (Map.get m ty) n put
            (λ inner e. get-All (λ e. Kept Q P e.0 e.1) m ty inner h.1 e) q p))

-- The same of the rights, which have no states
module _ (C : BuilderCore) where
  abbrev pub RightsHold : (Q : ℕ → Type 0) → Map ℕ (Set (BuilderSeal C)) → Type 0
  RightsHold Q m = Ascending m.entries × All (λ e. Q e.0 × Fits C e.1.elements) m.entries

  RightsHold-insert :
      (Q : ℕ → Type 0) (m : Map ℕ (Set (BuilderSeal C))) (ty : ℕ) (seals : Set (BuilderSeal C))
      → RightsHold Q m
      → Q ty × Fits C seals.elements
      → RightsHold Q (Map.insert m ty seals)
  RightsHold-insert Q m ty seals (asc, all) kept = (
    insert-Ascending m ty seals asc,
    insert-All (λ e. Q e.0 × Fits C e.1.elements) m ty seals all kept,
  )

  pub put_right-Holds :
      (F : Fitting C) (Q : ℕ → Type 0) (m n : Map ℕ (Set (BuilderSeal C))) (ty : ℕ)
      (seal : BuilderSeal C) (o : Option (Set (BuilderSeal C)))
      → put_right C m ty seal o ≡ built n
      → RightsHold Q m
      → Map.get m ty ≡ o
      → Q ty
      → RightsHold Q n
  unfolding put_right
  put_right-Holds F Q m n ty seal none put h there q =
      let made : Map.insert m ty (Set.singleton seal) ≡ n =
        built-injective _ n (refuse_if-built _ confinement _ n put).1 in
      rw made at (RightsHold-insert Q m ty (Set.singleton seal) h (q, (refl, F.fits_one)))
  put_right-Holds F Q m n ty seal (some seals) put h there q =
      let kept = get-All (λ e. Q e.0 × Fits C e.1.elements) m ty seals h.1 there in
      let (room, made) = refuse_if-built _ confinement _ n put in
      let fits =
        more_lem C F seals.elements (Set.insert seals seal).elements kept.1 room
          (Set.is_empty-insert seals seal) (Set.length-insert seals seal) in
      let this : Map.insert m ty (Set.insert seals seal) ≡ n = built-injective _ n made in
      rw this at (RightsHold-insert Q m ty (Set.insert seals seal) h (q, fits))

  -- The schema has the type, and its state is of a kind.
  abbrev pub HasKind : (OwnedStateSchema → Bool) → Schema → ℕ → Type 0
  HasKind kind schema ty =
      (s : OwnedStateSchema) × (Map.get schema.owned_types ty ≡ some s) × (kind s ≡ true)

  pub check_kind-HasKind :
      (self : OperationBuilder C) (kind : OwnedStateSchema → Bool) (ty : ℕ)
      → check_kind C self kind ty ≡ built tt
      → HasKind kind self.schema ty
  unfolding check_kind state_schema
  check_kind-HasKind self kind ty h = kinded (Map.get self.schema.owned_types ty) refl h
    where
      kinded :
          (o : Option OwnedStateSchema)
          → Map.get self.schema.owned_types ty ≡ o
          → (expected o >>= λ s. refuse_if (not (kind s)) (invalid_state_type ty)) ≡ built tt
          → HasKind kind self.schema ty
      kinded none e h = cc
      kinded (some s) e h = (s, e, ground (arith, h))
