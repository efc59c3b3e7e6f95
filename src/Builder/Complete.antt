-- ===== src/Builder/Complete.antt =====
-- `OperationBuilder::complete` (src/interface/builder.rs): the assignments of an operation.
pub mod Parts
pub mod Kinds
pub mod Whole
use rgb_wallet.Prelude.{
  ℕ, List, [], ◌∷◌, map, Option, none, some, Bool, true, false, not, if◌then◌else◌, eqb, length,
  is_empty, keep,
}
use rgb_wallet.Collections.Map
use rgb_wallet.Collections.Map.{Map}
use rgb_wallet.Collections.Set.{Set}
use rgb_wallet.Collections.Confinement.{map_len}
use rgb_wallet.Collections.Ord.{nat_ord}
use rgb_wallet.Contract.Types.{
  Opout, Assign, confidential, confidential_seal, confidential_state, TypedAssigns, declarative,
  fungible, structured, attachment,
}
use rgb_wallet.Builder.{
  BuilderCore, RevealedValue, RevealedData, RevealedAttach, BuilderStates, PersistedState, void,
  amount, persisted_data, attached, BuilderSeal, revealed, concealed, Built, built, refused,
  panicked, ◌>>=◌, ◌>>◌, expected, StateMap, OperationBuilder,
}

-- A condition that an `expect` asks
abbrev pub panic_unless : Bool → Built (Unit {0})
panic_unless true = built tt
panic_unless false = panicked

module _ (C : BuilderCore) where
  -- The inputs of a transition, in their order, or none for a genesis
  abbrev pub Inputs : Type 0
  Inputs = List (Opout × PersistedState C)

  abbrev pub Typed : Type 0
  Typed = TypedAssigns (BuilderStates C) C.Seal

  unfoldable pub assign_at : {V : Type 0} → BuilderSeal C × V → Assign C.Seal V
  assign_at (revealed seal, state) = Assign.revealed seal state 0
  assign_at (concealed seal, state) = confidential_seal seal state 0

  -- The assignments of a type, which are not empty and fit in a vector
  unfoldable pub assigns : {V : Type 0} → List (Assign C.Seal V) → Built (List (Assign C.Seal V))
  assigns l = do panic_unless (not (is_empty l)); panic_unless (C.vec_fits (length l)); built l

  unfoldable pub all_but_last : {A : Type 0} → List A → List A
  all_but_last [] = []
  all_but_last (a ∷ []) = []
  all_but_last (a ∷ b ∷ l) = a ∷ all_but_last (b ∷ l)

  unfoldable pub input_blinding : PersistedState C → Built C.Blinding
  input_blinding (amount value blinding tag) = built blinding
  input_blinding void = panicked
  input_blinding (persisted_data value salt) = panicked
  input_blinding (attached id media_type salt) = panicked

  unfoldable pub input_blindings : List (Opout × PersistedState C) → Built (List C.Blinding)
  input_blindings [] = built []
  input_blindings ((out, state) ∷ inputs) = do
    blinding ← input_blinding state
    rest ← input_blindings inputs
    built (blinding ∷ rest)

  unfoldable pub or_empty_blinding : List C.Blinding → List C.Blinding
  or_empty_blinding [] = C.empty_blinding ∷ []
  or_empty_blinding (b ∷ l) = b ∷ l

  -- `as_revealed_state_mut`, and the write to it
  unfoldable pub set_blinding :
      C.Blinding → Assign C.Seal (RevealedValue C) → Built (Assign C.Seal (RevealedValue C))
  set_blinding b (Assign.revealed seal state lock) =
      built (Assign.revealed seal (record state { blinding = b }) lock)
  set_blinding b (confidential_seal seal state lock) =
      built (confidential_seal seal (record state { blinding = b }) lock)
  set_blinding b (confidential_state seal state lock) = panicked
  set_blinding b (confidential seal state lock) = panicked

  -- `last_mut`
  unfoldable pub update_last : {A : Type 0} → (A → Built A) → List A → Built (List A)
  update_last f [] = built []
  update_last f (a ∷ []) = do changed ← f a; built (changed ∷ [])
  update_last f (a ∷ b ∷ l) = do rest ← update_last f (b ∷ l); built (a ∷ rest)

  unfoldable pub balance :
      Inputs
      → ℕ
      → List C.Blinding
      → List (Assign C.Seal (RevealedValue C))
      → Built (List (Assign C.Seal (RevealedValue C)))
  balance inputs id blindings [] = built []
  balance inputs id blindings (a ∷ l) = do
    spent ← input_blindings (keep (λ i. eqb i.0.ty id) inputs)
    blinding ← expected (C.zero_balanced (or_empty_blinding spent) (all_but_last blindings))
    update_last (set_blinding blinding) (a ∷ l)

  unfoldable pub owned_value :
      Inputs → ℕ × Map (BuilderSeal C) (RevealedValue C) → Built (ℕ × Typed)
  owned_value inputs (id, states) = do
    l ← balance inputs id (map (λ e. e.1.blinding) states.entries) (map assign_at states.entries)
    state ← assigns l
    built (id, fungible state)

  unfoldable pub owned_data : ℕ × Map (BuilderSeal C) (RevealedData C) → Built (ℕ × Typed)
  owned_data (id, states) = do
    state ← assigns (map assign_at states.entries)
    built (id, structured state)

  unfoldable pub owned_right : ℕ × Set (BuilderSeal C) → Built (ℕ × Typed)
  owned_right (id, seals) = do
    state ← assigns (map (λ seal. assign_at (seal, tt)) seals.elements)
    built (id, declarative state)

  unfoldable pub owned_attachment : ℕ × Map (BuilderSeal C) (RevealedAttach C) → Built (ℕ × Typed)
  owned_attachment (id, states) = do
    state ← assigns (map assign_at states.entries)
    built (id, attachment state)

  unfoldable pub collect :
      {A : Type 0} → (A → Built (ℕ × Typed)) → List A → Built (List (ℕ × Typed))
  collect f [] = built []
  collect f (a ∷ l) = do entry ← f a; rest ← collect f l; built (entry ∷ rest)

  -- `extend`, whose `expect` panics where there are too many assignments
  unfoldable pub extend : Map ℕ Typed → List (ℕ × Typed) → Built (Map ℕ Typed)
  extend m [] = built m
  extend m ((id, typed) ∷ rest) = do
    panic_unless (not (C.conf.tiny_full (map_len m)))
    extend (Map.insert m id typed) rest

  -- The assignments; the other parts of the result are the fields of the builder, the metadata excepted.
  unfoldable pub complete : OperationBuilder C → Inputs → Built (Map ℕ Typed)
  complete self inputs = do
    values ← collect (owned_value inputs) self.fungible.entries
    owned ← collect owned_data self.structure.entries
    rights ← collect owned_right self.rights.entries
    attachments ← collect owned_attachment self.attachments.entries
    with_data ← extend (record { entries = values }) owned
    with_rights ← extend with_data rights
    extend with_rights attachments
