-- ===== src/Contract/MergeReveal/Assigns.antt =====
-- What assignments show and commit to, before and after a merge (src/contract/merge_reveal.rs).
use rgb_wallet.Prelude.{ℕ, List, [], ◌∷◌, map, Bool, true, false, ◌||◌, ◌≡◌, refl, ap, arith, ok}
use rgb_wallet.Collections.Ord.{nat_ord}
use rgb_wallet.Contract.Types.{
  Assign, confidential, confidential_seal, confidential_state, revealed, States, TypedAssigns,
  declarative, fungible, structured, attachment, Assignments,
}
use rgb_wallet.Contract.MergeReveal.{merge, merge_vec, merge_typed}

module _ {Seal State : Type 0} where
  -- Whether an assignment shows its seal, and its state.
  abbrev pub shows_seal : Assign Seal State → Bool
  shows_seal (revealed _ _ _) = true
  shows_seal (confidential_state _ _ _) = true
  shows_seal _ = false

  abbrev pub shows_state : Assign Seal State → Bool
  shows_state (revealed _ _ _) = true
  shows_state (confidential_seal _ _ _) = true
  shows_state _ = false

  -- The merged assignment shows its seal exactly if one of the two does, and its state exactly if
  -- one of the two does.
  pub merge_shows :
      (a b : Assign Seal State)
      → (shows_seal (merge a b) ≡ (shows_seal a || shows_seal b))
        × (shows_state (merge a b) ≡ (shows_state a || shows_state b))
  unfolding merge
  merge_shows a b = ground arith

  module _ (seal_id : Seal → ℕ) (state_id : State → ℕ) where
    -- `Conceal::conceal`, by the commitments of the seal and the state.
    abbrev pub conceal : Assign Seal State → ℕ × ℕ × ℕ
    conceal (confidential s st l) = (s, st, l)
    conceal (confidential_seal s st l) = (s, state_id st, l)
    conceal (confidential_state s st l) = (seal_id s, st, l)
    conceal (revealed s st l) = (seal_id s, state_id st, l)

    -- A merge of two assignments with the same commitments has these commitments.
    pub merge-conceal :
        (a b : Assign Seal State) → conceal a ≡ conceal b → conceal (merge a b) ≡ conceal a
    unfolding merge
    merge-conceal a b h = ground arith

    pub merge_vec-conceal :
        (xs ys : List (Assign Seal State))
        → map conceal xs ≡ map conceal ys
        → map conceal (merge_vec xs ys) ≡ map conceal xs
    unfolding merge_vec
    merge_vec-conceal [] ys h = refl
    merge_vec-conceal (a ∷ xs) [] h = cc
    merge_vec-conceal (a ∷ xs) (b ∷ ys) h =
        ground (arith, merge-conceal a b, merge_vec-conceal xs ys)

-- The commitments that an operation identifier is made of: those of the seals and of the states.
pub record Commitments (S : States) (Seal : Type 0) : Type 0 where
  pub seal_id : Seal → ℕ
  pub rights_id : S.Rights → ℕ
  pub value_id : S.Value → ℕ
  pub structure_id : S.Structure → ℕ
  pub attach_id : S.Attach → ℕ

-- The kind of the assignments (its place in the enumeration) and the concealed list.
pub record Concealed : Type 0 where
  pub kind : ℕ
  pub items : List (ℕ × ℕ × ℕ)

same :
    (k : ℕ) {v w : List (ℕ × ℕ × ℕ)}
    → v ≡ w
    → ◌≡◌ {A = Concealed} (record { kind = k; items = v }) (record { kind = k; items = w })
same k h = ap (λ v. record { kind = k; items = v }) h

module _ {S : States} {Seal : Type 0} (ids : Commitments S Seal) where
  abbrev pub conceal_typed : TypedAssigns S Seal → Concealed
  conceal_typed (declarative v) = record {
    kind = 0;
    items = map (conceal ids.seal_id ids.rights_id) v;
  }
  conceal_typed (fungible v) = record { kind = 1; items = map (conceal ids.seal_id ids.value_id) v }
  conceal_typed (structured v) = record {
    kind = 2;
    items = map (conceal ids.seal_id ids.structure_id) v;
  }
  conceal_typed (attachment v) = record {
    kind = 3;
    items = map (conceal ids.seal_id ids.attach_id) v;
  }

  abbrev pub conceal_entry : ℕ × TypedAssigns S Seal → ℕ × Concealed
  conceal_entry (k, a) = (k, conceal_typed a)

  abbrev pub conceal_all : Assignments S Seal → List (ℕ × Concealed)
  conceal_all = map conceal_entry

  pub merge_typed-conceal :
      (a b : TypedAssigns S Seal)
      → conceal_typed a ≡ conceal_typed b
      → (c : TypedAssigns S Seal) × (merge_typed a b ≡ ok c) × (conceal_typed c ≡ conceal_typed a)
  unfolding merge_typed
  merge_typed-conceal (declarative v) (declarative w) h = (
    declarative (merge_vec v w),
    refl,
    same 0 (merge_vec-conceal ids.seal_id ids.rights_id v w (ap (λ (c : Concealed). c.items) h)),
  )
  merge_typed-conceal (fungible v) (fungible w) h = (
    fungible (merge_vec v w),
    refl,
    same 1 (merge_vec-conceal ids.seal_id ids.value_id v w (ap (λ (c : Concealed). c.items) h)),
  )
  merge_typed-conceal (structured v) (structured w) h = (
    structured (merge_vec v w),
    refl,
    same 2 (merge_vec-conceal ids.seal_id ids.structure_id v w (ap (λ (c : Concealed). c.items) h)),
  )
  merge_typed-conceal (attachment v) (attachment w) h = (
    attachment (merge_vec v w),
    refl,
    same 3 (merge_vec-conceal ids.seal_id ids.attach_id v w (ap (λ (c : Concealed). c.items) h)),
  )
  merge_typed-conceal _ _ h = absurd (grind (arith, ap (λ (c : Concealed). c.kind) h))
