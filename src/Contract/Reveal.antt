-- ===== src/Contract/Reveal.antt =====
-- `TypedAssignsExt::reveal_seal` (src/contract/assignments.rs): a seal that becomes known is shown where its
-- commitment stands.
use rgb_wallet.Prelude.{ℕ, List, [], ◌∷◌, map, eqb, eqb_iff, if◌then◌else◌, ◌≡◌, refl, arith}
use rgb_wallet.Contract.Types.{
  Assign, confidential, confidential_seal, confidential_state, revealed, States, TypedAssigns,
  declarative, fungible, structured, attachment,
}
use rgb_wallet.Contract.MergeReveal.Assigns.{conceal, Commitments, conceal_typed}

module _ {Seal State : Type 0} (seal_id : Seal → ℕ) where
  unfoldable pub reveal : Seal → Assign Seal State → Assign Seal State
  reveal seal (confidential_seal s st l) =
      if eqb s (seal_id seal) then revealed seal st l else confidential_seal s st l
  reveal seal (confidential s st l) =
      if eqb s (seal_id seal) then confidential_state seal st l else confidential s st l
  reveal seal (confidential_state s st l) = confidential_state s st l
  reveal seal (revealed s st l) = revealed s st l

  reveal-conceal :
      (state_id : State → ℕ) (seal : Seal) (a : Assign Seal State)
      → conceal seal_id state_id (reveal seal a) ≡ conceal seal_id state_id a
  unfolding reveal
  reveal-conceal state_id seal (confidential_seal s st l) = ground (arith, eqb_iff s (seal_id seal))
  reveal-conceal state_id seal (confidential s st l) = ground (arith, eqb_iff s (seal_id seal))
  reveal-conceal state_id seal (confidential_state s st l) = refl
  reveal-conceal state_id seal (revealed s st l) = refl

  reveals-conceal :
      (state_id : State → ℕ) (seal : Seal) (l : List (Assign Seal State))
      → map (conceal seal_id state_id) (map (reveal seal) l) ≡ map (conceal seal_id state_id) l
  reveals-conceal state_id seal [] = refl
  reveals-conceal state_id seal (a ∷ l) =
      rw (reveal-conceal state_id seal a, reveals-conceal state_id seal l) refl

module _ {S : States} {Seal : Type 0} (ids : Commitments S Seal) where
  unfoldable pub reveal_seal : Seal → TypedAssigns S Seal → TypedAssigns S Seal
  reveal_seal seal (declarative l) = declarative (map (reveal ids.seal_id seal) l)
  reveal_seal seal (fungible l) = fungible (map (reveal ids.seal_id seal) l)
  reveal_seal seal (structured l) = structured (map (reveal ids.seal_id seal) l)
  reveal_seal seal (attachment l) = attachment (map (reveal ids.seal_id seal) l)

  pub reveal_seal-conceal :
      (seal : Seal) (a : TypedAssigns S Seal)
      → conceal_typed ids (reveal_seal seal a) ≡ conceal_typed ids a
  unfolding reveal_seal
  reveal_seal-conceal seal (declarative l) =
      rw (reveals-conceal ids.seal_id ids.rights_id seal l) refl
  reveal_seal-conceal seal (fungible l) = rw (reveals-conceal ids.seal_id ids.value_id seal l) refl
  reveal_seal-conceal seal (structured l) =
      rw (reveals-conceal ids.seal_id ids.structure_id seal l) refl
  reveal_seal-conceal seal (attachment l) =
      rw (reveals-conceal ids.seal_id ids.attach_id seal l) refl
