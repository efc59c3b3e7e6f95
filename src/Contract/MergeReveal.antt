-- ===== src/Contract/MergeReveal.antt =====
-- `MergeReveal` (src/contract/merge_reveal.rs): two copies of the same data, each revealed in part,
-- are merged into one that reveals what either does. The assertions of debug builds are left out.
pub mod Assigns
pub mod Operations
use rgb_wallet.Prelude.{
  ℕ, List, [], ◌∷◌, ◌++◌, Option, none, some, Result, ok, err, ◌>>=◌, eqb, ltb, if◌then◌else◌,
  length,
}
use rgb_wallet.Collections.Map
use rgb_wallet.Collections.Map.{Map}
use rgb_wallet.Collections.Ord.{nat_ord}
use rgb_wallet.Contract.Types.{
  Assign, confidential, confidential_seal, confidential_state, revealed, States, TypedAssigns,
  declarative, fungible, structured, attachment, Assignments, Op, Bundle,
}

-- `unreachable` is the panic of `unreachable!`; the other errors of the source are never made.
pub data MergeRevealError : Type 0 where
  operation_mismatch : (self other : ℕ) → MergeRevealError
  insufficient_inputs : MergeRevealError
  unreachable : MergeRevealError

abbrev pub Merged : Type 0 → Type 0
Merged = Result MergeRevealError

module _ {Seal State : Type 0} where
  -- `MergeReveal for Assign`, in the order of its match; it never fails.
  unfoldable pub merge : Assign Seal State → Assign Seal State → Assign Seal State
  merge (confidential _ _ _) (revealed s st l) = revealed s st l
  merge (confidential_seal _ _ _) (revealed s st l) = revealed s st l
  merge (confidential_state _ _ _) (revealed s st l) = revealed s st l
  merge (revealed _ _ _) (revealed s st l) = revealed s st l
  merge (revealed s st l) _ = revealed s st l
  merge (confidential_seal _ state lock1) (confidential_state seal _ _) = revealed seal state lock1
  merge (confidential_state seal _ lock1) (confidential_seal _ state _) = revealed seal state lock1
  merge (confidential_state s st l) (confidential_state _ _ _) = confidential_state s st l
  merge (confidential_seal s st l) (confidential_seal _ _ _) = confidential_seal s st l
  merge (confidential_state s st l) (confidential _ _ _) = confidential_state s st l
  merge (confidential_seal s st l) (confidential _ _ _) = confidential_seal s st l
  merge (confidential s st l) (confidential _ _ _) = confidential s st l
  merge (confidential _ _ _) (confidential_state s st l) = confidential_state s st l
  merge (confidential _ _ _) (confidential_seal s st l) = confidential_seal s st l

  -- The loop over `first_vec.zip(second_vec)`
  unfoldable pub merge_vec :
      List (Assign Seal State) → List (Assign Seal State) → List (Assign Seal State)
  merge_vec (a ∷ xs) (b ∷ ys) = merge a b ∷ merge_vec xs ys
  merge_vec _ _ = []

module _ {S : States} {Seal : Type 0} where
  unfoldable pub merge_typed :
      TypedAssigns S Seal → TypedAssigns S Seal → Merged (TypedAssigns S Seal)
  merge_typed (declarative a) (declarative b) = ok (declarative (merge_vec a b))
  merge_typed (fungible a) (fungible b) = ok (fungible (merge_vec a b))
  merge_typed (structured a) (structured b) = ok (structured (merge_vec a b))
  merge_typed (attachment a) (attachment b) = ok (attachment (merge_vec a b))
  merge_typed _ _ = err unreachable

  -- The loop over the zipped entries; `result` is the map that is filled.
  unfoldable pub merge_entries :
      Assignments S Seal
      → Assignments S Seal
      → Map ℕ (TypedAssigns S Seal)
      → Merged (Map ℕ (TypedAssigns S Seal))
  merge_entries ((k, a) ∷ xs) ((_, b) ∷ ys) result = do
    c ← merge_typed a b
    merge_entries xs ys (Map.insert result k c)
  merge_entries _ _ result = ok result

  unfoldable pub merge_assignments :
      Assignments S Seal → Assignments S Seal → Merged (Assignments S Seal)
  merge_assignments a b = do result ← merge_entries a b Map.empty; ok result.entries

  -- `MergeReveal` for `Genesis`, `Transition` and `Extension`, which differ in their seals only
  unfoldable pub merge_op : Op S Seal → Op S Seal → Merged (Op S Seal)
  merge_op self other =
      if eqb self.id other.id
      then (do
        assignments ← merge_assignments self.assignments other.assignments
        ok (record self { assignments = assignments }))
      else err (operation_mismatch self.id other.id)

  -- The loop of `MergeReveal for TransitionBundle`: a transition that only `other` knows is dropped.
  unfoldable pub merge_transitions :
      List (ℕ × Op S Seal) → Map ℕ (Op S Seal) → Merged (Map ℕ (Op S Seal))
  merge_transitions [] self = ok self
  merge_transitions ((opid, other) ∷ rest) self = elim (Map.get self opid) [
    | none ↦ merge_transitions rest self
    | some transition ↦ do
      merged ← merge_op transition other
      merge_transitions rest (Map.insert (Map.remove self opid) opid merged)
  ]

  unfoldable pub merge_bundle : Bundle S Seal → Bundle S Seal → Merged (Bundle S Seal)
  merge_bundle self other = do
    known ← merge_transitions other.known_transitions (record { entries = self.known_transitions })
    if ltb (length self.input_map) (length known.entries)
        then err insufficient_inputs
        else ok (record self { known_transitions = known.entries })
