-- ===== src/Contract/Types.antt =====
-- Assignments, operation outputs and operations.
use rgb_wallet.Prelude.{ℕ, List, Bool, true, ◌&&◌, ◌||◌, ◌≡◌, ◌↔◌, ltb, eqb, arith}
use rgb_wallet.Collections.Ord.{Ord}

-- `Opout`: the assignment number `no` of type `ty` of the operation `op`
pub record Opout : Type 0 where
  pub op : ℕ
  pub ty : ℕ
  pub no : ℕ

abbrev pub opout_eq : Opout → Opout → Bool
opout_eq a b = eqb a.op b.op && (eqb a.ty b.ty && eqb a.no b.no)

abbrev pub opout_lt : Opout → Opout → Bool
opout_lt a b =
    ltb a.op b.op || (eqb a.op b.op && (ltb a.ty b.ty || (eqb a.ty b.ty && ltb a.no b.no)))

pub opout_eq_iff : (a b : Opout) → (opout_eq a b ≡ true) ↔ (a ≡ b)
opout_eq_iff a b = ground arith

instance abbrev pub opout_ord : Ord Opout
opout_ord = record { eq = opout_eq; lt = opout_lt; eq_iff = opout_eq_iff }

-- `Assign<State, Seal>`: a concealed seal and a concealed state are commitments.
pub data Assign (Seal State : Type 0) : Type 0 where
  confidential : (seal state lock : ℕ) → Assign Seal State
  confidential_seal : (seal : ℕ) (state : State) (lock : ℕ) → Assign Seal State
  confidential_state : (seal : Seal) (state lock : ℕ) → Assign Seal State
  revealed : (seal : Seal) (state : State) (lock : ℕ) → Assign Seal State

-- The exposed state types of the four kinds of assignments.
pub record States : Type 1 where
  pub Rights : Type 0
  pub Value : Type 0
  pub Structure : Type 0
  pub Attach : Type 0

pub data TypedAssigns (S : States) (Seal : Type 0) : Type 0 where
  declarative : List (Assign Seal S.Rights) → TypedAssigns S Seal
  fungible : List (Assign Seal S.Value) → TypedAssigns S Seal
  structured : List (Assign Seal S.Structure) → TypedAssigns S Seal
  attachment : List (Assign Seal S.Attach) → TypedAssigns S Seal

-- `Assignments`: the entries of a map from assignment types, in order.
abbrev pub Assignments : States → Type 0 → Type 0
Assignments S Seal = List (ℕ × TypedAssigns S Seal)

-- An operation with its identifier (`Operation::id`) and its assignments.
pub record Op (S : States) (Seal : Type 0) : Type 0 where
  pub id : ℕ
  pub assignments : Assignments S Seal

-- `TransitionBundle`: the map from inputs to operations, and the transitions that are known.
pub record Bundle (S : States) (Seal : Type 0) : Type 0 where
  pub bundle_id : ℕ
  pub input_map : List (ℕ × ℕ)
  pub known_transitions : List (ℕ × Op S Seal)
