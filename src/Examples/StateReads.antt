-- ===== src/Examples/StateReads.antt =====
-- What is read of a contract and its witnesses (src/persistence/memory.rs, src/persistence/state.rs).
use rgb_wallet.Prelude.{
  ℕ, ◌+◌, ◌<◌, ◌^◌, List, [], ◌∷◌, map, Option, none, some, ok, ◌≡◌, refl, if◌then◌else◌, arith,
  length, any_of, keep, ltb,
}
use rgb_wallet.Collections.Map
use rgb_wallet.Collections.Map.{Map}
use rgb_wallet.Collections.Ord.{nat_ord}
use rgb_wallet.State.Types.{
  place_of, place_ord, OutputAssignment, MemState, ContractState, transition,
}
use rgb_wallet.State.Assigned.{push}
use rgb_wallet.State.Update.{update_witnesses, at_least_one}
use rgb_wallet.State.Update.Witnesses.{update_witnesses_lem, renewed, is_open, fails, reason_of}
use rgb_wallet.State.Read.{ContractView, contract_state}
use rgb_wallet.State.Read.Filtered.{SameReads, whole, contract_state_lem}
use rgb_wallet.State.GlobalIter.{Iter, start, size, reset, walk}
use rgb_wallet.State.GlobalIter.Laws.{walk_lem, size-walk, reset-walk}
use rgb_wallet.Examples.States.{core, ords}

-- An output of an operation that is seen in witness 500, and the same output seen in witness 501
abbrev coin : OutputAssignment ℕ
coin = record {
  opout = record { op = 2; ty = 4000; no = 0 };
  seal = 60;
  state = 100;
  witness = some 500;
}

abbrev moved : OutputAssignment ℕ
moved = record coin { witness = some 501 }

abbrev contract : ContractState core
contract = record {
  schema_id = 5;
  contract_id = 90;
  global = record {
    entries =
        (
          2000,
          record {
            known = record {
              entries =
                  (record { opid = 2; nonce = 0; index = 0; op_witness = transition 501 10000 }, 8)
                  ∷ [];
            };
            limit = 1;
          },
        )
        ∷ [];
  };
  rights = Map.empty;
  fungibles = record { entries = (place_of coin, coin) ∷ [] };
  structured = Map.empty;
  attach = Map.empty;
}

abbrev state : MemState core
state = record {
  witnesses = record { entries = (499, 7) ∷ (500, 0) ∷ (501, 5) ∷ [] };
  contracts = record { entries = (90, contract) ∷ [] };
}

there : Map.get state.contracts 90 ≡ some contract
unfolding Map.get
there = refl

contract_state_example :
    (v : ContractView core) × (contract_state core state 90 ≡ ok v)
    × (v.unfiltered ≡ contract)
    × SameReads core state 90 v (whole core state 90 contract)
contract_state_example = contract_state_lem core state 90 contract there

-- The assignment of the earlier witness is what the set has still.
push_keeps_old : Map.get (push contract.fungibles moved) (place_of coin) ≡ some coin
unfolding push Map.get
push_keeps_old = refl

-- The witness 499 is settled, and there is no order for the witness 501.
update_witnesses_example :
    let (result, t) = update_witnesses core ords 8 state in
    let height = at_least_one 8 in
    (t.contracts ≡ state.contracts)
    × (t.witnesses.entries ≡ map (renewed core ords height) state.witnesses.entries)
    × (result.succeeded ≡ length (keep (is_open core ords height) state.witnesses.entries))
    × ((w : ℕ)
        → Map.get result.failed w ≡ (
            if any_of (fails core ords height w) state.witnesses.entries
            then reason_of core ords height (ords w)
            else none))
update_witnesses_example = update_witnesses_lem core ords 8 state

abbrev count_up : ℕ → Option ℕ
count_up n = if ltb (n + 1) (2 ^ 24) then some (n + 1) else none

counts : (n : ℕ) → n + 1 < 2 ^ 24 → count_up n ≡ some (n + 1)
counts n h = ground arith

abbrev items : List ℕ
items = 10 ∷ 11 ∷ 12 ∷ []

abbrev two_read : Iter count_up items
two_read = record { iter = 12 ∷ []; last = some 11; depth = 2 }

two_walked : walk count_up items 2 (start count_up items) ≡ some (some 10 ∷ some 11 ∷ [], two_read)
two_walked = walk_lem count_up items counts 2 (omega arith) (omega arith)

-- One item is left, and the size is one.
size-walk_example : size count_up items two_read ≡ some (1, record two_read { iter = items })
size-walk_example =
    size-walk count_up items counts 2 two_read (omega arith) (omega arith)
      (some 10 ∷ some 11 ∷ [], two_walked)

-- A reset to the second item leaves none.
reset-walk_example : reset count_up items 1 two_read ≡ record two_read { iter = [] }
reset-walk_example =
    reset-walk count_up items counts 2 1 two_read (omega arith) (omega arith)
      (some 10 ∷ some 11 ∷ [], two_walked)
