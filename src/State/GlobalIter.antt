-- ===== src/State/GlobalIter.antt =====
-- The iterator over the global state of a contract that `global` of `MemContract` gives
-- (src/persistence/memory.rs).
pub mod Laws
use rgb_wallet.Prelude.{
  ℕ, zero, suc, ◌+◌, ◌-◌, ◌%◌, ◌^◌, ◌<◌, ◌≤◌, List, [], ◌∷◌, reverse, Option, none, some, Bool,
  if◌then◌else◌, ltb, length, take, drop, Result, ok, err, ◌≡◌, refl, ◌∙◌, ap, sym, arith,
}
use rgb_wallet.Collections.Map
use rgb_wallet.Collections.Map.{Map}
use rgb_wallet.Collections.Ord.{nat_ord}
use rgb_wallet.State.Types.{Core, GlobalState}
use rgb_wallet.State.Read.{ContractView, Items, global_places}

-- What the fields `src` and `constructor` are used for is the list of all items, `src` here. `next_depth` is the
-- addition of one to a `u24`, which may panic.
module _ {Item : Type 0} (next_depth : ℕ → Option ℕ) (src : List Item) where
  -- `Iter`
  pub record Iter : Type 0 where
    pub iter : List Item
    pub last : Option Item
    pub depth : ℕ

  abbrev pub start : Iter
  start = record { iter = src; last = none; depth = 0 }

  -- `size`; the count is converted to 32 bits and then to 24, where a failure is a panic.
  unfoldable pub size : Iter → Option (ℕ × Iter)
  size it =
      let count = length it.iter % 2 ^ 32 in
      if ltb count (2 ^ 24) then some (count, record it { iter = src }) else none

  abbrev pub head : List Item → Option Item
  head [] = none
  head (a ∷ l) = some a

  -- `prev`, which gives the new `last`
  unfoldable pub prev : Iter → Option Iter
  prev it = elim (next_depth it.depth) [
    | none ↦ none
    | some depth ↦ some (record { iter = drop 1 it.iter; last = head it.iter; depth = depth })
  ]

  -- `reset`. Where the depth is below the new one, the code skips `depth - depth` items; where it is above,
  -- `swap` gives the iterator from before.
  unfoldable pub reset : ℕ → Iter → Iter
  reset depth it =
      if ltb it.depth depth
      then record it { iter = drop (depth - depth) it.iter }
      else if ltb depth it.depth
      then record it { iter = drop depth it.iter }
      else it

  abbrev pub Walked : Type 0
  Walked = Option (List (Option Item) × Iter)

  abbrev pub note_first : Option Item → Walked → Walked
  note_first item none = none
  note_first item (some (items, last)) = some (item ∷ items, last)

  abbrev pub walk_on : Option Iter → (Iter → Walked) → Walked
  walk_on none f = none
  walk_on (some it) f = note_first it.last (f it)

  -- Calls of `prev`, with what they give
  unfoldable pub walk : ℕ → Iter → Walked
  walk zero it = some ([], it)
  walk (suc n) it = walk_on (prev it) (walk n)

module _ (C : Core) where
  -- The items of `global`, the last ones first: those with a witness that passes, up to the limit of the type
  unfoldable pub global_items : ContractView C → ℕ → Result ℕ (Items C)
  global_items v ty = elim (Map.get v.unfiltered.global ty) [
    | none ↦ err ty
    | some state ↦ ok (take state.limit (global_places C v.filter (reverse state.known.entries)))
  ]
