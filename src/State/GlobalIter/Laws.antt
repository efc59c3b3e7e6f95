-- ===== src/State/GlobalIter/Laws.antt =====
-- What the iterator over global state gives, and what its resets do (src/persistence/memory.rs).
use rgb_wallet.Prelude.{
  ℕ, zero, suc, ◌+◌, ◌-◌, ◌%◌, ◌^◌, ◌<◌, ◌≤◌, List, [], ◌∷◌, map, Option, none, some, if◌then◌else◌,
  ltb, length, take, drop, length-drop, ◌⊎◌, inl, inr, true, false, Bool-cases, drop-drop, ltb→lt,
  lt→ltb, ◌≡◌, refl, ◌∙◌, ap, sym, arith,
}
use rgb_wallet.State.GlobalIter.{Iter, start, size, prev, reset, walk, Walked, head}

-- The items of a list, and the last of them
module _ {Item : Type 0} where
  abbrev pub last_of : Option Item → List Item → Option Item
  last_of o [] = o
  last_of o (a ∷ l) = last_of (some a) l

module _ {Item : Type 0} (next_depth : ℕ → Option ℕ) (src : List Item) where
  abbrev state_of : Iter next_depth src → Walked next_depth src → Iter next_depth src
  state_of it none = it
  state_of it (some (_, s)) = s

module _ {Item : Type 0} (next_depth : ℕ → Option ℕ) (src : List Item)
    (counts : (n : ℕ) → n + 1 < 2 ^ 24 → next_depth n ≡ some (n + 1)) where
  prev_lem :
      (it : Iter next_depth src)
      → it.depth + 1 < 2 ^ 24
      → prev next_depth src it
        ≡ some (record {
          iter = drop 1 it.iter;
          last = head next_depth src it.iter;
          depth = it.depth + 1;
        })
  unfolding prev
  prev_lem it room = rw (counts it.depth room, prev) refl

  walk_from :
      (n : ℕ) (l : List Item) (o : Option Item) (depth : ℕ)
      → n ≤ length l
      → depth + n < 2 ^ 24
      → walk next_depth src n (record { iter = l; last = o; depth = depth })
        ≡ some (
          map some (take n l),
          record { iter = drop n l; last = last_of o (take n l); depth = depth + n },
        )
  unfolding walk
  walk_from zero l o depth fits room = rw same refl
    where
      same : depth + 0 ≡ depth
      same = omega arith
  walk_from (suc n) [] o depth fits room = elim (none_left fits) [ ]
    where
      none_left : suc n ≤ 0 → ⊥
      none_left h = omega (arith, h)
  walk_from (suc n) (a ∷ l) o depth fits room =
      rw (prev_lem (record { iter = a ∷ l; last = o; depth = depth }) (omega (arith, room)), walk)
        (rw (walk_from n l (some a) (depth + 1) (omega (arith, fits)) (omega (arith, room)))
          (rw next refl))
    where
      next : depth + 1 + n ≡ depth + suc n
      next = omega arith

  -- Where depths below 2 ^ 24 are counted up without a panic, as many calls of `prev` as there are
  -- items at most give the items in their order, each once, and leave the rest and the number of
  -- calls as the depth.
  pub walk_lem :
      (n : ℕ)
      → n ≤ length src
      → n < 2 ^ 24
      → walk next_depth src n (start next_depth src)
        ≡ some (
          map some (take n src),
          record { iter = drop n src; last = last_of none (take n src); depth = n },
        )
  walk_lem n fits room = rw same at (walk_from n src none 0 fits (omega (arith, room)))
    where
      same : 0 + n ≡ n
      same = omega arith

  -- After `n` calls of `prev`, as the iterator is then
  abbrev pub After : ℕ → Iter next_depth src → Type 0
  After n it =
      (items : List (Option Item)) × walk next_depth src n (start next_depth src) ≡ some (items, it)

  after_lem :
      (n : ℕ) (it : Iter next_depth src)
      → n ≤ length src
      → n < 2 ^ 24
      → After n it
      → record { iter = drop n src; last = last_of none (take n src); depth = n } ≡ it
  after_lem n it fits room (items, h) =
      ap (λ (p : Walked next_depth src). state_of next_depth src it p)
        (sym (walk_lem n fits room) ∙ h)

  iter_lem :
      (n : ℕ) (it : Iter next_depth src)
      → n ≤ length src
      → n < 2 ^ 24
      → After n it
      → it.iter ≡ drop n src
  iter_lem n it fits room h =
      sym (ap (λ (i : Iter next_depth src). i.iter) (after_lem n it fits room h))

  depth_lem :
      (n : ℕ) (it : Iter next_depth src) → n ≤ length src → n < 2 ^ 24 → After n it → it.depth ≡ n
  depth_lem n it fits room h =
      sym (ap (λ (i : Iter next_depth src). i.depth) (after_lem n it fits room h))

  -- Where the items are fewer than 2 ^ 24, `size` after `n` calls of `prev` does not panic, gives
  -- the number of the items that are left, not of all, and rewinds the iterator to the first item.
  pub size-walk :
      (n : ℕ) (it : Iter next_depth src)
      → n ≤ length src
      → length src < 2 ^ 24
      → After n it
      → size next_depth src it ≡ some (length src - n, record it { iter = src })
  unfolding size
  size-walk n it fits room h = rw (count, lt→ltb (length src - n) (2 ^ 24) below) refl
    where
      left : length it.iter ≡ length src - n
      left = rw (iter_lem n it fits (omega arith) h) (length-drop n src)

      count : length it.iter % 2 ^ 32 ≡ length src - n
      count = omega (arith, left)

      below : length src - n < 2 ^ 24
      below = omega arith

  -- `reset` after `n` calls of `prev` never rewinds: to a depth below `n` it skips that many more
  -- items, to any other depth it changes nothing; the depth stays `n`.
  pub reset-walk :
      (n depth : ℕ) (it : Iter next_depth src)
      → n ≤ length src
      → length src < 2 ^ 24
      → After n it
      → reset next_depth src depth it
        ≡ record it { iter = drop (if ltb depth n then n + depth else n) src }
  unfolding reset
  reset-walk n depth it fits room h =
      rw (sym (after_lem n it fits (omega arith) h))
        (by_depth (Bool-cases (ltb depth n)) (Bool-cases (ltb n depth)))
    where
      made : Iter next_depth src
      made = record { iter = drop n src; last = last_of none (take n src); depth = n }

      same : depth - depth ≡ 0
      same = omega arith

      never : depth < n → n < depth → ⊥
      never a b = omega (arith, a, b)

      by_depth :
          (ltb depth n ≡ true) ⊎ (ltb depth n ≡ false)
          → (ltb n depth ≡ true) ⊎ (ltb n depth ≡ false)
          → reset next_depth src depth made
            ≡ record made { iter = drop (if ltb depth n then n + depth else n) src }
      by_depth (inl back) (inl on) = elim (never (ltb→lt depth n back) (ltb→lt n depth on)) [ ]
      by_depth (inl back) (inr on) =
          rw (on, back) (ap (λ l. record made { iter = l }) (drop-drop n depth src))
      by_depth (inr back) (inl on) = rw (on, back, same) refl
      by_depth (inr back) (inr on) = rw (on, back) refl
