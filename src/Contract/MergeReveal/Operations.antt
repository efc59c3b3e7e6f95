-- ===== src/Contract/MergeReveal/Operations.antt =====
-- Merges of operations and of bundles, by their commitments (src/contract/merge_reveal.rs).
use mathlib.Core.List.{append_assoc, append-nil, map-append}
use rgb_wallet.Prelude.{
  ℕ, List, [], ◌∷◌, ◌++◌, ◌≡◌, refl, sym, ◌∙◌, ap, arith, ok, err, ◌>>=◌, All, All-append, ◌<◌, ltb,
  if◌then◌else◌, length, ◌≤◌, eqb_iff, Option, some, Option-cases, inl, inr,
}
use mathlib.Core.Option
use rgb_wallet.Collections.Map
use rgb_wallet.Collections.Map.{Map, get-insert, get-remove}
use rgb_wallet.Collections.Map.Ordered.{Ascending, entries-insert_last}
use rgb_wallet.Collections.Ord.{nat_ord}
use rgb_wallet.Contract.Types.{States, TypedAssigns, Assignments, Op, Bundle}
use rgb_wallet.Contract.MergeReveal.{
  Merged, insufficient_inputs, merge_entries, merge_assignments, merge_op, merge_transitions,
  merge_bundle,
}
use rgb_wallet.Contract.MergeReveal.Assigns.{
  Commitments, conceal_typed, conceal_all, merge_typed-conceal,
}

abbrev Above {ℓ κ} : {V : Type ℓ} {W : Type κ} → List (ℕ × V) → ℕ × W → Type 0
Above m x = All (λ e. e.0 < x.0) m

-- What stands above a map and above a new last key stands above the map with that key.
Above-append {ℓ κ} :
    {V : Type ℓ} {W : Type κ} (m : List (ℕ × V)) (k : ℕ) (v : V) (xs : List (ℕ × W))
    → All (Above m) xs
    → All (λ e. k < e.0) xs
    → All (Above (m ++ (k, v) ∷ [])) xs
Above-append m k v [] h low = tt
Above-append m k v (x ∷ xs) (h, hs) (l, ls) =
    (All-append (λ e. e.0 < x.0) m ((k, v) ∷ []) h (l, tt), Above-append m k v xs hs ls)

abbrev nil_of {ℓ} : (V : Type ℓ) → List (ℕ × V)
nil_of V = []

nothing-Above {ℓ} : {V : Type ℓ} (xs : List (ℕ × V)) → All (Above (nil_of V)) xs
nothing-Above [] = tt
nothing-Above (x ∷ xs) = (tt, nothing-Above xs)

module _ {S : States} {Seal : Type 0} (ids : Commitments S Seal) where
  merge_entries-conceal :
      (xs ys : Assignments S Seal) (result : Map ℕ (TypedAssigns S Seal))
      → Ascending xs
      → All (Above result.entries) xs
      → conceal_all ids xs ≡ conceal_all ids ys
      → (r : Map ℕ (TypedAssigns S Seal)) × (merge_entries xs ys result ≡ ok r)
        × (conceal_all ids r.entries ≡ conceal_all ids result.entries ++ conceal_all ids xs)
  unfolding merge_entries
  merge_entries-conceal [] ys result asc above h = (result, refl, sym (append-nil _))
  merge_entries-conceal (x ∷ xs) [] result asc above h = cc
  merge_entries-conceal ((k, a) ∷ xs) ((j, b) ∷ ys) result (low, asc) (here, above) h =
      let same : conceal_typed ids a ≡ conceal_typed ids b = cc in
      let rest : conceal_all ids xs ≡ conceal_all ids ys = cc in
      let (c, done, kept) = merge_typed-conceal ids a b same in
      let last = entries-insert_last result k c here in
      let (r, more, all) =
        merge_entries-conceal xs ys (Map.insert result k c) asc
          (rw last (Above-append result.entries k c xs above low)) rest in
      (
        r,
        rw done more,
        all
            ∙ rw last (
                rw map-append (
                  rw append_assoc (
                    ap (λ d. conceal_all ids result.entries ++ (k, d) ∷ conceal_all ids xs) kept))),
      )

  pub merge_assignments-conceal :
      (xs ys : Assignments S Seal)
      → Ascending xs
      → conceal_all ids xs ≡ conceal_all ids ys
      → (zs : Assignments S Seal) × (merge_assignments xs ys ≡ ok zs)
        × (conceal_all ids zs ≡ conceal_all ids xs)
  unfolding merge_assignments
  merge_assignments-conceal xs ys asc h =
      let (r, done, all) = merge_entries-conceal xs ys Map.empty asc (nothing-Above xs) h in
      (r.entries, rw done, all)

  -- Two operations with one identifier and the same commitments are merged, without an error, into
  -- an operation with that identifier and these commitments, if the assignment types of the first
  -- are in order.
  pub merge_op-conceal :
      (self other : Op S Seal)
      → self.id ≡ other.id
      → Ascending self.assignments
      → conceal_all ids self.assignments ≡ conceal_all ids other.assignments
      → (op : Op S Seal) × (merge_op self other ≡ ok op)
        × (op.id ≡ self.id)
        × (conceal_all ids op.assignments ≡ conceal_all ids self.assignments)
  unfolding merge_op
  merge_op-conceal self other e asc h =
      let (zs, done, all) = merge_assignments-conceal self.assignments other.assignments asc h in
      (record self { assignments = zs }, rw ((eqb_iff self.id other.id).1 e, done) refl, refl, all)

after_merge :
    {A B : Type 0} (m : Merged A) (f : A → Merged B) (b : B)
    → (m >>= f) ≡ ok b
    → (a : A) × (m ≡ ok a) × (f a ≡ ok b)
after_merge (ok a) f b h = (a, refl, h)
after_merge (err e) f b h = cc

module _ {S : States} {Seal : Type 0} where
  abbrev pub known : Map ℕ (Op S Seal) → ℕ → Option ℕ
  known m k = Option.map (λ (o : Op S Seal). o.id) (Map.get m k)

  -- A transition is replaced by one with the same identifier.
  known-replace :
      (m : Map ℕ (Op S Seal)) (j k : ℕ) (op op' : Op S Seal)
      → Map.get m j ≡ some op
      → op'.id ≡ op.id
      → known (Map.insert (Map.remove m j) j op') k ≡ known m k
  known-replace m j k op op' found e =
      ground (arith, get-insert (Map.remove m j) j k op', get-remove m j k, eqb_iff j k)

  merge_op-id : (self other op : Op S Seal) → merge_op self other ≡ ok op → op.id ≡ self.id
  unfolding merge_op
  merge_op-id self other op h = ground arith

  -- The transitions that a bundle knows, with their identifiers, are what its first part knew: a merge
  -- loses none of them and takes none from the other part.
  merge_transitions-known :
      (rest : List (ℕ × Op S Seal)) (self result : Map ℕ (Op S Seal)) (k : ℕ)
      → merge_transitions rest self ≡ ok result
      → known result k ≡ known self k
  unfolding merge_transitions
  merge_transitions-known [] self result k h = ground arith
  merge_transitions-known ((j, other) ∷ rest) self result k h =
      elim (Option-cases (Map.get self j)) [
        | inl absent ↦
            merge_transitions-known rest self result k (rw (absent, merge_transitions) at h)
        | inr (op, found) ↦
            let (merged, done, more) =
              after_merge (merge_op op other)
                (λ m. merge_transitions rest (Map.insert (Map.remove self j) j m)) result
                (rw (found, merge_transitions) at h) in
            merge_transitions-known rest (Map.insert (Map.remove self j) j merged) result k more
            ∙ known-replace self j k op merged found (merge_op-id op other merged done)
      ]

  -- A merge of bundles that succeeds knows exactly the transitions that the first bundle knows, no
  -- more of them than there are inputs, and keeps the identifier.
  pub merge_bundle-known :
      (self other result : Bundle S Seal)
      → merge_bundle self other ≡ ok result
      → ((k : ℕ)
          → known (record { entries = result.known_transitions }) k
            ≡ known (record { entries = self.known_transitions }) k)
        × (length result.known_transitions ≤ length result.input_map)
        × (result.bundle_id ≡ self.bundle_id)
  unfolding merge_bundle
  merge_bundle-known self other result h =
      let start : Map ℕ (Op S Seal) = record { entries = self.known_transitions } in
      let (m, done, checked) =
        after_merge (merge_transitions other.known_transitions start)
          (λ m.
            if ltb (length self.input_map) (length m.entries)
            then err insufficient_inputs
            else ok (record self { known_transitions = m.entries }))
          result h in
      let e : record self { known_transitions = m.entries } ≡ result = ground arith in
      (
        λ k. rw (← e) (merge_transitions-known other.known_transitions start m k done),
        rw (← e) (ground arith),
        rw (← e) refl,
      )
