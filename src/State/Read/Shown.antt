-- ===== src/State/Read/Shown.antt =====
-- What the view of a contract shows, against the witnesses of the whole state (src/persistence/memory.rs).
use rgb_wallet.Prelude.{
  ℕ, reverse, List, [], ◌∷◌, map, Option, none, some, true, false, not, eqb_iff, any_of, All,
  All-weaken, All-keep, All-reverse, All-image, each_any, keep_cong, ◌≡◌, refl,
}
use rgb_wallet.Collections.Map
use rgb_wallet.Collections.Map.{Map, get-keep}
use rgb_wallet.Collections.Ord.{nat_ord}
use rgb_wallet.State.Types.{
  Core, OutputAssignment, Assigned, GlobalOut, OpWitness, genesis, transition, extension,
  witness_id,
}
use rgb_wallet.State.Read.{
  is_witness, check_witness, in_assigned, shown, shown_at, global_place, global_places,
}

module _ (C : Core) (f g : Map ℕ C.WitnessOrd) where
  -- Two filters have the same of a witness.
  abbrev Same : ℕ → Type 0
  Same w = Map.get f w ≡ Map.get g w

  check-Same :
      {State : Type 0} (a : OutputAssignment State)
      → ((w : ℕ) → is_witness a.witness w ≡ true → Same w)
      → check_witness C f a ≡ check_witness C g a
  unfolding check_witness
  check-Same a h = by_witness a.witness h
    where
      by_witness :
          (o : Option ℕ)
          → ((w : ℕ) → is_witness o w ≡ true → Same w)
          → (elim o [
            | none ↦ true
            | some w ↦ elim (Map.get f w) [ none ↦ false | some ord ↦ not (C.is_archived ord) ]
          ])
            ≡ (elim o [
              | none ↦ true
              | some w ↦ elim (Map.get g w) [ none ↦ false | some ord ↦ not (C.is_archived ord) ]
            ])
      by_witness none h = refl
      by_witness (some w) h = rw (h w ((eqb_iff w w).1 refl)) refl

  checks-Same :
      {State : Type 0} (set : Assigned State)
      → ((w : ℕ) → in_assigned C w set ≡ true → Same w)
      → All (λ a. check_witness C f a ≡ check_witness C g a) (map (λ e. e.1) set.entries)
  checks-Same set h =
      All-image (λ a. check_witness C f a ≡ check_witness C g a) (λ e. e.1) set.entries
        (All-weaken
          (λ e any. check-Same e.1 (λ w hit. h w (any (λ d. is_witness d.1.witness w) hit)))
          set.entries (each_any set.entries))

  -- Filters that agree on the witnesses of a set show the same of it.
  pub shown-Same :
      {State : Type 0} (set : Assigned State)
      → ((w : ℕ) → in_assigned C w set ≡ true → Same w)
      → shown C f set ≡ shown C g set
  shown-Same set h = keep_cong (check_witness C f) (check_witness C g) _ (checks-Same set h)

  pub shown_at-Same :
      {State : Type 0} (set : Assigned State) (outpoint ty : ℕ)
      → ((w : ℕ) → in_assigned C w set ≡ true → Same w)
      → shown_at C f set outpoint ty ≡ shown_at C g set outpoint ty
  shown_at-Same set outpoint ty h =
      keep_cong (check_witness C f) (check_witness C g) _
        (All-keep (λ a. check_witness C f a ≡ check_witness C g a) _ _ (checks-Same set h))

  place-Same :
      (out : GlobalOut)
      → ((w : ℕ) → is_witness (witness_id out.op_witness) w ≡ true → Same w)
      → global_place C f out ≡ global_place C g out
  unfolding global_place
  place-Same out h = by_witness out.op_witness h
    where
      by_witness :
          (o : OpWitness)
          → ((w : ℕ) → is_witness (witness_id o) w ≡ true → Same w)
          → global_place C f (record out { op_witness = o })
            ≡ global_place C g (record out { op_witness = o })
      by_witness genesis h = refl
      by_witness (transition w ty) h = rw (h w ((eqb_iff w w).1 refl), global_place) refl
      by_witness (extension w ty) h = rw (h w ((eqb_iff w w).1 refl), global_place) refl

  places_from-Same :
      (l : List (GlobalOut × C.Datum))
      → All (λ e. global_place C f e.0 ≡ global_place C g e.0) l
      → global_places C f l ≡ global_places C g l
  unfolding global_places
  places_from-Same [] h = refl
  places_from-Same ((out, item) ∷ l) (h, hs) = rw (h, places_from-Same l hs, global_places) refl

  -- Filters that agree on the witnesses of the items of a global type give them the same places.
  pub places-Same :
      (known : Map GlobalOut C.Datum)
      → ((w : ℕ)
          → any_of (λ e. is_witness (witness_id e.0.op_witness) w) known.entries ≡ true
          → Same w)
      → global_places C f (reverse known.entries) ≡ global_places C g (reverse known.entries)
  places-Same known h = places_from-Same _ (
      All-reverse (λ e. global_place C f e.0 ≡ global_place C g e.0) known.entries
        (All-weaken
          (λ e any.
            place-Same e.0 (λ w hit. h w (any (λ d. is_witness (witness_id d.0.op_witness) w) hit)))
          known.entries (each_any known.entries)))
