-- ===== src/Stash/Operations/Laws.antt =====
-- What the stash has of a bundle after it is consumed (src/persistence/stash.rs, src/persistence/memory.rs).
use mathlib.Core.Path.{subst}
use rgb_wallet.Prelude.{
  ℕ, Option, none, some, Bool, if◌then◌else◌, Result, ok, err, ◌≡◌, refl, sym, ◌∙◌, ap, Bool-cases,
  inl, inr,
}
use rgb_wallet.Collections.Map
use rgb_wallet.Collections.Map.{Map, get-insert}
use rgb_wallet.Collections.Ord.{nat_ord, ◌==◌}
use rgb_wallet.Collections.Confinement.{map_len}
use rgb_wallet.Contract.Types.{Op, Bundle}
use rgb_wallet.Contract.MergeReveal.{Merged, merge_bundle}
use rgb_wallet.Contract.MergeReveal.Operations.{known, merge_bundle-known}
use rgb_wallet.Stash.Types.{StashCore, MemStash, StashError}
use rgb_wallet.Stash.Operations.{is_absent, replace_bundle, merged_with, replace_by, consume_bundle}

module _ (C : StashCore) where
  abbrev StashedBundle : Type 0
  StashedBundle = Bundle C.states C.GraphSeal

  -- The bundle that is in the stash, or the one that is new
  abbrev pub first_of : Option StashedBundle → StashedBundle → StashedBundle
  first_of none new = new
  first_of (some old) new = old

  abbrev pub transitions : StashedBundle → Map ℕ (Op C.states C.GraphSeal)
  transitions b = record { entries = b.known_transitions }

  replace_bundle_lem :
      (b : StashedBundle) (s t : MemStash C) (fresh : Bool)
      → replace_bundle C b s ≡ (ok fresh, t)
      → (fresh ≡ is_absent (Map.get s.bundles b.bundle_id))
        × ((k : ℕ)
            → Map.get t.bundles k ≡ (if b.bundle_id == k then some b else Map.get s.bundles k))
  unfolding replace_bundle
  replace_bundle_lem b s t fresh h = elim (Bool-cases (C.conf.large_full (map_len s.bundles))) [
    | inl full ↦ elim (never (rw full at h)) [ ]
    | inr room ↦ done (rw room at h)
  ]
    where
      never :
          {e : StashError}
          → ◌≡◌ {A = Result StashError Bool × MemStash C} (err e, s) (ok fresh, t)
          → ⊥
      never h = cc

      done :
          ◌≡◌ {A = Result StashError Bool × MemStash C}
            (
              ok (is_absent (Map.get s.bundles b.bundle_id)),
              record s { bundles = Map.insert s.bundles b.bundle_id b },
            )
            (ok fresh, t)
          → (fresh ≡ is_absent (Map.get s.bundles b.bundle_id))
            × ((k : ℕ)
                → Map.get t.bundles k ≡ (if b.bundle_id == k then some b else Map.get s.bundles k))
      done h = (
        cc,
        (λ k.
            ap (λ (p : Result StashError Bool × MemStash C). Map.get p.1.bundles k) (sym h)
            ∙ get-insert s.bundles b.bundle_id k b),
      )

  merged_lem :
      (o : Option StashedBundle) (b result : StashedBundle)
      → merged_with C merge_bundle o b ≡ ok result
      → ((k : ℕ) → known (transitions result) k ≡ known (transitions (first_of o b)) k)
        × (result.bundle_id ≡ (first_of o b).bundle_id)
  merged_lem none b result h = rw (same h) ((λ k. refl), refl)
    where
      same : ◌≡◌ {A = Merged StashedBundle} (ok b) (ok result) → result ≡ b
      same h = cc
  merged_lem (some old) b result h =
      let (all, _, id) = merge_bundle-known old b result h in (all, id)

  -- Where the stash has a bundle under its own identifier or none, after `consume_bundle` succeeds
  -- there is one bundle under that identifier, all others are unchanged, the answer is whether
  -- there was none, and the known transitions are exactly those of the bundle that was there, or
  -- of the new one if none was.
  pub consume_bundle_lem :
      (b : StashedBundle) (s t : MemStash C) (fresh : Bool)
      → (first_of (Map.get s.bundles b.bundle_id) b).bundle_id ≡ b.bundle_id
      → consume_bundle C b s ≡ (ok fresh, t)
      → (result : StashedBundle) × (fresh ≡ is_absent (Map.get s.bundles b.bundle_id))
        × ((k : ℕ)
            → Map.get t.bundles k ≡ (if b.bundle_id == k then some result else Map.get s.bundles k))
        × ((k : ℕ)
            → known (transitions result) k
              ≡ known (transitions (first_of (Map.get s.bundles b.bundle_id) b)) k)
  unfolding consume_bundle
  consume_bundle_lem b s t fresh keyed h =
      by_merge (merged_with C merge_bundle (Map.get s.bundles b.bundle_id) b) refl h
    where
      by_merge :
          (m : Merged StashedBundle)
          → merged_with C merge_bundle (Map.get s.bundles b.bundle_id) b ≡ m
          → replace_by C (replace_bundle C) m s ≡ (ok fresh, t)
          → (result : StashedBundle) × (fresh ≡ is_absent (Map.get s.bundles b.bundle_id))
            × ((k : ℕ)
                → Map.get t.bundles k
                  ≡ (if b.bundle_id == k then some result else Map.get s.bundles k))
            × ((k : ℕ)
                → known (transitions result) k
                  ≡ known (transitions (first_of (Map.get s.bundles b.bundle_id) b)) k)
      by_merge (err e) f h = cc
      by_merge (ok result) f h =
          let (all, id) = merged_lem (Map.get s.bundles b.bundle_id) b result f in
          let (new, there) =
            subst
              (λ i.
                (fresh ≡ is_absent (Map.get s.bundles i))
                × ((k : ℕ)
                    → Map.get t.bundles k ≡ (if i == k then some result else Map.get s.bundles k)))
              (id ∙ keyed) (replace_bundle_lem result s t fresh h) in
          (result, new, there, all)
