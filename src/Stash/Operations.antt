-- ===== src/Stash/Operations.antt =====
-- Geneses, extensions and bundles that are put into the stash (src/persistence/memory.rs, src/persistence/stash.rs).
pub mod Laws
use rgb_wallet.Prelude.{
  ℕ, List, [], ◌∷◌, Option, none, some, Bool, true, false, if◌then◌else◌, Result, ok, err,
}
use rgb_wallet.Collections.Map
use rgb_wallet.Collections.Map.{Map}
use rgb_wallet.Collections.Ord.{nat_ord}
use rgb_wallet.Collections.Confinement.{map_len}
use rgb_wallet.Exec.{Exec, for_each}
use rgb_wallet.Contract.Types.{Op, Bundle}
use rgb_wallet.Contract.MergeReveal.{Merged, merge_op, merge_bundle}
use rgb_wallet.Stash.Types.{StashCore, MemStash, StashError, confinement, merge_reveal}

-- `Ok(!present)` after an insertion
abbrev pub is_absent : {A : Type 0} → Option A → Bool
is_absent none = true
is_absent (some _) = false

module _ (C : StashCore) where
  abbrev pub Stashing : Type 0 → Type 0
  Stashing = Exec (MemStash C) StashError

  unfoldable pub replace_bundle : Bundle C.states C.GraphSeal → Stashing Bool
  replace_bundle bundle s =
      if C.conf.large_full (map_len s.bundles) then (err confinement, s) else (
        ok (is_absent (Map.get s.bundles bundle.bundle_id)),
        record s { bundles = Map.insert s.bundles bundle.bundle_id bundle },
      )

  unfoldable pub replace_extension : Op C.states C.GenesisSeal → Stashing Bool
  replace_extension extension s =
      if C.conf.large_full (map_len s.extensions) then (err confinement, s) else (
        ok (is_absent (Map.get s.extensions extension.id)),
        record s { extensions = Map.insert s.extensions extension.id extension },
      )

  -- `contract_id` is the identifier that the genesis gives.
  unfoldable pub replace_genesis : ℕ → Op C.states C.GenesisSeal → Stashing Bool
  replace_genesis contract_id genesis s =
      if C.conf.tiny_full (map_len s.geneses) then (err confinement, s) else (
        ok (is_absent (Map.get s.geneses contract_id)),
        record s { geneses = Map.insert s.geneses contract_id genesis },
      )

  -- What is known is merged with what is new.
  abbrev pub merged_with : {A : Type 0} → (A → A → Merged A) → Option A → A → Merged A
  merged_with merge none new = ok new
  merged_with merge (some old) new = merge old new

  abbrev pub replace_by : {A : Type 0} → (A → Stashing Bool) → Merged A → Stashing Bool
  replace_by replace (err e) s = (err (merge_reveal e), s)
  replace_by replace (ok a) s = replace a s

  unfoldable pub consume_bundle : Bundle C.states C.GraphSeal → Stashing Bool
  consume_bundle bundle s =
      replace_by replace_bundle
        (merged_with merge_bundle (Map.get s.bundles bundle.bundle_id) bundle) s

  -- The first part of `consume_consignment`, and a round of its loop over extensions
  unfoldable pub consume_genesis : ℕ → Op C.states C.GenesisSeal → Stashing Bool
  consume_genesis contract_id genesis s =
      replace_by (replace_genesis contract_id)
        (merged_with merge_op (Map.get s.geneses contract_id) genesis) s

  unfoldable pub consume_extension : Op C.states C.GenesisSeal → Stashing Bool
  consume_extension extension s =
      replace_by replace_extension
        (merged_with merge_op (Map.get s.extensions extension.id) extension) s
