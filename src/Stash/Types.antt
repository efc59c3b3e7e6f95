-- ===== src/Stash/Types.antt =====
-- `MemStash` (src/persistence/memory.rs), its errors, and levels of trust (src/containers/util.rs).
use rgb_wallet.Prelude.{ℕ, Bool, not, ltb}
use rgb_wallet.Collections.Map.{Map}
use rgb_wallet.Collections.Ord.{nat_ord}
use rgb_wallet.Collections.Confinement.{Confinement}
use rgb_wallet.Contract.Types.{States, Op, Bundle}
use rgb_wallet.Contract.MergeReveal.{MergeRevealError}

pub data TrustLevel : Type 0 where
  malicious unknown untrusted trusted ultimate : TrustLevel

-- The values of the enumeration, by which the derived `Ord` compares
abbrev pub value : TrustLevel → ℕ
value malicious = 0x10
value unknown = 0x20
value untrusted = 0x40
value trusted = 0x80
value ultimate = 0xC0

abbrev pub at_least : TrustLevel → TrustLevel → Bool
at_least a b = not (ltb (value a) (value b))

abbrev pub should_accept : TrustLevel → Bool
should_accept level = at_least level unknown

abbrev pub should_use : TrustLevel → Bool
should_use level = at_least level trusted

abbrev pub must_use : TrustLevel → Bool
must_use level = at_least level ultimate

-- What the stash takes from other crates: kinds of state, seals, signatures, and when collections are full.
-- `sigs_full` and `sigs_fit` are those of `ContentSigs`, a map of one to ten elements.
pub record StashCore : Type 1 where
  pub conf : Confinement
  pub sigs_full : ℕ → Bool
  pub sigs_fit : ℕ → Bool
  pub states : States
  pub GenesisSeal : Type 0
  pub GraphSeal : Type 0
  pub Sig : Type 0

-- The fields of `MemStash` that are modelled; identities, content and operations are numbers.
pub record MemStash (C : StashCore) : Type 0 where
  pub geneses : Map ℕ (Op C.states C.GenesisSeal)
  pub bundles : Map ℕ (Bundle C.states C.GraphSeal)
  pub extensions : Map ℕ (Op C.states C.GenesisSeal)
  pub identities : Map ℕ TrustLevel
  pub sigs : Map ℕ (Map ℕ C.Sig)

-- The errors of `StashError` that these operations give
pub data StashError : Type 0 where
  confinement : StashError
  merge_reveal : MergeRevealError → StashError
