-- ===== src/Stash/Sigs.antt =====
-- Levels of trust and signatures in `MemStash` (src/persistence/memory.rs).
pub mod Trust
use rgb_wallet.Prelude.{
  ℕ, List, [], ◌∷◌, Option, none, some, Bool, true, false, if◌then◌else◌, Result, ok, err,
}
use rgb_wallet.Collections.Map
use rgb_wallet.Collections.Map.{Map}
use rgb_wallet.Collections.Ord.{nat_ord}
use rgb_wallet.Collections.Confinement.{map_len}
use rgb_wallet.Exec.{Exec}
use rgb_wallet.Stash.Types.{
  TrustLevel, unknown, should_accept, StashCore, MemStash, StashError, confinement,
}

-- `unwrap_or_default`
abbrev pub or_unknown : Option TrustLevel → TrustLevel
or_unknown none = unknown
or_unknown (some level) = level

module _ (C : StashCore) where
  unfoldable pub get_trust : MemStash C → ℕ → TrustLevel
  get_trust s identity = or_unknown (Map.get s.identities identity)

  unfoldable pub set_trust : ℕ → TrustLevel → Exec (MemStash C) StashError (Unit {0})
  set_trust identity level s =
      if C.conf.small_full (map_len s.identities)
      then (err confinement, s)
      else (ok tt, record s { identities = Map.insert s.identities identity level })

  -- The closure of `import_sigs`: an identity that is not known is noted, if there is room.
  unfoldable pub note_identity : Option TrustLevel → ℕ → Map ℕ TrustLevel → Map ℕ TrustLevel
  note_identity (some level) identity ids = ids
  note_identity none identity ids =
      if C.conf.small_full (map_len ids) then ids else Map.insert ids identity unknown

  abbrev pub Noted : Type 0
  Noted = Result StashError (Unit {0}) × (Map ℕ TrustLevel × Map ℕ C.Sig)

  -- The signatures of identities that are accepted go into a map, up to the first that finds it full.
  unfoldable pub extend_sigs : List (ℕ × C.Sig) → Map ℕ TrustLevel → Map ℕ C.Sig → Noted
  extend_sigs [] ids sigs = (ok tt, (ids, sigs))
  extend_sigs ((identity, sig) ∷ rest) ids sigs =
      let level = Map.get ids identity in
      let noted = note_identity level identity ids in
      let skipped = extend_sigs rest noted sigs in
      let added = extend_sigs rest noted (Map.insert sigs identity sig) in
      if should_accept (or_unknown level)
      then (if C.sigs_full (map_len sigs) then (err confinement, (noted, sigs)) else added)
      else skipped

  -- The signatures of identities that are accepted, of which the last one of each counts
  unfoldable pub collect_sigs :
      List (ℕ × C.Sig) → Map ℕ TrustLevel → Map ℕ C.Sig → Map ℕ TrustLevel × Map ℕ C.Sig
  collect_sigs [] ids sigs = (ids, sigs)
  collect_sigs ((identity, sig) ∷ rest) ids sigs =
      let level = Map.get ids identity in
      let noted = note_identity level identity ids in
      collect_sigs rest noted
        (if should_accept (or_unknown level) then Map.insert sigs identity sig else sigs)

  -- `import_sigs`, for content that has signatures and for content that has none
  unfoldable pub extend_known :
      ℕ → List (ℕ × C.Sig) → Map ℕ C.Sig → Exec (MemStash C) StashError (Unit {0})
  extend_known content list prev s =
      let (result, (ids, sigs)) = extend_sigs list s.identities prev in
      (result, record s { identities = ids; sigs = Map.insert s.sigs content sigs })

  unfoldable pub insert_new : ℕ → List (ℕ × C.Sig) → Exec (MemStash C) StashError (Unit {0})
  insert_new content list s =
      let (ids, sigs) = collect_sigs list s.identities Map.empty in
      if C.sigs_fit (map_len sigs)
      then (
        ok tt,
        record s {
          identities = ids;
          sigs =
              if C.conf.small_full (map_len s.sigs) then s.sigs else Map.insert s.sigs content sigs;
        },
      )
      else (err confinement, record s { identities = ids })

  abbrev pub import_into :
      Option (Map ℕ C.Sig) → ℕ → List (ℕ × C.Sig) → Exec (MemStash C) StashError (Unit {0})
  import_into (some prev) content list = extend_known content list prev
  import_into none content list = insert_new content list

  unfoldable pub import_sigs : ℕ → List (ℕ × C.Sig) → Exec (MemStash C) StashError (Unit {0})
  import_sigs content list s = import_into (Map.get s.sigs content) content list s
