-- ===== src/Stash/Sigs/Trust.antt =====
-- Whose signatures `import_sigs` puts into the stash (src/persistence/memory.rs).
use rgb_wallet.Prelude.{
  ℕ, List, [], ◌∷◌, Option, none, some, true, false, if◌then◌else◌, ◌≡◌, ◌⊎◌, inl, inr, refl, sym,
  ◌∙◌, ap, Bool-cases, Option-cases,
}
use rgb_wallet.Collections.Map
use rgb_wallet.Collections.Map.{Map, get-insert, get-empty}
use rgb_wallet.Collections.Ord.{nat_ord, ◌==◌}
use rgb_wallet.Collections.Confinement.{map_len}
use rgb_wallet.Stash.Types.{TrustLevel, unknown, should_accept, StashCore, MemStash}
use rgb_wallet.Stash.Sigs.{
  or_unknown, get_trust, note_identity, extend_sigs, collect_sigs, extend_known, insert_new,
  import_into, import_sigs,
}

module _ (C : StashCore) where
  abbrev level_of : Map ℕ TrustLevel → ℕ → TrustLevel
  level_of ids k = or_unknown (Map.get ids k)

  abbrev SameLevels : Map ℕ TrustLevel → Map ℕ TrustLevel → Type 0
  SameLevels a b = (k : ℕ) → level_of a k ≡ level_of b k

  note_identity-SameLevels :
      (identity : ℕ) (ids : Map ℕ TrustLevel)
      → SameLevels (note_identity C (Map.get ids identity) identity ids) ids
  unfolding note_identity
  note_identity-SameLevels identity ids k = elim (Option-cases (Map.get ids identity)) [
    | inr (level, e) ↦ rw (e, note_identity) refl
    | inl e ↦ elim (Bool-cases (C.conf.small_full (map_len ids))) [
      | inl full ↦ rw (e, note_identity, full) refl
      | inr room ↦
          rw (e, note_identity, room)
            (elim (Bool-cases (identity == k)) [
              | inl same ↦
                  rw (get-insert ids identity k unknown, same)
                    (rw (sym ((nat_ord.eq_iff identity k).0 same)) (rw e refl))
              | inr other ↦ rw (get-insert ids identity k unknown, other) refl
            ])
    ]
  ]

  -- Two maps differ in identities that are accepted only.
  abbrev pub OnlyAccepted : Map ℕ TrustLevel → Map ℕ C.Sig → Map ℕ C.Sig → Type 0
  OnlyAccepted ids old new =
      (k : ℕ) → (Map.get new k ≡ Map.get old k) ⊎ (should_accept (level_of ids k) ≡ true)

  unchanged : (ids : Map ℕ TrustLevel) (m : Map ℕ C.Sig) → OnlyAccepted ids m m
  unchanged ids m k = inl refl

  added :
      (ids : Map ℕ TrustLevel) (old : Map ℕ C.Sig) (identity : ℕ) (sig : C.Sig)
      → should_accept (level_of ids identity) ≡ true
      → OnlyAccepted ids old (Map.insert old identity sig)
  added ids old identity sig accepted k = elim (Bool-cases (identity == k)) [
    | inl same ↦ inr (rw ((nat_ord.eq_iff identity k).0 same) at accepted)
    | inr differs ↦ inl (get-insert old identity k sig ∙ rw differs refl)
  ]

  then_OnlyAccepted :
      (ids ids' : Map ℕ TrustLevel) (a b c : Map ℕ C.Sig)
      → SameLevels ids' ids
      → OnlyAccepted ids a b
      → OnlyAccepted ids' b c
      → OnlyAccepted ids a c
  then_OnlyAccepted ids ids' a b c same g h k = elim (h k) [
    | inr accepted ↦ inr (rw (same k) at accepted)
    | inl e ↦ elim (g k) [ inl f ↦ inl (e ∙ f) | inr accepted ↦ inr accepted ]
  ]

  extend_lem :
      (l : List (ℕ × C.Sig)) (ids : Map ℕ TrustLevel) (sigs : Map ℕ C.Sig)
      → let (_, (ids', sigs')) = extend_sigs C l ids sigs in
        SameLevels ids' ids × OnlyAccepted ids sigs sigs'
  unfolding extend_sigs
  extend_lem [] ids sigs = ((λ k. refl), unchanged ids sigs)
  extend_lem ((identity, sig) ∷ l) ids sigs =
      let noted : Map ℕ TrustLevel = note_identity C (Map.get ids identity) identity ids in
      let same : SameLevels noted ids = note_identity-SameLevels identity ids in
      elim (Bool-cases (should_accept (level_of ids identity))) [
        | inr refused ↦
            let (levels, only) = extend_lem l noted sigs in
            rw (extend_sigs, refused)
              (
                (λ k. levels k ∙ same k),
                then_OnlyAccepted ids noted sigs sigs _ same (unchanged ids sigs) only,
              )
        | inl accepted ↦ elim (Bool-cases (C.sigs_full (map_len sigs))) [
          | inl full ↦ rw (extend_sigs, accepted, full) (same, unchanged ids sigs)
          | inr room ↦
              let (levels, only) = extend_lem l noted (Map.insert sigs identity sig) in
              rw (extend_sigs, accepted, room)
                (
                  (λ k. levels k ∙ same k),
                  then_OnlyAccepted ids noted sigs (Map.insert sigs identity sig) _ same
                      (added ids sigs identity sig accepted) only,
                )
        ]
      ]

  collect_lem :
      (l : List (ℕ × C.Sig)) (ids : Map ℕ TrustLevel) (sigs : Map ℕ C.Sig)
      → let (ids', sigs') = collect_sigs C l ids sigs in
        SameLevels ids' ids × OnlyAccepted ids sigs sigs'
  unfolding collect_sigs
  collect_lem [] ids sigs = ((λ k. refl), unchanged ids sigs)
  collect_lem ((identity, sig) ∷ l) ids sigs =
      let noted : Map ℕ TrustLevel = note_identity C (Map.get ids identity) identity ids in
      let same : SameLevels noted ids = note_identity-SameLevels identity ids in
      let next : Map ℕ C.Sig =
        if should_accept (level_of ids identity) then Map.insert sigs identity sig else sigs in
      let (levels, only) = collect_lem l noted next in
      ((λ k. levels k ∙ same k), then_OnlyAccepted ids noted sigs next _ same step only)
    where
      step :
          OnlyAccepted ids sigs
            (if should_accept (level_of ids identity) then Map.insert sigs identity sig else sigs)
      step = elim (Bool-cases (should_accept (level_of ids identity))) [
        | inl accepted ↦ rw accepted (added ids sigs identity sig accepted)
        | inr refused ↦ rw refused (unchanged ids sigs)
      ]

  -- The signature of an identity under content
  abbrev pub found_in : Option (Map ℕ C.Sig) → ℕ → Option C.Sig
  found_in none k = none
  found_in (some m) k = Map.get m k

  abbrev pub sig_at : MemStash C → ℕ → ℕ → Option C.Sig
  sig_at s content k = found_in (Map.get s.sigs content) k

  -- Trust is unchanged, and so are the signatures of other contents and of identities that are not accepted.
  abbrev pub Imported : ℕ → MemStash C → MemStash C → Type 0
  Imported content s t =
      (c k : ℕ)
      → (get_trust C t k ≡ get_trust C s k)
        × ((sig_at t c k ≡ sig_at s c k)
            ⊎ ((content ≡ c) × (should_accept (get_trust C s k) ≡ true)))

  stored :
      (s : MemStash C) (content : ℕ) (ids : Map ℕ TrustLevel) (old new : Map ℕ C.Sig)
      → ((k : ℕ) → Map.get old k ≡ sig_at s content k)
      → SameLevels ids s.identities
      → OnlyAccepted s.identities old new
      → Imported content s (record s { identities = ids; sigs = Map.insert s.sigs content new })
  unfolding get_trust
  stored s content ids old new was same only c k = (same k, by_content (Bool-cases (content == c)))
    where
      by_content :
          ((content == c) ≡ true) ⊎ ((content == c) ≡ false)
          → (found_in (Map.get (Map.insert s.sigs content new) c) k ≡ sig_at s c k)
            ⊎ ((content ≡ c) × (should_accept (level_of s.identities k) ≡ true))
      by_content (inl here) =
          let this : content ≡ c = (nat_ord.eq_iff content c).0 here in
          elim (only k) [
            | inl before ↦ inl (
                rw (get-insert s.sigs content c new, here)
                  (before ∙ was k ∙ ap (λ c. sig_at s c k) this))
            | inr accepted ↦ inr (this, accepted)
          ]
      by_content (inr other) = inl (rw (get-insert s.sigs content c new, other) refl)

  known_lem :
      (content : ℕ) (l : List (ℕ × C.Sig)) (prev : Map ℕ C.Sig) (s : MemStash C)
      → Map.get s.sigs content ≡ some prev
      → Imported content s (extend_known C content l prev s).1
  unfolding extend_known
  known_lem content l prev s e =
      let (levels, only) = extend_lem l s.identities prev in
      stored s content _ prev _ (λ k. ap (λ o. found_in o k) (sym e)) levels only

  new_lem :
      (content : ℕ) (l : List (ℕ × C.Sig)) (s : MemStash C)
      → Map.get s.sigs content ≡ none
      → Imported content s (insert_new C content l s).1
  unfolding insert_new get_trust
  new_lem content l s e = elim (Bool-cases (C.sigs_fit (map_len fresh))) [
    | inr none_fit ↦ rw none_fit kept
    | inl fit ↦ elim (Bool-cases (C.conf.small_full (map_len s.sigs))) [
      | inl full ↦ rw (fit, full) kept
      | inr room ↦ rw (fit, room) (stored s content ids Map.empty fresh nothing levels only)
    ]
  ]
    where
      ids : Map ℕ TrustLevel
      ids = (collect_sigs C l s.identities Map.empty).0

      fresh : Map ℕ C.Sig
      fresh = (collect_sigs C l s.identities Map.empty).1

      levels : SameLevels ids s.identities
      levels = (collect_lem l s.identities Map.empty).0

      only : OnlyAccepted s.identities Map.empty fresh
      only = (collect_lem l s.identities Map.empty).1

      kept : Imported content s (record s { identities = ids })
      kept c k = (levels k, inl refl)

      nothing : (k : ℕ) → Map.get Map.empty k ≡ sig_at s content k
      nothing k = get-empty {V = C.Sig} k ∙ ap (λ o. found_in o k) (sym e)

  -- Whether it succeeds or fails, `import_sigs` leaves the trust in each identity as it was, and
  -- changes a signature only under the content given and only for an identity that is to be
  -- accepted.
  pub import_sigs_lem :
      (content : ℕ) (l : List (ℕ × C.Sig)) (s : MemStash C) (c k : ℕ)
      → let (_, t) = import_sigs C content l s in
        (get_trust C t k ≡ get_trust C s k)
        × ((sig_at t c k ≡ sig_at s c k)
            ⊎ ((content ≡ c) × (should_accept (get_trust C s k) ≡ true)))
  unfolding import_sigs
  import_sigs_lem content l s = by_known (Map.get s.sigs content) refl
    where
      by_known :
          (prev : Option (Map ℕ C.Sig))
          → Map.get s.sigs content ≡ prev
          → Imported content s (import_into C prev content l s).1
      by_known (some prev) e = known_lem content l prev s e
      by_known none e = new_lem content l s e
