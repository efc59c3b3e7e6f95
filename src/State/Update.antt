-- ===== src/State/Update.antt =====
-- `MemState::update_witnesses` (src/persistence/memory.rs) and `State::update_from_consignment`
-- (src/persistence/state.rs).
pub mod Witnesses
pub mod Consignment
use Prim.Native.String.{String}
use rgb_wallet.Prelude.{
  ℕ, suc, ◌+◌, List, [], ◌∷◌, map, Option, none, some, Bool, true, false, if◌then◌else◌, ltb, eqb,
  Result, ok, err,
}
use rgb_wallet.Collections.Map
use rgb_wallet.Collections.Map.{Map}
use rgb_wallet.Collections.Ord.{nat_ord}
use rgb_wallet.Exec.{Exec, pure, ◌>>=◌, ◌>>◌, for_each}
use rgb_wallet.State.Types.{Core, MemState, Operation, StateSchema, StateError}
use rgb_wallet.State.Write.{
  Write, Resolver, resolve, add_transition, add_extension, register_contract,
}

-- `NonZeroU32::new(after_height).unwrap_or(NonZeroU32::MIN)`
abbrev pub at_least_one : ℕ → ℕ
at_least_one n = if eqb n 0 then 1 else n

module _ (C : Core) where
  -- `UpdateRes`
  pub record UpdateRes : Type 0 where
    pub succeeded : ℕ
    pub failed : Map ℕ String

  -- `matches!(ord, WitnessOrd::Mined(pos) if pos.height() < after_height)`
  unfoldable pub is_settled : ℕ → C.WitnessOrd → Bool
  is_settled after_height ord = elim (C.mined_height ord) [
    | none ↦ false
    | some height ↦ ltb height after_height
  ]

  abbrev pub Progress : Type 0
  Progress = List (ℕ × C.WitnessOrd) × UpdateRes

  -- A call of the resolver and the count of it. A witness whose resolution fails is counted too.
  abbrev pub tried :
      ℕ → C.WitnessOrd → UpdateRes → Result String C.WitnessOrd → C.WitnessOrd × UpdateRes
  tried id ord r (ok new) = (new, record r { succeeded = r.succeeded + 1 })
  tried id ord r (err reason) =
      (ord, record { succeeded = r.succeeded + 1; failed = Map.insert r.failed id reason })

  -- The body of the loop over the witnesses
  unfoldable pub renew_one :
      Resolver C → ℕ → ℕ → C.WitnessOrd → UpdateRes → C.WitnessOrd × UpdateRes
  renew_one ords after_height id ord r =
      if is_settled after_height ord then (ord, r) else tried id ord r (ords id)

  -- The loop, with what it counted before
  unfoldable pub renew : Resolver C → ℕ → List (ℕ × C.WitnessOrd) → UpdateRes → Progress
  renew ords after_height [] r = ([], r)
  renew ords after_height ((id, ord) ∷ rest) r =
      let (new, noted) = renew_one ords after_height id ord r in
      let (others, done) = renew ords after_height rest noted in ((id, new) ∷ others, done)

  -- Saving is left out, and so is the check of the size, which is that of the map before.
  unfoldable pub update_witnesses : Resolver C → ℕ → MemState C → UpdateRes × MemState C
  update_witnesses ords after_height s =
      let (entries, result) =
        renew ords (at_least_one after_height) s.witnesses.entries
          (record { succeeded = 0; failed = Map.empty }) in
      (result, record s { witnesses = record { entries = entries } })

  -- `extension_idx` and `ordered_extensions`
  pub record Marks : Type 0 where
    pub used : List (ℕ × Bool)
    pub ordered : Map ℕ (ℕ × C.WitnessOrd)

  -- The body of the loop over inputs, for an input that spends from the extension
  unfoldable pub note_use :
      ℕ → ℕ → C.WitnessOrd → Map ℕ (ℕ × C.WitnessOrd) → Map ℕ (ℕ × C.WitnessOrd)
  note_use id witness ord ordered = elim (Map.get ordered id) [
    | some (first, ord2) ↦ if C.ord_lt ord2 ord then Map.insert ordered id (first, ord) else ordered
    | none ↦ Map.insert ordered id (witness, ord)
  ]

  -- The loop over inputs, for one extension
  unfoldable pub note_inputs :
      ℕ
      → ℕ
      → C.WitnessOrd
      → List ℕ
      → Bool
      → Map ℕ (ℕ × C.WitnessOrd)
      → Bool × Map ℕ (ℕ × C.WitnessOrd)
  note_inputs id witness ord [] used ordered = (used, ordered)
  note_inputs id witness ord (op ∷ inputs) used ordered =
      let other = note_inputs id witness ord inputs used ordered in
      let hit = note_inputs id witness ord inputs true (note_use id witness ord ordered) in
      if eqb op id then hit else other

  -- The loop over extensions, for one transition
  unfoldable pub note_extensions :
      ℕ → C.WitnessOrd → List ℕ → List (ℕ × Bool) → Map ℕ (ℕ × C.WitnessOrd) → Marks
  note_extensions witness ord inputs [] ordered = record { used = []; ordered = ordered }
  note_extensions witness ord inputs ((id, used) ∷ rest) ordered =
      let (used', ordered') =
        if used then (true, ordered) else note_inputs id witness ord inputs false ordered in
      let marks = note_extensions witness ord inputs rest ordered' in
      record marks { used = (id, used') ∷ marks.used }

  -- The loop over the transitions of a witness
  unfoldable pub update_transitions :
      Resolver C → ℕ → ℕ → List (Operation C) → Marks → Write C Marks
  update_transitions ords id witness [] marks = pure marks
  update_transitions ords id witness (op ∷ rest) marks = do
    ord ← resolve C ords witness
    add_transition C id op witness ord
    update_transitions ords id witness rest
        (note_extensions witness ord op.inputs marks.used marks.ordered)

  unfoldable pub update_bundles :
      Resolver C → ℕ → List (ℕ × List (Operation C)) → Marks → Write C Marks
  update_bundles ords id [] marks = pure marks
  update_bundles ords id ((witness, transitions) ∷ rest) marks = do
    next ← update_transitions ords id witness transitions marks
    update_bundles ords id rest next

  -- An extension that no transition uses is left out.
  unfoldable pub update_extension : ℕ → Map ℕ (ℕ × C.WitnessOrd) → Operation C → Write C (Unit {0})
  update_extension id ordered op = elim (Map.get ordered op.id) [
    | none ↦ pure tt
    | some (witness, ord) ↦ add_extension C id op witness ord
  ]

  -- What `ConsignmentExt` shows of a consignment to the state. `witnesses` has the transitions of each witness,
  -- and `extension_ids` are the identifiers of the extensions, in order.
  pub record StateConsignment : Type 0 where
    pub contract_id : ℕ
    pub schema : StateSchema C
    pub genesis : Operation C
    pub extensions : List (Operation C)
    pub extension_ids : List ℕ
    pub witnesses : List (ℕ × List (Operation C))

  unfoldable pub update_from_consignment : Resolver C → StateConsignment → Write C (Unit {0})
  update_from_consignment ords c = do
    register_contract C c.schema c.contract_id c.genesis
    marks ←
        update_bundles ords c.contract_id c.witnesses
          (record { used = map (λ id. (id, false)) c.extension_ids; ordered = Map.empty })
    for_each (update_extension c.contract_id marks.ordered) c.extensions
