-- ===== src/State/Read/Filtered.antt =====
-- The view of a contract against the whole state (src/persistence/memory.rs).
use rgb_wallet.Prelude.{
  ℕ, some, true, ok, keep, any_of, ◌≡◌, refl, ◌∙◌, arith, Option-cases, inl, inr,
}
use rgb_wallet.Collections.Map
use rgb_wallet.Collections.Map.{Map, get-keep, get-any}
use rgb_wallet.Collections.Ord.{nat_ord}
use rgb_wallet.State.Types.{Core, Assigned, witness_id, GlobalState, ContractState, MemState}
use rgb_wallet.State.Read.{
  is_witness, in_assigned, in_globals, mentions, ContractView, contract_state, shown_at, rights,
  fungible, structured_at, attach_at,
}
use rgb_wallet.State.Read.Shown.{shown_at-Same, places-Same}
use rgb_wallet.State.GlobalIter.{global_items}

module _ (C : Core) (s : MemState C) (id : ℕ) where
  abbrev filter_of : ContractState C → Map ℕ C.WitnessOrd
  filter_of c = record { entries = keep (λ e. mentions C c e.0) s.witnesses.entries }

  -- The view of a contract whose filter is all that the state has of witnesses
  abbrev pub whole : ContractState C → ContractView C
  whole c = record { filter = s.witnesses; unfiltered = c }

  abbrev view_of : ContractState C → ContractView C
  view_of c = record { filter = filter_of c; unfiltered = c }

  kept :
      (c : ContractState C) (w : ℕ)
      → mentions C c w ≡ true
      → Map.get (filter_of c) w ≡ Map.get s.witnesses w
  kept c w h = get-keep (mentions C c) s.witnesses w ∙ rw h refl

  in_rights :
      (c : ContractState C) (w : ℕ) → in_assigned C w c.rights ≡ true → mentions C c w ≡ true
  unfolding mentions
  in_rights c w h = ground arith

  in_fungibles :
      (c : ContractState C) (w : ℕ) → in_assigned C w c.fungibles ≡ true → mentions C c w ≡ true
  unfolding mentions
  in_fungibles c w h = ground arith

  in_structured :
      (c : ContractState C) (w : ℕ) → in_assigned C w c.structured ≡ true → mentions C c w ≡ true
  unfolding mentions
  in_structured c w h = ground arith

  in_attach :
      (c : ContractState C) (w : ℕ) → in_assigned C w c.attach ≡ true → mentions C c w ≡ true
  unfolding mentions
  in_attach c w h = ground arith

  in_global :
      (c : ContractState C) (ty : ℕ) (g : GlobalState C) (w : ℕ)
      → Map.get c.global ty ≡ some g
      → any_of (λ e. is_witness (witness_id e.0.op_witness) w) g.known.entries ≡ true
      → mentions C c w ≡ true
  unfolding mentions
  in_global c ty g w found h =
      let hit : in_globals C w c.global ≡ true =
        get-any (λ g. any_of (λ e. is_witness (witness_id e.0.op_witness) w) g.known.entries)
          c.global ty g found h in
      ground arith

  -- Two views give the same to every read.
  abbrev pub SameReads : ContractView C → ContractView C → Type 0
  SameReads v u =
      ((outpoint ty : ℕ)
        → (rights C v outpoint ty ≡ rights C u outpoint ty)
          × (fungible C v outpoint ty ≡ fungible C u outpoint ty)
          × (structured_at C v outpoint ty ≡ structured_at C u outpoint ty)
          × (attach_at C v outpoint ty ≡ attach_at C u outpoint ty))
      × ((ty : ℕ) → global_items C v ty ≡ global_items C u ty)

  globals_same :
      (c : ContractState C) (ty : ℕ) → global_items C (view_of c) ty ≡ global_items C (whole c) ty
  unfolding global_items Map.get
  globals_same c ty = elim (Option-cases (Map.get c.global ty)) [
    | inl e ↦ rw e refl
    | inr (g, e) ↦
        rw
          (
            e,
            places-Same C (filter_of c) s.witnesses g.known
                (λ w h. kept c w (in_global c ty g w e h)),
          )
          refl
  ]

  assigned_same :
      {State : Type 0} (c : ContractState C) (set : Assigned State) (outpoint ty : ℕ)
      → ((w : ℕ) → in_assigned C w set ≡ true → mentions C c w ≡ true)
      → shown_at C (filter_of c) set outpoint ty ≡ shown_at C s.witnesses set outpoint ty
  assigned_same c set outpoint ty h =
      shown_at-Same C (filter_of c) s.witnesses set outpoint ty (λ w hit. kept c w (h w hit))

  -- For a contract that the state has, `contract_state` gives a view of it, and the rights, the
  -- fungible, the structured and the attached state at each outpoint and the global items of each
  -- type that this view shows are those that all witnesses of the state would show.
  pub contract_state_lem :
      (c : ContractState C)
      → Map.get s.contracts id ≡ some c
      → (v : ContractView C) × (contract_state C s id ≡ ok v)
        × (v.unfiltered ≡ c)
        × SameReads v (whole c)
  unfolding contract_state rights fungible structured_at attach_at
  contract_state_lem c h = (
    view_of c,
    rw (h, contract_state) refl,
    refl,
    (
      (λ o ty. (
        rw (assigned_same c c.rights o ty (in_rights c)) refl,
        rw (assigned_same c c.fungibles o ty (in_fungibles c)) refl,
        rw (assigned_same c c.structured o ty (in_structured c)) refl,
        rw (assigned_same c c.attach o ty (in_attach c)) refl,
      )),
      globals_same c,
    ),
  )
