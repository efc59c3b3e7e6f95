-- ===== src/Builder/Complete/Whole.antt =====
-- The assignments that `OperationBuilder::complete` (src/interface/builder.rs) gives of a well-formed builder.
use rgb_wallet.Prelude.{
  ℕ, ◌+◌, ◌<◌, ◌≤◌, List, [], ◌∷◌, map, Option, none, some, false, All, All-weaken, Option-cases,
  inl, inr, ◌≡◌, refl, ◌∙◌, ap, arith,
}
use rgb_wallet.Collections.Map
use rgb_wallet.Collections.Map.{Map, get-All}
use rgb_wallet.Collections.Map.Ordered.{
  Ascending, with_values, value_of, or_else, get-with_values, overlay-with_values,
  length-with_values,
}
use rgb_wallet.Collections.Set.{Set}
use rgb_wallet.Collections.Confinement.{map_len}
use rgb_wallet.Collections.Ord.{nat_ord}
use rgb_wallet.Contract.Types.{TypedAssigns}
use rgb_wallet.Builder.{
  BuilderCore, RevealedValue, RevealedData, RevealedAttach, BuilderSeal, built, OperationBuilder,
}
use rgb_wallet.Builder.Complete.{
  Inputs, Typed, assign_at, owned_value, owned_data, owned_right, owned_attachment, collect, extend,
  complete,
}
use rgb_wallet.Builder.Complete.Parts.{
  collect_lem, extend_lem, data_lem, attachment_lem, right_lem, AmountsAt, amounts_of, BalancesAt,
  value_lem,
}
use rgb_wallet.Builder.Complete.Kinds.{
  OfClass, declarative-class, fungible-class, structured-class, attachment-class, none-OfClass,
}
use rgb_wallet.Builder.WellFormed.{Fits}
use rgb_wallet.Builder.Invariant.{IsWellFormed}

module _ (C : BuilderCore) where
  -- The collection of assignments is not full before all types of the builder are in it.
  abbrev pub Room : OperationBuilder C → Type 0
  Room self =
      (n : ℕ)
      → n
        < map_len self.fungible
          + (map_len self.structure + (map_len self.rights + map_len self.attachments))
      → C.conf.tiny_full n ≡ false

  -- For each type with amounts, balancing its factors gives a factor for its last amount.
  abbrev pub Balances :
      ((inputs outputs : List C.Blinding) → C.Blinding) → Inputs C → OperationBuilder C → Type 0
  Balances balanced inputs self =
      All (λ e. BalancesAt C balanced inputs e.0 e.1) self.fungible.entries

module _ (C : BuilderCore) (balanced : (inputs outputs : List C.Blinding) → C.Blinding)
    (inputs : Inputs C) where
  abbrev pub values_typed : ℕ → Map (BuilderSeal C) (RevealedValue C) → Typed C
  values_typed id m = TypedAssigns.fungible (amounts_of C balanced inputs id m)

  abbrev pub data_typed : ℕ → Map (BuilderSeal C) (RevealedData C) → Typed C
  data_typed id m = TypedAssigns.structured (map (assign_at C) m.entries)

  abbrev pub rights_typed : ℕ → Set (BuilderSeal C) → Typed C
  rights_typed id s = TypedAssigns.declarative (map (λ seal. assign_at C (seal, tt)) s.elements)

  abbrev pub attachments_typed : ℕ → Map (BuilderSeal C) (RevealedAttach C) → Typed C
  attachments_typed id m = TypedAssigns.attachment (map (assign_at C) m.entries)

  -- The assignments of a type: all that the builder was given of it, in whichever of the maps it is
  abbrev pub assignments_of : OperationBuilder C → ℕ → Option (Typed C)
  assignments_of self ty = or_else (value_of values_typed ty (Map.get self.fungible ty)) (
      or_else (value_of data_typed ty (Map.get self.structure ty)) (
        or_else (value_of rights_typed ty (Map.get self.rights ty))
          (value_of attachments_typed ty (Map.get self.attachments ty))))

  abbrev pub written : OperationBuilder C → ℕ → Option (Typed C)
  written self ty = or_else (value_of attachments_typed ty (Map.get self.attachments ty)) (
      or_else (value_of rights_typed ty (Map.get self.rights ty)) (
        or_else (value_of data_typed ty (Map.get self.structure ty))
          (value_of values_typed ty (Map.get self.fungible ty))))

  module _ (self : OperationBuilder C) (w : IsWellFormed C self) where
    values_class : All (λ e. OfClass self.schema 1 e.0) self.fungible.entries
    values_class =
        All-weaken (λ e (((s, there, kind), _), _). (s, there, fungible-class s kind))
          self.fungible.entries w.fungible_hold.1

    data_class : All (λ e. OfClass self.schema 2 e.0) self.structure.entries
    data_class =
        All-weaken (λ e ((s, there, kind), _). (s, there, structured-class s kind))
          self.structure.entries w.structure_hold.1

    rights_class : All (λ e. OfClass self.schema 0 e.0) self.rights.entries
    rights_class =
        All-weaken (λ e ((s, there, kind), _). (s, there, declarative-class s kind))
          self.rights.entries w.rights_hold.1

    attachments_class : All (λ e. OfClass self.schema 3 e.0) self.attachments.entries
    attachments_class =
        All-weaken (λ e ((s, there, kind), _). (s, there, attachment-class s kind))
          self.attachments.entries w.attachments_hold.1

    -- A type is in one of the maps at most, so the order of writing does not matter.
    written_lem : (ty : ℕ) → written self ty ≡ assignments_of self ty
    written_lem ty = elim (Option-cases (Map.get self.fungible ty)) [
      | inr (v, here) ↦
          let no_data =
            none-OfClass self.schema 1 2 self.fungible self.structure ty v refl values_class
              data_class here in
          let no_rights =
            none-OfClass self.schema 1 0 self.fungible self.rights ty v refl values_class
              rights_class here in
          let no_attachments =
            none-OfClass self.schema 1 3 self.fungible self.attachments ty v refl values_class
              attachments_class here in
          rw (here, no_data, no_rights, no_attachments) refl
      | inl no_values ↦ elim (Option-cases (Map.get self.structure ty)) [
        | inr (v, here) ↦
            let no_rights =
              none-OfClass self.schema 2 0 self.structure self.rights ty v refl data_class
                rights_class here in
            let no_attachments =
              none-OfClass self.schema 2 3 self.structure self.attachments ty v refl data_class
                attachments_class here in
            rw (no_values, here, no_rights, no_attachments) refl
        | inl no_data ↦ elim (Option-cases (Map.get self.rights ty)) [
          | inr (v, here) ↦
              let no_attachments =
                none-OfClass self.schema 0 3 self.rights self.attachments ty v refl rights_class
                  attachments_class here in
              rw (no_values, no_data, here, no_attachments) refl
          | inl no_rights ↦ rw (no_values, no_data, no_rights) (or_else_none _)
        ]
      ]
    ]
      where
        or_else_none : (o : Option (Typed C)) → or_else o none ≡ o
        or_else_none none = refl
        or_else_none (some x) = refl

    values_made :
        (l : List (ℕ × Map (BuilderSeal C) (RevealedValue C)))
        → All (λ e. BalancesAt C balanced inputs e.0 e.1) l
        → All (λ e. Fits C e.1.entries) l
        → All (λ e. AmountsAt C inputs e.0) l
        → All (λ e. owned_value C inputs e ≡ built (e.0, values_typed e.0 e.1)) l
    values_made [] balances fits amounts = tt
    values_made ((id, m) ∷ l) (balance, balances) (fit, fits) (amount, amounts) =
        (value_lem C balanced inputs id m balance amount fit, values_made l balances fits amounts)

    collect_values :
        Balances C balanced inputs self
        → All (λ e. AmountsAt C inputs e.0) self.fungible.entries
        → collect C (owned_value C inputs) self.fungible.entries
          ≡ built (with_values values_typed self.fungible.entries)
    collect_values balances amounts =
        collect_lem C (owned_value C inputs) values_typed self.fungible.entries (
          values_made self.fungible.entries balances
            (All-weaken (λ e (_, (fits, _)). fits) self.fungible.entries w.fungible_hold.1) amounts)

    collect_data :
        collect C (owned_data C) self.structure.entries
        ≡ built (with_values data_typed self.structure.entries)
    collect_data = collect_lem C (owned_data C) data_typed self.structure.entries (
        All-weaken (λ (id, m) (_, (fits, _)). data_lem C id m fits) self.structure.entries
          w.structure_hold.1)

    collect_rights :
        collect C (owned_right C) self.rights.entries
        ≡ built (with_values rights_typed self.rights.entries)
    collect_rights = collect_lem C (owned_right C) rights_typed self.rights.entries (
        All-weaken (λ (id, m) (_, fits). right_lem C id m fits) self.rights.entries w.rights_hold.1)

    collect_attachments :
        collect C (owned_attachment C) self.attachments.entries
        ≡ built (with_values attachments_typed self.attachments.entries)
    collect_attachments =
        collect_lem C (owned_attachment C) attachments_typed self.attachments.entries (
          All-weaken (λ (id, m) (_, (fits, _)). attachment_lem C id m fits) self.attachments.entries
            w.attachments_hold.1)

    -- A map extended by the entries of another, in which a type is found by the other first
    extend_typed :
        {V : Type 0} (h : ℕ → V → Typed C) (m : Map ℕ (Typed C)) (n : Map ℕ V) (limit : ℕ)
        → Ascending n.entries
        → ((k : ℕ) → k < limit → C.conf.tiny_full k ≡ false)
        → map_len m + map_len n ≤ limit
        → (out : Map ℕ (Typed C)) × (extend C m (with_values h n.entries) ≡ built out)
          × ((ty : ℕ) → Map.get out ty ≡ or_else (value_of h ty (Map.get n ty)) (Map.get m ty))
          × (map_len out ≤ map_len m + map_len n)
    extend_typed h m n limit asc room enough =
        let same = length-with_values h n.entries in
        let (out, made, got, size) =
          extend_lem C m (with_values h n.entries)
            (λ k below. room k (ground (arith, below, same, enough))) in
        (
          out,
          made,
          (λ ty. got ty ∙ overlay-with_values h n ty (Map.get m ty) asc),
          ground (arith, size, same),
        )

    pub complete_lem :
        Balances C balanced inputs self
        → Room C self
        → All (λ e. AmountsAt C inputs e.0) self.fungible.entries
        → (out : Map ℕ (Typed C)) × (complete C self inputs ≡ built out)
          × ((ty : ℕ) → Map.get out ty ≡ assignments_of self ty)
    unfolding complete
    complete_lem balances room amounts =
        let limit =
          map_len self.fungible
          + (map_len self.structure + (map_len self.rights + map_len self.attachments)) in
        let values : Map ℕ (Typed C) = record {
          entries = with_values values_typed self.fungible.entries;
        } in
        let start = length-with_values values_typed self.fungible.entries in
        let (a, made_a, got_a, size_a) =
          extend_typed data_typed values self.structure limit w.structure_hold.0 room
            (ground (arith, start)) in
        let (b, made_b, got_b, size_b) =
          extend_typed rights_typed a self.rights limit w.rights_hold.0 room
            (ground (arith, start, size_a)) in
        let (c, made_c, got_c, _) =
          extend_typed attachments_typed b self.attachments limit w.attachments_hold.0 room
            (ground (arith, start, size_a, size_b)) in
        (
          c,
          rw
              (
                collect_values balances amounts,
                collect_data,
                collect_rights,
                collect_attachments,
                made_a,
                made_b,
              )
              made_c,
          λ ty.
              got_c ty
              ∙ (ap (or_else (value_of attachments_typed ty (Map.get self.attachments ty))) (
                    got_b ty
                    ∙ ap (or_else (value_of rights_typed ty (Map.get self.rights ty))) (
                        got_a ty
                        ∙ ap (or_else (value_of data_typed ty (Map.get self.structure ty)))
                            (get-with_values values_typed self.fungible ty)))
                  ∙ written_lem ty),
        )
