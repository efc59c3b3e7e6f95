-- ===== src/State/Grows/Contract.antt =====
-- What a contract state keeps and gets when operations are added (src/persistence/memory.rs).
use rgb_wallet.Prelude.{ℕ, some, ◌≡◌, refl, sym, ◌∙◌, Bool-cases, inl, inr, some-injective}
use rgb_wallet.Collections.Map
use rgb_wallet.Collections.Map.{Map, get-insert}
use rgb_wallet.Collections.Ord.{nat_ord, ◌==◌}
use rgb_wallet.State.Types.{Core, place_ord, Assigned, global_ord, GlobalState, ContractState}
use rgb_wallet.Collections.Growth.{MapGrows, KeysGrow, MapGrows-trans}

module _ (C : Core) where
  -- A set of assignments holds what it held; so does each global type, at what are keys before.
  abbrev pub GlobalGrows : GlobalState C → GlobalState C → Type 0
  GlobalGrows a b = (a.limit ≡ b.limit) × KeysGrow a.known b.known

  pub record ContractGrows (s t : ContractState C) : Type 0 where
    pub same_schema : s.schema_id ≡ t.schema_id
    pub same_contract : s.contract_id ≡ t.contract_id
    pub more_global :
        (ty : ℕ) (g : GlobalState C)
        → Map.get s.global ty ≡ some g
        → (h : GlobalState C) × (Map.get t.global ty ≡ some h) × GlobalGrows g h
    pub more_rights : MapGrows s.rights t.rights
    pub more_fungibles : MapGrows s.fungibles t.fungibles
    pub more_structured : MapGrows s.structured t.structured
    pub more_attach : MapGrows s.attach t.attach

  pub ContractGrows-refl : (s : ContractState C) → ContractGrows s s
  ContractGrows-refl s = record {
    same_schema = refl;
    same_contract = refl;
    more_global = λ ty g h. (g, h, (refl, (λ k v e. (v, e))));
    more_rights = λ p b h. h;
    more_fungibles = λ p b h. h;
    more_structured = λ p b h. h;
    more_attach = λ p b h. h;
  }

  pub ContractGrows-trans :
      (s t u : ContractState C) → ContractGrows s t → ContractGrows t u → ContractGrows s u
  ContractGrows-trans s t u a b = record {
    same_schema = a.same_schema ∙ b.same_schema;
    same_contract = a.same_contract ∙ b.same_contract;
    more_global = λ ty g h.
        let (g', h', (l, k)) = a.more_global ty g h in
        let (g'', h'', (l', k')) = b.more_global ty g' h' in
        (g'', h'', (l ∙ l', (λ out v e. let (w, found) = k out v e in k' out w found)));
    more_rights = MapGrows-trans _ _ _ a.more_rights b.more_rights;
    more_fungibles = MapGrows-trans _ _ _ a.more_fungibles b.more_fungibles;
    more_structured = MapGrows-trans _ _ _ a.more_structured b.more_structured;
    more_attach = MapGrows-trans _ _ _ a.more_attach b.more_attach;
  }

  pub with_rights :
      (s : ContractState C) (m : Assigned C.states.Rights)
      → MapGrows s.rights m
      → ContractGrows s (record s { rights = m })
  with_rights s m g =
      let same = ContractGrows-refl s in
      record {
        same_schema = refl;
        same_contract = refl;
        more_global = same.more_global;
        more_rights = g;
        more_fungibles = same.more_fungibles;
        more_structured = same.more_structured;
        more_attach = same.more_attach;
      }

  pub with_fungibles :
      (s : ContractState C) (m : Assigned C.states.Value)
      → MapGrows s.fungibles m
      → ContractGrows s (record s { fungibles = m })
  with_fungibles s m g =
      let same = ContractGrows-refl s in
      record {
        same_schema = refl;
        same_contract = refl;
        more_global = same.more_global;
        more_rights = same.more_rights;
        more_fungibles = g;
        more_structured = same.more_structured;
        more_attach = same.more_attach;
      }

  pub with_structured :
      (s : ContractState C) (m : Assigned C.states.Structure)
      → MapGrows s.structured m
      → ContractGrows s (record s { structured = m })
  with_structured s m g =
      let same = ContractGrows-refl s in
      record {
        same_schema = refl;
        same_contract = refl;
        more_global = same.more_global;
        more_rights = same.more_rights;
        more_fungibles = same.more_fungibles;
        more_structured = g;
        more_attach = same.more_attach;
      }

  pub with_attach :
      (s : ContractState C) (m : Assigned C.states.Attach)
      → MapGrows s.attach m
      → ContractGrows s (record s { attach = m })
  with_attach s m g =
      let same = ContractGrows-refl s in
      record {
        same_schema = refl;
        same_contract = refl;
        more_global = same.more_global;
        more_rights = same.more_rights;
        more_fungibles = same.more_fungibles;
        more_structured = same.more_structured;
        more_attach = g;
      }

  pub with_global :
      (s : ContractState C) (ty : ℕ) (a b : GlobalState C)
      → Map.get s.global ty ≡ some a
      → GlobalGrows a b
      → ContractGrows s (record s { global = Map.insert s.global ty b })
  with_global s ty a b at_ty grows =
      let same = ContractGrows-refl s in
      record {
        same_schema = refl;
        same_contract = refl;
        more_global = more;
        more_rights = same.more_rights;
        more_fungibles = same.more_fungibles;
        more_structured = same.more_structured;
        more_attach = same.more_attach;
      }
    where
      more :
          (k : ℕ) (g : GlobalState C)
          → Map.get s.global k ≡ some g
          → (h : GlobalState C) × (Map.get (Map.insert s.global ty b) k ≡ some h) × GlobalGrows g h
      more k g h = elim (Bool-cases (ty == k)) [
        | inl same ↦ (
          b,
          get-insert s.global ty k b ∙ rw same refl,
          rw (some-injective a g (sym at_ty ∙ (rw ((nat_ord.eq_iff ty k).0 same) h))) at grows,
        )
        | inr other ↦ (g, get-insert s.global ty k b ∙ rw other h, (refl, (λ o v e. (v, e))))
      ]
