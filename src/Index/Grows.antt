-- ===== src/Index/Grows.antt =====
-- The relation of an index to one with more in it, and the operations of src/persistence/memory.rs.
use rgb_wallet.Prelude.{
  ℕ, suc, List, [], ◌∷◌, Option, none, some, Result, ok, err, true, ◌≡◌, refl, ◌∙◌, eqb_iff,
  Option-cases, inl, inr, arith,
}
use rgb_wallet.Collections.Map
use rgb_wallet.Collections.Map.{Map, get-insert}
use rgb_wallet.Collections.Set
use rgb_wallet.Collections.Set.{Set, contains-insert, contains-empty}
use rgb_wallet.Collections.Ord.{nat_ord}
use rgb_wallet.Collections.Confinement.{Confinement}
use rgb_wallet.Exec.{resume}
use rgb_wallet.Exec.Laws.{Keeps, Keeps-bind}
use rgb_wallet.Contract.Types.{Opout, opout_ord, Assign}
use rgb_wallet.Index.Defs.{MemIndex, empty_contract, ContractIndex, IndexWriteError}
use rgb_wallet.Index.View.{in_set, witnessed, recorded, public_has, has_contract}
use rgb_wallet.Index.Write.{
  or_default, other, opout_at, seal_of, secret_of, Write, Outputs, register_contract, push_witness,
  put_contract, register_bundle, register_operation, add_output, add_terminal, with_outputs,
  index_output, index_outputs, extend_terminal, extend_terminals, index_assignments,
}

pub record Grows (s t : MemIndex) : Type 0 where
  pub ops : (k b : ℕ) → Map.get s.op_bundle_index k ≡ some b → Map.get t.op_bundle_index k ≡ some b
  pub bundles :
      (k c : ℕ)
      → Map.get s.bundle_contract_index k ≡ some c
      → Map.get t.bundle_contract_index k ≡ some c
  pub witnesses : (k w : ℕ) → witnessed s k w ≡ true → witnessed t k w ≡ true
  pub contracts : (c : ℕ) → has_contract s c ≡ true → has_contract t c ≡ true
  pub outputs : (c o : ℕ) (x : Opout) → recorded s c o x ≡ true → recorded t c o x ≡ true
  pub public : (c : ℕ) (x : Opout) → public_has t c x ≡ public_has s c x

pub Grows-refl : (s : MemIndex) → Grows s s
Grows-refl s = record {
  ops = λ k b h. h;
  bundles = λ k c h. h;
  witnesses = λ k w h. h;
  contracts = λ c h. h;
  outputs = λ c o x h. h;
  public = λ c x. refl;
}

pub Grows-trans : (s t u : MemIndex) → Grows s t → Grows t u → Grows s u
Grows-trans s t u g h = record {
  ops = λ k b e. h.ops k b (g.ops k b e);
  bundles = λ k c e. h.bundles k c (g.bundles k c e);
  witnesses = λ k w e. h.witnesses k w (g.witnesses k w e);
  contracts = λ c e. h.contracts c (g.contracts c e);
  outputs = λ c o x e. h.outputs c o x (g.outputs c o x e);
  public = λ c x. h.public c x ∙ g.public c x;
}

resume-Grows :
    {A B : Type 0} (s : MemIndex) (p : Result IndexWriteError A × MemIndex) (f : Write B)
    → Grows s p.1
    → Grows p.1 (f p.1).1
    → Grows s (resume p (λ _. f)).1
resume-Grows s (ok a, t) f g h = Grows-trans s t _ g h
resume-Grows s (err e, t) f g h = g

-- The steps that change one map each.
module _ (conf : Confinement) where
  pub register_contract-Grows : (id : ℕ) → Keeps Grows (register_contract conf id)
  unfolding register_contract
  register_contract-Grows id s = record {
    ops = λ k c e. ground arith;
    bundles = λ k c e. ground arith;
    witnesses = λ k w e. ground arith;
    contracts =
        λ c e. ground (arith, get-insert s.contract_index id c empty_contract, eqb_iff id c);
    outputs =
        λ c o x e. ground (arith, get-insert s.contract_index id c empty_contract, eqb_iff id c);
    public = λ c x.
        ground
          (arith, get-insert s.contract_index id c empty_contract, eqb_iff id c, contains-empty x);
  }

  push_witness-Grows : (b w : ℕ) → Keeps Grows (push_witness conf b w)
  unfolding push_witness
  push_witness-Grows b w s = record {
    ops = λ k c e. ground arith;
    bundles = λ k c e. ground arith;
    witnesses = λ k v e.
        let set = or_default (Map.get s.bundle_witness_index b) in
        ground (
          arith,
          get-insert s.bundle_witness_index b k set,
          get-insert s.bundle_witness_index b k (Set.insert set w),
          contains-insert set w v,
          eqb_iff b k,
        );
    contracts = λ c e. ground arith;
    outputs = λ c o x e. ground arith;
    public = λ c x. ground arith;
  }

  -- The contract of a bundle is written only where there was none, or the same.
  put_contract-Grows :
      (b c : ℕ) (s : MemIndex)
      → other c (Map.get s.bundle_contract_index b) ≡ none
      → Grows s (put_contract conf b c s).1
  unfolding put_contract
  put_contract-Grows b c s h = record {
    ops = λ k d e. ground arith;
    bundles = λ k d e. ground (arith, get-insert s.bundle_contract_index b k c, eqb_iff b k);
    witnesses = λ k w e. ground arith;
    contracts = λ d e. ground arith;
    outputs = λ d o x e. ground arith;
    public = λ d x. ground arith;
  }

  push_witness-keeps_contracts :
      (b w : ℕ) (s : MemIndex)
      → (push_witness conf b w s).1.bundle_contract_index ≡ s.bundle_contract_index
  unfolding push_witness
  push_witness-keeps_contracts b w s = ground arith

  pub register_bundle-Grows : (b w c : ℕ) → Keeps Grows (register_bundle conf b w c)
  unfolding register_bundle
  register_bundle-Grows b w c s =
      elim (Option-cases (other c (Map.get s.bundle_contract_index b))) [
        | inr (alt, e) ↦ rw (e, register_bundle) (Grows-refl s)
        | inl e ↦
            rw (e, register_bundle)
              (resume-Grows s (push_witness conf b w s) (put_contract conf b c)
                (push_witness-Grows b w s)
                (put_contract-Grows b c (push_witness conf b w s).1
                  (rw (push_witness-keeps_contracts b w s) e)))
      ]

  pub register_operation-Grows : (op b : ℕ) → Keeps Grows (register_operation conf op b)
  unfolding register_operation
  register_operation-Grows op b s = record {
    ops = λ k c e. ground (arith, get-insert s.op_bundle_index op k b, eqb_iff op k);
    bundles = λ k c e. ground arith;
    witnesses = λ k w e. ground arith;
    contracts = λ c e. ground arith;
    outputs = λ c o x e. ground arith;
    public = λ c x. ground arith;
  }

  add_terminal-Grows : (seal : ℕ) (x : Opout) → Keeps Grows (add_terminal conf seal x)
  unfolding add_terminal
  add_terminal-Grows seal x s = record {
    ops = λ k c e. ground arith;
    bundles = λ k c e. ground arith;
    witnesses = λ k w e. ground arith;
    contracts = λ c e. ground arith;
    outputs = λ c o y e. ground arith;
    public = λ c y. ground arith;
  }

-- The outputs of one contract only grow.
pub record GrowsOutputs (m n : Outputs) : Type 0 where
  pub at : (o : ℕ) (x : Opout) → in_set (Map.get m o) x ≡ true → in_set (Map.get n o) x ≡ true

GrowsOutputs-refl : (m : Outputs) → GrowsOutputs m m
GrowsOutputs-refl m = record { at = λ o x h. h }

GrowsOutputs-trans : (m n k : Outputs) → GrowsOutputs m n → GrowsOutputs n k → GrowsOutputs m k
GrowsOutputs-trans m n k g h = record { at = λ o x e. h.at o x (g.at o x e) }

module _ (conf : Confinement) where
  add_output-GrowsOutputs : (o : ℕ) (x : Opout) → Keeps GrowsOutputs (add_output conf o x)
  unfolding add_output
  add_output-GrowsOutputs o x m = record {
    at = λ k y e. elim (Option-cases (Map.get m o)) [
      | inl absent ↦ ground (arith, get-insert m o k (Set.singleton x), eqb_iff o k, absent)
      | inr (set, found) ↦
          ground (
            arith,
            get-insert m o k (Set.insert set x),
            contains-insert set x y,
            eqb_iff o k,
            found,
          )
    ];
  }

  module _ {Seal : Type 0} (output_of : Seal → Option ℕ) where
    index_output-GrowsOutputs :
        (seal : Option Seal) (x : Opout) → Keeps GrowsOutputs (index_output conf output_of seal x)
    unfolding index_output
    index_output-GrowsOutputs none x m = GrowsOutputs-refl m
    index_output-GrowsOutputs (some seal) x m = elim (Option-cases (output_of seal)) [
      | inl e ↦ rw (e, index_output) (GrowsOutputs-refl m)
      | inr (o, e) ↦ rw (e, index_output) (add_output-GrowsOutputs o x m)
    ]

  module _ {Seal State : Type 0} (output_of : Seal → Option ℕ) where
    pub index_outputs-GrowsOutputs :
        (op ty n : ℕ) (vec : List (Assign Seal State))
        → Keeps GrowsOutputs (index_outputs conf output_of op ty n vec)
    unfolding index_outputs
    index_outputs-GrowsOutputs op ty n [] m = GrowsOutputs-refl m
    index_outputs-GrowsOutputs op ty n (a ∷ vec) m =
        let x = opout_at op ty n in
        Keeps-bind GrowsOutputs-refl GrowsOutputs-trans (index_output conf output_of (seal_of a) x)
          (λ _. index_outputs conf output_of op ty (suc n) vec)
          (index_output-GrowsOutputs output_of (seal_of a) x)
          (λ _. index_outputs-GrowsOutputs op ty (suc n) vec) m

  extend_terminal-Grows : (seal : Option ℕ) (x : Opout) → Keeps Grows (extend_terminal conf seal x)
  unfolding extend_terminal
  extend_terminal-Grows none x s = Grows-refl s
  extend_terminal-Grows (some seal) x s = add_terminal-Grows conf seal x s

  -- The contract gets its outputs back, grown.
  outputs_Grows :
      (s : MemIndex) (id : ℕ) (c : ContractIndex) (m : Outputs)
      → Map.get s.contract_index id ≡ some c
      → GrowsOutputs c.outpoint_opouts m
      → Grows s (with_outputs s id c m)
  outputs_Grows s id c m e g =
      let c' = record c { outpoint_opouts = m } in
      record {
        ops = λ k b h. h;
        bundles = λ k d h. h;
        witnesses = λ k w h. h;
        contracts = λ d h. ground (arith, get-insert s.contract_index id d c', eqb_iff id d);
        outputs = λ d o x h.
            ground (arith, get-insert s.contract_index id d c', eqb_iff id d, g.at o x, e);
        public = λ d x. ground (arith, get-insert s.contract_index id d c', eqb_iff id d, e);
      }

  module _ {Seal State : Type 0} where
    pub extend_terminals-Grows :
        (op ty n : ℕ) (vec : List (Assign Seal State))
        → Keeps Grows (extend_terminals conf op ty n vec)
    unfolding extend_terminals
    extend_terminals-Grows op ty n [] s = Grows-refl s
    extend_terminals-Grows op ty n (a ∷ vec) s =
        let x = opout_at op ty n in
        Keeps-bind Grows-refl Grows-trans (extend_terminal conf (secret_of a) x)
          (λ _. extend_terminals conf op ty (suc n) vec) (extend_terminal-Grows (secret_of a) x)
          (λ _. extend_terminals-Grows op ty (suc n) vec) s

    pub index_assignments-Grows :
        (output_of : Seal → Option ℕ) (id : ℕ) (vec : List (Assign Seal State)) (op ty : ℕ)
        → Keeps Grows (index_assignments conf output_of id vec op ty)
    unfolding index_assignments
    index_assignments-Grows output_of id vec op ty s =
        elim (Option-cases (Map.get s.contract_index id)) [
          | inl e ↦ rw (e, index_assignments) (Grows-refl s)
          | inr (c, e) ↦
              let p = index_outputs conf output_of op ty 0 vec c.outpoint_opouts in
              rw (e, index_assignments)
                (resume-Grows s (p.0, with_outputs s id c p.1) (extend_terminals conf op ty 0 vec)
                  (outputs_Grows s id c p.1 e
                    (index_outputs-GrowsOutputs output_of op ty 0 vec c.outpoint_opouts))
                  (extend_terminals-Grows op ty 0 vec (with_outputs s id c p.1)))
        ]
