-- ===== src/Index/Write.antt =====
-- `IndexWriteProvider for MemIndex` (src/persistence/memory.rs). Errors leave behind what was
-- written before them.
use rgb_wallet.Prelude.{
  ℕ, suc, ◌%◌, ◌^◌, List, [], ◌∷◌, Option, none, some, Bool, true, false, if◌then◌else◌, ok, err,
}
use rgb_wallet.Collections.Map
use rgb_wallet.Collections.Map.{Map}
use rgb_wallet.Collections.Set
use rgb_wallet.Collections.Set.{Set}
use rgb_wallet.Collections.Confinement.{Confinement, map_len, set_len}
use rgb_wallet.Collections.Ord.{◌==◌, nat_ord}
use rgb_wallet.Exec.{Exec, pure, resume, ◌>>◌}
use rgb_wallet.Contract.Types.{
  Opout, opout_ord, Assign, confidential, confidential_seal, confidential_state, revealed,
}
use rgb_wallet.Index.Defs.{
  MemIndex, ContractIndex, empty_contract, IndexWriteError, inconsistency, confinement, panicked,
  contract_absent, distinct_bundle_contract, distinct_bundle_op,
}

abbrev pub Write : Type 0 → Type 0
Write = Exec MemIndex IndexWriteError

-- `get(..).filter(|alt| *alt != expected)`
abbrev pub other : ℕ → Option ℕ → Option ℕ
other expected none = none
other expected (some alt) = if alt == expected then none else some alt

abbrev pub or_default : Option (Set ℕ) → Set ℕ
or_default none = Set.empty
or_default (some s) = s

-- `Opout::new(opid, type_id, no as u16)`
abbrev pub opout_at : ℕ → ℕ → ℕ → Opout
opout_at opid ty n = record { op = opid; ty = ty; no = n % 2 ^ 16 }

abbrev pub Outputs : Type 0
Outputs = Map ℕ (Set Opout)

module _ {Seal State : Type 0} where
  -- `if let Assign::ConfidentialState { seal, .. } | Assign::Revealed { seal, .. } = assign`
  unfoldable pub seal_of : Assign Seal State → Option Seal
  seal_of (confidential_state seal _ _) = some seal
  seal_of (revealed seal _ _) = some seal
  seal_of _ = none

  -- `if let Assign::Confidential { seal, .. } | Assign::ConfidentialSeal { seal, .. } = assign`
  unfoldable pub secret_of : Assign Seal State → Option ℕ
  secret_of (confidential seal _ _) = some seal
  secret_of (confidential_seal seal _ _) = some seal
  secret_of _ = none

-- What the mutable reference `index` leaves in the map of contracts.
abbrev pub with_outputs : MemIndex → ℕ → ContractIndex → Outputs → MemIndex
with_outputs s contract_id index outputs = record s {
  contract_index =
      Map.insert s.contract_index contract_id (record index { outpoint_opouts = outputs });
}

module _ (conf : Confinement) where
  unfoldable pub register_contract : ℕ → Write Bool
  register_contract id s = elim (Map.get s.contract_index id) [
    | some _ ↦ (ok false, s)
    | none ↦
        if conf.tiny_full (map_len s.contract_index)
        then (err confinement, s)
        else (ok true, record s { contract_index = Map.insert s.contract_index id empty_contract })
  ]

  -- `bundle_witness_index.entry(bundle_id)?.or_default().push(witness_id)?`
  unfoldable pub push_witness : ℕ → ℕ → Write (Unit {0})
  push_witness bundle_id witness_id s =
      let set = or_default (Map.get s.bundle_witness_index bundle_id) in
      let with_set = λ (w : Set ℕ). record s {
        bundle_witness_index = Map.insert s.bundle_witness_index bundle_id w;
      } in
      if conf.medium_full (map_len s.bundle_witness_index)
      then (err confinement, s)
      else if conf.tiny_full (set_len set)
      then (err confinement, with_set set)
      else (ok tt, with_set (Set.insert set witness_id))

  -- `bundle_contract_index.insert(bundle_id, contract_id)?.is_some()`, negated
  unfoldable pub put_contract : ℕ → ℕ → Write Bool
  put_contract bundle_id contract_id s =
      let present = Map.get s.bundle_contract_index bundle_id in
      if conf.medium_full (map_len s.bundle_contract_index) then (err confinement, s) else (
        ok (elim present [ none ↦ true | some _ ↦ false ]),
        record s {
          bundle_contract_index = Map.insert s.bundle_contract_index bundle_id contract_id;
        },
      )

  unfoldable pub register_bundle : ℕ → ℕ → ℕ → Write Bool
  register_bundle bundle_id witness_id contract_id s =
      elim (other contract_id (Map.get s.bundle_contract_index bundle_id)) [
        | some alt ↦ (err (inconsistency (distinct_bundle_contract bundle_id alt contract_id)), s)
        | none ↦ (do push_witness bundle_id witness_id; put_contract bundle_id contract_id) s
      ]

  unfoldable pub register_operation : ℕ → ℕ → Write Bool
  register_operation opid bundle_id s =
      let present = Map.get s.op_bundle_index opid in
      elim (other bundle_id present) [
        | some alt ↦ (err (inconsistency (distinct_bundle_op opid alt bundle_id)), s)
        | none ↦ if conf.medium_full (map_len s.op_bundle_index) then (err confinement, s) else (
          ok (elim present [ none ↦ true | some _ ↦ false ]),
          record s { op_bundle_index = Map.insert s.op_bundle_index opid bundle_id },
        )
      ]

  -- One round of the loop over `outpoint_opouts`: `push` into the set of the output, or a new set.
  unfoldable pub add_output : ℕ → Opout → Exec Outputs IndexWriteError (Unit {0})
  add_output output opout m = elim (Map.get m output) [
    | some opouts ↦
        if conf.medium_full (set_len opouts)
        then (err confinement, m)
        else (ok tt, Map.insert m output (Set.insert opouts opout))
    | none ↦
        if conf.medium_full (map_len m)
        then (err confinement, m)
        else (ok tt, Map.insert m output (Set.singleton opout))
  ]

  -- `add_terminal`. The set is taken out of the map before it is extended; an insertion that is
  -- refused afterwards is ignored (`let _ =`).
  unfoldable pub add_terminal : ℕ → Opout → Write (Unit {0})
  add_terminal seal opout s =
      let rest = Map.remove s.terminal_index seal in
      let with_set = λ (o : Set Opout). record s { terminal_index = Map.insert rest seal o } in
      elim (Map.get s.terminal_index seal) [
        | some opouts ↦
            if conf.tiny_full (set_len opouts)
            then (err confinement, record s { terminal_index = rest })
            else if conf.medium_full (map_len rest)
            then (ok tt, record s { terminal_index = rest })
            else (ok tt, with_set (Set.insert opouts opout))
        | none ↦
            if conf.medium_full (map_len rest)
            then (err confinement, record s { terminal_index = rest })
            else (ok tt, with_set (Set.singleton opout))
      ]

  module _ {Seal : Type 0} where
    -- The body of the loop. `output_of` converts a seal to an output seal: `to_output_seal` for
    -- genesis seals and `try_to_output_seal` for graph seals; where it fails the code panics.
    unfoldable pub index_output :
        (Seal → Option ℕ) → Option Seal → Opout → Exec Outputs IndexWriteError (Unit {0})
    index_output output_of none opout m = (ok tt, m)
    index_output output_of (some seal) opout m = elim (output_of seal) [
      | none ↦ (err panicked, m)
      | some output ↦ add_output output opout m
    ]

  unfoldable pub extend_terminal : Option ℕ → Opout → Write (Unit {0})
  extend_terminal none opout = pure tt
  extend_terminal (some seal) opout = add_terminal seal opout

  module _ {Seal State : Type 0} where
    -- The loop over `vec.iter().enumerate()`, from the number `n` on.
    unfoldable pub index_outputs :
        (Seal → Option ℕ)
        → ℕ
        → ℕ
        → ℕ
        → List (Assign Seal State)
        → Exec Outputs IndexWriteError (Unit {0})
    index_outputs output_of opid ty n [] = pure tt
    index_outputs output_of opid ty n (a ∷ vec) = do
      index_output output_of (seal_of a) (opout_at opid ty n)
      index_outputs output_of opid ty (suc n) vec

    -- `extend_terminals`, from the number `n` on
    unfoldable pub extend_terminals : ℕ → ℕ → ℕ → List (Assign Seal State) → Write (Unit {0})
    extend_terminals opid ty n [] = pure tt
    extend_terminals opid ty n (a ∷ vec) = do
      extend_terminal (secret_of a) (opout_at opid ty n)
      extend_terminals opid ty (suc n) vec

    -- What both `index_genesis_assignments` and `index_transition_assignments` do; `index` is a
    -- mutable reference into the map of contracts.
    unfoldable pub index_assignments :
        (Seal → Option ℕ) → ℕ → List (Assign Seal State) → ℕ → ℕ → Write (Unit {0})
    index_assignments output_of contract_id vec opid ty s =
        elim (Map.get s.contract_index contract_id) [
          | none ↦ (err (inconsistency (contract_absent contract_id)), s)
          | some index ↦
              let (r, outputs) = index_outputs output_of opid ty 0 vec index.outpoint_opouts in
              resume (r, with_outputs s contract_id index outputs)
                (λ _. extend_terminals opid ty 0 vec)
        ]

    module _ (to_output_seal : Seal → Option ℕ) where
      unfoldable pub index_genesis_assignments :
          ℕ → List (Assign Seal State) → ℕ → ℕ → Write (Unit {0})
      index_genesis_assignments = index_assignments to_output_seal

    module _ (try_to_output_seal : Seal → ℕ → Option ℕ) where
      unfoldable pub index_transition_assignments :
          ℕ → List (Assign Seal State) → ℕ → ℕ → ℕ → Write (Unit {0})
      index_transition_assignments contract_id vec opid ty witness_id =
          index_assignments (λ seal. try_to_output_seal seal witness_id) contract_id vec opid ty
