-- ===== src/Index/Consignment.antt =====
-- Indexing a whole consignment (src/persistence/index.rs).
use rgb_wallet.Prelude.{ℕ, Option, true, ◌≡◌, refl, ok, All, All-weaken}
use rgb_wallet.Collections.Ord.{nat_ord}
use rgb_wallet.Collections.Confinement.{Confinement}
use rgb_wallet.Exec.{◌>>◌, for_each}
use rgb_wallet.Exec.Laws.{Keeps, Keeps-bind, Keeps-for_each, for_each-All, resume-ok}
use rgb_wallet.Contract.Types.{States}
use rgb_wallet.Index.Defs.{MemIndex}
use rgb_wallet.Index.View.{has_contract}
use rgb_wallet.Index.Write
use rgb_wallet.Index.Grows.{Grows, Grows-refl, Grows-trans, register_contract-Grows}
use rgb_wallet.Index.Bundles.{register_contract_lem}
use rgb_wallet.Index.Front.{
  Front, call, WitnessBundle, Consignment, index_genesis, index_extension, index_bundle,
  index_consignment,
}
use rgb_wallet.Index.Transitions.{
  after, BundleAt, BundleAt-stable, index_bundle-Grows, index_bundle_lem,
}
use rgb_wallet.Index.Operations.{Keeps-call, call-ok, loop, loop-Grows, loop_lem, OpAt, OpAt-stable}

module _ (conf : Confinement) {S : States} {GenesisSeal GraphSeal : Type 0}
    (to_output_seal : GenesisSeal → Option ℕ) (try_to_output_seal : GraphSeal → ℕ → Option ℕ) where
  bundles : ℕ → WitnessBundle S GraphSeal → Front (Unit {0})
  bundles id w = for_each (λ b. index_bundle conf try_to_output_seal id b w.witness_id) w.bundles

  bundles-Grows : (id : ℕ) (w : WitnessBundle S GraphSeal) → Keeps Grows (bundles id w)
  unfolding bundles
  bundles-Grows id w =
      Keeps-for_each Grows-refl Grows-trans _ w.bundles
        (index_bundle-Grows conf try_to_output_seal id w.witness_id)

  abbrev pub WitnessAt : MemIndex → ℕ → WitnessBundle S GraphSeal → Type 0
  WitnessAt t id w = All (BundleAt conf try_to_output_seal t id w.witness_id) w.bundles

  WitnessAt-stable :
      (id : ℕ) (w : WitnessBundle S GraphSeal) (s t : MemIndex)
      → Grows s t
      → WitnessAt s id w
      → WitnessAt t id w
  WitnessAt-stable id w s t g =
      All-weaken (λ b. BundleAt-stable conf try_to_output_seal id w.witness_id b s t g) w.bundles

  bundles_lem :
      (id : ℕ) (w : WitnessBundle S GraphSeal) (s t : MemIndex)
      → bundles id w s ≡ (ok tt, t)
      → WitnessAt t id w
  unfolding bundles
  bundles_lem id w s t h =
      for_each-All Grows-refl Grows-trans
        (λ b v. BundleAt conf try_to_output_seal v id w.witness_id b)
        (λ b. index_bundle conf try_to_output_seal id b w.witness_id) w.bundles
        (BundleAt-stable conf try_to_output_seal id w.witness_id)
        (index_bundle-Grows conf try_to_output_seal id w.witness_id)
        (index_bundle_lem conf try_to_output_seal id w.witness_id) s t h

  -- What the index holds of a consignment.
  pub record ConsignmentAt (t : MemIndex) (c : Consignment S GenesisSeal GraphSeal) : Type 0 where
    pub registered : has_contract t c.contract_id ≡ true
    pub genesis : OpAt conf to_output_seal t c.contract_id c.genesis
    pub extensions : All (OpAt conf to_output_seal t c.contract_id) c.extensions
    pub witnesses : All (WitnessAt t c.contract_id) c.bundled_witnesses

  -- The four parts of `index_consignment`.
  ending : Consignment S GenesisSeal GraphSeal → Front (Unit {0})
  ending c = do
    for_each (loop conf to_output_seal c.contract_id) c.extensions
    for_each (bundles c.contract_id) c.bundled_witnesses

  operations : Consignment S GenesisSeal GraphSeal → Front (Unit {0})
  operations c = do loop conf to_output_seal c.contract_id c.genesis; ending c

  steps : Consignment S GenesisSeal GraphSeal → Front (Unit {0})
  steps c = do call (Write.register_contract conf c.contract_id); operations c

  steps_lem :
      (c : Consignment S GenesisSeal GraphSeal)
      → index_consignment conf to_output_seal try_to_output_seal c ≡ steps c
  unfolding steps operations ending index_consignment index_genesis index_extension bundles loop
  steps_lem c = refl

  extensions-Grows :
      (c : Consignment S GenesisSeal GraphSeal)
      → Keeps Grows (for_each (loop conf to_output_seal c.contract_id) c.extensions)
  extensions-Grows c =
      Keeps-for_each Grows-refl Grows-trans _ c.extensions
        (loop-Grows conf to_output_seal c.contract_id)

  witnesses-Grows :
      (c : Consignment S GenesisSeal GraphSeal)
      → Keeps Grows (for_each (bundles c.contract_id) c.bundled_witnesses)
  witnesses-Grows c =
      Keeps-for_each Grows-refl Grows-trans _ c.bundled_witnesses (bundles-Grows c.contract_id)

  ending-Grows : (c : Consignment S GenesisSeal GraphSeal) → Keeps Grows (ending c)
  unfolding ending
  ending-Grows c =
      Keeps-bind Grows-refl Grows-trans
        (for_each (loop conf to_output_seal c.contract_id) c.extensions)
        (λ _. for_each (bundles c.contract_id) c.bundled_witnesses) (extensions-Grows c)
        (λ _. witnesses-Grows c)

  operations-Grows : (c : Consignment S GenesisSeal GraphSeal) → Keeps Grows (operations c)
  unfolding operations
  operations-Grows c =
      Keeps-bind Grows-refl Grows-trans (loop conf to_output_seal c.contract_id c.genesis)
        (λ _. ending c) (loop-Grows conf to_output_seal c.contract_id c.genesis)
        (λ _. ending-Grows c)

  steps-Grows : (c : Consignment S GenesisSeal GraphSeal) → Keeps Grows (steps c)
  unfolding steps
  steps-Grows c =
      Keeps-bind Grows-refl Grows-trans (call (Write.register_contract conf c.contract_id))
        (λ _. operations c) (Keeps-call _ (register_contract-Grows conf c.contract_id))
        (λ _. operations-Grows c)

  ending_lem :
      (c : Consignment S GenesisSeal GraphSeal) (s t : MemIndex)
      → ending c s ≡ (ok tt, t)
      → All (OpAt conf to_output_seal t c.contract_id) c.extensions
        × All (WitnessAt t c.contract_id) c.bundled_witnesses
  unfolding ending
  ending_lem c s t h =
      let (_, u, first, rest) =
        resume-ok (for_each (loop conf to_output_seal c.contract_id) c.extensions s)
          (λ _. for_each (bundles c.contract_id) c.bundled_witnesses) tt t h in
      (
        All-weaken
            (λ e.
              OpAt-stable conf to_output_seal c.contract_id e u t
                (after u t rest (witnesses-Grows c u)))
            c.extensions
            (for_each-All Grows-refl Grows-trans (λ e v. OpAt conf to_output_seal v c.contract_id e)
              (loop conf to_output_seal c.contract_id) c.extensions
              (OpAt-stable conf to_output_seal c.contract_id)
              (loop-Grows conf to_output_seal c.contract_id)
              (loop_lem conf to_output_seal c.contract_id) s u first),
        for_each-All Grows-refl Grows-trans (λ w v. WitnessAt v c.contract_id w)
            (bundles c.contract_id) c.bundled_witnesses (WitnessAt-stable c.contract_id)
            (bundles-Grows c.contract_id) (bundles_lem c.contract_id) u t rest,
      )

  operations_lem :
      (c : Consignment S GenesisSeal GraphSeal) (s t : MemIndex)
      → operations c s ≡ (ok tt, t)
      → has_contract s c.contract_id ≡ true
      → ConsignmentAt t c
  unfolding operations
  operations_lem c s t h known =
      let (_, u, first, rest) =
        resume-ok (loop conf to_output_seal c.contract_id c.genesis s) (λ _. ending c) tt t h in
      let early = after s u first (loop-Grows conf to_output_seal c.contract_id c.genesis s) in
      let late = after u t rest (ending-Grows c u) in
      let (extensions, witnesses) = ending_lem c u t rest in
      record {
        registered = late.contracts c.contract_id (early.contracts c.contract_id known);
        genesis =
            OpAt-stable conf to_output_seal c.contract_id c.genesis u t late
              (loop_lem conf to_output_seal c.contract_id c.genesis s u first);
        extensions = extensions;
        witnesses = witnesses;
      }

  steps_known :
      (c : Consignment S GenesisSeal GraphSeal) (s t : MemIndex)
      → steps c s ≡ (ok tt, t)
      → ConsignmentAt t c
  unfolding steps
  steps_known c s t h =
      let (r, u, first, rest) =
        resume-ok (call (Write.register_contract conf c.contract_id) s) (λ _. operations c) tt t
          h in
      operations_lem c u t rest
        (register_contract_lem conf c.contract_id r s u (call-ok _ r s u first))

  -- Whether it succeeds or fails, `index_consignment` takes no bundle, witness, operation,
  -- contract or recorded output back, and leaves the public operation outputs of each contract
  -- unchanged.
  pub index_consignment-Grows :
      (c : Consignment S GenesisSeal GraphSeal) (s : MemIndex)
      → Grows s (index_consignment conf to_output_seal try_to_output_seal c s).1
  index_consignment-Grows c s = rw (steps_lem c) (steps-Grows c s)

  -- After `index_consignment` succeeds, the index has the contract, each bundle with its witness
  -- and its contract, each transition with its bundle, and each revealed assignment of the
  -- genesis, the extensions and the transitions at its output seal.
  pub index_consignment_lem :
      (c : Consignment S GenesisSeal GraphSeal) (s t : MemIndex)
      → index_consignment conf to_output_seal try_to_output_seal c s ≡ (ok tt, t)
      → ConsignmentAt t c
  index_consignment_lem c s t h = steps_known c s t (rw (steps_lem c) at h)
