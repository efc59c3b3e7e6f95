-- ===== src/Index/Front.antt =====
-- `Index<P>` over the in-memory provider (src/persistence/index.rs). A consignment is what the
-- trait `ConsignmentExt` shows of it.
use rgb_wallet.Prelude.{ℕ, List, Result, ok, err, Option}
use rgb_wallet.Collections.Confinement.{Confinement}
use rgb_wallet.Exec.{Exec, ◌>>◌, for_each}
use rgb_wallet.Contract.Types.{
  States, TypedAssigns, declarative, fungible, structured, attachment, Op, Bundle,
}
use rgb_wallet.Index.Defs.{
  MemIndex, IndexInconsistency, IndexWriteError, inconsistency, confinement, panicked,
}
use rgb_wallet.Index.Write
use rgb_wallet.Index.Write.{Write}

-- `IndexError<MemIndex>`
pub data IndexError : Type 0 where
  write_provider : IndexError
  inconsistent : IndexInconsistency → IndexError
  aborted : IndexError

-- `From<IndexWriteError<..>> for IndexError`
abbrev pub from_write : IndexWriteError → IndexError
from_write (inconsistency e) = inconsistent e
from_write confinement = write_provider
from_write panicked = aborted

abbrev pub Front : Type 0 → Type 0
Front = Exec MemIndex IndexError

abbrev pub relabel : {A S : Type 0} → Result IndexWriteError A × S → Result IndexError A × S
relabel (ok a, s) = (ok a, s)
relabel (err e, s) = (err (from_write e), s)

-- `?` on a call of the provider
unfoldable pub call : {A : Type 0} → Write A → Front A
call m s = relabel (m s)

pub record WitnessBundle (S : States) (Seal : Type 0) : Type 0 where
  pub witness_id : ℕ
  pub bundles : List (Bundle S Seal)

pub record Consignment (S : States) (GenesisSeal GraphSeal : Type 0) : Type 0 where
  pub contract_id : ℕ
  pub genesis : Op S GenesisSeal
  pub extensions : List (Op S GenesisSeal)
  pub bundled_witnesses : List (WitnessBundle S GraphSeal)

module _ (conf : Confinement) {S : States} {GenesisSeal : Type 0}
    (to_output_seal : GenesisSeal → Option ℕ) where
  -- The `match` on the kind of assignments; its four branches make the same call.
  unfoldable pub genesis_assigns : ℕ → ℕ → ℕ × TypedAssigns S GenesisSeal → Write (Unit {0})
  unfolding Write.index_genesis_assignments
  genesis_assigns id opid (ty, declarative vec) =
      Write.index_genesis_assignments conf to_output_seal id vec opid ty
  genesis_assigns id opid (ty, fungible vec) =
      Write.index_genesis_assignments conf to_output_seal id vec opid ty
  genesis_assigns id opid (ty, structured vec) =
      Write.index_genesis_assignments conf to_output_seal id vec opid ty
  genesis_assigns id opid (ty, attachment vec) =
      Write.index_genesis_assignments conf to_output_seal id vec opid ty

  unfoldable pub index_genesis : ℕ → Op S GenesisSeal → Front (Unit {0})
  index_genesis id genesis =
      for_each (λ a. call (genesis_assigns id genesis.id a)) genesis.assignments

  unfoldable pub index_extension : ℕ → Op S GenesisSeal → Front (Unit {0})
  index_extension id extension =
      for_each (λ a. call (genesis_assigns id extension.id a)) extension.assignments

module _ (conf : Confinement) {S : States} {GraphSeal : Type 0}
    (try_to_output_seal : GraphSeal → ℕ → Option ℕ) where
  unfoldable pub graph_assigns : ℕ → ℕ → ℕ → ℕ × TypedAssigns S GraphSeal → Write (Unit {0})
  unfolding Write.index_transition_assignments
  graph_assigns id opid witness_id (ty, declarative vec) =
      Write.index_transition_assignments conf try_to_output_seal id vec opid ty witness_id
  graph_assigns id opid witness_id (ty, fungible vec) =
      Write.index_transition_assignments conf try_to_output_seal id vec opid ty witness_id
  graph_assigns id opid witness_id (ty, structured vec) =
      Write.index_transition_assignments conf try_to_output_seal id vec opid ty witness_id
  graph_assigns id opid witness_id (ty, attachment vec) =
      Write.index_transition_assignments conf try_to_output_seal id vec opid ty witness_id

  unfoldable pub index_transition : ℕ → ℕ → ℕ → ℕ × Op S GraphSeal → Front (Unit {0})
  index_transition id bundle_id witness_id (opid, transition) = do
    call (Write.register_operation conf opid bundle_id)
    for_each (λ a. call (graph_assigns id opid witness_id a)) transition.assignments

  unfoldable pub index_bundle : ℕ → Bundle S GraphSeal → ℕ → Front (Unit {0})
  index_bundle id bundle witness_id = do
    call (Write.register_bundle conf bundle.bundle_id witness_id id)
    for_each (index_transition id bundle.bundle_id witness_id) bundle.known_transitions

module _ (conf : Confinement) {S : States} {GenesisSeal GraphSeal : Type 0}
    (to_output_seal : GenesisSeal → Option ℕ) (try_to_output_seal : GraphSeal → ℕ → Option ℕ) where
  unfoldable pub index_consignment : Consignment S GenesisSeal GraphSeal → Front (Unit {0})
  index_consignment c = do
    call (Write.register_contract conf c.contract_id)
    index_genesis conf to_output_seal c.contract_id c.genesis
    for_each (index_extension conf to_output_seal c.contract_id) c.extensions
    for_each
        (λ w.
          for_each (λ b. index_bundle conf try_to_output_seal c.contract_id b w.witness_id)
            w.bundles)
        c.bundled_witnesses
