-- ===== src/Lib.antt =====
-- RGB wallet: amounts and their texts, merges of contract operations, the index of a wallet, the
-- state of contracts, the stash, the builders of operations, anchored bundles, and interfaces with their
-- inheritance and their implementations.
--
-- Parts of the program and the files that model them:
--
-- Amounts (invoice/src/amount.rs) are numbers of 64 bits. Invoice.Precision has the decimals and the
-- multipliers of `Precision`; Invoice.Amount the conversions, `split`, `round`, `ceil`, `floor` and the
-- checked and saturating arithmetic, with the wrap-around of `u64` written out; Invoice.CoinAmount
-- `CoinAmount::new`, `with` and `to_amount_unchecked`, where `none` is a panic; Invoice.CoinAmount.Text
-- `Display` and `FromStr` of `CoinAmount` on lists of character codes; Invoice.AmountText those of
-- `Amount`, with the base32 codec of the crate `fast32` as a parameter. Invoice.Decimal has the decimal
-- numerals of the standard library of Rust that both use; printing recurs on the number itself as fuel,
-- and a number has no more digits than its value plus one.
--
-- Operations (src/contract/merge_reveal.rs): Contract.Types has assignments, operations and bundles as
-- far as the code reads them, with states of any four types; Contract.MergeReveal the function
-- `merge_reveal` of each type. Commitments of seals and states are a parameter of the theorems.
--
-- Contract.Reveal has `TypedAssignsExt::reveal_seal` (src/contract/assignments.rs).
--
-- Anchors (src/containers/anchors.rs) has public witnesses, client bundles, anchored bundles and anchor
-- sets; Anchors.Merge the operations that put two of them together. Transactions, proofs and anchors with
-- their merges are those of other crates, the parameter `AnchorCore`; `none` is a panic.
--
-- The index (src/persistence/memory.rs, src/persistence/index.rs) answers which operations assign to an
-- output. Index.Defs has the state `MemIndex` and the errors; Index.Write the operations that change it,
-- as functions of the state that return a result and the state after it (Exec has the monad, Exec.Laws
-- its rules); Index.Read the queries; Index.Front `index_consignment`, which calls them for every part
-- of a consignment. An error keeps the changes made before it. Whether a confined collection is full is
-- a parameter (Collections.Confinement); an order of seals is one of numbers, and the conversion of a
-- seal to an output seal is a parameter that may fail, where the code panics.
--
-- The contract state (src/persistence/memory.rs, src/persistence/state.rs,
-- src/contract/assignments.rs, src/contract/mod.rs): State.Types has `MemState`,
-- `MemContractState`, `OutputAssignment` and what the code takes from `rgb-core`, the record
-- `Core`; State.Assigned and State.Contract `add_operation`, where `none` is a panic; State.Write
-- the writer, `register_contract`, `update_contract`, `select_valid_witness` and
-- `update_from_bundle`; State.Update `update_witnesses` and `update_from_consignment`;
-- State.Committed says when identifiers stand for contents; State.Read the views of
-- `contract_state`; State.GlobalIter the iterator of `global`; State.Evolve `evolve_state`. A set
-- of output assignments is a map from what their equality compares, the operation output and the
-- seal, and its code is that of a release build. A resolver is a function, which gives the same
-- answer to the same witness.
--
-- The stash (src/persistence/memory.rs, src/persistence/stash.rs, src/containers/util.rs): Stash.Types has
-- levels of trust and the fields of `MemStash` that are modelled; Stash.Sigs `get_trust`, `set_trust` and
-- `import_sigs`, where the sizes of `ContentSigs` are parameters; Stash.Operations how geneses, extensions
-- and bundles are merged with those in the stash (`consume_bundle`, and parts of `consume_consignment`);
-- Stash.Kit how schemata, interfaces and implementations come in with a kit (`consume_kit`, up to its
-- supplements and signatures).
--
-- Interfaces (src/interface/iface.rs, src/interface/inheritance.rs): Interface.Types has the
-- declarations; Interface.Check `Iface::check`, with the clock as a parameter; Interface.Extend and
-- Interface.Extend.Ifaces the extension of operations and interfaces, and `inherit`. Names and
-- identifiers are numbers, and the identifier of an interface is a parameter. Schema has the check of
-- schema inheritance. Interface.Implementation (src/interface/iimpl.rs) has `IfaceImpl`, its lookups and
-- its check against an interface and a schema; the counters of repeated names are numbers without a
-- bound, since a set has no more elements than 255.
--
-- Builders (src/interface/builder.rs, with src/containers/seal.rs and `PersistedState` of
-- src/persistence/state.rs): Builder has `OperationBuilder` and its data; Builder.Tags its lookups and
-- asset tags; Builder.Add all that it adds; Builder.Complete `complete`. Builder.Transition and
-- Builder.Issue have `TransitionBuilder` and `ContractBuilder` on top of it, and their Calls modules the
-- methods that change them, with the builders that sequences of calls lead to. A step gives a builder,
-- refuses with an error, or panics. Random values are arguments of the steps. Seals, serialized data,
-- global state, metadata, blinding factors and their balancing, and the sizes of collections are a
-- parameter, the record `BuilderCore`; the code is that of a release build, without debug assertions.
--
-- Ordered maps and sets are sorted lists (Collections.Map, Collections.Set). Prelude has the helpers on
-- tests, lists, results and lists of complaints. Loops are structural recursion over the lists that the
-- code goes through. Examples applies the theorems to concrete values.
--
-- Not modelled: the rest of the stash and the stock (src/persistence), the filtered views of a contract
-- (src/interface), consignments and files (src/containers), invoice URIs
-- (invoice/src/parse.rs), saving to a disk, and serialization.
pub mod Prelude
pub mod Collections
pub mod Exec
pub mod Invoice
pub mod Contract
pub mod Index
pub mod State
pub mod Stash
pub mod Schema
pub mod Interface
pub mod Builder
pub mod Anchors
pub mod Examples
