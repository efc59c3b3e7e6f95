-- ===== src/Anchors.antt =====
-- Public witnesses, anchored bundles and sets of anchors (src/containers/anchors.rs).
pub mod Merge
pub mod Revealed
use rgb_wallet.Prelude.{
  ℕ, List, [], ◌∷◌, map, Option, none, some, Result, ok, err, Bool, true, false, not, ◌||◌, eqb,
  any_of, if◌then◌else◌,
}
use rgb_wallet.Collections.Map
use rgb_wallet.Collections.Map.{Map}
use rgb_wallet.Collections.Confinement.{map_len}
use rgb_wallet.Collections.Ord.{nat_ord}
use rgb_wallet.Contract.Types.{States, Assignments, Op, Bundle}
use rgb_wallet.Contract.MergeReveal.Assigns.{Commitments}
use rgb_wallet.Contract.Reveal.{reveal_seal}

-- `CloseMethod` of the crate `bp`, in its two kinds
pub data CloseMethod : Type 0 where
  opret_first tapret_first : CloseMethod

abbrev pub same_method : CloseMethod → CloseMethod → Bool
same_method opret_first opret_first = true
same_method tapret_first tapret_first = true
same_method _ _ = false

-- What the code takes from other crates: transactions, proofs, anchors with their merges, and states with their
-- commitments
pub record AnchorCore : Type 1 where
  pub states : States
  pub GraphSeal : Type 0
  pub ids : Commitments states GraphSeal
  pub Tx : Type 0
  pub tx_id : Tx → ℕ
  pub MpcProof : Type 0
  pub OpretProof : Type 0
  pub TapretProof : Type 0
  pub known_full : ℕ → Bool
  pub MergeError : Type 0
  pub OpretAnchor : Type 0
  pub TapretAnchor : Type 0
  pub merge_opret : OpretAnchor → OpretAnchor → Result MergeError OpretAnchor
  pub merge_tapret : TapretAnchor → TapretAnchor → Result MergeError TapretAnchor

-- `XChain`
pub data XChain (A : Type 0) : Type 0 where
  bitcoin : A → XChain A
  liquid : A → XChain A

pub data WitnessError : Type 0 where
  txid_mismatch : (self other : ℕ) → WitnessError
  chain_mismatch : (bitcoin liquid : ℕ) → WitnessError

module _ (C : AnchorCore) where
  pub data PubWitness : Type 0 where
    by_txid : ℕ → PubWitness
    by_tx : C.Tx → PubWitness

  unfoldable pub txid : PubWitness → ℕ
  txid (by_txid id) = id
  txid (by_tx tx) = C.tx_id tx

  unfoldable pub tx_of : PubWitness → Option C.Tx
  tx_of (by_txid id) = none
  tx_of (by_tx tx) = some tx

  -- `PubWitness::merge_reveal`: both patterns of its second arm are of a first witness without a transaction.
  unfoldable pub merge_witness : PubWitness → PubWitness → Result WitnessError PubWitness
  merge_witness (by_txid a) (by_txid b) =
      if eqb a b then ok (by_txid a) else err (txid_mismatch a b)
  merge_witness (by_txid a) (by_tx tx) =
      if eqb a (C.tx_id tx) then ok (by_tx tx) else err (txid_mismatch a (C.tx_id tx))
  merge_witness (by_tx a) (by_tx b) =
      if eqb (C.tx_id a) (C.tx_id b)
      then ok (by_tx a)
      else err (txid_mismatch (C.tx_id a) (C.tx_id b))
  merge_witness (by_tx a) (by_txid b) = err (txid_mismatch (C.tx_id a) b)

  abbrev on_chain : {E A B : Type 0} → (A → B) → Result E A → Result E B
  on_chain f (ok a) = ok (f a)
  on_chain f (err e) = err e

  -- `MergeReveal for XPubWitness`
  unfoldable pub merge_xwitness :
      XChain PubWitness → XChain PubWitness → Result WitnessError (XChain PubWitness)
  unfolding txid
  merge_xwitness (bitcoin a) (bitcoin b) = on_chain bitcoin (merge_witness a b)
  merge_xwitness (liquid a) (liquid b) = on_chain liquid (merge_witness a b)
  merge_xwitness (bitcoin a) (liquid b) = err (chain_mismatch (txid a) (txid b))
  merge_xwitness (liquid a) (bitcoin b) = err (chain_mismatch (txid b) (txid a))

  -- `TransitionBundle`, with the method that closes its seals
  pub record ClosedBundle : Type 0 where
    pub close_method : CloseMethod
    pub bundle : Bundle C.states C.GraphSeal

  pub data DbcProof : Type 0 where
    opret_proof : C.OpretProof → DbcProof
    tapret_proof : C.TapretProof → DbcProof

  abbrev pub method_of : DbcProof → CloseMethod
  method_of (opret_proof _) = opret_first
  method_of (tapret_proof _) = tapret_first

  pub record ClientBundle (D : Type 0) : Type 0 where
    pub mpc_proof : C.MpcProof
    pub dbc_proof : D
    pub closed : ClosedBundle

  -- `ClientBundle::new` for a proof with a method; `none` is the panic of its assertion.
  unfoldable pub new_client :
      {D : Type 0} → CloseMethod → C.MpcProof → D → ClosedBundle → Option (ClientBundle D)
  new_client method mpc proof closed =
      if same_method method closed.close_method
      then some (record { mpc_proof = mpc; dbc_proof = proof; closed = closed })
      else none

  -- `ClientBundle::reveal_transition`: an error for a transition that is not in the input map; the answer is
  -- whether it was not known. `none` is the panic of a collection that is full.
  unfoldable pub put_transition :
      ClosedBundle
      → Op C.states C.GraphSeal
      → Option (Op C.states C.GraphSeal)
      → Option (Bool × ClosedBundle)
  put_transition self transition (some old) = some (false, self)
  put_transition self transition none =
      let known : Map ℕ (Op C.states C.GraphSeal) = record {
        entries = self.bundle.known_transitions;
      } in
      if C.known_full (map_len known)
      then none
      else some (
        true,
        record self {
          bundle = record self.bundle {
            known_transitions = (Map.insert known transition.id transition).entries;
          };
        },
      )

  unfoldable pub reveal_transition :
      ClosedBundle → Op C.states C.GraphSeal → Result ℕ (Option (Bool × ClosedBundle))
  reveal_transition self transition =
      if any_of (λ (e : ℕ × ℕ). eqb e.1 transition.id) self.bundle.input_map
      then ok (
          put_transition self transition
            (Map.get (record { entries = self.bundle.known_transitions }) transition.id))
      else err transition.id

  pub data AnchoredBundles : Type 0 where
    tapret : ClientBundle C.TapretProof → AnchoredBundles
    opret : ClientBundle C.OpretProof → AnchoredBundles
    double : ClientBundle C.TapretProof → ClientBundle C.OpretProof → AnchoredBundles

  unfoldable pub bundles : AnchoredBundles → List ClosedBundle
  bundles (tapret t) = t.closed ∷ []
  bundles (opret o) = o.closed ∷ []
  bundles (double t o) = t.closed ∷ o.closed ∷ []

  -- `AnchoredBundles::iter`, an anchor as its two proofs
  unfoldable pub anchors : AnchoredBundles → List ((C.MpcProof × DbcProof) × ClosedBundle)
  anchors (tapret t) = ((t.mpc_proof, tapret_proof t.dbc_proof), t.closed) ∷ []
  anchors (opret o) = ((o.mpc_proof, opret_proof o.dbc_proof), o.closed) ∷ []
  anchors (double t o) =
      ((t.mpc_proof, tapret_proof t.dbc_proof), t.closed)
      ∷ ((o.mpc_proof, opret_proof o.dbc_proof), o.closed)
      ∷ []

  unfoldable pub reveal_in : C.GraphSeal → ClosedBundle → ClosedBundle
  reveal_in seal closed = record closed {
    bundle = record closed.bundle {
      known_transitions =
          map
            (λ (e : ℕ × Op C.states C.GraphSeal). (
              e.0,
              record e.1 {
                assignments = map (λ a. (a.0, reveal_seal C.ids seal a.1)) e.1.assignments;
              },
            ))
            closed.bundle.known_transitions;
    };
  }

  unfoldable pub in_client : {D : Type 0} → C.GraphSeal → ClientBundle D → ClientBundle D
  in_client seal client = record client { closed = reveal_in seal client.closed }

  abbrev pub has_id : {D : Type 0} → ℕ → ClientBundle D → Bool
  has_id bundle_id client = eqb client.closed.bundle.bundle_id bundle_id

  -- `WitnessBundle::reveal_seal` on the anchored bundles: the bundle with that identifier, the tapret one first
  unfoldable pub reveal_anchored : ℕ → C.GraphSeal → AnchoredBundles → Bool × AnchoredBundles
  reveal_anchored id seal (tapret t) =
      if has_id id t then (true, tapret (in_client seal t)) else (false, tapret t)
  reveal_anchored id seal (opret o) =
      if has_id id o then (true, opret (in_client seal o)) else (false, opret o)
  reveal_anchored id seal (double t o) =
      if has_id id t
      then (true, double (in_client seal t) o)
      else if has_id id o
      then (true, double t (in_client seal o))
      else (false, double t o)

  pub data AnchorSet : Type 0 where
    tapret_anchor : C.TapretAnchor → AnchorSet
    opret_anchor : C.OpretAnchor → AnchorSet
    double_anchor : C.TapretAnchor → C.OpretAnchor → AnchorSet

  unfoldable pub has_tapret : AnchorSet → Bool
  has_tapret (tapret_anchor _) = true
  has_tapret (opret_anchor _) = false
  has_tapret (double_anchor _ _) = true

  unfoldable pub has_opret : AnchorSet → Bool
  has_opret (tapret_anchor _) = false
  has_opret (opret_anchor _) = true
  has_opret (double_anchor _ _) = true
