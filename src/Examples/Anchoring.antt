-- ===== src/Examples/Anchoring.antt =====
-- Anchored bundles and public witnesses (src/containers/anchors.rs) at concrete values.
use rgb_wallet.Prelude.{
  ℕ, [], ◌∷◌, some, ok, err, true, false, not, ◌&&◌, ◌||◌, eqb, if◌then◌else◌, ◌≡◌, refl,
}
use rgb_wallet.Contract.Types.{confidential_seal, declarative}
use rgb_wallet.Anchors.{
  AnchorCore, opret_first, tapret_first, same_method, txid_mismatch, by_txid, by_tx, txid,
  merge_witness, ClosedBundle, DbcProof, tapret_proof, method_of, ClientBundle, AnchoredBundles,
  opret, double, anchors, reveal_anchored, new_client,
}
use rgb_wallet.Anchors.Merge.{
  shows_tx, fuller, merge_witness_lem, anchor_of, beside, into_double, double_with, into_double_lem,
}
use rgb_wallet.Anchors.Revealed.{Unchanged, reveal_anchored_lem}

abbrev plain : AnchorCore
plain = record {
  states = record { Rights = Unit; Value = ℕ; Structure = ℕ; Attach = ℕ };
  GraphSeal = ℕ;
  ids = record {
    seal_id = λ seal. seal;
    rights_id = λ _. 0;
    value_id = λ n. n;
    structure_id = λ n. n;
    attach_id = λ n. n;
  };
  Tx = ℕ;
  tx_id = λ tx. tx;
  MpcProof = ℕ;
  OpretProof = ℕ;
  TapretProof = ℕ;
  known_full = λ _. false;
  MergeError = Unit;
  OpretAnchor = ℕ;
  TapretAnchor = ℕ;
  merge_opret = λ a b. ok a;
  merge_tapret = λ a b. ok a;
}

-- A transaction is lost to a second witness that has its identifier only.
merge_witness_example : merge_witness plain (by_tx 5) (by_txid 5) ≡ (
    if eqb (txid plain (by_tx 5)) (txid plain (by_txid 5))
      && (not (shows_tx plain (by_tx 5)) || shows_tx plain (by_txid 5))
    then ok (fuller plain (by_tx 5) (by_txid 5))
    else err (txid_mismatch (txid plain (by_tx 5)) (txid plain (by_txid 5))))
merge_witness_example = merge_witness_lem plain (by_tx 5) (by_txid 5)

abbrev spending : ClosedBundle plain
spending = record {
  close_method = tapret_first;
  bundle = record {
    bundle_id = 3;
    input_map = (1, 8) ∷ [];
    known_transitions =
        (8, record { id = 8; assignments = (40, declarative (confidential_seal 6 tt 0 ∷ [])) ∷ [] })
        ∷ [];
  };
}

abbrev empty_bundle : ClosedBundle plain
empty_bundle = record {
  close_method = opret_first;
  bundle = record { bundle_id = 4; input_map = []; known_transitions = [] };
}

abbrev opret_only : AnchoredBundles plain
opret_only = opret (record { mpc_proof = 1; dbc_proof = 2; closed = empty_bundle })

abbrev tapret_client : ClientBundle plain (DbcProof plain)
tapret_client = record { mpc_proof = 11; dbc_proof = tapret_proof 12; closed = spending }

abbrev both_kinds : AnchoredBundles plain
both_kinds =
    double (record { mpc_proof = 11; dbc_proof = 12; closed = spending })
      (record { mpc_proof = 1; dbc_proof = 2; closed = empty_bundle })

doubled_run : into_double plain opret_only tapret_client ≡ some (ok both_kinds)
unfolding into_double double_with new_client
doubled_run = refl

into_double_example :
    (anchors plain both_kinds
      ≡ beside plain tapret_client.dbc_proof
          (anchor_of plain tapret_client)
          (anchors plain opret_only))
    × (same_method (method_of plain tapret_client.dbc_proof) spending.close_method ≡ true)
into_double_example = into_double_lem plain opret_only both_kinds tapret_client doubled_run

reveal_anchored_example : Unchanged plain 3 both_kinds (reveal_anchored plain 3 6 both_kinds)
reveal_anchored_example = reveal_anchored_lem plain 3 6 both_kinds
