-- ===== src/Anchors/Merge.antt =====
-- `AnchorSet::merge_reveal`, `WitnessBundle::into_double` and their laws (src/containers/anchors.rs).
use rgb_wallet.Prelude.{
  List, [], ◌∷◌, ◌++◌, Option, some, Result, ok, err, ◌>>=◌, Bool, true, false, not, ◌&&◌, ◌||◌,
  eqb, eqb_iff, if◌then◌else◌, ◌≡◌, refl, sym, arith, Bool-cases, inl, inr,
}
use mathlib.Core.Option
use rgb_wallet.Anchors.{
  AnchorCore, ClosedBundle, method_of, anchors, CloseMethod, opret_first, tapret_first, same_method,
  txid_mismatch, PubWitness, by_txid, by_tx, txid, merge_witness, DbcProof, opret_proof,
  tapret_proof, ClientBundle, new_client, AnchoredBundles, tapret, opret, double, AnchorSet,
  tapret_anchor, opret_anchor, double_anchor, has_tapret, has_opret,
}

-- `AnchoredBundleMismatch`, for the witness of the bundle
pub data Mismatch : Type 0 where
  already_double same_bundle_type : Mismatch

module _ (C : AnchorCore) where
  -- `From<ClientBundle> for AnchoredBundles`; `none` is a panic
  unfoldable pub from_client : ClientBundle C (DbcProof C) → Option (AnchoredBundles C)
  from_client client = elim client.dbc_proof [
    | opret_proof proof ↦
        Option.map opret (new_client C opret_first client.mpc_proof proof client.closed)
    | tapret_proof proof ↦
        Option.map tapret (new_client C tapret_first client.mpc_proof proof client.closed)
  ]

  -- `WitnessBundle::into_double` on the anchored bundles; `none` is a panic
  unfoldable pub double_with :
      AnchoredBundles C
      → DbcProof C
      → ClientBundle C (DbcProof C)
      → Option (Result Mismatch (AnchoredBundles C))
  double_with (double t o) proof other = some (err already_double)
  double_with (opret o) (tapret_proof proof) other =
      Option.map (λ t. ok (double t o))
        (new_client C tapret_first other.mpc_proof proof other.closed)
  double_with (tapret t) (opret_proof proof) other =
      Option.map (λ o. ok (double t o))
        (new_client C opret_first other.mpc_proof proof other.closed)
  double_with (opret o) (opret_proof proof) other = some (err same_bundle_type)
  double_with (tapret t) (tapret_proof proof) other = some (err same_bundle_type)

  unfoldable pub into_double :
      AnchoredBundles C → ClientBundle C (DbcProof C) → Option (Result Mismatch (AnchoredBundles C))
  into_double self other = double_with self other.dbc_proof other

  unfoldable pub merge_set : AnchorSet C → AnchorSet C → Result C.MergeError (AnchorSet C)
  merge_set (tapret_anchor a) (tapret_anchor b) = do t ← C.merge_tapret a b; ok (tapret_anchor t)
  merge_set (opret_anchor a) (opret_anchor b) = do o ← C.merge_opret a b; ok (opret_anchor o)
  merge_set (tapret_anchor t) (opret_anchor o) = ok (double_anchor t o)
  merge_set (opret_anchor o) (tapret_anchor t) = ok (double_anchor t o)
  merge_set (double_anchor a o) (tapret_anchor b) = do
    t ← C.merge_tapret a b
    ok (double_anchor t o)
  merge_set (tapret_anchor b) (double_anchor a o) = do
    t ← C.merge_tapret a b
    ok (double_anchor t o)
  merge_set (double_anchor t a) (opret_anchor b) = do o ← C.merge_opret a b; ok (double_anchor t o)
  merge_set (opret_anchor b) (double_anchor t a) = do o ← C.merge_opret a b; ok (double_anchor t o)
  merge_set (double_anchor a c) (double_anchor b d) = do
    t ← C.merge_tapret a b
    o ← C.merge_opret c d
    ok (double_anchor t o)

  abbrev pub shows_tx : PubWitness C → Bool
  shows_tx (by_txid _) = false
  shows_tx (by_tx _) = true

  -- The witness of two that has a transaction, the first one if both have
  abbrev pub fuller : PubWitness C → PubWitness C → PubWitness C
  fuller a b = if shows_tx a then a else b

  -- A merge of two public witnesses gives the one that has the transaction, the first one if both
  -- have, where the identifiers are the same, and fails where they differ and also where only the
  -- first one has the transaction.
  pub merge_witness_lem :
      (a b : PubWitness C)
      → merge_witness C a b ≡ (
          if eqb (txid C a) (txid C b) && (not (shows_tx a) || shows_tx b)
          then ok (fuller a b)
          else err (txid_mismatch (txid C a) (txid C b)))
  unfolding merge_witness txid
  merge_witness_lem (by_txid a) (by_txid b) = ground (arith, eqb_iff a b)
  merge_witness_lem (by_txid a) (by_tx b) = ground arith
  merge_witness_lem (by_tx a) (by_tx b) = ground arith
  merge_witness_lem (by_tx a) (by_txid b) = ground arith

  pub merge_set-has :
      (a b c : AnchorSet C)
      → merge_set a b ≡ ok c
      → (has_tapret C c ≡ (has_tapret C a || has_tapret C b))
        × (has_opret C c ≡ (has_opret C a || has_opret C b))
  unfolding merge_set has_tapret has_opret
  merge_set-has (tapret_anchor a) (tapret_anchor b) c h = ground (arith, h)
  merge_set-has (opret_anchor a) (opret_anchor b) c h = ground (arith, h)
  merge_set-has (tapret_anchor t) (opret_anchor o) c h = ground (arith, h)
  merge_set-has (opret_anchor o) (tapret_anchor t) c h = ground (arith, h)
  merge_set-has (double_anchor a o) (tapret_anchor b) c h = ground (arith, h)
  merge_set-has (tapret_anchor b) (double_anchor a o) c h = ground (arith, h)
  merge_set-has (double_anchor t a) (opret_anchor b) c h = ground (arith, h)
  merge_set-has (opret_anchor b) (double_anchor t a) c h = ground (arith, h)
  merge_set-has (double_anchor a c1) (double_anchor b d) c h = ground (arith, h)

  -- The anchor of a client bundle, with its bundle
  abbrev pub anchor_of : ClientBundle C (DbcProof C) → (C.MpcProof × DbcProof C) × ClosedBundle C
  anchor_of client = ((client.mpc_proof, client.dbc_proof), client.closed)

  -- The other anchor before the one of opret, or after the one of tapret
  abbrev pub beside :
      DbcProof C
      → (C.MpcProof × DbcProof C) × ClosedBundle C
      → List ((C.MpcProof × DbcProof C) × ClosedBundle C)
      → List ((C.MpcProof × DbcProof C) × ClosedBundle C)
  beside (tapret_proof _) anchor rest = anchor ∷ rest
  beside (opret_proof _) anchor rest = rest ++ anchor ∷ []

  abbrev doubled : AnchoredBundles C → Result Mismatch (AnchoredBundles C)
  doubled b = ok b

  matched :
      {D : Type 0} (method : CloseMethod) (mpc : C.MpcProof) (proof : D) (closed : ClosedBundle C)
      (f : ClientBundle C D → AnchoredBundles C) (next : AnchoredBundles C)
      → Option.map (λ c. doubled (f c)) (new_client C method mpc proof closed) ≡ some (doubled next)
      → (f (record { mpc_proof = mpc; dbc_proof = proof; closed = closed }) ≡ next)
        × (same_method method closed.close_method ≡ true)
  unfolding new_client
  matched method mpc proof closed f next h =
      elim (Bool-cases (same_method method closed.close_method)) [
        | inl same ↦ ground (arith, same, h)
        | inr differ ↦ ground (arith, differ, h)
      ]

  double_with_lem :
      (self next : AnchoredBundles C) (proof : DbcProof C) (other : ClientBundle C (DbcProof C))
      → double_with self proof other ≡ some (ok next)
      → (anchors C next ≡ beside proof ((other.mpc_proof, proof), other.closed) (anchors C self))
        × (same_method (method_of C proof) other.closed.close_method ≡ true)
  unfolding double_with anchors
  double_with_lem (double t o) next proof other h = cc
  double_with_lem (opret o) next (tapret_proof proof) other h =
      let (made, same) =
        matched tapret_first other.mpc_proof proof other.closed (λ t. double t o) next h in
      (rw (sym made) refl, same)
  double_with_lem (tapret t) next (opret_proof proof) other h =
      let (made, same) =
        matched opret_first other.mpc_proof proof other.closed (λ o. double t o) next h in
      (rw (sym made) refl, same)
  double_with_lem (opret o) next (opret_proof proof) other h = cc
  double_with_lem (tapret t) next (tapret_proof proof) other h = cc

  -- After `into_double` succeeds, the bundle is closed by the method of its proof, and the anchors
  -- are those that were there with the one of the other bundle, the tapret one first.
  pub into_double_lem :
      (self next : AnchoredBundles C) (other : ClientBundle C (DbcProof C))
      → into_double self other ≡ some (ok next)
      → (anchors C next ≡ beside other.dbc_proof (anchor_of other) (anchors C self))
        × (same_method (method_of C other.dbc_proof) other.closed.close_method ≡ true)
  unfolding into_double
  into_double_lem self next other h = double_with_lem self next other.dbc_proof other h
