-- ===== src/Index/Operations.antt =====
-- Indexing the assignments of an operation (src/persistence/index.rs).
use rgb_wallet.Prelude.{ℕ, Option, ◌≡◌, Result, ok, err, All, All-weaken}
use rgb_wallet.Collections.Confinement.{Confinement}
use rgb_wallet.Exec.{for_each}
use rgb_wallet.Exec.Laws.{Keeps, Keeps-for_each, for_each-All}
use rgb_wallet.Contract.Types.{
  States, TypedAssigns, declarative, fungible, structured, attachment, Op,
}
use rgb_wallet.Index.Defs.{MemIndex, IndexWriteError}
use rgb_wallet.Index.View.{recorded}
use rgb_wallet.Index.Write.{Write}
use rgb_wallet.Index.Grows.{Grows, Grows-refl, Grows-trans, index_assignments-Grows}
use rgb_wallet.Index.Recorded.{OutputsFrom, OutputsFrom-weaken, index_assignments-outputs}
use rgb_wallet.Index.Front.{Front, relabel, call, genesis_assigns, graph_assigns}

pub Keeps-call : {A : Type 0} (m : Write A) → Keeps Grows m → Keeps Grows (call m)
unfolding call
Keeps-call {A} m k s = go (m s) (k s)
  where
    go : (p : Result IndexWriteError A × MemIndex) → Grows s p.1 → Grows s (relabel p).1
    go (ok a, t) h = h
    go (err e, t) h = h

pub call-ok :
    {A : Type 0} (m : Write A) (a : A) (s t : MemIndex) → call m s ≡ (ok a, t) → m s ≡ (ok a, t)
unfolding call
call-ok {A} m a s t h = go (m s) h
  where
    go : (p : Result IndexWriteError A × MemIndex) → relabel p ≡ (ok a, t) → p ≡ (ok a, t)
    go (ok b, u) e = cc
    go (err b, u) e = cc

module _ {S : States} {Seal : Type 0} where
  -- The revealed assignments of one type are at their outputs in the contract `id`.
  abbrev pub AssignsAt : (Seal → Option ℕ) → MemIndex → ℕ → ℕ → ℕ × TypedAssigns S Seal → Type 0
  AssignsAt output_of t id op (ty, declarative vec) =
      OutputsFrom output_of (recorded t id) op ty 0 vec
  AssignsAt output_of t id op (ty, fungible vec) = OutputsFrom output_of (recorded t id) op ty 0 vec
  AssignsAt output_of t id op (ty, structured vec) =
      OutputsFrom output_of (recorded t id) op ty 0 vec
  AssignsAt output_of t id op (ty, attachment vec) =
      OutputsFrom output_of (recorded t id) op ty 0 vec

  pub AssignsAt-stable :
      (output_of : Seal → Option ℕ) (id op : ℕ) (a : ℕ × TypedAssigns S Seal) (s t : MemIndex)
      → Grows s t
      → AssignsAt output_of s id op a
      → AssignsAt output_of t id op a
  AssignsAt-stable output_of id op (ty, declarative vec) s t g =
      OutputsFrom-weaken output_of (recorded s id) (recorded t id) op ty 0 vec (g.outputs id)
  AssignsAt-stable output_of id op (ty, fungible vec) s t g =
      OutputsFrom-weaken output_of (recorded s id) (recorded t id) op ty 0 vec (g.outputs id)
  AssignsAt-stable output_of id op (ty, structured vec) s t g =
      OutputsFrom-weaken output_of (recorded s id) (recorded t id) op ty 0 vec (g.outputs id)
  AssignsAt-stable output_of id op (ty, attachment vec) s t g =
      OutputsFrom-weaken output_of (recorded s id) (recorded t id) op ty 0 vec (g.outputs id)

module _ (conf : Confinement) {S : States} {Seal : Type 0} (to_output_seal : Seal → Option ℕ) where
  genesis_assigns-Grows :
      (id op : ℕ) (a : ℕ × TypedAssigns S Seal)
      → Keeps Grows (call (genesis_assigns conf to_output_seal id op a))
  unfolding genesis_assigns
  genesis_assigns-Grows id op (ty, declarative vec) =
      Keeps-call _ (index_assignments-Grows conf to_output_seal id vec op ty)
  genesis_assigns-Grows id op (ty, fungible vec) =
      Keeps-call _ (index_assignments-Grows conf to_output_seal id vec op ty)
  genesis_assigns-Grows id op (ty, structured vec) =
      Keeps-call _ (index_assignments-Grows conf to_output_seal id vec op ty)
  genesis_assigns-Grows id op (ty, attachment vec) =
      Keeps-call _ (index_assignments-Grows conf to_output_seal id vec op ty)

  genesis_assigns_lem :
      (id op : ℕ) (a : ℕ × TypedAssigns S Seal) (s t : MemIndex)
      → call (genesis_assigns conf to_output_seal id op a) s ≡ (ok tt, t)
      → AssignsAt to_output_seal t id op a
  unfolding genesis_assigns
  genesis_assigns_lem id op (ty, declarative vec) s t h =
      index_assignments-outputs conf to_output_seal id vec op ty s t (call-ok _ tt s t h)
  genesis_assigns_lem id op (ty, fungible vec) s t h =
      index_assignments-outputs conf to_output_seal id vec op ty s t (call-ok _ tt s t h)
  genesis_assigns_lem id op (ty, structured vec) s t h =
      index_assignments-outputs conf to_output_seal id vec op ty s t (call-ok _ tt s t h)
  genesis_assigns_lem id op (ty, attachment vec) s t h =
      index_assignments-outputs conf to_output_seal id vec op ty s t (call-ok _ tt s t h)

  -- The loop over the assignments of a genesis or an extension.
  unfoldable pub loop : ℕ → Op S Seal → Front (Unit {0})
  loop id op = for_each (λ a. call (genesis_assigns conf to_output_seal id op.id a)) op.assignments

  pub loop-Grows : (id : ℕ) (op : Op S Seal) → Keeps Grows (loop id op)
  unfolding loop
  loop-Grows id op =
      Keeps-for_each Grows-refl Grows-trans _ op.assignments (genesis_assigns-Grows id op.id)

  abbrev pub OpAt : MemIndex → ℕ → Op S Seal → Type 0
  OpAt t id op = All (AssignsAt to_output_seal t id op.id) op.assignments

  pub OpAt-stable :
      (id : ℕ) (op : Op S Seal) (s t : MemIndex) → Grows s t → OpAt s id op → OpAt t id op
  OpAt-stable id op s t g =
      All-weaken (λ a. AssignsAt-stable to_output_seal id op.id a s t g) op.assignments

  pub loop_lem :
      (id : ℕ) (op : Op S Seal) (s t : MemIndex) → loop id op s ≡ (ok tt, t) → OpAt t id op
  unfolding loop
  loop_lem id op s t h =
      for_each-All Grows-refl Grows-trans (λ a u. AssignsAt to_output_seal u id op.id a)
        (λ a. call (genesis_assigns conf to_output_seal id op.id a)) op.assignments
        (AssignsAt-stable to_output_seal id op.id) (genesis_assigns-Grows id op.id)
        (genesis_assigns_lem id op.id) s t h

module _ (conf : Confinement) {S : States} {Seal : Type 0}
    (try_to_output_seal : Seal → ℕ → Option ℕ) where
  pub graph_assigns-Grows :
      (id op w : ℕ) (a : ℕ × TypedAssigns S Seal)
      → Keeps Grows (call (graph_assigns conf try_to_output_seal id op w a))
  unfolding graph_assigns
  graph_assigns-Grows id op w (ty, declarative vec) =
      Keeps-call _ (index_assignments-Grows conf (λ z. try_to_output_seal z w) id vec op ty)
  graph_assigns-Grows id op w (ty, fungible vec) =
      Keeps-call _ (index_assignments-Grows conf (λ z. try_to_output_seal z w) id vec op ty)
  graph_assigns-Grows id op w (ty, structured vec) =
      Keeps-call _ (index_assignments-Grows conf (λ z. try_to_output_seal z w) id vec op ty)
  graph_assigns-Grows id op w (ty, attachment vec) =
      Keeps-call _ (index_assignments-Grows conf (λ z. try_to_output_seal z w) id vec op ty)

  pub graph_assigns_lem :
      (id op w : ℕ) (a : ℕ × TypedAssigns S Seal) (s t : MemIndex)
      → call (graph_assigns conf try_to_output_seal id op w a) s ≡ (ok tt, t)
      → AssignsAt (λ z. try_to_output_seal z w) t id op a
  unfolding graph_assigns
  graph_assigns_lem id op w (ty, declarative vec) s t h =
      index_assignments-outputs conf (λ z. try_to_output_seal z w) id vec op ty s t
        (call-ok _ tt s t h)
  graph_assigns_lem id op w (ty, fungible vec) s t h =
      index_assignments-outputs conf (λ z. try_to_output_seal z w) id vec op ty s t
        (call-ok _ tt s t h)
  graph_assigns_lem id op w (ty, structured vec) s t h =
      index_assignments-outputs conf (λ z. try_to_output_seal z w) id vec op ty s t
        (call-ok _ tt s t h)
  graph_assigns_lem id op w (ty, attachment vec) s t h =
      index_assignments-outputs conf (λ z. try_to_output_seal z w) id vec op ty s t
        (call-ok _ tt s t h)
