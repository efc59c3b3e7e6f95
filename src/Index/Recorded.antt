-- ===== src/Index/Recorded.antt =====
-- What an indexing of assignments has recorded (src/persistence/memory.rs).
use rgb_wallet.Prelude.{
  ℕ, suc, ◌+◌, ◌<◌, ◌≤◌, length, List, [], ◌∷◌, Option, none, some, Bool, true, false, ◌≡◌, refl,
  ap, eqb_iff, arith, Result, ok, err, Option-cases, inl, inr,
}
use rgb_wallet.Collections.Map
use rgb_wallet.Collections.Map.{
  Map, get-insert, get-insert_self, get-remove, length-insert, length-remove,
}
use rgb_wallet.Collections.Set
use rgb_wallet.Collections.Set.{Set, contains-insert, contains-insert_self, contains-singleton_self}
use rgb_wallet.Collections.Ord.{nat_ord}
use rgb_wallet.Collections.Confinement.{Confinement, map_len}
use rgb_wallet.Exec.{resume}
use rgb_wallet.Exec.Laws.{resume-ok}
use rgb_wallet.Contract.Types.{Opout, opout_ord, Assign}
use rgb_wallet.Index.Defs.{MemIndex, ContractIndex, IndexWriteError}
use rgb_wallet.Index.View.{in_set, recorded, terminal}
use rgb_wallet.Index.Write.{
  opout_at, seal_of, secret_of, Outputs, with_outputs, add_output, add_terminal, index_output,
  index_outputs, extend_terminal, extend_terminals, index_assignments, Write,
}
use rgb_wallet.Index.Grows.{Grows, GrowsOutputs, index_outputs-GrowsOutputs, extend_terminals-Grows}

-- What stood under a seal stands there still.
pub record Kept (s t : MemIndex) : Type 0 where
  pub at : (seal : ℕ) (y : Opout) → terminal s seal y ≡ true → terminal t seal y ≡ true

module _ {Seal : Type 0} where
  -- A revealed seal has its output seal, which holds the operation output `x`.
  abbrev pub OutputAt : (Seal → Option ℕ) → (ℕ → Opout → Bool) → Option Seal → Opout → Type 0
  OutputAt output_of held none x = Unit
  OutputAt output_of held (some seal) x = (o : ℕ) × (output_of seal ≡ some o) × (held o x ≡ true)

  OutputAt-weaken :
      (output_of : Seal → Option ℕ) (held held' : ℕ → Opout → Bool) (seal : Option Seal) (x : Opout)
      → ((o : ℕ) (y : Opout) → held o y ≡ true → held' o y ≡ true)
      → OutputAt output_of held seal x
      → OutputAt output_of held' seal x
  OutputAt-weaken output_of held held' none x up h = tt
  OutputAt-weaken output_of held held' (some seal) x up (o, e, h) = (o, e, up o x h)

module _ {Seal State : Type 0} where
  -- So for every assignment of the list, numbered from `n` on.
  abbrev pub OutputsFrom :
      (Seal → Option ℕ) → (ℕ → Opout → Bool) → ℕ → ℕ → ℕ → List (Assign Seal State) → Type 0
  OutputsFrom output_of held op ty n [] = Unit
  OutputsFrom output_of held op ty n (a ∷ vec) =
      OutputAt output_of held (seal_of a) (opout_at op ty n)
      × OutputsFrom output_of held op ty (suc n) vec

  pub OutputsFrom-weaken :
      (output_of : Seal → Option ℕ) (held held' : ℕ → Opout → Bool) (op ty n : ℕ)
      (vec : List (Assign Seal State))
      → ((o : ℕ) (y : Opout) → held o y ≡ true → held' o y ≡ true)
      → OutputsFrom output_of held op ty n vec
      → OutputsFrom output_of held' op ty n vec
  OutputsFrom-weaken output_of held held' op ty n [] up h = tt
  OutputsFrom-weaken output_of held held' op ty n (a ∷ vec) up (h, hs) = (
    OutputAt-weaken output_of held held' (seal_of a) (opout_at op ty n) up h,
    OutputsFrom-weaken output_of held held' op ty (suc n) vec up hs,
  )

abbrev pub SecretAt : (ℕ → Opout → Bool) → Option ℕ → Opout → Type 0
SecretAt held none x = Unit
SecretAt held (some seal) x = held seal x ≡ true

module _ {Seal State : Type 0} where
  -- Every concealed seal of the list holds the operation output.
  abbrev pub SecretsFrom : (ℕ → Opout → Bool) → ℕ → ℕ → ℕ → List (Assign Seal State) → Type 0
  SecretsFrom held op ty n [] = Unit
  SecretsFrom held op ty n (a ∷ vec) =
      SecretAt held (secret_of a) (opout_at op ty n) × SecretsFrom held op ty (suc n) vec

after_outputs :
    (s t : MemIndex) (id : ℕ) (c : ContractIndex) (p : Result IndexWriteError (Unit {0}) × Outputs)
    (f : Unit {0} → Write (Unit {0}))
    → resume (p.0, with_outputs s id c p.1) f ≡ (ok tt, t)
    → (n : Outputs) × (p ≡ (ok tt, n)) × (f tt (with_outputs s id c n) ≡ (ok tt, t))
after_outputs s t id c (ok u, n) f h = (n, refl, h)
after_outputs s t id c (err e, n) f h = cc

recorded-with_outputs :
    (s : MemIndex) (id : ℕ) (c : ContractIndex) (n : Outputs) (o : ℕ) (x : Opout)
    → in_set (Map.get n o) x ≡ true
    → recorded (with_outputs s id c n) id o x ≡ true
recorded-with_outputs s id c n o x h =
    rw (get-insert_self s.contract_index id (record c { outpoint_opouts = n })) h

module _ (conf : Confinement) where
  add_output_lem :
      (o : ℕ) (x : Opout) (m n : Outputs)
      → add_output conf o x m ≡ (ok tt, n)
      → in_set (Map.get n o) x ≡ true
  unfolding add_output
  add_output_lem o x m n h = elim (Option-cases (Map.get m o)) [
    | inl absent ↦ ground (arith, get-insert_self m o (Set.singleton x), contains-singleton_self x)
    | inr (set, found) ↦
        ground (arith, get-insert_self m o (Set.insert set x), contains-insert_self set x)
  ]

  module _ {Seal : Type 0} (output_of : Seal → Option ℕ) where
    index_output_lem :
        (seal : Option Seal) (x : Opout) (m n : Outputs)
        → index_output conf output_of seal x m ≡ (ok tt, n)
        → OutputAt output_of (λ o y. in_set (Map.get n o) y) seal x
    unfolding index_output
    index_output_lem none x m n h = tt
    index_output_lem (some seal) x m n h = elim (Option-cases (output_of seal)) [
      | inl e ↦ cc (rw (e, index_output) at h)
      | inr (o, e) ↦ (o, e, add_output_lem o x m n (rw (e, index_output) at h))
    ]

  module _ {Seal State : Type 0} (output_of : Seal → Option ℕ) where
    index_outputs_lem :
        (op ty k : ℕ) (vec : List (Assign Seal State)) (m n : Outputs)
        → index_outputs conf output_of op ty k vec m ≡ (ok tt, n)
        → OutputsFrom output_of (λ o y. in_set (Map.get n o) y) op ty k vec
    unfolding index_outputs
    index_outputs_lem op ty k [] m n h = tt
    index_outputs_lem op ty k (a ∷ vec) m n h =
        let x = opout_at op ty k in
        let (_, u, first, rest) =
          resume-ok (index_output conf output_of (seal_of a) x m)
            (λ _. index_outputs conf output_of op ty (suc k) vec) tt n h in
        let grown : GrowsOutputs u n =
          rw (ap (λ (p : Result IndexWriteError (Unit {0}) × Outputs). p.1) rest) at
            (index_outputs-GrowsOutputs conf output_of op ty (suc k) vec u) in
        (
          OutputAt-weaken output_of (λ o y. in_set (Map.get u o) y) (λ o y. in_set (Map.get n o) y)
              (seal_of a) x grown.at (index_output_lem output_of (seal_of a) x m u first),
          index_outputs_lem op ty (suc k) vec u n rest,
        )

    -- A success found the contract, recorded the outputs and then the concealed seals.
    parts :
        (id : ℕ) (vec : List (Assign Seal State)) (op ty : ℕ) (s t : MemIndex)
        → index_assignments conf output_of id vec op ty s ≡ (ok tt, t)
        → (c : ContractIndex) × (n : Outputs) × (Map.get s.contract_index id ≡ some c)
          × (index_outputs conf output_of op ty 0 vec c.outpoint_opouts ≡ (ok tt, n))
          × (extend_terminals conf op ty 0 vec (with_outputs s id c n) ≡ (ok tt, t))
    unfolding index_assignments
    parts id vec op ty s t h = elim (Option-cases (Map.get s.contract_index id)) [
      | inl e ↦ cc (rw (e, index_assignments) at h)
      | inr (c, e) ↦
          let (n, first, rest) =
            after_outputs s t id c (index_outputs conf output_of op ty 0 vec c.outpoint_opouts)
              (λ _. extend_terminals conf op ty 0 vec) (rw (e, index_assignments) at h) in
          (c, n, e, first, rest)
    ]

    -- After `index_assignments` succeeds each revealed assignment is recorded at its output seal
    -- in the contract.
    pub index_assignments-outputs :
        (id : ℕ) (vec : List (Assign Seal State)) (op ty : ℕ) (s t : MemIndex)
        → index_assignments conf output_of id vec op ty s ≡ (ok tt, t)
        → OutputsFrom output_of (recorded t id) op ty 0 vec
    index_assignments-outputs id vec op ty s t h =
        let (c, n, e, first, rest) = parts id vec op ty s t h in
        let grown : Grows (with_outputs s id c n) t =
          rw (ap (λ (p : Result IndexWriteError (Unit {0}) × MemIndex). p.1) rest) at
            (extend_terminals-Grows conf op ty 0 vec (with_outputs s id c n)) in
        OutputsFrom-weaken output_of (λ o y. in_set (Map.get n o) y) (recorded t id) op ty 0 vec
          (λ o y k. grown.outputs id o y (recorded-with_outputs s id c n o y k))
          (index_outputs_lem op ty 0 vec c.outpoint_opouts n first)

  -- The terminals, as long as the index of them does not become full.
  add_terminal-terminal :
      (seal : ℕ) (x : Opout) (s t : MemIndex)
      → conf.medium_full (map_len (Map.remove s.terminal_index seal)) ≡ false
      → add_terminal conf seal x s ≡ (ok tt, t)
      → terminal t seal x ≡ true
  unfolding add_terminal
  add_terminal-terminal seal x s t roomy h =
      let rest = Map.remove s.terminal_index seal in
      elim (Option-cases (Map.get s.terminal_index seal)) [
        | inl absent ↦
            ground
              (arith, roomy, get-insert_self rest seal (Set.singleton x), contains-singleton_self x)
        | inr (set, found) ↦
            ground (
              arith,
              roomy,
              get-insert_self rest seal (Set.insert set x),
              contains-insert_self set x,
            )
      ]

  add_terminal-Kept :
      (seal : ℕ) (x : Opout) (s t : MemIndex)
      → conf.medium_full (map_len (Map.remove s.terminal_index seal)) ≡ false
      → add_terminal conf seal x s ≡ (ok tt, t)
      → Kept s t
  unfolding add_terminal
  add_terminal-Kept seal x s t roomy h =
      let rest = Map.remove s.terminal_index seal in
      record {
        at = λ k y e. elim (Option-cases (Map.get s.terminal_index seal)) [
          | inl absent ↦ ground (
            arith,
            roomy,
            get-insert rest seal k (Set.singleton x),
            get-remove s.terminal_index seal k,
            eqb_iff seal k,
          )
          | inr (set, found) ↦ ground (
            arith,
            roomy,
            get-insert rest seal k (Set.insert set x),
            get-remove s.terminal_index seal k,
            contains-insert set x y,
            eqb_iff seal k,
          )
        ];
      }

  add_terminal-size :
      (seal : ℕ) (x : Opout) (s t : MemIndex)
      → conf.medium_full (map_len (Map.remove s.terminal_index seal)) ≡ false
      → add_terminal conf seal x s ≡ (ok tt, t)
      → map_len t.terminal_index ≤ suc (map_len s.terminal_index)
  unfolding add_terminal
  add_terminal-size seal x s t roomy h =
      let rest = Map.remove s.terminal_index seal in
      let less = length-remove s.terminal_index seal in
      elim (Option-cases (Map.get s.terminal_index seal)) [
        | inl absent ↦ ground (arith, roomy, less, length-insert rest seal (Set.singleton x))
        | inr (set, found) ↦ ground (arith, roomy, less, length-insert rest seal (Set.insert set x))
      ]

  -- The index of terminals is not full below a size.
  abbrev pub RoomBelow : ℕ → Type 0
  RoomBelow size = (n : ℕ) → n < size → conf.medium_full n ≡ false

  extend_terminal_lem :
      (seal : Option ℕ) (x : Opout) (s t : MemIndex)
      → RoomBelow (suc (map_len s.terminal_index))
      → extend_terminal conf seal x s ≡ (ok tt, t)
      → SecretAt (terminal t) seal x
        × Kept s t
        × (map_len t.terminal_index ≤ suc (map_len s.terminal_index))
  unfolding extend_terminal
  extend_terminal_lem none x s t room h =
      (tt, record { at = λ k y e. ground (arith, h) }, ground (arith, h))
  extend_terminal_lem (some seal) x s t room h =
      let roomy =
        room (map_len (Map.remove s.terminal_index seal))
          (omega (arith, length-remove s.terminal_index seal)) in
      (
        add_terminal-terminal seal x s t roomy h,
        add_terminal-Kept seal x s t roomy h,
        add_terminal-size seal x s t roomy h,
      )

  SecretAt-weaken :
      (seal : Option ℕ) (x : Opout) (s t : MemIndex)
      → Kept s t
      → SecretAt (terminal s) seal x
      → SecretAt (terminal t) seal x
  SecretAt-weaken none x s t k h = tt
  SecretAt-weaken (some seal) x s t k h = k.at seal x h

  module _ {Seal State : Type 0} where
    extend_terminals_lem :
        (op ty k : ℕ) (vec : List (Assign Seal State)) (s t : MemIndex)
        → RoomBelow (map_len s.terminal_index + length vec)
        → extend_terminals conf op ty k vec s ≡ (ok tt, t)
        → SecretsFrom (terminal t) op ty k vec × Kept s t
    unfolding extend_terminals
    extend_terminals_lem op ty k [] s t room h = (tt, record { at = λ j y e. ground (arith, h) })
    extend_terminals_lem op ty k (a ∷ vec) s t room h =
        let x = opout_at op ty k in
        let (_, u, first, rest) =
          resume-ok (extend_terminal conf (secret_of a) x s)
            (λ _. extend_terminals conf op ty (suc k) vec) tt t h in
        let (here, kept, size) =
          extend_terminal_lem (secret_of a) x s u (λ n below. room n (omega (arith, below)))
            first in
        let (later, kept') =
          extend_terminals_lem op ty (suc k) vec u t
            (λ n below. room n (omega (arith, below, size))) rest in
        (
          (SecretAt-weaken (secret_of a) x u t kept' here, later),
          record { at = λ j y e. kept'.at j y (kept.at j y e) },
        )

    -- Where the index of terminals is not full before it has one seal more for each assignment,
    -- after `index_assignments` succeeds each concealed assignment is found under its seal, and
    -- what was recorded under any seal before is there still.
    pub index_assignments-terminals :
        (output_of : Seal → Option ℕ) (id : ℕ) (vec : List (Assign Seal State)) (op ty : ℕ)
        (s t : MemIndex)
        → RoomBelow (map_len s.terminal_index + length vec)
        → index_assignments conf output_of id vec op ty s ≡ (ok tt, t)
        → SecretsFrom (terminal t) op ty 0 vec × Kept s t
    index_assignments-terminals output_of id vec op ty s t room h =
        let (c, n, e, first, rest) = parts output_of id vec op ty s t h in
        let (found, kept) = extend_terminals_lem op ty 0 vec (with_outputs s id c n) t room rest in
        (found, record { at = kept.at })
