-- ===== src/State/Grows.antt =====
-- What a set of assignments keeps and gets when assignments are added (src/persistence/memory.rs).
pub mod Contract
pub mod Outputs
pub mod Added
use mathlib.Core.Option
use mathlib.Core.Path.{subst}
use rgb_wallet.Prelude.{
  ℕ, suc, List, [], ◌∷◌, Option, none, some, Bool, true, false, if◌then◌else◌, ◌≡◌, refl,
  some-injective, none-ne-some, chain-some, sym, ◌∙◌, ap, arith, Option-cases, Bool-cases, inl, inr,
}
use rgb_wallet.Collections.Growth.{MapGrows, MapGrows-trans}
use rgb_wallet.Collections.Map
use rgb_wallet.Collections.Map.{Map, get-insert}
use rgb_wallet.Collections.Ord.{Ord, nat_ord, ◌==◌, ==_refl}
use rgb_wallet.Collections.Confinement.{Confinement, map_len}
use rgb_wallet.Contract.Types.{
  Assign, TypedAssigns, declarative, fungible, structured, attachment, Assignments,
}
use rgb_wallet.State.Types.{
  Core, OutputAssignment, Place, place_of, place_ord, Assigned, GlobalOut, global_ord, GlobalState,
  ContractState, AssignmentsRef, genesis_assigns, graph_assigns, Operation, OrdOp,
}
use rgb_wallet.State.Assigned.{
  to_revealed, push, assignment_at, add_output, add_revealed, process, add_typed, add_assignments,
}
use rgb_wallet.State.Contract.{
  operation_of, witness_of, global_out, add_items, add_globals, add_outputs, add_operation,
  genesis_output_by, graph_output_by,
}

abbrev pub or_else : {A : Type 0} → Option A → Option A → Option A
or_else none b = b
or_else (some a) b = some a

-- An assignment that is added to a set is found at its operation output and seal if none was
-- there, and otherwise the one from before is; nothing else in the set changes.
pub push_lem :
    {State : Type 0} (set : Assigned State) (a : OutputAssignment State) (p : Place)
    → Map.get (push set a) p ≡ or_else (Map.get set p) (if place_of a == p then some a else none)
unfolding push
push_lem set a p = elim (Option-cases (Map.get set (place_of a))) [
  | inl e ↦
      rw (e, push)
        (elim (Bool-cases (place_of a == p)) [
          | inl same ↦
              rw (sym ((place_ord.eq_iff (place_of a) p).0 same))
                (rw (e, ==_refl (place_of a)) (Map.get-insert_self set (place_of a) a))
          | inr other ↦
              rw other (get-insert set (place_of a) p a ∙ rw other (sym (or_none (Map.get set p))))
        ])
  | inr (b, e) ↦
      rw (e, push)
        (elim (Bool-cases (place_of a == p)) [
          | inl same ↦ rw (sym ((place_ord.eq_iff (place_of a) p).0 same)) (rw e refl)
          | inr other ↦ rw other (sym (or_none (Map.get set p)))
        ])
]
  where
    or_none : {A : Type 0} (o : Option A) → or_else o none ≡ o
    or_none none = refl
    or_none (some a) = refl

pub push-MapGrows :
    {State : Type 0} (set : Assigned State) (a : OutputAssignment State) → MapGrows set (push set a)
push-MapGrows set a p b h = push_lem set a p ∙ rw h refl

pub push-holds :
    {State : Type 0} (set : Assigned State) (a : OutputAssignment State)
    → (b : OutputAssignment State) × (Map.get (push set a) (place_of a) ≡ some b)
push-holds set a = elim (Option-cases (Map.get set (place_of a))) [
  | inl e ↦ (a, push_lem set a (place_of a) ∙ rw (e, ==_refl (place_of a)) refl)
  | inr (b, e) ↦ (b, push-MapGrows set a (place_of a) b e)
]

module _ (conf : Confinement) {Seal State : Type 0} (output_of : Seal → Option ℕ)
    (witness : Option ℕ) (opid ty : ℕ) where
  -- The place of the `n`-th assignment of an operation, where its seal becomes `output`
  abbrev pub place_at : ℕ → ℕ → State → Place
  place_at n output state = place_of (assignment_at witness opid ty n output state)

  -- An assignment with a revealed seal and state is in the set, or one that is equal to it is.
  abbrev pub HeldOne : ℕ → Option (Seal × State) → Assigned State → Type 0
  HeldOne n a set =
      (seal : Seal) (state : State)
      → a ≡ some (seal, state)
      → (output : ℕ) × (output_of seal ≡ some output)
        × ((b : OutputAssignment State) × (Map.get set (place_at n output state) ≡ some b))

  abbrev pub Held : ℕ → List (Assign Seal State) → Assigned State → Type 0
  Held n [] set = Unit
  Held n (a ∷ rest) set = HeldOne n (to_revealed a) set × Held (suc n) rest set

  HeldOne-stable :
      (n : ℕ) (a : Option (Seal × State)) (s t : Assigned State)
      → MapGrows s t
      → HeldOne n a s
      → HeldOne n a t
  HeldOne-stable n a s t g h seal state e =
      let (output, conv, (b, found)) = h seal state e in
      (output, conv, (b, g (place_at n output state) b found))

  pub Held-stable :
      (n : ℕ) (l : List (Assign Seal State)) (s t : Assigned State)
      → MapGrows s t
      → Held n l s
      → Held n l t
  Held-stable n [] s t g h = tt
  Held-stable n (a ∷ l) s t g (h, hs) =
      (HeldOne-stable n (to_revealed a) s t g h, Held-stable (suc n) l s t g hs)

  pub add_output_lem :
      (n : ℕ) (state : State) (o : Option ℕ) (s t : Assigned State)
      → add_output conf output_of witness opid ty n state o s ≡ some t
      → (output : ℕ) × (o ≡ some output)
        × (t ≡ push s (assignment_at witness opid ty n output state))
  unfolding add_output
  add_output_lem n state none s t h = cc
  add_output_lem n state (some output) s t h = elim (Bool-cases (conf.large_full (map_len s))) [
    | inl full ↦ elim (none-ne-some t (rw full at h)) [ ]
    | inr room ↦ (output, refl, sym (some-injective _ _ (rw room at h)))
  ]

  add_revealed_lem :
      (n : ℕ) (a : Option (Seal × State)) (s t : Assigned State)
      → add_revealed conf output_of witness opid ty n a s ≡ some t
      → MapGrows s t × HeldOne n a t
  unfolding add_revealed
  add_revealed_lem n none s t h = (
    (λ p b found. rw (some-injective _ _ h) at found),
    (λ seal state e. elim (none-ne-some (seal, state) e) [ ]),
  )
  add_revealed_lem n (some (seal, state)) s t h =
      let (output, conv, pushed) = add_output_lem n state (output_of seal) s t h in
      (
        rw pushed (push-MapGrows s (assignment_at witness opid ty n output state)),
        (λ seal' state' e.
            subst
              (λ (r : Seal × State).
                (o : ℕ) × (output_of r.0 ≡ some o)
                × ((b : OutputAssignment State) × (Map.get t (place_at n o r.1) ≡ some b)))
              (some-injective _ _ e)
              (
                output,
                conv,
                rw pushed (push-holds s (assignment_at witness opid ty n output state)),
              )),
      )

  -- A call of `process` that succeeds keeps what is in the set and puts the revealed assignments there.
  pub process_lem :
      (n : ℕ) (l : List (Assign Seal State)) (s t : Assigned State)
      → process conf output_of witness opid ty n l s ≡ some t
      → MapGrows s t × Held n l t
  unfolding process
  process_lem n [] s t h = ((λ p b found. rw (some-injective _ _ h) at found), tt)
  process_lem n (a ∷ l) s t h =
      let (u, one, others) = chain-some _ (process conf output_of witness opid ty (suc n) l) t h in
      let (first, held) = add_revealed_lem n (to_revealed a) s u one in
      let (rest, later) = process_lem (suc n) l u t others in
      (MapGrows-trans s u t first rest, (HeldOne-stable n (to_revealed a) u t rest held, later))
