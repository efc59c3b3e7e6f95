-- ===== src/State/Committed/Outputs.antt =====
-- Assignments that are added to a contract state (src/persistence/memory.rs) agree with what their outputs stand for.
use rgb_wallet.Prelude.{
  ℕ, suc, ◌%◌, ◌^◌, List, [], ◌∷◌, Option, none, some, ◌≡◌, refl, sym, ◌∙◌, some-injective,
  chain-some, Option-cases, inl, inr,
}
use rgb_wallet.Collections.Map
use rgb_wallet.Collections.Map.{Map}
use rgb_wallet.Collections.Growth.{insert-Everywhere}
use rgb_wallet.Collections.Ord.{nat_ord}
use rgb_wallet.Collections.Confinement.{Confinement}
use rgb_wallet.Contract.Types.{
  Opout, Assign, TypedAssigns, declarative, fungible, structured, attachment, Assignments,
}
use rgb_wallet.State.Types.{
  Core, OutputAssignment, place_of, place_ord, Assigned, global_ord, ContractState,
}
use rgb_wallet.State.Assigned.{
  to_revealed, push, assignment_at, add_revealed, process, add_typed, add_assignments,
}
use rgb_wallet.State.Grows.{Held, add_output_lem}
use rgb_wallet.State.Grows.Outputs.{HeldTyped, HeldAll, map-some}
use rgb_wallet.State.Committed.{
  AgreesSet, CommitsList, RecordedOne, Recorded, Contents, CommitsTyped, CommitsAll, AgreesContract,
  TypedRecorded, AllRecorded,
}

push-AgreesSet :
    {State : Type 0} (content : Opout → State) (set : Assigned State) (a : OutputAssignment State)
    → a.state ≡ content a.opout
    → AgreesSet content set
    → AgreesSet content (push set a)
unfolding push
push-AgreesSet content set a right agrees = elim (Option-cases (Map.get set (place_of a))) [
  | inl e ↦
      rw (e, push)
        (insert-Everywhere (λ p b. b.state ≡ content p.opout) set (place_of a) a right agrees)
  | inr (b, e) ↦ rw (e, push) agrees
]

module _ (conf : Confinement) {Seal State : Type 0} (output_of : Seal → Option ℕ)
    (witness : Option ℕ) (content : Opout → State) (opid ty : ℕ) where
  add_revealed-AgreesSet :
      (n : ℕ) (a : Option (Seal × State)) (s t : Assigned State)
      → add_revealed conf output_of witness opid ty n a s ≡ some t
      → ((seal : Seal) (state : State)
          → a ≡ some (seal, state)
          → state ≡ content (record { op = opid; ty = ty; no = n % 2 ^ 16 }))
      → AgreesSet content s
      → AgreesSet content t
  unfolding add_revealed
  add_revealed-AgreesSet n none s t h right agrees = rw (sym (some-injective _ _ h)) agrees
  add_revealed-AgreesSet n (some (seal, state)) s t h right agrees =
      let (output, conv, pushed) =
        add_output_lem conf output_of witness opid ty n state (output_of seal) s t h in
      rw pushed (
        push-AgreesSet content s (assignment_at witness opid ty n output state)
          (right seal state refl) agrees)

  process-AgreesSet :
      (n : ℕ) (l : List (Assign Seal State)) (s t : Assigned State)
      → process conf output_of witness opid ty n l s ≡ some t
      → CommitsList content opid ty n l
      → AgreesSet content s
      → AgreesSet content t
  unfolding process
  process-AgreesSet n [] s t h right agrees = rw (sym (some-injective _ _ h)) agrees
  process-AgreesSet n (a ∷ l) s t h (here, later) agrees =
      let (u, one, others) = chain-some _ (process conf output_of witness opid ty (suc n) l) t h in
      process-AgreesSet (suc n) l u t others later
        (add_revealed-AgreesSet n (to_revealed a) s u one here agrees)

  -- What is held in a set that agrees is held with its own state.
  Recorded-Held :
      (n : ℕ) (l : List (Assign Seal State)) (set : Assigned State)
      → CommitsList content opid ty n l
      → AgreesSet content set
      → Held conf output_of witness opid ty n l set
      → Recorded output_of witness opid ty n l set
  Recorded-Held n [] set right agrees held = tt
  Recorded-Held n (a ∷ l) set (here, later) agrees (held, rest) =
      (one, Recorded-Held (suc n) l set later agrees rest)
    where
      one : RecordedOne output_of witness opid ty n (to_revealed a) set
      one seal state e =
          let (output, conv, (b, found)) = held seal state e in
          (output, b, conv, found, agrees _ b found ∙ sym (here seal state e))

module _ (C : Core) (E : Contents C) {Seal : Type 0} (output_of : Seal → Option ℕ)
    (witness : Option ℕ) (opid : ℕ) where
  add_typed-AgreesContract :
      (a : ℕ × TypedAssigns C.states Seal) (s t : ContractState C)
      → add_typed C output_of witness opid a s ≡ some t
      → CommitsTyped C E opid a
      → AgreesContract C E s
      → AgreesContract C E t
  unfolding add_typed
  add_typed-AgreesContract (ty, declarative v) s t h right g =
      let (m, done, same) =
        map-some C output_of witness opid _ (λ m. record s { rights = m }) t h in
      let more =
        process-AgreesSet C.conf output_of witness E.right opid ty 0 v s.rights m done right
          g.rights in
      rw (sym same) (record {
        items = g.items;
        rights = more;
        values = g.values;
        structures = g.structures;
        attaches = g.attaches;
      })
  add_typed-AgreesContract (ty, fungible v) s t h right g =
      let (m, done, same) =
        map-some C output_of witness opid _ (λ m. record s { fungibles = m }) t h in
      let more =
        process-AgreesSet C.conf output_of witness E.value opid ty 0 v s.fungibles m done right
          g.values in
      rw (sym same) (record {
        items = g.items;
        rights = g.rights;
        values = more;
        structures = g.structures;
        attaches = g.attaches;
      })
  add_typed-AgreesContract (ty, structured v) s t h right g =
      let (m, done, same) =
        map-some C output_of witness opid _ (λ m. record s { structured = m }) t h in
      let more =
        process-AgreesSet C.conf output_of witness E.structure opid ty 0 v s.structured m done right
          g.structures in
      rw (sym same) (record {
        items = g.items;
        rights = g.rights;
        values = g.values;
        structures = more;
        attaches = g.attaches;
      })
  add_typed-AgreesContract (ty, attachment v) s t h right g =
      let (m, done, same) =
        map-some C output_of witness opid _ (λ m. record s { attach = m }) t h in
      let more =
        process-AgreesSet C.conf output_of witness E.attach opid ty 0 v s.attach m done right
          g.attaches in
      rw (sym same) (record {
        items = g.items;
        rights = g.rights;
        values = g.values;
        structures = g.structures;
        attaches = more;
      })

  pub add_assignments-AgreesContract :
      (l : Assignments C.states Seal) (s t : ContractState C)
      → add_assignments C output_of witness opid l s ≡ some t
      → CommitsAll C E opid l
      → AgreesContract C E s
      → AgreesContract C E t
  unfolding add_assignments
  add_assignments-AgreesContract [] s t h right g = rw (sym (some-injective _ _ h)) g
  add_assignments-AgreesContract (a ∷ l) s t h (here, later) g =
      let (u, one, others) = chain-some _ (add_assignments C output_of witness opid l) t h in
      add_assignments-AgreesContract l u t others later (add_typed-AgreesContract a s u one here g)

  TypedRecorded-Held :
      (a : ℕ × TypedAssigns C.states Seal) (s : ContractState C)
      → CommitsTyped C E opid a
      → AgreesContract C E s
      → HeldTyped C output_of witness opid a s
      → TypedRecorded C output_of witness opid a s
  TypedRecorded-Held (ty, declarative v) s right g =
      Recorded-Held C.conf output_of witness E.right opid ty 0 v s.rights right g.rights
  TypedRecorded-Held (ty, fungible v) s right g =
      Recorded-Held C.conf output_of witness E.value opid ty 0 v s.fungibles right g.values
  TypedRecorded-Held (ty, structured v) s right g =
      Recorded-Held C.conf output_of witness E.structure opid ty 0 v s.structured right g.structures
  TypedRecorded-Held (ty, attachment v) s right g =
      Recorded-Held C.conf output_of witness E.attach opid ty 0 v s.attach right g.attaches

  pub AllRecorded-Held :
      (l : Assignments C.states Seal) (s : ContractState C)
      → CommitsAll C E opid l
      → AgreesContract C E s
      → HeldAll C output_of witness opid l s
      → AllRecorded C output_of witness opid l s
  AllRecorded-Held [] s right g held = tt
  AllRecorded-Held (a ∷ l) s (here, later) g (held, rest) =
      (TypedRecorded-Held a s here g held, AllRecorded-Held l s later g rest)
