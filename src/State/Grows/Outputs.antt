-- ===== src/State/Grows/Outputs.antt =====
-- What a contract state keeps and gets when the assignments of an operation are added (src/persistence/memory.rs).
use mathlib.Core.Option
use rgb_wallet.Prelude.{ℕ, [], ◌∷◌, Option, none, some, ◌≡◌, refl, sym, some-injective, chain-some}
use rgb_wallet.Collections.Ord.{nat_ord}
use rgb_wallet.Contract.Types.{
  TypedAssigns, declarative, fungible, structured, attachment, Assignments,
}
use rgb_wallet.State.Types.{Core, place_ord, global_ord, ContractState}
use rgb_wallet.State.Assigned.{add_typed, add_assignments}
use rgb_wallet.State.Grows.{Held, Held-stable, process_lem}
use rgb_wallet.State.Grows.Contract.{
  ContractGrows, ContractGrows-refl, ContractGrows-trans, with_rights, with_fungibles,
  with_structured, with_attach,
}

module _ (C : Core) {Seal : Type 0} (output_of : Seal → Option ℕ) (witness : Option ℕ)
    (opid : ℕ) where
  -- The revealed assignments of a type, or of all types, are in the set of their kind.
  abbrev pub HeldTyped : ℕ × TypedAssigns C.states Seal → ContractState C → Type 0
  HeldTyped (ty, declarative v) s = Held C.conf output_of witness opid ty 0 v s.rights
  HeldTyped (ty, fungible v) s = Held C.conf output_of witness opid ty 0 v s.fungibles
  HeldTyped (ty, structured v) s = Held C.conf output_of witness opid ty 0 v s.structured
  HeldTyped (ty, attachment v) s = Held C.conf output_of witness opid ty 0 v s.attach

  abbrev pub HeldAll : Assignments C.states Seal → ContractState C → Type 0
  HeldAll [] s = Unit
  HeldAll (a ∷ rest) s = HeldTyped a s × HeldAll rest s

  HeldTyped-stable :
      (a : ℕ × TypedAssigns C.states Seal) (s t : ContractState C)
      → ContractGrows C s t
      → HeldTyped a s
      → HeldTyped a t
  HeldTyped-stable (ty, declarative v) s t g =
      Held-stable C.conf output_of witness opid ty 0 v s.rights t.rights g.more_rights
  HeldTyped-stable (ty, fungible v) s t g =
      Held-stable C.conf output_of witness opid ty 0 v s.fungibles t.fungibles g.more_fungibles
  HeldTyped-stable (ty, structured v) s t g =
      Held-stable C.conf output_of witness opid ty 0 v s.structured t.structured g.more_structured
  HeldTyped-stable (ty, attachment v) s t g =
      Held-stable C.conf output_of witness opid ty 0 v s.attach t.attach g.more_attach

  pub HeldAll-stable :
      (l : Assignments C.states Seal) (s t : ContractState C)
      → ContractGrows C s t
      → HeldAll l s
      → HeldAll l t
  HeldAll-stable [] s t g h = tt
  HeldAll-stable (a ∷ l) s t g (h, hs) = (HeldTyped-stable a s t g h, HeldAll-stable l s t g hs)

  pub map-some :
      {A B : Type 0} (o : Option A) (f : A → B) (b : B)
      → Option.map f o ≡ some b
      → (a : A) × (o ≡ some a) × (f a ≡ b)
  map-some none f b h = cc
  map-some (some a) f b h = (a, refl, some-injective _ _ h)

  add_typed_lem :
      (a : ℕ × TypedAssigns C.states Seal) (s t : ContractState C)
      → add_typed C output_of witness opid a s ≡ some t
      → ContractGrows C s t × HeldTyped a t
  unfolding add_typed
  add_typed_lem (ty, declarative v) s t h =
      let (m, done, same) = map-some _ (λ m. record s { rights = m }) t h in
      let (grows, held) = process_lem C.conf output_of witness opid ty 0 v s.rights m done in
      (rw (sym same) (with_rights C s m grows), rw (sym same) held)
  add_typed_lem (ty, fungible v) s t h =
      let (m, done, same) = map-some _ (λ m. record s { fungibles = m }) t h in
      let (grows, held) = process_lem C.conf output_of witness opid ty 0 v s.fungibles m done in
      (rw (sym same) (with_fungibles C s m grows), rw (sym same) held)
  add_typed_lem (ty, structured v) s t h =
      let (m, done, same) = map-some _ (λ m. record s { structured = m }) t h in
      let (grows, held) = process_lem C.conf output_of witness opid ty 0 v s.structured m done in
      (rw (sym same) (with_structured C s m grows), rw (sym same) held)
  add_typed_lem (ty, attachment v) s t h =
      let (m, done, same) = map-some _ (λ m. record s { attach = m }) t h in
      let (grows, held) = process_lem C.conf output_of witness opid ty 0 v s.attach m done in
      (rw (sym same) (with_attach C s m grows), rw (sym same) held)

  pub add_assignments_lem :
      (l : Assignments C.states Seal) (s t : ContractState C)
      → add_assignments C output_of witness opid l s ≡ some t
      → ContractGrows C s t × HeldAll l t
  unfolding add_assignments
  add_assignments_lem [] s t h = (rw (sym (some-injective s t h)) (ContractGrows-refl C s), tt)
  add_assignments_lem (a ∷ l) s t h =
      let (u, one, others) = chain-some _ (add_assignments C output_of witness opid l) t h in
      let (first, held) = add_typed_lem a s u one in
      let (rest, later) = add_assignments_lem l u t others in
      (ContractGrows-trans C s u t first rest, (HeldTyped-stable a u t rest held, later))
