-- ===== src/State/Update/Witnesses.antt =====
-- What `update_witnesses` does to the witnesses (src/persistence/memory.rs).
use Prim.Native.String.{String}
use rgb_wallet.Prelude.{
  ℕ, ◌+◌, List, [], ◌∷◌, map, Option, none, some, Bool, true, false, not, ◌&&◌, if◌then◌else◌,
  length, keep, any_of, Result, ok, err, ◌≡◌, refl, sym, ◌∙◌, arith, Bool-cases, inl, inr, eqb,
  eqb_iff,
}
use rgb_wallet.Collections.Map
use rgb_wallet.Collections.Map.{Map, get-insert, get-empty}
use rgb_wallet.Collections.Ord.{nat_ord}
use rgb_wallet.State.Types.{Core, MemState}
use rgb_wallet.State.Write.{Resolver}
use rgb_wallet.State.Update.{
  at_least_one, UpdateRes, is_settled, tried, renew_one, renew, update_witnesses,
}

module _ (C : Core) (ords : Resolver C) (after_height : ℕ) where
  abbrev pub or_old : C.WitnessOrd → Result String C.WitnessOrd → C.WitnessOrd
  or_old ord (ok new) = new
  or_old ord (err _) = ord

  abbrev pub new_order : ℕ → C.WitnessOrd → C.WitnessOrd
  new_order id ord = if is_settled C after_height ord then ord else or_old ord (ords id)

  -- A witness with the order that it has afterwards: its own where it is settled or has no new one
  abbrev pub renewed : ℕ × C.WitnessOrd → ℕ × C.WitnessOrd
  renewed (id, ord) = (id, new_order id ord)

  abbrev pub is_open : ℕ × C.WitnessOrd → Bool
  is_open (_, ord) = not (is_settled C after_height ord)

  abbrev pub reason_of : Result String C.WitnessOrd → Option String
  reason_of (ok _) = none
  reason_of (err reason) = some reason

  abbrev pub is_err : Result String C.WitnessOrd → Bool
  is_err (ok _) = false
  is_err (err _) = true

  -- The resolver is asked for the witness, and has no order for it.
  abbrev pub fails : ℕ → ℕ × C.WitnessOrd → Bool
  fails w (id, ord) = eqb id w && (is_open (id, ord) && is_err (ords id))

  one_lem :
      (id : ℕ) (ord : C.WitnessOrd) (r : UpdateRes C)
      → ((renew_one C ords after_height id ord r).0 ≡ new_order id ord)
        × ((renew_one C ords after_height id ord r).1.succeeded
            ≡ (if is_open (id, ord) then r.succeeded + 1 else r.succeeded))
        × ((w : ℕ)
            → Map.get (renew_one C ords after_height id ord r).1.failed w
              ≡ (if fails w (id, ord) then reason_of (ords w) else Map.get r.failed w))
  unfolding renew_one
  one_lem id ord r = elim (Bool-cases (is_settled C after_height ord)) [
    | inl settled ↦ rw settled (refl, refl, (λ w. grind arith))
    | inr open_yet ↦ rw open_yet (by_result (ords id) refl)
  ]
    where
      noted :
          (w : ℕ) (reason : String)
          → ords id ≡ err reason
          → (if eqb id w then some reason else Map.get r.failed w)
            ≡ (if eqb id w && true then reason_of (ords w) else Map.get r.failed w)
      noted w reason e = elim (Bool-cases (eqb id w)) [
        | inl same ↦ rw (same, sym ((eqb_iff id w).0 same), e) refl
        | inr other ↦ rw other refl
      ]

      by_result :
          (a : Result String C.WitnessOrd)
          → ords id ≡ a
          → ((tried C id ord r a).0 ≡ or_old ord a)
            × ((tried C id ord r a).1.succeeded ≡ r.succeeded + 1)
            × ((w : ℕ)
                → Map.get (tried C id ord r a).1.failed w
                  ≡ (if eqb id w && is_err a then reason_of (ords w) else Map.get r.failed w))
      by_result (ok new) e = (refl, refl, (λ w. grind arith))
      by_result (err reason) e =
          (refl, refl, (λ w. get-insert r.failed id w reason ∙ noted w reason e))

  renew_lem :
      (l : List (ℕ × C.WitnessOrd)) (r : UpdateRes C)
      → ((renew C ords after_height l r).0 ≡ map renewed l)
        × ((renew C ords after_height l r).1.succeeded ≡ r.succeeded + length (keep is_open l))
        × ((w : ℕ)
            → Map.get (renew C ords after_height l r).1.failed w
              ≡ (if any_of (fails w) l then reason_of (ords w) else Map.get r.failed w))
  unfolding renew
  renew_lem [] r = (refl, omega arith, (λ w. refl))
  renew_lem ((id, ord) ∷ l) r =
      let (order, count, failures) = one_lem id ord r in
      let (orders, counts, all) = renew_lem l (renew_one C ords after_height id ord r).1 in
      (
        rw (order, orders) refl,
        rw counts (rw count (grind arith)),
        (λ w. rw (all w) (rw (failures w) (grind arith))),
      )

-- `update_witnesses` leaves the contracts unchanged, gives each witness that is not mined below
-- the height the order that the resolver has for it, and leaves the others; it reports exactly the
-- witnesses without an order as failed, the last reason for each, and its count `succeeded` is
-- that of all witnesses not mined below the height.
pub update_witnesses_lem :
    (C : Core) (ords : Resolver C) (after_height : ℕ) (s : MemState C)
    → let (result, t) = update_witnesses C ords after_height s in
      let height = at_least_one after_height in
      (t.contracts ≡ s.contracts)
      × (t.witnesses.entries ≡ map (renewed C ords height) s.witnesses.entries)
      × (result.succeeded ≡ length (keep (is_open C ords height) s.witnesses.entries))
      × ((w : ℕ)
          → Map.get result.failed w ≡ (
              if any_of (fails C ords height w) s.witnesses.entries
              then reason_of C ords height (ords w)
              else none))
unfolding update_witnesses
update_witnesses_lem C ords after_height s =
    let start : UpdateRes C = record { succeeded = 0; failed = Map.empty } in
    let (orders, count, failures) =
      renew_lem C ords (at_least_one after_height) s.witnesses.entries start in
    (refl, orders, count ∙ omega arith, (λ w. failures w ∙ rw (get-empty {V = String} w) refl))
