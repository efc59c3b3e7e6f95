-- ===== src/Stash/Kit/Consumed.antt =====
-- What the stash has of a kit after it is consumed (src/persistence/stash.rs, src/persistence/memory.rs).
use rgb_wallet.Prelude.{
  ℕ, List, none, some, Result, ok, All, All-weaken, ◌≡◌, refl, sym, ◌∙◌, ap, Option-cases,
  Bool-cases, inl, inr, some-injective,
}
use rgb_wallet.Collections.Growth.{insert-MapGrows, insert-KeysGrow}
use rgb_wallet.Collections.Map
use rgb_wallet.Collections.Map.{Map, get-insert}
use rgb_wallet.Collections.Ord.{nat_ord, ◌==◌}
use rgb_wallet.Collections.Confinement.{map_len}
use rgb_wallet.Exec.{◌>>◌, for_each}
use rgb_wallet.Exec.Laws.{Keeps, Keeps-bind, Keeps-for_each, for_each-All, resume-ok}
use rgb_wallet.Stash.Kit.{
  KitCore, SchemaIfaces, KitStash, Kit, KitError, confinement, panicked, Write, consume_types,
  replace_lib, replace_schema, replace_iface, put_impl, replace_iimpl, consume_kit,
}
use rgb_wallet.Stash.Kit.Laws.{
  SchemaGrows, KitGrows, KitGrows-refl, KitGrows-trans, same_schema, SchemaIn, IfaceIn, ImplIn,
  SchemaIn-stable, IfaceIn-stable, ImplIn-stable, Stepped, refused, made, replace_schema_lem,
}

module _ (C : KitCore) where
  replace_iface_lem :
      (iface : C.Iface) (s : KitStash C) → Stepped C (replace_iface C iface) (IfaceIn C iface) s
  unfolding replace_iface
  replace_iface_lem iface s = elim (Option-cases (Map.get s.ifaces (C.iface_id iface))) [
    | inr (i, e) ↦ rw (e, replace_iface) (made C (IfaceIn C iface) s s (KitGrows-refl C s) (i, e))
    | inl e ↦ elim (Bool-cases (C.conf.tiny_full (map_len s.ifaces))) [
      | inl full ↦ rw (e, full, replace_iface) (refused C (IfaceIn C iface) s confinement)
      | inr room ↦
          rw (e, room, replace_iface)
            (made C (IfaceIn C iface) s _ (grown e)
              (iface, Map.get-insert_self s.ifaces (C.iface_id iface) iface))
    ]
  ]
    where
      grown :
          Map.get s.ifaces (C.iface_id iface) ≡ none
          → KitGrows C s (record s { ifaces = Map.insert s.ifaces (C.iface_id iface) iface })
      grown e = record {
        more_schemata = λ k x h. (x, h, same_schema C x);
        more_ifaces = insert-MapGrows s.ifaces (C.iface_id iface) iface e;
      }

  with_impl :
      (s : KitStash C) (k : ℕ) (x y : SchemaIfaces C)
      → Map.get s.schemata k ≡ some x
      → SchemaGrows C x y
      → KitGrows C s (record s { schemata = Map.insert s.schemata k y })
  with_impl s k x y at_k grows = record { more_schemata = more; more_ifaces = λ j v h. h }
    where
      more :
          (j : ℕ) (a : SchemaIfaces C)
          → Map.get s.schemata j ≡ some a
          → (b : SchemaIfaces C) × (Map.get (Map.insert s.schemata k y) j ≡ some b)
            × SchemaGrows C a b
      more j a h = elim (Bool-cases (k == j)) [
        | inl same ↦ (
          y,
          get-insert s.schemata k j y ∙ rw same refl,
          rw (some-injective x a (sym at_k ∙ rw ((nat_ord.eq_iff k j).0 same) h)) at grows,
        )
        | inr other ↦ (a, get-insert s.schemata k j y ∙ rw other h, same_schema C a)
      ]

  replace_iimpl_lem :
      (impl : C.Impl) (s : KitStash C) → Stepped C (replace_iimpl C impl) (ImplIn C impl) s
  unfolding replace_iimpl put_impl
  replace_iimpl_lem impl s = elim (Option-cases (Map.get s.schemata (C.impl_schema impl))) [
    | inl e ↦ rw (e, replace_iimpl) (refused C (ImplIn C impl) s panicked)
    | inr (x, e) ↦ elim (Option-cases (Map.get s.ifaces (C.impl_iface impl))) [
      | inl f ↦ rw (e, f, replace_iimpl) (refused C (ImplIn C impl) s panicked)
      | inr (i, f) ↦ elim (Bool-cases (C.conf.tiny_full (map_len x.iimpls))) [
        | inl full ↦
            rw (e, f, full, replace_iimpl, put_impl) (refused C (ImplIn C impl) s confinement)
        | inr room ↦
            let y : SchemaIfaces C = record x {
              iimpls = Map.insert x.iimpls (C.iface_name i) impl;
            } in
            rw (e, f, room, replace_iimpl, put_impl)
              (made C (ImplIn C impl) s _
                (with_impl s (C.impl_schema impl) x y e
                  (refl, insert-KeysGrow x.iimpls (C.iface_name i) impl))
                (
                  y,
                  i,
                  impl,
                  Map.get-insert_self s.schemata (C.impl_schema impl) y,
                  f,
                  Map.get-insert_self x.iimpls (C.iface_name i) impl,
                ))
      ]
    ]
  ]

  replace_lib-Keeps : (lib : C.Lib) → Keeps (KitGrows C) (replace_lib C lib)
  unfolding replace_lib
  replace_lib-Keeps lib s = elim (Bool-cases (C.conf.small_full (map_len s.libs))) [
    | inl full ↦ rw full (KitGrows-refl C s)
    | inr room ↦
        rw room
          (record { more_schemata = λ k x h. (x, h, same_schema C x); more_ifaces = λ k v h. h })
  ]

  consume_types-Keeps : (types : C.Types) → Keeps (KitGrows C) (consume_types C types)
  unfolding consume_types
  consume_types-Keeps types s = elim (Option-cases (C.extend_types s.type_system types)) [
    | inl e ↦ rw (e, consume_types) (KitGrows-refl C s)
    | inr (all, e) ↦
        rw (e, consume_types)
          (record { more_schemata = λ k x h. (x, h, same_schema C x); more_ifaces = λ k v h. h })
  ]

  -- A loop whose rounds each put their element into the stash
  loop-Keeps :
      {A : Type 0} (f : A → Write C (Unit {0})) (P : A → KitStash C → Type 0)
      → ((a : A) (s : KitStash C) → Stepped C (f a) (P a) s)
      → (l : List A) → Keeps (KitGrows C) (for_each f l)
  loop-Keeps f P step l =
      Keeps-for_each (KitGrows-refl C) (KitGrows-trans C) f l (λ a s. (step a s).0)

  loop_lem :
      {A : Type 0} (f : A → Write C (Unit {0})) (P : A → KitStash C → Type 0)
      → ((a : A) (s t : KitStash C) → KitGrows C s t → P a s → P a t)
      → ((a : A) (s : KitStash C) → Stepped C (f a) (P a) s)
      → (l : List A) (s t : KitStash C) → for_each f l s ≡ (ok tt, t)
      → All (λ a. P a t) l
  loop_lem f P stable step l s t h =
      for_each-All (KitGrows-refl C) (KitGrows-trans C) P f l stable (λ a s. (step a s).0)
        (λ a s t e. (step a s).1 t e) s t h

  ends_at :
      (f : Write C (Unit {0})) (s t : KitStash C)
      → f s ≡ (ok tt, t)
      → KitGrows C s (f s).1
      → KitGrows C s t
  ends_at f s t h g = rw (ap (λ (p : Result KitError (Unit {0}) × KitStash C). p.1) h) at g

module _ (C : KitCore) (kit : Kit C) where
  abbrev iimpls_part : Write C (Unit {0})
  iimpls_part = for_each (replace_iimpl C) kit.iimpls

  abbrev ifaces_part : Write C (Unit {0})
  ifaces_part = for_each (replace_iface C) kit.ifaces >> iimpls_part

  abbrev schemata_part : Write C (Unit {0})
  schemata_part = for_each (replace_schema C) kit.schemata >> ifaces_part

  abbrev libs_part : Write C (Unit {0})
  libs_part = for_each (replace_lib C) kit.scripts >> schemata_part

  then-Keeps :
      (m n : Write C (Unit {0}))
      → Keeps (KitGrows C) m
      → Keeps (KitGrows C) n
      → Keeps (KitGrows C) (m >> n)
  then-Keeps m n h k = Keeps-bind (KitGrows-refl C) (KitGrows-trans C) m (λ _. n) h (λ _. k)

  iimpls_part-Keeps : Keeps (KitGrows C) iimpls_part
  iimpls_part-Keeps = loop-Keeps C (replace_iimpl C) (ImplIn C) (replace_iimpl_lem C) kit.iimpls

  ifaces_part-Keeps : Keeps (KitGrows C) ifaces_part
  ifaces_part-Keeps =
      then-Keeps (for_each (replace_iface C) kit.ifaces) iimpls_part
        (loop-Keeps C (replace_iface C) (IfaceIn C) (replace_iface_lem C) kit.ifaces)
        iimpls_part-Keeps

  consume_kit-Keeps : Keeps (KitGrows C) (consume_kit C kit)
  unfolding consume_kit
  consume_kit-Keeps =
      then-Keeps (consume_types C kit.types) libs_part (consume_types-Keeps C kit.types) (
        then-Keeps (for_each (replace_lib C) kit.scripts) schemata_part
          (Keeps-for_each (KitGrows-refl C) (KitGrows-trans C) (replace_lib C) kit.scripts
            (replace_lib-Keeps C))
          (then-Keeps (for_each (replace_schema C) kit.schemata) ifaces_part
            (loop-Keeps C (replace_schema C) (SchemaIn C) (replace_schema_lem C) kit.schemata)
            ifaces_part-Keeps))

  -- After `consume_kit` succeeds, the identifier of each schema and of each interface of the kit is
  -- known, and so is the name of the interface of each implementation; every schema and interface
  -- that the stash had is what it was, and no name has lost its implementation.
  pub consume_kit_lem :
      (s t : KitStash C)
      → consume_kit C kit s ≡ (ok tt, t)
      → KitGrows C s t
        × All (λ schema. SchemaIn C schema t) kit.schemata
        × All (λ iface. IfaceIn C iface t) kit.ifaces
        × All (λ impl. ImplIn C impl t) kit.iimpls
  unfolding consume_kit
  consume_kit_lem s t h =
      let (_, a, _, h1) = resume-ok (consume_types C kit.types s) (λ _. libs_part) tt t h in
      let (_, b, _, h2) =
        resume-ok (for_each (replace_lib C) kit.scripts a) (λ _. schemata_part) tt t h1 in
      let (_, c, schemata, h3) =
        resume-ok (for_each (replace_schema C) kit.schemata b) (λ _. ifaces_part) tt t h2 in
      let (_, d, ifaces, h4) =
        resume-ok (for_each (replace_iface C) kit.ifaces c) (λ _. iimpls_part) tt t h3 in
      (
        ends_at C (consume_kit C kit) s t h (consume_kit-Keeps s),
        All-weaken
            (λ x there.
              SchemaIn-stable C x c t (ends_at C ifaces_part c t h3 (ifaces_part-Keeps c)) there)
            kit.schemata
            (loop_lem C (replace_schema C) (SchemaIn C) (SchemaIn-stable C) (replace_schema_lem C)
              kit.schemata b c schemata),
        All-weaken
            (λ x there.
              IfaceIn-stable C x d t (ends_at C iimpls_part d t h4 (iimpls_part-Keeps d)) there)
            kit.ifaces
            (loop_lem C (replace_iface C) (IfaceIn C) (IfaceIn-stable C) (replace_iface_lem C)
              kit.ifaces c d ifaces),
        loop_lem C (replace_iimpl C) (ImplIn C) (ImplIn-stable C) (replace_iimpl_lem C) kit.iimpls d
            t h4,
      )
