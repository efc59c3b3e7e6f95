-- ===== src/Stash/Kit/Filed.antt =====
-- A stash whose schemata, interfaces and implementations stand under what identifies them, and what `consume_kit`
-- files there (src/persistence/stash.rs, src/persistence/memory.rs).
use rgb_wallet.Prelude.{
  ℕ, List, some, Result, ok, All, All-weaken, ◌≡◌, refl, ap, Option-cases, Bool-cases, inl, inr,
}
use rgb_wallet.Collections.Growth.{
  Everywhere, empty-Everywhere, insert-Everywhere, MapGrows, insert-MapGrows,
}
use rgb_wallet.Collections.Map
use rgb_wallet.Collections.Map.{Map}
use rgb_wallet.Collections.Ord.{nat_ord}
use rgb_wallet.Collections.Confinement.{map_len}
use rgb_wallet.Exec.{◌>>◌, for_each}
use rgb_wallet.Exec.Laws.{Keeps, Keeps-bind, Keeps-for_each}
use rgb_wallet.Stash.Kit.{
  KitCore, SchemaIfaces, KitStash, Kit, KitError, Write, consume_types, replace_lib, replace_schema,
  replace_iface, put_impl, replace_iimpl, consume_kit,
}
use rgb_wallet.Stash.Kit.Laws.{KitGrows, SchemaIn, IfaceIn, ImplIn}
use rgb_wallet.Stash.Kit.Consumed.{consume_kit_lem}

module _ (C : KitCore) where
  -- An implementation is of a schema, and of an interface that is known by a name.
  abbrev pub IsImplOf : Map ℕ C.Iface → ℕ → ℕ → C.Impl → Type 0
  IsImplOf ifaces schema_id name m =
      (C.impl_schema m ≡ schema_id)
      × ((i : C.Iface) × (Map.get ifaces (C.impl_iface m) ≡ some i) × (C.iface_name i ≡ name))

  abbrev pub ImplsOf : Map ℕ C.Iface → ℕ → SchemaIfaces C → Type 0
  ImplsOf ifaces schema_id x = Everywhere (IsImplOf ifaces schema_id) x.iimpls

  -- Schemata and interfaces are under their identifiers, and each implementation is with the
  -- schema it is of, under the name of the interface it is of.
  pub record Filed (s : KitStash C) : Type 0 where
    pub schema_ids : Everywhere (λ k x. C.schema_id x.schema ≡ k) s.schemata
    pub iface_ids : Everywhere (λ k i. C.iface_id i ≡ k) s.ifaces
    pub impls : Everywhere (ImplsOf s.ifaces) s.schemata

  abbrev pub StaysFiled : KitStash C → KitStash C → Type 0
  StaysFiled s t = Filed s → Filed t

  StaysFiled-refl : (s : KitStash C) → StaysFiled s s
  StaysFiled-refl s w = w

  StaysFiled-trans : (s t u : KitStash C) → StaysFiled s t → StaysFiled t u → StaysFiled s u
  StaysFiled-trans s t u f g w = g (f w)

  replace_lib-Filed : (lib : C.Lib) → Keeps StaysFiled (replace_lib C lib)
  unfolding replace_lib
  replace_lib-Filed lib s w = elim (Bool-cases (C.conf.small_full (map_len s.libs))) [
    | inl full ↦ rw full w
    | inr room ↦
        rw room (record { schema_ids = w.schema_ids; iface_ids = w.iface_ids; impls = w.impls })
  ]

  consume_types-Filed : (types : C.Types) → Keeps StaysFiled (consume_types C types)
  unfolding consume_types
  consume_types-Filed types s w = elim (Option-cases (C.extend_types s.type_system types)) [
    | inl e ↦ rw (e, consume_types) w
    | inr (all, e) ↦
        rw (e, consume_types)
          (record { schema_ids = w.schema_ids; iface_ids = w.iface_ids; impls = w.impls })
  ]

  replace_schema-Filed : (schema : C.Schema) → Keeps StaysFiled (replace_schema C schema)
  unfolding replace_schema
  replace_schema-Filed schema s w = elim (Option-cases (Map.get s.schemata (C.schema_id schema))) [
    | inr (x, e) ↦ rw (e, replace_schema) w
    | inl e ↦ elim (Bool-cases (C.conf.tiny_full (map_len s.schemata))) [
      | inl full ↦ rw (e, full, replace_schema) w
      | inr room ↦
          let x : SchemaIfaces C = record { schema = schema; iimpls = Map.empty } in
          rw (e, room, replace_schema)
            (record {
              schema_ids =
                  insert-Everywhere (λ k (x : SchemaIfaces C). C.schema_id x.schema ≡ k) s.schemata
                    (C.schema_id schema) x refl w.schema_ids;
              iface_ids = w.iface_ids;
              impls =
                  insert-Everywhere (ImplsOf s.ifaces) s.schemata (C.schema_id schema) x
                    (empty-Everywhere (IsImplOf s.ifaces (C.schema_id schema))) w.impls;
            })
    ]
  ]

  IsImplOf-grown :
      (s t : Map ℕ C.Iface) (schema_id name : ℕ) (m : C.Impl)
      → MapGrows s t
      → IsImplOf s schema_id name m
      → IsImplOf t schema_id name m
  IsImplOf-grown s t schema_id name m g (same, (i, there, named)) =
      (same, (i, g (C.impl_iface m) i there, named))

  replace_iface-Filed : (iface : C.Iface) → Keeps StaysFiled (replace_iface C iface)
  unfolding replace_iface
  replace_iface-Filed iface s w = elim (Option-cases (Map.get s.ifaces (C.iface_id iface))) [
    | inr (i, e) ↦ rw (e, replace_iface) w
    | inl e ↦ elim (Bool-cases (C.conf.tiny_full (map_len s.ifaces))) [
      | inl full ↦ rw (e, full, replace_iface) w
      | inr room ↦
          let more = insert-MapGrows s.ifaces (C.iface_id iface) iface e in
          rw (e, room, replace_iface)
            (record {
              schema_ids = w.schema_ids;
              iface_ids =
                  insert-Everywhere (λ k i. C.iface_id i ≡ k) s.ifaces (C.iface_id iface) iface refl
                    w.iface_ids;
              impls = λ k x at_k n m at_n.
                  IsImplOf-grown s.ifaces _ k n m more (w.impls k x at_k n m at_n);
            })
    ]
  ]

  replace_iimpl-Filed : (impl : C.Impl) → Keeps StaysFiled (replace_iimpl C impl)
  unfolding replace_iimpl put_impl
  replace_iimpl-Filed impl s w = elim (Option-cases (Map.get s.schemata (C.impl_schema impl))) [
    | inl e ↦ rw (e, replace_iimpl) w
    | inr (x, e) ↦ elim (Option-cases (Map.get s.ifaces (C.impl_iface impl))) [
      | inl f ↦ rw (e, f, replace_iimpl) w
      | inr (i, f) ↦ elim (Bool-cases (C.conf.tiny_full (map_len x.iimpls))) [
        | inl full ↦ rw (e, f, full, replace_iimpl, put_impl) w
        | inr room ↦
            let k = C.impl_schema impl in
            let y : SchemaIfaces C = record x {
              iimpls = Map.insert x.iimpls (C.iface_name i) impl;
            } in
            rw (e, f, room, replace_iimpl, put_impl)
              (record {
                schema_ids =
                    insert-Everywhere (λ k (x : SchemaIfaces C). C.schema_id x.schema ≡ k)
                      s.schemata k y (w.schema_ids k x e) w.schema_ids;
                iface_ids = w.iface_ids;
                impls =
                    insert-Everywhere (ImplsOf s.ifaces) s.schemata k y
                      (insert-Everywhere (IsImplOf s.ifaces k) x.iimpls (C.iface_name i) impl
                        (refl, (i, f, refl)) (w.impls k x e))
                      w.impls;
              })
      ]
    ]
  ]

  then-Filed :
      (m n : Write C (Unit {0}))
      → Keeps StaysFiled m
      → Keeps StaysFiled n
      → Keeps StaysFiled (m >> n)
  then-Filed m n h k = Keeps-bind StaysFiled-refl StaysFiled-trans m (λ _. n) h (λ _. k)

  loop-Filed :
      {A : Type 0} (f : A → Write C (Unit {0})) (l : List A)
      → ((a : A) → Keeps StaysFiled (f a))
      → Keeps StaysFiled (for_each f l)
  loop-Filed f l each = Keeps-for_each StaysFiled-refl StaysFiled-trans f l each

  consume_kit-StaysFiled : (kit : Kit C) → Keeps StaysFiled (consume_kit C kit)
  unfolding consume_kit
  consume_kit-StaysFiled kit =
      then-Filed (consume_types C kit.types) _ (consume_types-Filed kit.types) (
        then-Filed (for_each (replace_lib C) kit.scripts) _
          (loop-Filed (replace_lib C) kit.scripts replace_lib-Filed)
          (then-Filed (for_each (replace_schema C) kit.schemata) _
            (loop-Filed (replace_schema C) kit.schemata replace_schema-Filed)
            (then-Filed (for_each (replace_iface C) kit.ifaces) _
              (loop-Filed (replace_iface C) kit.ifaces replace_iface-Filed)
              (loop-Filed (replace_iimpl C) kit.iimpls replace_iimpl-Filed))))

  -- Under the identifier of a schema, or of an interface, is one with that identifier.
  abbrev pub SchemaFiled : C.Schema → KitStash C → Type 0
  SchemaFiled schema s =
      (x : SchemaIfaces C) × (Map.get s.schemata (C.schema_id schema) ≡ some x)
      × (C.schema_id x.schema ≡ C.schema_id schema)

  abbrev pub IfaceFiled : C.Iface → KitStash C → Type 0
  IfaceFiled iface s =
      (i : C.Iface) × (Map.get s.ifaces (C.iface_id iface) ≡ some i)
      × (C.iface_id i ≡ C.iface_id iface)

  -- With the schema of an implementation, under the name of its interface, is one of that schema
  -- and of an interface with that name.
  abbrev pub ImplFiled : C.Impl → KitStash C → Type 0
  ImplFiled impl s =
      (x : SchemaIfaces C) × (i : C.Iface) × (m : C.Impl) × (Map.get s.schemata (C.impl_schema impl)
        ≡ some x)
      × (Map.get s.ifaces (C.impl_iface impl) ≡ some i)
      × (Map.get x.iimpls (C.iface_name i) ≡ some m)
      × IsImplOf s.ifaces (C.impl_schema impl) (C.iface_name i) m

  SchemaFiled-SchemaIn :
      (s : KitStash C) → Filed s → (schema : C.Schema) → SchemaIn C schema s → SchemaFiled schema s
  SchemaFiled-SchemaIn s w schema (x, there) = (x, there, w.schema_ids _ x there)

  IfaceFiled-IfaceIn :
      (s : KitStash C) → Filed s → (iface : C.Iface) → IfaceIn C iface s → IfaceFiled iface s
  IfaceFiled-IfaceIn s w iface (i, there) = (i, there, w.iface_ids _ i there)

  ImplFiled-ImplIn :
      (s : KitStash C) → Filed s → (impl : C.Impl) → ImplIn C impl s → ImplFiled impl s
  ImplFiled-ImplIn s w impl (x, i, m, at_schema, at_iface, there) =
      (x, i, m, at_schema, at_iface, there, w.impls _ x at_schema _ m there)

  -- Where schemata and interfaces are under their identifiers and implementations under the schema
  -- and the name of the interface they are of, so it is after `consume_kit` succeeds, and then for
  -- each schema and each interface of the kit there is one with its identifier, and for each
  -- implementation one of its schema under the name of its interface; every schema and interface
  -- that the stash had is what it was, and no name has lost its implementation.
  pub consume_kit-Filed :
      (kit : Kit C) (s t : KitStash C)
      → Filed s
      → consume_kit C kit s ≡ (ok tt, t)
      → KitGrows C s t
        × Filed t
        × All (λ schema. SchemaFiled schema t) kit.schemata
        × All (λ iface. IfaceFiled iface t) kit.ifaces
        × All (λ impl. ImplFiled impl t) kit.iimpls
  consume_kit-Filed kit s t w h =
      let w' : Filed t =
        rw (ap (λ (p : Result KitError (Unit {0}) × KitStash C). p.1) h) at
          (consume_kit-StaysFiled kit s w) in
      let (grows, schemata, ifaces, iimpls) = consume_kit_lem C kit s t h in
      (
        grows,
        w',
        All-weaken (SchemaFiled-SchemaIn t w') kit.schemata schemata,
        All-weaken (IfaceFiled-IfaceIn t w') kit.ifaces ifaces,
        All-weaken (ImplFiled-ImplIn t w') kit.iimpls iimpls,
      )
