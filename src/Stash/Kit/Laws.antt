-- ===== src/Stash/Kit/Laws.antt =====
-- What `consume_kit` keeps of the stash, and what it puts there (src/persistence/stash.rs, src/persistence/memory.rs).
use rgb_wallet.Prelude.{
  ℕ, none, some, Result, ok, err, ◌≡◌, refl, ◌∙◌, ap, Option-cases, Bool-cases, inl, inr,
}
use rgb_wallet.Collections.Growth.{MapGrows, MapGrows-trans, KeysGrow, insert-MapGrows}
use rgb_wallet.Collections.Map
use rgb_wallet.Collections.Map.{Map, get-insert}
use rgb_wallet.Collections.Ord.{nat_ord}
use rgb_wallet.Collections.Confinement.{map_len}
use rgb_wallet.Stash.Kit.{KitCore, SchemaIfaces, KitStash, KitError, confinement, replace_schema}

module _ (C : KitCore) where
  abbrev pub SchemaGrows : SchemaIfaces C → SchemaIfaces C → Type 0
  SchemaGrows x y = (x.schema ≡ y.schema) × KeysGrow x.iimpls y.iimpls

  -- A schema and an interface in the stash stay what they are, and no name loses its implementation.
  pub record KitGrows (s t : KitStash C) : Type 0 where
    pub more_schemata :
        (k : ℕ) (x : SchemaIfaces C)
        → Map.get s.schemata k ≡ some x
        → (y : SchemaIfaces C) × (Map.get t.schemata k ≡ some y) × SchemaGrows x y
    pub more_ifaces : MapGrows s.ifaces t.ifaces

  pub same_schema : (x : SchemaIfaces C) → SchemaGrows x x
  same_schema x = (refl, (λ k v h. (v, h)))

  pub KitGrows-refl : (s : KitStash C) → KitGrows s s
  KitGrows-refl s = record {
    more_schemata = λ k x h. (x, h, same_schema x);
    more_ifaces = λ k v h. h;
  }

  pub KitGrows-trans : (s t u : KitStash C) → KitGrows s t → KitGrows t u → KitGrows s u
  KitGrows-trans s t u g h = record {
    more_schemata = λ k x e.
        let (y, f, (same, keys)) = g.more_schemata k x e in
        let (z, f', (same', keys')) = h.more_schemata k y f in
        (z, f', (same ∙ same', (λ n v e. let (w, there) = keys n v e in keys' n w there)));
    more_ifaces = MapGrows-trans _ _ _ g.more_ifaces h.more_ifaces;
  }

  -- A schema is in the stash, or an interface, or an implementation under the name of its interface.
  abbrev pub SchemaIn : C.Schema → KitStash C → Type 0
  SchemaIn schema s = (x : SchemaIfaces C) × (Map.get s.schemata (C.schema_id schema) ≡ some x)

  abbrev pub IfaceIn : C.Iface → KitStash C → Type 0
  IfaceIn iface s = (i : C.Iface) × (Map.get s.ifaces (C.iface_id iface) ≡ some i)

  abbrev pub ImplIn : C.Impl → KitStash C → Type 0
  ImplIn impl s =
      (x : SchemaIfaces C) × (i : C.Iface) × (m : C.Impl) × (Map.get s.schemata (C.impl_schema impl)
        ≡ some x)
      × (Map.get s.ifaces (C.impl_iface impl) ≡ some i)
      × (Map.get x.iimpls (C.iface_name i) ≡ some m)

  pub SchemaIn-stable :
      (schema : C.Schema) (s t : KitStash C) → KitGrows s t → SchemaIn schema s → SchemaIn schema t
  SchemaIn-stable schema s t g (x, h) = let (y, f, _) = g.more_schemata _ x h in (y, f)

  pub IfaceIn-stable :
      (iface : C.Iface) (s t : KitStash C) → KitGrows s t → IfaceIn iface s → IfaceIn iface t
  IfaceIn-stable iface s t g (i, h) = (i, g.more_ifaces _ i h)

  pub ImplIn-stable :
      (impl : C.Impl) (s t : KitStash C) → KitGrows s t → ImplIn impl s → ImplIn impl t
  ImplIn-stable impl s t g (x, i, m, h, at_iface, there) =
      let (y, f, (_, keys)) = g.more_schemata (C.impl_schema impl) x h in
      let (n, found) = keys (C.iface_name i) m there in
      (y, i, n, f, g.more_ifaces (C.impl_iface impl) i at_iface, found)

  with_schema :
      (s : KitStash C) (schema : C.Schema)
      → Map.get s.schemata (C.schema_id schema) ≡ none
      → KitGrows s (record s {
        schemata =
            Map.insert s.schemata
              (C.schema_id schema)
              (record { schema = schema; iimpls = Map.empty });
      })
  with_schema s schema absent = record {
    more_schemata = λ k x h. (
      x,
      insert-MapGrows s.schemata (C.schema_id schema)
          (record { schema = schema; iimpls = Map.empty }) absent k x h,
      same_schema x,
    );
    more_ifaces = λ k v h. h;
  }

  abbrev pub Stepped :
      (m : KitStash C → Result KitError (Unit {0}) × KitStash C) (P : KitStash C → Type 0)
      → KitStash C
      → Type 0
  Stepped m P s = KitGrows s (m s).1 × ((t : KitStash C) → m s ≡ (ok tt, t) → P t)

  -- A write that is refused, and one that is made
  pub refused :
      (P : KitStash C → Type 0) (s : KitStash C) (e : KitError)
      → KitGrows s s
        × ((t : KitStash C)
            → ◌≡◌ {A = Result KitError (Unit {0}) × KitStash C} (err e, s) (ok tt, t)
            → P t)
  refused P s e = (KitGrows-refl s, (λ t h. cc))

  pub made :
      (P : KitStash C → Type 0) (s u : KitStash C)
      → KitGrows s u
      → P u
      → KitGrows s u
        × ((t : KitStash C)
            → ◌≡◌ {A = Result KitError (Unit {0}) × KitStash C} (ok tt, u) (ok tt, t)
            → P t)
  made P s u g p =
      (g, (λ t h. rw (ap (λ (r : Result KitError (Unit {0}) × KitStash C). r.1) h) at p))

  pub replace_schema_lem :
      (schema : C.Schema) (s : KitStash C) → Stepped (replace_schema C schema) (SchemaIn schema) s
  unfolding replace_schema
  replace_schema_lem schema s = elim (Option-cases (Map.get s.schemata (C.schema_id schema))) [
    | inr (x, e) ↦ rw (e, replace_schema) (made (SchemaIn schema) s s (KitGrows-refl s) (x, e))
    | inl e ↦ elim (Bool-cases (C.conf.tiny_full (map_len s.schemata))) [
      | inl full ↦ rw (e, full, replace_schema) (refused (SchemaIn schema) s confinement)
      | inr room ↦
          rw (e, room, replace_schema)
            (made (SchemaIn schema) s _ (with_schema s schema e)
              (_, Map.get-insert_self s.schemata (C.schema_id schema) _))
    ]
  ]
