-- ===== src/Stash/Kit.antt =====
-- Schemata, interfaces and their implementations in the stash, and `consume_kit` (src/persistence/memory.rs,
-- src/persistence/stash.rs).
pub mod Laws
pub mod Consumed
pub mod Filed
use rgb_wallet.Prelude.{
  ℕ, List, [], ◌∷◌, Option, none, some, Bool, true, false, ◌||◌, if◌then◌else◌, eqb, Result, ok,
  err,
}
use rgb_wallet.Collections.Map
use rgb_wallet.Collections.Map.{Map}
use rgb_wallet.Collections.Ord.{nat_ord}
use rgb_wallet.Collections.Confinement.{Confinement, map_len}
use rgb_wallet.Exec.{Exec, pure, ◌>>=◌, ◌>>◌, for_each}

-- What these operations read of the parts of a kit, and what they take from other crates: libraries, type
-- systems with their `extend`, and when a collection is full.
pub record KitCore : Type 1 where
  pub conf : Confinement
  pub Schema : Type 0
  pub schema_id : Schema → ℕ
  pub Iface : Type 0
  pub iface_id : Iface → ℕ
  pub iface_name : Iface → ℕ
  pub Impl : Type 0
  pub impl_schema : Impl → ℕ
  pub impl_iface : Impl → ℕ
  pub Lib : Type 0
  pub lib_id : Lib → ℕ
  pub Types : Type 0
  pub extend_types : Types → Types → Option Types

module _ (C : KitCore) where
  -- `SchemaIfaces`, with the implementations under the names of their interfaces
  pub record SchemaIfaces : Type 0 where
    pub schema : C.Schema
    pub iimpls : Map ℕ C.Impl

  -- The fields of `MemStash` that these operations use
  pub record KitStash : Type 0 where
    pub schemata : Map ℕ SchemaIfaces
    pub ifaces : Map ℕ C.Iface
    pub libs : Map ℕ C.Lib
    pub type_system : C.Types

  -- The fields of `Kit` that these operations read
  pub record Kit : Type 0 where
    pub ifaces : List C.Iface
    pub schemata : List C.Schema
    pub iimpls : List C.Impl
    pub types : C.Types
    pub scripts : List C.Lib

-- An error of a confined collection, or a panic
pub data KitError : Type 0 where
  confinement panicked : KitError

module _ (C : KitCore) where
  abbrev pub Write : Type 0 → Type 0
  Write = Exec (KitStash C) KitError

  unfoldable pub consume_types : C.Types → Write (Unit {0})
  consume_types types s = elim (C.extend_types s.type_system types) [
    | none ↦ (err confinement, s)
    | some all ↦ (ok tt, record s { type_system = all })
  ]

  -- The answers of the writes, which `consume_kit` does not use, are left out.
  unfoldable pub replace_lib : C.Lib → Write (Unit {0})
  replace_lib lib s =
      if C.conf.small_full (map_len s.libs)
      then (err confinement, s)
      else (ok tt, record s { libs = Map.insert s.libs (C.lib_id lib) lib })

  unfoldable pub replace_schema : C.Schema → Write (Unit {0})
  replace_schema schema s = elim (Map.get s.schemata (C.schema_id schema)) [
    | some _ ↦ (ok tt, s)
    | none ↦ if C.conf.tiny_full (map_len s.schemata) then (err confinement, s) else (
      ok tt,
      record s {
        schemata =
            Map.insert s.schemata (C.schema_id schema)
              (record { schema = schema; iimpls = Map.empty });
      },
    )
  ]

  unfoldable pub replace_iface : C.Iface → Write (Unit {0})
  replace_iface iface s = elim (Map.get s.ifaces (C.iface_id iface)) [
    | some _ ↦ (ok tt, s)
    | none ↦
        if C.conf.tiny_full (map_len s.ifaces)
        then (err confinement, s)
        else (ok tt, record s { ifaces = Map.insert s.ifaces (C.iface_id iface) iface })
  ]

  -- The implementation goes under the name of its interface; it replaces one that is there.
  unfoldable pub put_impl : SchemaIfaces C → ℕ → C.Impl → Write (Unit {0})
  put_impl known name impl s =
      if C.conf.tiny_full (map_len known.iimpls) then (err confinement, s) else (
        ok tt,
        record s {
          schemata =
              Map.insert s.schemata (C.impl_schema impl)
                (record known { iimpls = Map.insert known.iimpls name impl });
        },
      )

  unfoldable pub replace_iimpl : C.Impl → Write (Unit {0})
  replace_iimpl impl s = elim (Map.get s.schemata (C.impl_schema impl)) [
    | none ↦ (err panicked, s)
    | some known ↦ elim (Map.get s.ifaces (C.impl_iface impl)) [
      | none ↦ (err panicked, s)
      | some iface ↦ put_impl known (C.iface_name iface) impl s
    ]
  ]

  -- `consume_kit`, up to supplements and signatures
  unfoldable pub consume_kit : Kit C → Write (Unit {0})
  consume_kit kit = do
    consume_types kit.types
    for_each replace_lib kit.scripts
    for_each replace_schema kit.schemata
    for_each replace_iface kit.ifaces
    for_each replace_iimpl kit.iimpls
