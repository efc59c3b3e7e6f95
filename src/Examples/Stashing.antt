-- ===== src/Examples/Stashing.antt =====
-- Signatures and bundles that come into a stash (src/persistence/memory.rs, src/persistence/stash.rs).
use rgb_wallet.Prelude.{
  All, ◌+◌, ◌*◌, ℕ, [], ◌∷◌, some, true, false, if◌then◌else◌, ok, ◌≡◌, ◌⊎◌, refl, ltb,
}
use rgb_wallet.Collections.Map
use rgb_wallet.Collections.Map.{Map}
use rgb_wallet.Collections.Ord.{nat_ord, ◌==◌}
use rgb_wallet.Contract.Types.{Op, Bundle, fungible, revealed}
use rgb_wallet.Contract.MergeReveal.{merge_transitions, merge_bundle}
use rgb_wallet.Contract.MergeReveal.Operations.{known}
use rgb_wallet.Stash.Types.{malicious, should_accept, StashCore, MemStash}
use rgb_wallet.Stash.Sigs.{get_trust, import_sigs}
use rgb_wallet.Stash.Sigs.Trust.{sig_at, import_sigs_lem}
use rgb_wallet.Stash.Operations.{is_absent, replace_bundle, consume_bundle}
use rgb_wallet.Stash.Operations.Laws.{first_of, transitions, consume_bundle_lem}
use rgb_wallet.Exec.{for_each}
use rgb_wallet.Stash.Kit.{
  KitCore, Kit, KitStash, consume_kit, consume_types, replace_lib, replace_schema, replace_iface,
  replace_iimpl, put_impl,
}
use rgb_wallet.Stash.Kit.Laws.{KitGrows}
use rgb_wallet.Collections.Growth.{empty-Everywhere, insert-Everywhere}
use rgb_wallet.Stash.Kit.Filed.{Filed, SchemaFiled, IfaceFiled, ImplFiled, consume_kit-Filed}
use rgb_wallet.Examples.States.{numbers, endless}

abbrev core : StashCore
core = record {
  conf = endless;
  sigs_full = λ n. ltb 9 n;
  sigs_fit = λ n. ltb 0 n;
  states = numbers;
  GenesisSeal = ℕ;
  GraphSeal = ℕ;
  Sig = ℕ;
}

abbrev transfer : Op numbers ℕ
transfer = record { id = 2; assignments = (4000, fungible (revealed 51 40 0 ∷ [])) ∷ [] }

abbrev second : Op numbers ℕ
second = record { id = 3; assignments = [] }

abbrev stored : Bundle numbers ℕ
stored = record {
  bundle_id = 20;
  input_map = (0, 2) ∷ (1, 3) ∷ [];
  known_transitions = (2, transfer) ∷ [];
}

-- The same bundle, with its other transition
abbrev received : Bundle numbers ℕ
received = record stored { known_transitions = (3, second) ∷ [] }

-- Identity 1 is malicious, and identity 2 is not known.
abbrev stash : MemStash core
stash = record {
  geneses = Map.empty;
  bundles = record { entries = (20, stored) ∷ [] };
  extensions = Map.empty;
  identities = record { entries = (1, malicious) ∷ [] };
  sigs = record { entries = (70, record { entries = (5, 500) ∷ [] }) ∷ [] };
}

import_sigs_example :
    let (_, t) = import_sigs core 70 ((1, 100) ∷ (2, 200) ∷ []) stash in
    (get_trust core t 1 ≡ get_trust core stash 1)
    × ((sig_at core t 70 1 ≡ sig_at core stash 70 1)
        ⊎ ((◌≡◌ {A = ℕ} 70 70) × (should_accept (get_trust core stash 1) ≡ true)))
import_sigs_example = import_sigs_lem core 70 ((1, 100) ∷ (2, 200) ∷ []) stash 70 1

keyed : (first_of core (Map.get stash.bundles 20) received).bundle_id ≡ 20
unfolding Map.get
keyed = refl

-- The transition that comes with the consignment is dropped.
consumed : consume_bundle core received stash ≡ (ok false, stash)
unfolding consume_bundle merge_bundle merge_transitions Map.get replace_bundle Map.insert
consumed = refl

consume_bundle_example :
    (result : Bundle numbers ℕ) × (false ≡ is_absent (Map.get stash.bundles 20))
    × ((k : ℕ)
        → Map.get stash.bundles k ≡ (if 20 == k then some result else Map.get stash.bundles k))
    × ((k : ℕ)
        → known (transitions core result) k
          ≡ known (transitions core (first_of core (Map.get stash.bundles 20) received)) k)
consume_bundle_example = consume_bundle_lem core received stash stash false keyed consumed

-- Schemata, interfaces and implementations are numbers; interface 8 has the name 80.
abbrev kit_core : KitCore
kit_core = record {
  conf = endless;
  Schema = ℕ;
  schema_id = λ n. n;
  Iface = ℕ;
  iface_id = λ n. n;
  iface_name = λ n. n * 10;
  Impl = ℕ × ℕ;
  impl_schema = λ i. i.0;
  impl_iface = λ i. i.1;
  Lib = ℕ;
  lib_id = λ n. n;
  Types = ℕ;
  extend_types = λ a b. some (a + b);
}

abbrev kit : Kit kit_core
kit = record {
  ifaces = 8 ∷ [];
  schemata = 5 ∷ 6 ∷ [];
  iimpls = (5, 8) ∷ [];
  types = 3;
  scripts = 9 ∷ [];
}

-- The stash has schema 5 with an implementation of another interface.
abbrev kit_stash : KitStash kit_core
kit_stash = record {
  schemata = record {
    entries = (5, record { schema = 5; iimpls = record { entries = (70, (5, 7)) ∷ [] } }) ∷ [];
  };
  ifaces = record { entries = (7, 7) ∷ [] };
  libs = Map.empty;
  type_system = 1;
}

abbrev kit_stashed : KitStash kit_core
kit_stashed = (consume_kit kit_core kit kit_stash).1

kit_consumed : consume_kit kit_core kit kit_stash ≡ (ok tt, kit_stashed)
unfolding consume_kit consume_types for_each replace_lib replace_schema replace_iface replace_iimpl
    put_impl Map.get Map.insert
kit_consumed = refl

kit-Filed : Filed kit_core kit_stash
unfolding Map.insert Map.get
kit-Filed = record {
  schema_ids = insert-Everywhere _ Map.empty 5 _ refl (empty-Everywhere _);
  iface_ids = insert-Everywhere _ Map.empty 7 7 refl (empty-Everywhere _);
  impls =
      insert-Everywhere _ Map.empty 5 _
        (insert-Everywhere _ Map.empty 70 _ (refl, (7, refl, refl)) (empty-Everywhere _))
        (empty-Everywhere _);
}

consume_kit-Filed_example :
    KitGrows kit_core kit_stash kit_stashed
    × Filed kit_core kit_stashed
    × All (λ schema. SchemaFiled kit_core schema kit_stashed) kit.schemata
    × All (λ iface. IfaceFiled kit_core iface kit_stashed) kit.ifaces
    × All (λ impl. ImplFiled kit_core impl kit_stashed) kit.iimpls
consume_kit-Filed_example =
    consume_kit-Filed kit_core kit kit_stash kit_stashed kit-Filed kit_consumed
