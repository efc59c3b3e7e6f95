-- ===== src/Examples/Inheritance.antt =====
-- Interfaces that are extended and inherited (src/interface/inheritance.rs).
use rgb_wallet.Prelude.{ℕ, [], ◌∷◌, none, some, true, false, ok, ◌≡◌, refl, All}
use rgb_wallet.Collections.Map
use rgb_wallet.Collections.Map.{Map}
use rgb_wallet.Collections.Set
use rgb_wallet.Collections.Ord.{nat_ord}
use rgb_wallet.Collections.Confinement.{Confinement}
use rgb_wallet.Interface.Types.{
  Occurrences, GenesisIface, Iface, amount, any, override, is_superset, can_be_overridden_by,
  is_final,
}
use rgb_wallet.Interface.Extend.{
  merge_fields, put_all, push_all, append_all, extend_genesis, extend_default, check_modifier,
  join_errors, check_global, check_assignment, check_valency, check_occ,
}
use rgb_wallet.Interface.Extend.Ifaces.{extended, inherit, inherit_all, extend_inherits, merge_ops}
use rgb_wallet.Interface.Extend.Refines.{IfaceRefines, ExtensionOf, extended_lem, inherit_lem}

abbrev endless : Confinement
endless = record {
  tiny_full = λ n. false;
  small_full = λ n. false;
  medium_full = λ n. false;
  large_full = λ n. false;
}

-- A least number of occurrences alone
abbrev at_least : Occurrences
at_least = record { Occ = ℕ; min_value = λ n. n }

abbrev no_genesis : GenesisIface at_least
no_genesis = record {
  modifier = override;
  metadata = Set.empty;
  globals = Map.empty;
  assignments = Map.empty;
  valencies = Set.empty;
  errors = Set.empty;
}

abbrev asset : Iface at_least
asset = record {
  name = 1;
  inherits = [];
  metadata = Map.empty;
  global_state = record {
    entries = (10, record { sem_id = some 3; required = true; multiple = false }) ∷ [];
  };
  assignments = record {
    entries =
        (20, record { owned_state = any; public = false; required = false; multiple = true }) ∷ [];
  };
  valencies = Map.empty;
  genesis = no_genesis;
  transitions = Map.empty;
  extensions = Map.empty;
  default_operation = none;
  errors = Map.empty;
}

abbrev fungible_asset : Iface at_least
fungible_asset = record asset {
  name = 2;
  global_state = record {
    entries = (11, record { sem_id = none; required = false; multiple = true }) ∷ [];
  };
  assignments = record {
    entries =
        (20, record { owned_state = amount; public = false; required = true; multiple = true })
        ∷ [];
  };
  default_operation = some 5;
}

abbrev child : Iface at_least
child = record asset {
  name = 9;
  inherits = 1 ∷ 2 ∷ [];
  global_state = record {
    entries =
        (10, record { sem_id = some 3; required = true; multiple = false })
        ∷ (11, record { sem_id = none; required = false; multiple = true })
        ∷ [];
  };
  assignments = fungible_asset.assignments;
  default_operation = some 5;
}

abbrev by_name : Iface at_least → ℕ
by_name i = i.name

extends : extended endless at_least by_name asset fungible_asset 9 ≡ ok child
unfolding extended put_all merge_fields extend_genesis merge_ops extend_default extend_inherits
    append_all push_all check_modifier join_errors Map.get Map.insert check_global check_assignment
    check_valency check_occ is_superset can_be_overridden_by is_final
extends = refl

extended_example : ExtensionOf at_least by_name asset fungible_asset 9 child
extended_example =
    extended_lem endless at_least by_name asset fungible_asset 9 child ((tt, tt), (tt, tt), tt)
      extends

inherits : inherit endless at_least by_name 9 (asset ∷ fungible_asset ∷ []) ≡ some (ok child)
unfolding inherit inherit_all extended put_all merge_fields extend_genesis merge_ops extend_default
    extend_inherits append_all push_all check_modifier join_errors Map.get Map.insert check_global
    check_assignment check_valency check_occ is_superset can_be_overridden_by is_final
inherits = refl

inherit_example : All (λ i. IfaceRefines at_least i child) (asset ∷ fungible_asset ∷ [])
inherit_example =
    inherit_lem endless at_least by_name 9 (asset ∷ fungible_asset ∷ []) child
      (((tt, tt), (tt, tt), tt), (((tt, tt), (tt, tt), tt), tt)) inherits
