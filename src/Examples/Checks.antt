-- ===== src/Examples/Checks.antt =====
-- Interfaces and schemata that are checked (src/interface/iface.rs, src/interface/inheritance.rs).
use rgb_wallet.Prelude.{ℕ, [], ◌∷◌, some, false, ok, ◌≡◌, ◌↔◌, eqb, eqb_iff, ltb}
use rgb_wallet.Collections.Map
use rgb_wallet.Collections.Set
use rgb_wallet.Interface.Types.{Occurrences, Iface, TransitionIface, override, any}
use rgb_wallet.Interface.Check.{Clock, check}
use rgb_wallet.Interface.Check.Consistent.{IsConsistent, check_lem}
use rgb_wallet.Schema.{Comparable, SchemaParts, Schema, OpSchema, genesis_kind, check_inheritance}
use rgb_wallet.Schema.Subset.{SubSchema, check_inheritance_lem}

-- A clock that stands at 100
abbrev noon : Clock
noon = record { Stamp = ℕ; Time = ℕ; timestamp_opt = some; in_future = λ t. ltb 100 t }

abbrev at_least : Occurrences
at_least = record { Occ = ℕ; min_value = λ n. n }

abbrev transfer : TransitionIface at_least
transfer = record {
  modifier = override;
  optional = false;
  metadata = Set.empty;
  globals = Map.empty;
  inputs = record { entries = (20, 1) ∷ [] };
  assignments = record { entries = (20, 2) ∷ [] };
  valencies = Set.empty;
  errors = Set.empty;
  default_assignment = some 20;
}

-- An interface whose transfer has two assignments of a field that holds one
abbrev asset : Iface at_least
asset = record {
  name = 1;
  inherits = [];
  metadata = Map.empty;
  global_state = Map.empty;
  assignments = record {
    entries =
        (20, record { owned_state = any; public = false; required = false; multiple = false }) ∷ [];
  };
  valencies = Map.empty;
  genesis = record {
    modifier = override;
    metadata = Set.empty;
    globals = Map.empty;
    assignments = Map.empty;
    valencies = Set.empty;
    errors = Set.empty;
  };
  transitions = record { entries = (5, transfer) ∷ [] };
  extensions = Map.empty;
  default_operation = some 5;
  errors = Map.empty;
}

check_example : (check noon at_least asset 90 ≡ ok tt) ↔ IsConsistent noon at_least asset 90
check_example = check_lem noon at_least asset 90

abbrev number : Comparable
number = record { Value = ℕ; same = eqb; same_iff = eqb_iff }

abbrev parts : SchemaParts
parts = record { global_format = number; state_schema = number; occurrences = number }

abbrev genesis : OpSchema parts genesis_kind
genesis = record {
  globals = record { entries = (1, 1) ∷ [] };
  inputs = tt;
  assignments = Map.empty;
  redeems = tt;
  valencies = Set.empty;
}

abbrev child : Schema parts
child = record {
  global_types = record { entries = (1, 7) ∷ [] };
  owned_types = Map.empty;
  valency_types = Set.empty;
  genesis = genesis;
  transitions = Map.empty;
  extensions = Map.empty;
}

abbrev root : Schema parts
root = record child { owned_types = record { entries = (4, 9) ∷ [] } }

check_inheritance_example :
    (check_inheritance parts child root ≡ ok tt) ↔ SubSchema parts child root
check_inheritance_example = check_inheritance_lem parts child root
