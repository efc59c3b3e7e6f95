-- ===== src/Examples/Building.antt =====
-- Builders of transitions and contracts (src/interface/builder.rs), and implementations of interfaces
-- (src/interface/iimpl.rs), at concrete values.
use rgb_wallet.Prelude.{
  ℕ, ◌+◌, ◌*◌, ◌-◌, ◌%◌, ◌<◌, List, [], ◌∷◌, Option, none, some, true, false, not, eqb, ltb, ok,
  ◌&&◌, if◌then◌else◌, ◌≡◌, ◌↔◌, refl, arith, inr,
}
use rgb_wallet.Collections.Map
use rgb_wallet.Collections.Map.{Map, find, put}
use rgb_wallet.Collections.Set
use rgb_wallet.Collections.Set.{Set}
use rgb_wallet.Collections.Ord.{nat_ord}
use rgb_wallet.Contract.Types.{Opout, opout_ord}
use rgb_wallet.Interface.Types.{Iface, override}
use rgb_wallet.Interface.Implementation.{IfaceImpl, type_of}
use rgb_wallet.Builder.{
  BuilderCore, bitcoin, liquid, Schema, fungible, unsigned64_bit, amount, BuilderSeal, revealed,
  concealed, layer1, builder_seal_ord, invalid_layer1, built, refused, with_iface,
}
use rgb_wallet.Builder.{RevealedValue, seal_eq}
use rgb_wallet.Builder.Tags
use rgb_wallet.Builder.Add
use rgb_wallet.Builder.Complete.{or_empty_blinding, all_but_last}
use rgb_wallet.Builder.WellFormed.{Fitting, HasKind}
use rgb_wallet.Builder.Added.{state_at, add_fungible_state_lem}
use rgb_wallet.Builder.Issue
use rgb_wallet.Builder.Issue.{ContractBuilder, Genesis, with_issuer, issue_genesis}
use rgb_wallet.Builder.Issue.Calls as ContractCalls
use rgb_wallet.Builder.Issue.Calls.{ContractCall}
use rgb_wallet.Builder.Issue.Reachable.{Reachable-IsWellFormed_contract}
use rgb_wallet.Builder.Issue.Layers.{call-no_layer}
use rgb_wallet.Builder.Issue.Issued.{IsIssued, issue_genesis_lem}
use rgb_wallet.Interface.Check.{Clock}
use rgb_wallet.Interface.Implementation.{SchemaTypes, check_impl}
use rgb_wallet.Interface.Implementation.Fit.{Fits, check_impl_lem}
use rgb_wallet.Builder.Invariant.{IsWellFormed}
use rgb_wallet.Builder.Transition
use rgb_wallet.Builder.Transition.{TransitionBuilder, Transition, with_type, complete_transition}
use rgb_wallet.Builder.Transition.Calls
use rgb_wallet.Builder.Transition.Calls.{TransitionCall}
use rgb_wallet.Builder.Transition.Reachable.{Reachable-IsWellFormed}
use rgb_wallet.Builder.Transition.Completed.{IsCompleted, complete_transition_lem}

abbrev total : List ℕ → ℕ
total [] = 0
total (n ∷ l) = n + total l

-- The factor that brings the outputs up to the inputs, modulo a small prime
abbrev balanced : List ℕ → List ℕ → ℕ
balanced inputs outputs = (total inputs + 100 * 13 - total outputs) % 13

-- There is none where the factor would be zero.
abbrev zero_balanced : List ℕ → List ℕ → Option ℕ
zero_balanced inputs outputs =
    if eqb (balanced inputs outputs) 0 then none else some (balanced inputs outputs)

abbrev sealed_core : BuilderCore
sealed_core = record {
  conf = record {
    tiny_full = λ n. not (ltb n 255);
    small_full = λ n. not (ltb n 65535);
    medium_full = λ n. false;
    large_full = λ n. false;
  };
  tags_full = λ n. not (ltb n 255);
  occurrences = record { Occ = ℕ; min_value = λ n. n };
  Seal = ℕ;
  seal_ord = nat_ord;
  seal_layer1 = λ seal. bitcoin;
  secret_layer1 = λ seal. liquid;
  Timestamp = ℕ;
  Value = ℕ;
  Datum = ℕ;
  to_strict_serialized = some;
  TypeSystem = Unit;
  strict_deserialize_type = λ _ _ _. true;
  GlobalState = List ℕ;
  no_globals = [];
  add_state = λ globals ty datum. some (datum ∷ globals);
  Metadata = List ℕ;
  no_metadata = [];
  add_value = λ meta ty datum. some (datum ∷ meta);
  Blinding = ℕ;
  empty_blinding = 5;
  zero_balanced = zero_balanced;
  vec_fits = λ n. ltb n 65536;
}

fitting : Fitting sealed_core
fitting = record { fits_one = refl; fits_more = λ n room. ground (arith, room) }

abbrev iface : Iface sealed_core.occurrences
iface = record {
  name = 1;
  inherits = [];
  metadata = Map.empty;
  global_state = Map.empty;
  assignments = Map.empty;
  valencies = Map.empty;
  genesis = record {
    modifier = override;
    metadata = Set.empty;
    globals = Map.empty;
    assignments = Map.empty;
    valencies = Set.empty;
    errors = Set.empty;
  };
  transitions = Map.empty;
  extensions = Map.empty;
  default_operation = none;
  errors = Map.empty;
}

abbrev schema : Schema
schema = record {
  meta_types = Map.empty;
  global_types = Map.empty;
  owned_types = record { entries = (40, fungible unsigned64_bit) ∷ [] };
}

-- The name 5 stands for the type 40.
abbrev iimpl : IfaceImpl
iimpl = record {
  metadata = [];
  global_state = [];
  assignments = record { id = 40; name = 5 } ∷ [];
  valencies = [];
  transitions = record { id = 1; name = 6 } ∷ [];
  extensions = [];
  errors = [];
}

abbrev spent_at : Opout
spent_at = record { op = 1; ty = 40; no = 0 }

abbrev fresh_builder : TransitionBuilder sealed_core
fresh_builder = with_type sealed_core 3 iface schema iimpl 1 tt

-- A builder with a tag, an input and an amount at a seal
abbrev tag_call : TransitionCall sealed_core
tag_call = Calls.add_asset_tag 5 77

abbrev input_call : TransitionCall sealed_core
input_call = Calls.add_input spent_at (amount 100 8 77)

abbrev amount_call : TransitionCall sealed_core
amount_call = Calls.add_fungible_state 5 (revealed 9) 100 6

abbrev tagged_builder : TransitionBuilder sealed_core
tagged_builder = record fresh_builder {
  builder = record fresh_builder.builder { asset_tags = record { entries = (40, 77) ∷ [] } };
}

abbrev fed_builder : TransitionBuilder sealed_core
fed_builder = record tagged_builder {
  inputs = record { entries = (spent_at, amount 100 8 77) ∷ [] };
}

abbrev filled_builder : TransitionBuilder sealed_core
filled_builder = record fed_builder {
  builder = record fed_builder.builder {
    fungible = record {
      entries =
          (
            40,
            record { entries = (revealed 9, record { value = 100; blinding = 6; tag = 77 }) ∷ [] },
          )
          ∷ [];
    };
  };
}

tag_call_run : Calls.call sealed_core fresh_builder tag_call ≡ built tagged_builder
unfolding Calls.call with_type with_iface Tags.add_asset_tag Tags.add_asset_tag_raw Tags.insert_tag
    type_of Map.get Map.insert
tag_call_run = refl

input_call_run : Calls.call sealed_core tagged_builder input_call ≡ built fed_builder
unfolding Calls.call Transition.add_input with_type with_iface Map.insert
input_call_run = refl

amount_call_run : Calls.call sealed_core fed_builder amount_call ≡ built filled_builder
unfolding Calls.call Transition.add_fungible_state Add.add_fungible_state Add.add_fungible_state_raw
    Add.check_kind Add.put_state Tags.state_schema Tags.asset_tag_raw type_of with_type with_iface
    Map.get Map.insert
amount_call_run = refl

filled_reachable : Calls.Reachable sealed_core filled_builder
filled_reachable =
    Calls.step fed_builder amount_call filled_builder
      (Calls.step tagged_builder input_call fed_builder
        (Calls.step fresh_builder tag_call tagged_builder (Calls.start 3 iface schema iimpl 1 tt)
          tag_call_run)
        input_call_run)
      amount_call_run

Reachable-IsWellFormed_example : IsWellFormed sealed_core filled_builder.builder
Reachable-IsWellFormed_example =
    Reachable-IsWellFormed sealed_core fitting filled_builder filled_reachable

small_room : (n : ℕ) → n < 1 + (0 + (0 + 0)) → not (ltb n 255) ≡ false
small_room n below = ground (arith, below)

complete_transition_example :
    (t : Transition sealed_core) × (complete_transition sealed_core filled_builder ≡ built t)
    × IsCompleted sealed_core balanced filled_builder t
unfolding with_type or_empty_blinding all_but_last
complete_transition_example =
    complete_transition_lem sealed_core balanced filled_builder fitting filled_reachable (refl, tt)
      small_room ((inr refl, tt), tt)

abbrev issuing : ContractBuilder sealed_core
issuing = with_issuer sealed_core 2 iface schema iimpl tt

abbrev issue_call : ContractCall sealed_core
issue_call = ContractCalls.add_fungible_state 5 (revealed 9) 100 77 6

abbrev issued : ContractBuilder sealed_core
issued = record issuing { builder = filled_builder.builder }

issue_call_run : ContractCalls.call sealed_core issuing issue_call ≡ built issued
unfolding ContractCalls.call Issue.add_fungible_state Issue.check_layer1 Issue.has_layer1 layer1
    Tags.init_asset_tag Tags.init_tag Tags.insert_tag Add.add_fungible_state
    Add.add_fungible_state_raw Add.check_kind Add.put_state Tags.state_schema Tags.asset_tag_raw
    type_of with_type with_issuer with_iface Map.get Map.insert
issue_call_run = refl

issued_reachable : ContractCalls.Reachable sealed_core issued
issued_reachable =
    ContractCalls.step issuing issue_call issued (ContractCalls.start 2 iface schema iimpl tt)
      issue_call_run

Reachable-IsWellFormed_contract_example : IsWellFormed sealed_core issued.builder
Reachable-IsWellFormed_contract_example =
    Reachable-IsWellFormed_contract sealed_core fitting issued issued_reachable

issue_genesis_example :
    (g : Genesis sealed_core) × (issue_genesis sealed_core issued 1000 ≡ built g)
    × IsIssued sealed_core balanced issued 1000 g
unfolding with_type or_empty_blinding all_but_last
issue_genesis_example =
    issue_genesis_lem sealed_core balanced issued fitting issued_reachable (refl, tt) small_room
      1000

-- A contract without Liquid refuses a concealed seal, which is on Liquid here.
abbrev foreign_call : ContractCall sealed_core
foreign_call = ContractCalls.add_rights 5 (concealed 4)

no_liquid : Issue.has_layer1 sealed_core issuing (layer1 sealed_core (concealed 4)) ≡ false
unfolding Issue.has_layer1 layer1 with_issuer Set.contains
no_liquid = refl

call-no_layer_example :
    ContractCalls.call sealed_core issuing foreign_call
    ≡ refused (invalid_layer1 (layer1 sealed_core (concealed 4)))
call-no_layer_example = call-no_layer sealed_core issuing (concealed 4) foreign_call refl no_liquid

abbrev added_at : ℕ → BuilderSeal sealed_core → Option (RevealedValue sealed_core)
added_at ty seal = state_at sealed_core filled_builder.builder.fungible ty seal

add_run :
    Add.add_fungible_state sealed_core fed_builder.builder 5 (revealed 9) 100 6
    ≡ built filled_builder.builder
unfolding Add.add_fungible_state Add.add_fungible_state_raw Add.check_kind Add.put_state
    Tags.state_schema Tags.asset_tag_raw type_of with_type with_iface Map.get Map.insert
add_run = refl

add_fungible_state_example :
    (ty : ℕ) × (tag : ℕ) × (Tags.type_named sealed_core fed_builder.builder 5 ≡ built ty)
    × (Map.get fed_builder.builder.asset_tags ty ≡ some tag)
    × (HasKind sealed_core Add.is_fungible fed_builder.builder.schema ty
        × ((j : ℕ) (other : BuilderSeal sealed_core)
            → added_at j other ≡ (
                if eqb ty j && seal_eq sealed_core (revealed 9) other
                then some (record { value = 100; blinding = 6; tag = tag })
                else state_at sealed_core fed_builder.builder.fungible j other)))
add_fungible_state_example =
    add_fungible_state_lem sealed_core fed_builder.builder filled_builder.builder 5 (revealed 9) 100
      6 add_run

abbrev noon : Clock
noon = record { Stamp = ℕ; Time = ℕ; timestamp_opt = some; in_future = ltb 100 }

abbrev schema_types : SchemaTypes
schema_types = record {
  meta_types = Set.empty;
  global_types = Set.empty;
  owned_types = Set.singleton 40;
  valency_types = Set.empty;
  transitions = Set.singleton 1;
  extensions = Set.empty;
}

check_impl_example :
    (check_impl noon sealed_core.occurrences 90 iimpl iface schema_types ≡ ok tt)
    ↔ Fits noon sealed_core.occurrences 90 iimpl iface schema_types
check_impl_example = check_impl_lem noon sealed_core.occurrences 90 iimpl iface schema_types
