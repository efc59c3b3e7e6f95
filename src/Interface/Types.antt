-- ===== src/Interface/Types.antt =====
-- The declarations of an interface (src/interface/iface.rs) and the errors of extending it
-- (src/interface/inheritance.rs). Names and identifiers are numbers that are compared and ordered.
use Prim.Native.String.{String}
use rgb_wallet.Prelude.{ℕ, List, Option, Bool, true, false, eqb}
use rgb_wallet.Collections.Map.{Map}
use rgb_wallet.Collections.Set.{Set}

pub data OwnedIface : Type 0 where
  any rights amount any_data any_attach : OwnedIface
  structured : ℕ → OwnedIface

pub data Modifier : Type 0 where
  abstract override final : Modifier

pub record GlobalIface : Type 0 where
  pub sem_id : Option ℕ
  pub required : Bool
  pub multiple : Bool

pub record AssignIface : Type 0 where
  pub owned_state : OwnedIface
  pub public : Bool
  pub required : Bool
  pub multiple : Bool

pub record ValencyIface : Type 0 where
  pub required : Bool

-- `Occurrences` of the crate `rgb-core`, of which the code asks the least number
pub record Occurrences : Type 1 where
  pub Occ : Type 0
  pub min_value : Occ → ℕ

module _ (O : Occurrences) where
  pub record GenesisIface : Type 0 where
    pub modifier : Modifier
    pub metadata : Set ℕ
    pub globals : Map ℕ O.Occ
    pub assignments : Map ℕ O.Occ
    pub valencies : Set ℕ
    pub errors : Set ℕ

  pub record TransitionIface : Type 0 where
    pub modifier : Modifier
    pub optional : Bool
    pub metadata : Set ℕ
    pub globals : Map ℕ O.Occ
    pub inputs : Map ℕ O.Occ
    pub assignments : Map ℕ O.Occ
    pub valencies : Set ℕ
    pub errors : Set ℕ
    pub default_assignment : Option ℕ

  pub record ExtensionIface : Type 0 where
    pub modifier : Modifier
    pub optional : Bool
    pub metadata : Set ℕ
    pub globals : Map ℕ O.Occ
    pub assignments : Map ℕ O.Occ
    pub redeems : Set ℕ
    pub valencies : Set ℕ
    pub errors : Set ℕ
    pub default_assignment : Option ℕ

  -- `version`, `timestamp` and `developer` are not touched by an extension.
  pub record Iface : Type 0 where
    pub name : ℕ
    pub inherits : List ℕ
    pub metadata : Map ℕ ℕ
    pub global_state : Map ℕ GlobalIface
    pub assignments : Map ℕ AssignIface
    pub valencies : Map ℕ ValencyIface
    pub genesis : GenesisIface
    pub transitions : Map ℕ TransitionIface
    pub extensions : Map ℕ ExtensionIface
    pub default_operation : Option ℕ
    pub errors : Map ℕ String

pub data OpName : Type 0 where
  genesis_op : OpName
  transition_op extension_op : ℕ → OpName

pub data ExtensionError : Type 0 where
  meta_overflow global_overflow assignment_overflow valency_overflow : ExtensionError
  transition_overflow extension_overflow error_overflow : ExtensionError
  default_override inheritance_overflow : ExtensionError
  global_type global_occ assignment_type assignment_occ assignment_public : ℕ → ExtensionError
  valency_occ : ℕ → ExtensionError
  op_final op_no_override op_default_override : OpName → ExtensionError
  op_overflow : OpName → String → ExtensionError
  op_occ : OpName → String → ℕ → ExtensionError

-- `OwnedIface::is_superset`
unfoldable pub is_superset : OwnedIface → OwnedIface → Bool
is_superset any other = true
is_superset any_data any_data = true
is_superset any_data (structured _) = true
is_superset rights rights = true
is_superset amount amount = true
is_superset any_attach any_attach = true
is_superset (structured a) (structured b) = eqb a b
is_superset _ _ = false

-- `Modifier::is_final`
unfoldable pub is_final : Modifier → Bool
is_final final = true
is_final _ = false

-- `Modifier::can_be_overridden_by`
unfoldable pub can_be_overridden_by : Modifier → Modifier → Bool
can_be_overridden_by abstract override = true
can_be_overridden_by abstract final = true
can_be_overridden_by override override = true
can_be_overridden_by override final = true
can_be_overridden_by _ _ = false
