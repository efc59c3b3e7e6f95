-- ===== src/Builder.antt =====
-- The data of the operation builder (src/interface/builder.rs), with `PersistedState` (src/persistence/state.rs)
-- and `BuilderSeal` (src/containers/seal.rs). Each step of a builder gives a builder, refuses, or panics.
pub mod Tags
pub mod Add
pub mod Complete
pub mod Transition
pub mod Issue
pub mod WellFormed
pub mod Invariant
pub mod Steps
pub mod Added
use rgb_wallet.Prelude.{
  ℕ, List, Option, none, some, Bool, true, false, if◌then◌else◌, eqb, ltb, eqb_iff, ◌≡◌, ◌↔◌, refl,
  ap, arith,
}
use rgb_wallet.Collections.Ord.{Ord}
use rgb_wallet.Collections.Map
use rgb_wallet.Collections.Map.{Map}
use rgb_wallet.Collections.Set.{Set}
use rgb_wallet.Collections.Confinement.{Confinement}
use rgb_wallet.Contract.Types.{States}
use rgb_wallet.Interface.Types.{Occurrences, Iface}
use rgb_wallet.Interface.Implementation.{IfaceImpl}

pub data Layer1 : Type 0 where
  bitcoin liquid : Layer1

-- What the builder takes from other crates: seals, with a chain in each, numbers for concealed seals, serialized
-- data and the type system that reads it, global state, metadata and blinding factors, and what fits in a collection.
pub record BuilderCore : Type 1 where
  pub conf : Confinement
  pub tags_full : ℕ → Bool
  pub occurrences : Occurrences
  pub Seal : Type 0
  pub seal_ord : Ord Seal
  pub seal_layer1 : Seal → Layer1
  pub secret_layer1 : ℕ → Layer1
  pub Timestamp : Type 0
  pub Value : Type 0
  pub Datum : Type 0
  pub to_strict_serialized : Value → Option Datum
  pub TypeSystem : Type 0
  pub strict_deserialize_type : TypeSystem → (sem_id : ℕ) → Datum → Bool
  pub GlobalState : Type 0
  pub no_globals : GlobalState
  pub add_state : GlobalState → ℕ → Datum → Option GlobalState
  pub Metadata : Type 0
  pub no_metadata : Metadata
  pub add_value : Metadata → ℕ → Datum → Option Metadata
  pub Blinding : Type 0
  pub empty_blinding : Blinding
  pub zero_balanced : (inputs outputs : List Blinding) → Option Blinding
  -- whether a vector of that many assignments is allowed
  pub vec_fits : ℕ → Bool

-- `OwnedStateSchema`, and the types of a schema
pub data FungibleType : Type 0 where
  unsigned64_bit : FungibleType

pub data OwnedStateSchema : Type 0 where
  declarative : OwnedStateSchema
  fungible : FungibleType → OwnedStateSchema
  structured : (sem_id : ℕ) → OwnedStateSchema
  attachment : (media_type : ℕ) → OwnedStateSchema

pub record Schema : Type 0 where
  pub meta_types : Map ℕ ℕ
  pub global_types : Map ℕ ℕ
  pub owned_types : Map ℕ OwnedStateSchema

module _ (C : BuilderCore) where
  pub record RevealedValue : Type 0 where
    pub value : ℕ
    pub blinding : C.Blinding
    pub tag : ℕ

  pub record RevealedData : Type 0 where
    pub value : C.Datum
    pub salt : ℕ

  pub record RevealedAttach : Type 0 where
    pub id : ℕ
    pub media_type : ℕ
    pub salt : ℕ

  abbrev pub BuilderStates : States
  BuilderStates = record {
    Rights = Unit;
    Value = RevealedValue;
    Structure = RevealedData;
    Attach = RevealedAttach;
  }

  -- `PersistedState`, an attachment with its identifier and its media type
  pub data PersistedState : Type 0 where
    void : PersistedState
    amount : (value : ℕ) (blinding : C.Blinding) (tag : ℕ) → PersistedState
    persisted_data : (value : C.Datum) (salt : ℕ) → PersistedState
    attached : (id media_type salt : ℕ) → PersistedState

  -- `PersistedState::update_blinding`
  unfoldable pub update_blinding : PersistedState → C.Blinding → PersistedState
  update_blinding void blinding = void
  update_blinding (amount value b tag) blinding = amount value blinding tag
  update_blinding (persisted_data value salt) blinding = persisted_data value salt
  update_blinding (attached id media_type salt) blinding = attached id media_type salt

  pub data BuilderSeal : Type 0 where
    revealed : C.Seal → BuilderSeal
    concealed : ℕ → BuilderSeal

  -- `BuilderSeal::layer1`
  unfoldable pub layer1 : BuilderSeal → Layer1
  layer1 (revealed seal) = C.seal_layer1 seal
  layer1 (concealed seal) = C.secret_layer1 seal

  -- The derived `PartialEq` and `Ord`
  abbrev pub seal_eq : BuilderSeal → BuilderSeal → Bool
  seal_eq (revealed a) (revealed b) = C.seal_ord.eq a b
  seal_eq (concealed a) (concealed b) = eqb a b
  seal_eq _ _ = false

  abbrev pub seal_lt : BuilderSeal → BuilderSeal → Bool
  seal_lt (revealed a) (revealed b) = C.seal_ord.lt a b
  seal_lt (concealed a) (concealed b) = ltb a b
  seal_lt (revealed _) (concealed _) = true
  seal_lt (concealed _) (revealed _) = false

  pub seal_eq_iff : (a b : BuilderSeal) → (seal_eq a b ≡ true) ↔ (a ≡ b)
  seal_eq_iff (revealed a) (revealed b) = ground (arith, C.seal_ord.eq_iff a b)
  seal_eq_iff (concealed a) (concealed b) = ground (arith, eqb_iff a b)
  seal_eq_iff (revealed a) (concealed b) = ((λ e. cc), λ e. cc)
  seal_eq_iff (concealed a) (revealed b) = ((λ e. cc), λ e. cc)

instance abbrev pub builder_seal_ord : {C : BuilderCore} → Ord (BuilderSeal C)
builder_seal_ord {C} = record { eq = seal_eq C; lt = seal_lt C; eq_iff = seal_eq_iff C }

-- `BuilderError`, as far as it is given
pub data BuilderError : Type 0 where
  metadata_not_found global_not_found assignment_not_found transition_not_found :
      (name : ℕ) → BuilderError
  invalid_state_type asset_tag_missed asset_tag_automatic asset_tag_invalid :
      (ty : ℕ) → BuilderError
  no_operation_subtype no_default_assignment too_many_layers1 : BuilderError
  invalid_layer1 : Layer1 → BuilderError
  strict_encode reify confinement metadata_invalid : BuilderError

pub data Built (A : Type 0) : Type 0 where
  built : A → Built A
  refused : BuilderError → Built A
  panicked : Built A

module _ {A B : Type 0} where
  infixl 5 ◌>>=◌ ◌>>◌
  abbrev pub ◌>>=◌ : Built A → (A → Built B) → Built B
  built a >>= f = f a
  refused e >>= f = refused e
  panicked >>= f = panicked

  abbrev pub ◌>>◌ : Built A → Built B → Built B
  m >> n = m >>= λ _. n

-- `ok_or` with `?`, and `expect`
abbrev pub required : {A : Type 0} → Option A → BuilderError → Built A
required (some a) e = built a
required none e = refused e

abbrev pub expected : {A : Type 0} → Option A → Built A
expected (some a) = built a
expected none = panicked

abbrev pub refuse_if : Bool → BuilderError → Built (Unit {0})
refuse_if true e = refused e
refuse_if false e = built tt

module _ (C : BuilderCore) where
  -- The states at the seals of each assignment type. The seals of rights are a hash set in the code, whose order
  -- is taken to be that of the seals.
  abbrev pub StateMap : Type 0 → Type 0
  StateMap V = Map ℕ (Map (BuilderSeal C) V)

  -- `OperationBuilder`, without the flag that only assertions of debug builds read
  pub record OperationBuilder : Type 0 where
    pub schema : Schema
    pub iface : Iface C.occurrences
    pub iimpl : IfaceImpl
    pub asset_tags : Map ℕ ℕ
    pub global : C.GlobalState
    pub meta : C.Metadata
    pub rights : Map ℕ (Set (BuilderSeal C))
    pub fungible : StateMap (RevealedValue C)
    pub structure : StateMap (RevealedData C)
    pub attachments : StateMap (RevealedAttach C)
    pub types : C.TypeSystem

  -- `OperationBuilder::with`, and `deterministic`
  unfoldable pub with_iface :
      Iface C.occurrences → Schema → IfaceImpl → C.TypeSystem → OperationBuilder
  with_iface iface schema iimpl types = record {
    schema = schema;
    iface = iface;
    iimpl = iimpl;
    asset_tags = Map.empty;
    global = C.no_globals;
    meta = C.no_metadata;
    rights = Map.empty;
    fungible = Map.empty;
    structure = Map.empty;
    attachments = Map.empty;
    types = types;
  }
