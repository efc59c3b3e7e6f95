-- ===== src/Interface/Implementation.antt =====
-- `IfaceImpl` (src/interface/iimpl.rs): how the fields of an interface are implemented by the types of a schema.
pub mod Fit
use rgb_wallet.Prelude.{
  ℕ, ◌+◌, List, [], ◌∷◌, ◌++◌, map, Option, none, some, Bool, true, false, not, ◌&&◌, ◌||◌,
  if◌then◌else◌, ltb, eqb, any_of, Result, ok, err, gather, report,
}
use rgb_wallet.Collections.Map
use rgb_wallet.Collections.Map.{Map}
use rgb_wallet.Collections.Set
use rgb_wallet.Collections.Set.{Set}
use rgb_wallet.Collections.Ord.{nat_ord}
use rgb_wallet.Interface.Types.{Occurrences, Iface}
use rgb_wallet.Interface.Check.{Clock, has}

-- `NamedField`, and `NamedVariant`, whose `id` is an error number
pub record NamedField : Type 0 where
  pub id : ℕ
  pub name : ℕ

-- `IfaceImpl`, each set as the list of its elements in their order
pub record IfaceImpl : Type 0 where
  pub metadata : List NamedField
  pub global_state : List NamedField
  pub assignments : List NamedField
  pub valencies : List NamedField
  pub transitions : List NamedField
  pub extensions : List NamedField
  pub errors : List NamedField

-- The name of the first field with an identifier, and the identifier of the first field with a name
unfoldable pub name_of : List NamedField → ℕ → Option ℕ
name_of [] id = none
name_of (field ∷ rest) id =
    let later = name_of rest id in if eqb field.id id then some field.name else later

unfoldable pub type_of : List NamedField → ℕ → Option ℕ
type_of [] name = none
type_of (field ∷ rest) name =
    let later = type_of rest name in if eqb field.name name then some field.id else later

abbrev pub assignments_type : IfaceImpl → ℕ → Option ℕ
assignments_type self name = type_of self.assignments name

abbrev pub transition_type : IfaceImpl → ℕ → Option ℕ
transition_type self name = type_of self.transitions name

abbrev pub transition_name : IfaceImpl → ℕ → Option ℕ
transition_name self id = name_of self.transitions id

abbrev pub global_type : IfaceImpl → ℕ → Option ℕ
global_type self name = type_of self.global_state name

abbrev pub meta_type : IfaceImpl → ℕ → Option ℕ
meta_type self name = type_of self.metadata name

-- The types of a schema, which is that of the crate `rgb-core`
pub record SchemaTypes : Type 0 where
  pub meta_types : Set ℕ
  pub global_types : Set ℕ
  pub owned_types : Set ℕ
  pub valency_types : Set ℕ
  pub transitions : Set ℕ
  pub extensions : Set ℕ

-- `ImplInconsistency`. A complaint about a field of the interface, about a type of the schema and about a
-- repeated name has the kind of the field.
pub data FieldKind : Type 0 where
  meta_field global_field assignment_field valency_field transition_field extension_field :
      FieldKind

pub data ImplInconsistency (C : Clock) : Type 0 where
  invalid_timestamp : C.Stamp → ImplInconsistency C
  future_timestamp : C.Time → ImplInconsistency C
  iface_absent : FieldKind → (name : ℕ) → ImplInconsistency C
  schema_absent : FieldKind → (name id : ℕ) → ImplInconsistency C
  repeated : FieldKind → (name count : ℕ) → ImplInconsistency C
  iface_error_absent : ℕ → ImplInconsistency C

-- The counter of a name: 0 at first, and one more at each repetition
unfoldable pub next_count : Option ℕ → ℕ
next_count none = 0
next_count (some count) = count + 1

unfoldable pub tally : List NamedField → Map ℕ ℕ → Map ℕ ℕ
tally [] counts = counts
tally (field ∷ rest) counts =
    tally rest (Map.insert counts field.name (next_count (Map.get counts field.name)))

abbrev pub keys : {V : Type 0} → Map ℕ V → List ℕ
keys m = map (λ e. e.0) m.entries

module _ (C : Clock) where
  abbrev pub Issues : Type 0
  Issues = List (ImplInconsistency C)

  unfoldable pub unless_implemented : FieldKind → List NamedField → ℕ → Option (ImplInconsistency C)
  unless_implemented kind fields name =
      if any_of (λ (f : NamedField). eqb f.name name) fields
      then none
      else some (iface_absent kind name)

  unfoldable pub unless_in_schema : FieldKind → Set ℕ → NamedField → Option (ImplInconsistency C)
  unless_in_schema kind types field =
      if Set.contains types field.id then none else some (schema_absent kind field.name field.id)

  unfoldable pub if_repeated : FieldKind → ℕ × ℕ → Option (ImplInconsistency C)
  if_repeated kind (name, count) = if ltb 1 count then some (repeated kind name count) else none

  -- The three loops over one kind of fields. The complaints about repeated names come in the order of a hash
  -- map in the code, and in the order of the names here.
  unfoldable pub check_fields : FieldKind → List ℕ → List NamedField → Set ℕ → Issues
  check_fields kind names fields types =
      gather (unless_implemented kind fields) names
      ++ (gather (unless_in_schema kind types) fields
          ++ gather (if_repeated kind) (tally fields Map.empty).entries)

  unfoldable pub check_stamp : C.Stamp → Issues
  check_stamp stamp = elim (C.timestamp_opt stamp) [
    | some time ↦ if C.in_future time then future_timestamp time ∷ [] else []
    | none ↦ invalid_timestamp stamp ∷ []
  ]

  unfoldable pub unless_declared : (ℕ → Bool) → NamedField → Option (ImplInconsistency C)
  unless_declared known var = if known var.name then none else some (iface_error_absent var.name)

  -- `IfaceImpl::check`
  unfoldable pub check_impl :
      (O : Occurrences) → C.Stamp → IfaceImpl → Iface O → SchemaTypes → Result Issues (Unit {0})
  check_impl O stamp self iface schema = report (
      check_stamp stamp
      ++ (check_fields meta_field (keys iface.metadata) self.metadata schema.meta_types
          ++ (check_fields global_field (keys iface.global_state) self.global_state
                schema.global_types
              ++ (check_fields assignment_field (keys iface.assignments) self.assignments
                    schema.owned_types
                  ++ (check_fields valency_field (keys iface.valencies) self.valencies
                        schema.valency_types
                      ++ (check_fields transition_field (keys iface.transitions) self.transitions
                            schema.transitions
                          ++ (check_fields extension_field (keys iface.extensions) self.extensions
                                schema.extensions
                              ++ gather (unless_declared (has iface.errors)) self.errors)))))))
