-- ===== src/Interface/Implementation/Fit.antt =====
-- Which implementations fit an interface and a schema, and `IfaceImpl::check` (src/interface/iimpl.rs).
use rgb_wallet.Prelude.{
  ℕ, zero, suc, ◌+◌, ◌≤◌, ◌<◌, List, [], ◌∷◌, Option, none, some, Bool, true, false, if◌then◌else◌,
  eqb, eqb_iff, any_of, ok, All, All-weaken, gather_lem, both_empty, report_lem, ◌≡◌, ◌↔◌, refl, ap,
  ◌∙◌, arith,
}
use rgb_wallet.Collections.Map
use rgb_wallet.Collections.Map.{Map, get-insert, get-All, insert-All, get-empty}
use rgb_wallet.Collections.Set
use rgb_wallet.Collections.Set.{Set}
use rgb_wallet.Collections.Ord.{nat_ord, ◌==◌}
use rgb_wallet.Interface.Types.{Occurrences, Iface}
use rgb_wallet.Interface.Check.{Clock, has}
use rgb_wallet.Interface.Implementation.{
  NamedField, IfaceImpl, SchemaTypes, FieldKind, meta_field, global_field, assignment_field,
  valency_field, transition_field, extension_field, next_count, invalid_timestamp, future_timestamp,
  tally, Issues, unless_implemented, unless_in_schema, if_repeated, check_fields, check_stamp,
  unless_declared, keys, check_impl,
}

-- How often a name stands in a list of fields
abbrev pub occurrences : ℕ → List NamedField → ℕ
occurrences name [] = 0
occurrences name (field ∷ rest) =
    let later = occurrences name rest in if eqb field.name name then suc later else later

-- The counter of a name after `n` more fields with that name
abbrev pub counted : ℕ → Option ℕ → Option ℕ
counted zero none = none
counted (suc k) none = some k
counted n (some count) = some (count + n)

counted-zero : (o : Option ℕ) → o ≡ counted 0 o
counted-zero none = refl
counted-zero (some c) = ground arith

counted-suc : (n : ℕ) (o : Option ℕ) → counted n (some (next_count o)) ≡ counted (suc n) o
unfolding next_count
counted-suc n none = ground arith
counted-suc n (some c) = ground arith

counted-insert :
    (same : Bool) (n : ℕ) (here there : Option ℕ)
    → (same ≡ true → here ≡ there)
    → counted n (if same then some (next_count here) else there)
      ≡ counted (if same then suc n else n) there
counted-insert true n here there h = rw (h refl) (counted-suc n there)
counted-insert false n here there h = refl

-- The counter of a name is what it was, and one more for each field with that name but the first one.
tally-get :
    (l : List NamedField) (m : Map ℕ ℕ) (k : ℕ)
    → Map.get (tally l m) k ≡ counted (occurrences k l) (Map.get m k)
unfolding tally
tally-get [] m k = counted-zero (Map.get m k)
tally-get (field ∷ l) m k =
    let name = field.name in
    let m1 = Map.insert m name (next_count (Map.get m name)) in
    let step : Map.get m1 k
        ≡ (if name == k then some (next_count (Map.get m name)) else Map.get m k) =
      get-insert m name k _ in
    tally-get l m1 k
    ∙ (ap (counted (occurrences k l)) step
        ∙ counted-insert (eqb name k) (occurrences k l) (Map.get m name) (Map.get m k)
            (λ e. ap (Map.get m) ((eqb_iff name k).0 e)))

abbrev one_more : (name : ℕ) (c : ℕ → ℕ) → ℕ → ℕ
one_more name c k = if eqb name k then suc (c k) else c k

-- While no name is counted above a bound of its occurrences so far, none is at the end.
tally-All :
    (l : List NamedField) (m : Map ℕ ℕ) (c : ℕ → ℕ)
    → All (λ e. e.1 < c e.0) m.entries
    → ((k : ℕ) → c k + occurrences k l ≤ 2)
    → All (λ e. e.1 ≤ 1) (tally l m).entries
unfolding tally next_count
tally-All [] m c h most =
    All-weaken {A = ℕ × ℕ} (λ e below. ground (arith, below, most e.0)) m.entries h
tally-All (field ∷ l) m c h most =
    let name = field.name in
    tally-All l (Map.insert m name (next_count (Map.get m name))) (one_more name c)
      (insert-All (λ e. e.1 < one_more name c e.0) m name _
        (All-weaken {A = ℕ × ℕ} (λ e below. kept e.0 e.1 below) m.entries h)
        (this (Map.get m name) (λ v e. get-All (λ e. e.1 < c e.0) m name v h e)))
      (λ k. left k (most k))
  where
    kept : (k v : ℕ) → v < c k → v < one_more field.name c k
    kept k v h = ground arith

    this :
        (o : Option ℕ)
        → ((v : ℕ) → o ≡ some v → v < c field.name)
        → next_count o < one_more field.name c field.name
    this none h = ground arith
    this (some v) h = ground (arith, h v refl)

    left :
        (k : ℕ)
        → c k + occurrences k (field ∷ l) ≤ 2
        → one_more field.name c k + occurrences k l ≤ 2
    left k h = ground arith

-- No name is counted above 1 exactly where none stands three times.
repeats_lem :
    (l : List NamedField)
    → All (λ e. e.1 ≤ 1) (tally l Map.empty).entries ↔ ((name : ℕ) → occurrences name l ≤ 2)
repeats_lem l = (few, λ h. tally-All l Map.empty (λ _. 0) tt (λ k. ground (arith, h k)))
  where
    bounded : (n : ℕ) (o : Option ℕ) → o ≡ counted n none → ((v : ℕ) → o ≡ some v → v ≤ 1) → n ≤ 2
    bounded zero o e h = ground arith
    bounded (suc n) o e h = ground (arith, h n e)

    few : All (λ e. e.1 ≤ 1) (tally l Map.empty).entries → (name : ℕ) → occurrences name l ≤ 2
    few h name =
        bounded (occurrences name l) (Map.get (tally l Map.empty) name)
          (tally-get l Map.empty name ∙ ap (counted (occurrences name l)) (get-empty name))
          (λ v e. get-All (λ e. e.1 ≤ 1) (tally l Map.empty) name v h e)

module _ (C : Clock) where
  abbrev pub Implements : List NamedField → ℕ → Type 0
  Implements fields name = any_of (λ (f : NamedField). eqb f.name name) fields ≡ true

  abbrev pub InTime : C.Stamp → Type 0
  InTime stamp = (time : C.Time) × (C.timestamp_opt stamp ≡ some time) × (C.in_future time ≡ false)

  -- All names of an interface are implemented, all types are those of the schema, and no name stands three times.
  abbrev pub FieldsFit : List ℕ → List NamedField → Set ℕ → Type 0
  FieldsFit names fields types =
      All (Implements fields) names
      × (All (λ (f : NamedField). Set.contains types f.id ≡ true) fields
          × ((name : ℕ) → occurrences name fields ≤ 2))

  implemented_lem :
      (kind : FieldKind) (fields : List NamedField) (name : ℕ)
      → (unless_implemented C kind fields name ≡ none) ↔ Implements fields name
  unfolding unless_implemented
  implemented_lem kind fields name = ground arith

  in_schema_lem :
      (kind : FieldKind) (types : Set ℕ) (f : NamedField)
      → (unless_in_schema C kind types f ≡ none) ↔ (Set.contains types f.id ≡ true)
  unfolding unless_in_schema
  in_schema_lem kind types f = ground arith

  repeated_lem : (kind : FieldKind) (e : ℕ × ℕ) → (if_repeated C kind e ≡ none) ↔ (e.1 ≤ 1)
  unfolding if_repeated
  repeated_lem kind (name, count) = ground arith

  declared_lem :
      (known : ℕ → Bool) (f : NamedField)
      → (unless_declared C known f ≡ none) ↔ (known f.name ≡ true)
  unfolding unless_declared
  declared_lem known f = ground arith

  pub fields_lem :
      (kind : FieldKind) (names : List ℕ) (fields : List NamedField) (types : Set ℕ)
      → (check_fields C kind names fields types ≡ []) ↔ FieldsFit names fields types
  unfolding check_fields
  fields_lem kind names fields types =
      let repeats = gather_lem _ (repeated_lem kind) (tally fields Map.empty).entries in
      let few = repeats_lem fields in
      both_empty (gather_lem _ (implemented_lem kind fields) names) (
        both_empty (gather_lem _ (in_schema_lem kind types) fields)
          ((λ e. few.0 (repeats.0 e)), λ h. repeats.1 (few.1 h)))

  stamp_lem : (stamp : C.Stamp) → (check_stamp C stamp ≡ []) ↔ InTime stamp
  unfolding check_stamp
  stamp_lem stamp = timed stamp (C.timestamp_opt stamp)
    where
      timed :
          (stamp : C.Stamp) (o : Option C.Time)
          → (◌≡◌ {A = Issues C}
              (elim o [
                | some time ↦ if C.in_future time then future_timestamp time ∷ [] else []
                | none ↦ invalid_timestamp stamp ∷ []
              ])
              [])
            ↔ ((time : C.Time) × (o ≡ some time) × (C.in_future time ≡ false))
      timed stamp none = ((λ e. cc), λ (t, e, _). cc)
      timed stamp (some time) =
          ((λ e. (time, refl, ground arith)), λ (t, same, h). ground (arith, h, same))

  -- An implementation fits an interface and a schema.
  abbrev pub Fits : (O : Occurrences) → C.Stamp → IfaceImpl → Iface O → SchemaTypes → Type 0
  Fits O stamp self iface schema =
      InTime stamp
      × (FieldsFit (keys iface.metadata) self.metadata schema.meta_types
          × (FieldsFit (keys iface.global_state) self.global_state schema.global_types
              × (FieldsFit (keys iface.assignments) self.assignments schema.owned_types
                  × (FieldsFit (keys iface.valencies) self.valencies schema.valency_types
                      × (FieldsFit (keys iface.transitions) self.transitions schema.transitions
                          × (FieldsFit (keys iface.extensions) self.extensions schema.extensions
                              × All (λ (f : NamedField). has iface.errors f.name ≡ true)
                                  self.errors))))))

  -- `IfaceImpl::check` passes exactly the implementations whose time is not in the future, that
  -- implement each name of the interface, whose types are all in the schema, in which no name of a
  -- kind stands more than twice, and whose errors are those of the interface.
  pub check_impl_lem :
      (O : Occurrences) (stamp : C.Stamp) (self : IfaceImpl) (iface : Iface O)
      (schema : SchemaTypes)
      → (check_impl C O stamp self iface schema ≡ ok tt) ↔ Fits O stamp self iface schema
  unfolding check_impl
  check_impl_lem O stamp self iface schema =
      let found = both_empty (stamp_lem stamp) (
        both_empty (fields_lem meta_field (keys iface.metadata) self.metadata schema.meta_types) (
          both_empty
            (fields_lem global_field (keys iface.global_state) self.global_state
              schema.global_types)
            (both_empty
              (fields_lem assignment_field (keys iface.assignments) self.assignments
                schema.owned_types)
              (both_empty
                (fields_lem valency_field (keys iface.valencies) self.valencies
                  schema.valency_types)
                (both_empty
                  (fields_lem transition_field (keys iface.transitions) self.transitions
                    schema.transitions)
                  (both_empty
                    (fields_lem extension_field (keys iface.extensions) self.extensions
                      schema.extensions)
                    (gather_lem _ (declared_lem (has iface.errors)) self.errors))))))) in
      ((λ h. found.0 ((report_lem _).0 h)), λ h. (report_lem _).1 (found.1 h))
