-- ===== src/Interface/Extend/Refines.antt =====
-- When an interface refines another, and what extends and inherits it (src/interface/inheritance.rs).
use mathlib.Core.List.{append_assoc, append-nil}
use mathlib.Core.Path.{subst}
use rgb_wallet.Prelude.{
  ℕ, List, [], ◌∷◌, ◌++◌, map, Option, none, some, Bool, true, ◌≡◌, refl, sym, ◌∙◌, arith, Result,
  ok, err, All, inl, inr, ◌⊎◌,
}
use rgb_wallet.Collections.Map
use rgb_wallet.Collections.Map.{Map}
use rgb_wallet.Collections.Map.Ordered.{Ascending, overlay-get}
use rgb_wallet.Collections.Ord.{nat_ord}
use rgb_wallet.Collections.Confinement.{Confinement}
use rgb_wallet.Interface.Types.{
  Occurrences, GlobalIface, AssignIface, ValencyIface, Iface, OwnedIface, ExtensionError,
  is_superset, global_overflow, assignment_overflow, valency_overflow, inheritance_overflow,
}
use rgb_wallet.Interface.Extend.{
  Errors, finish, join_errors, append_all, merge_fields, check_global, check_assignment,
  check_valency,
}
use rgb_wallet.Interface.Extend.Fields.{Refined, merge_fields_lem}
use rgb_wallet.Interface.Extend.Ifaces.{extend_inherits, extended, inherit_all, inherit}

-- What a field of the parent requires, the child's requires too.
abbrev pub Implied : Bool → Bool → Type 0
Implied a b = a ≡ true → b ≡ true

abbrev pub GlobalRefines : GlobalIface → GlobalIface → Type 0
GlobalRefines g h =
    ((id : ℕ) → g.sem_id ≡ some id → h.sem_id ≡ some id) × Implied g.required h.required

abbrev pub AssignRefines : AssignIface → AssignIface → Type 0
AssignRefines a b =
    (is_superset a.owned_state b.owned_state ≡ true)
    × Implied a.required b.required
    × Implied a.public b.public

abbrev pub ValencyRefines : ValencyIface → ValencyIface → Type 0
ValencyRefines v w = Implied v.required w.required

superset_refl : (a : OwnedIface) → is_superset a a ≡ true
unfolding is_superset
superset_refl a = ground arith

superset_trans :
    (a b c : OwnedIface) → is_superset a b ≡ true → is_superset b c ≡ true → is_superset a c ≡ true
unfolding is_superset
superset_trans a b c h k = ground arith

AssignRefines-refl : (a : AssignIface) → AssignRefines a a
AssignRefines-refl a = (superset_refl a.owned_state, (λ r. r), λ p. p)

AssignRefines-trans :
    (a b c : AssignIface) → AssignRefines a b → AssignRefines b c → AssignRefines a c
AssignRefines-trans a b c (h, r, p) (k, s, q) =
    (superset_trans a.owned_state b.owned_state c.owned_state h k, (λ e. s (r e)), λ e. q (p e))

global_checked : (k : ℕ) (g h : GlobalIface) → check_global k g h ≡ none → GlobalRefines g h
unfolding check_global
global_checked k g h e = (λ id found. ground arith, λ r. ground arith)

assign_checked : (k : ℕ) (a b : AssignIface) → check_assignment k a b ≡ none → AssignRefines a b
unfolding check_assignment
assign_checked k a b e = (ground arith, λ r. ground arith, λ r. ground arith)

valency_checked : (k : ℕ) (v w : ValencyIface) → check_valency k v w ≡ none → ValencyRefines v w
unfolding check_valency
valency_checked k v w e = λ r. ground arith

append-empty : (xs ys : Errors) → xs ++ ys ≡ [] → (xs ≡ []) × (ys ≡ [])
append-empty [] ys h = (refl, h)
append-empty (x ∷ xs) ys h = cc

join_errors-empty : (parts : List Errors) → join_errors parts ≡ [] → All (λ es. es ≡ []) parts
unfolding join_errors
join_errors-empty [] h = tt
join_errors-empty (es ∷ parts) h =
    let (first, rest) = append-empty es (join_errors parts) h in
    (first, join_errors-empty parts rest)

finish_ok : {A : Type 0} (a r : A) (es : Errors) → finish a es ≡ ok r → (es ≡ []) × (a ≡ r)
finish_ok a r [] h = (refl, cc)
finish_ok a r (e ∷ es) h = cc

module _ (conf : Confinement) (overflow : ExtensionError) where
  nothing_appended : (l : List ℕ) → (append_all conf overflow [] l).0 ≡ l ++ []
  unfolding append_all
  nothing_appended l = sym (append-nil l)

  append_step :
      (x : ℕ) (xs l : List ℕ)
      → (append_all conf overflow (x ∷ xs) l).1 ≡ []
      → append_all conf overflow (x ∷ xs) l ≡ append_all conf overflow xs (l ++ x ∷ [])
  unfolding append_all
  append_step x xs l h = ground arith

  append_all_lem :
      (xs l : List ℕ)
      → (append_all conf overflow xs l).1 ≡ []
      → (append_all conf overflow xs l).0 ≡ l ++ xs
  append_all_lem [] l h = nothing_appended l
  append_all_lem (x ∷ xs) l h =
      let step = append_step x xs l h in
      rw step (append_all_lem xs (l ++ x ∷ []) (rw (sym step) h) ∙ append_assoc l (x ∷ []) xs)

Refined-trans :
    {V : Type 0} (R : V → V → Type 0) (t : (u v w : V) → R u v → R v w → R u w) (a b c : Option V)
    → Refined R a b
    → Refined R b c
    → Refined R a c
Refined-trans R t a b c h k v e =
    let (w, found, r) = h v e in let (x, last, s) = k w found in (x, last, t v w x r s)

Result-cases : {E A : Type 0} (x : Result E A) → ((a : A) × (x ≡ ok a)) ⊎ ((e : E) × (x ≡ err e))
Result-cases (ok a) = inl (a, refl)
Result-cases (err e) = inr (e, refl)

ok_inj : {E A : Type 0} (x : Result E A) {a b : A} → x ≡ ok a → x ≡ ok b → a ≡ b
ok_inj x h k = cc

some_inj : {A : Type 0} {a b : A} → some a ≡ some b → a ≡ b
some_inj h = cc

refusal : {E A : Type 0} {P : Type 0} {e : E} {a : A} → err e ≡ ok a → P
refusal h = cc

-- An entry that is refined, and one of the extension that was written over it
Both : {V : Type 0} → (V → V → Type 0) → Map ℕ V → Map ℕ V → Map ℕ V → Type 0
Both R old ext new =
    (k : ℕ) → Refined R (Map.get old k) (Map.get new k) × Refined R (Map.get ext k) (Map.get new k)

module _ {V : Type 0} (conf : Confinement) (check : ℕ → V → V → Option ExtensionError)
    (overflow : ExtensionError) where
  fields_refined :
      (R : V → V → Type 0)
      → ((v : V) → R v v)
      → ((u v w : V) → R u v → R v w → R u w)
      → ((k : ℕ) (v w : V) → check k v w ≡ none → R v w)
      → (old ext : Map ℕ V) → Ascending ext.entries
      → (merge_fields conf check overflow ext.entries old).1 ≡ []
      → Both R old ext (merge_fields conf check overflow ext.entries old).0
  unfolding Both
  fields_refined R r t c old ext asc h k =
      let (result, kept) = merge_fields_lem conf check overflow R r t c ext.entries old h k in
      (kept, λ v found. (v, result ∙ overlay-get ext k v (Map.get old k) asc found, r v))

module _ (conf : Confinement) where
  global_fields :
      (old ext : Map ℕ GlobalIface)
      → Ascending ext.entries
      → (merge_fields conf check_global global_overflow ext.entries old).1 ≡ []
      → Both GlobalRefines old ext
          (merge_fields conf check_global global_overflow ext.entries old).0
  global_fields old ext =
      fields_refined conf check_global global_overflow GlobalRefines (λ g. (λ id e. e, λ r. r))
        (λ u v w h k. (λ id e. k.0 id (h.0 id e), λ r. k.1 (h.1 r))) global_checked old ext

  assign_fields :
      (old ext : Map ℕ AssignIface)
      → Ascending ext.entries
      → (merge_fields conf check_assignment assignment_overflow ext.entries old).1 ≡ []
      → Both AssignRefines old ext
          (merge_fields conf check_assignment assignment_overflow ext.entries old).0
  assign_fields old ext =
      fields_refined conf check_assignment assignment_overflow AssignRefines AssignRefines-refl
        AssignRefines-trans assign_checked old ext

  valency_fields :
      (old ext : Map ℕ ValencyIface)
      → Ascending ext.entries
      → (merge_fields conf check_valency valency_overflow ext.entries old).1 ≡ []
      → Both ValencyRefines old ext
          (merge_fields conf check_valency valency_overflow ext.entries old).0
  valency_fields old ext =
      fields_refined conf check_valency valency_overflow ValencyRefines (λ v r. r)
        (λ u v w h k r. k (h r)) valency_checked old ext

-- The keys of the fields of an interface, in their order
abbrev pub Ordered : (O : Occurrences) → Iface O → Type 0
Ordered O i =
    Ascending i.global_state.entries
    × Ascending i.assignments.entries
    × Ascending i.valencies.entries

-- Each field of the first interface is in the second, refined.
abbrev pub IfaceRefines : (O : Occurrences) → Iface O → Iface O → Type 0
IfaceRefines O a b =
    (k : ℕ)
    → Refined GlobalRefines (Map.get a.global_state k) (Map.get b.global_state k)
      × Refined AssignRefines (Map.get a.assignments k) (Map.get b.assignments k)
      × Refined ValencyRefines (Map.get a.valencies k) (Map.get b.valencies k)

-- What an extension by a name is: parents, and the fields of both
abbrev pub ExtensionOf :
    (O : Occurrences) (iface_id : Iface O → ℕ) → Iface O → Iface O → ℕ → Iface O → Type 0
ExtensionOf O iface_id self ext name r =
    (r.name ≡ name)
    × (r.inherits ≡ self.inherits ++ (iface_id self ∷ (ext.inherits ++ iface_id ext ∷ [])))
    × IfaceRefines O self r
    × IfaceRefines O ext r

module _ (conf : Confinement) (O : Occurrences) (iface_id : Iface O → ℕ) where
  inherits_lem :
      (self ext : Iface O)
      → (extend_inherits conf O iface_id self ext).1 ≡ []
      → (extend_inherits conf O iface_id self ext).0
        ≡ self.inherits ++ (iface_id self ∷ (ext.inherits ++ iface_id ext ∷ []))
  unfolding extend_inherits
  inherits_lem self ext h = append_all_lem conf inheritance_overflow _ self.inherits h

  -- An interface that `extended` makes of two, where the fields of the second stand in the order
  -- of their names, has the name given, refines the fields of both, and adds the first, the
  -- parents of the second and the second to the parents of the first.
  pub extended_lem :
      (self ext : Iface O) (name : ℕ) (r : Iface O)
      → Ordered O ext
      → extended conf O iface_id self ext name ≡ ok r
      → ExtensionOf O iface_id self ext name r
  unfolding extended Both
  extended_lem self ext name r (og, oa, ov) h =
      let (none_left, same) = finish_ok _ r _ h in
      let (_, (e2, (e3, (e4, (_, (_, (_, (_, (_, (e10, _)))))))))) =
        join_errors-empty _ none_left in
      let g = global_fields conf self.global_state ext.global_state og e2 in
      let a = assign_fields conf self.assignments ext.assignments oa e3 in
      let v = valency_fields conf self.valencies ext.valencies ov e4 in
      subst (ExtensionOf O iface_id self ext name) same (
        refl,
        inherits_lem self ext e10,
        (λ k. ((g k).0, (a k).0, (v k).0)),
        λ k. ((g k).1, (a k).1, (v k).1),
      )

IfaceRefines-refl : (O : Occurrences) (a : Iface O) → IfaceRefines O a a
IfaceRefines-refl O a k = (
  (λ v e. (v, e, ((λ id f. f), λ r. r))),
  (λ v e. (v, e, AssignRefines-refl v)),
  λ v e. (v, e, λ r. r),
)

IfaceRefines-trans :
    (O : Occurrences) (a b c : Iface O)
    → IfaceRefines O a b
    → IfaceRefines O b c
    → IfaceRefines O a c
IfaceRefines-trans O a b c h l k =
    let (g, x, v) = h k in
    let (g', x', v') = l k in
    (
      Refined-trans GlobalRefines (λ u v w h k. (λ id e. k.0 id (h.0 id e), λ r. k.1 (h.1 r))) _ _ _
          g g',
      Refined-trans AssignRefines AssignRefines-trans _ _ _ x x',
      Refined-trans ValencyRefines (λ u v w h k r. k (h r)) _ _ _ v v',
    )

module _ (conf : Confinement) (O : Occurrences) (iface_id : Iface O → ℕ) where
  inherited :
      (name : ℕ) (iface ext : Iface O) (rest : List (Iface O)) (next : Iface O)
      → extended conf O iface_id iface ext name ≡ ok next
      → inherit_all conf O iface_id name iface (ext ∷ rest)
        ≡ inherit_all conf O iface_id name next rest
  unfolding inherit_all
  inherited name iface ext rest next h = rw (h, inherit_all) refl

  -- An extension that is refused refuses the whole inheritance, with the name of the interface.
  not_inherited :
      (name : ℕ) (iface ext : Iface O) (rest : List (Iface O)) (reasons : Errors)
      → extended conf O iface_id iface ext name ≡ err reasons
      → inherit_all conf O iface_id name iface (ext ∷ rest) ≡ err (map (λ e. (e, ext.name)) reasons)
  unfolding inherit_all
  not_inherited name iface ext rest reasons h = rw (h, inherit_all) refl

  nothing_inherited :
      (name : ℕ) (iface r : Iface O) → inherit_all conf O iface_id name iface [] ≡ ok r → iface ≡ r
  unfolding inherit_all
  nothing_inherited name iface r h = ok_inj _ refl h

  inherit_all_lem :
      (name : ℕ) (iface : Iface O) (rest : List (Iface O)) (r : Iface O)
      → All (Ordered O) rest
      → inherit_all conf O iface_id name iface rest ≡ ok r
      → IfaceRefines O iface r × All (λ i. IfaceRefines O i r) rest
  inherit_all_lem name iface [] r asc h = (
    subst (IfaceRefines O iface) (nothing_inherited name iface r h) (IfaceRefines-refl O iface),
    tt,
  )
  inherit_all_lem name iface (ext ∷ rest) r (o, asc) h =
      elim (Result-cases (extended conf O iface_id iface ext name)) [
        | inl (next, done) ↦
            let (_, _, parent, added) = extended_lem conf O iface_id iface ext name next o done in
            let (refined, all) =
              inherit_all_lem name next rest r asc
                (sym (inherited name iface ext rest next done) ∙ h) in
            (
              IfaceRefines-trans O iface next r parent refined,
              (IfaceRefines-trans O ext next r added refined, all),
            )
        | inr (reasons, refused) ↦
            refusal (sym (not_inherited name iface ext rest reasons refused) ∙ h)
      ]

  -- An interface that `inherit` makes of others, whose fields stand in the order of their names,
  -- refines the global state, the assignments and the valencies of each of them.
  pub inherit_lem :
      (name : ℕ) (ifaces : List (Iface O)) (r : Iface O)
      → All (Ordered O) ifaces
      → inherit conf O iface_id name ifaces ≡ some (ok r)
      → All (λ i. IfaceRefines O i r) ifaces
  unfolding inherit
  inherit_lem name [] r asc h = cc
  inherit_lem name (iface ∷ rest) r (_, asc) h = inherit_all_lem name iface rest r asc (some_inj h)
