-- ===== src/Exec/Laws.antt =====
-- What a relation between states, kept by every step, gives for a whole method, and what the success
-- of a method says of its parts.
use rgb_wallet.Prelude.{Result, ok, err, List, [], ◌∷◌, ◌≡◌, refl, ap, All}
use rgb_wallet.Exec.{Exec, resume, ◌>>=◌, for_each}

module _ {S E A B : Type 0} where
  -- A method that succeeds ran its first part, which succeeded.
  pub resume-ok :
      (p : Result E A × S) (f : A → Exec S E B) (b : B) (t : S)
      → resume p f ≡ (ok b, t)
      → (a : A) × (s : S) × (p ≡ (ok a, s)) × (f a s ≡ (ok b, t))
  resume-ok (ok a, s) f b t h = (a, s, refl, h)
  resume-ok (err e, s) f b t h = cc

module _ {S : Type 0} (R : S → S → Type 0) where
  -- `m` leads from every state to a related one, whether it succeeds or fails.
  abbrev pub Keeps : {E A : Type 0} → Exec S E A → Type 0
  Keeps m = (s : S) → R s (m s).1

module _ {S E : Type 0} {R : S → S → Type 0} (reflexive : (s : S) → R s s)
    (transitive : (s t u : S) → R s t → R t u → R s u) where
  Keeps-resume :
      {A B : Type 0} (s : S) (p : Result E A × S) (f : A → Exec S E B)
      → R s p.1
      → ((a : A) → Keeps R (f a))
      → R s (resume p f).1
  Keeps-resume s (ok a, t) f h k = transitive s t _ h (k a t)
  Keeps-resume s (err e, t) f h k = h

  pub Keeps-bind :
      {A B : Type 0} (m : Exec S E A) (f : A → Exec S E B)
      → Keeps R m
      → ((a : A) → Keeps R (f a))
      → Keeps R (m >>= f)
  Keeps-bind m f h k s = Keeps-resume s (m s) f (h s) k

  pub Keeps-for_each :
      {A : Type 0} (f : A → Exec S E (Unit {0})) (l : List A)
      → ((a : A) → Keeps R (f a))
      → Keeps R (for_each f l)
  unfolding for_each
  Keeps-for_each f [] k s = reflexive s
  Keeps-for_each f (a ∷ l) k s =
      Keeps-bind (f a) (λ _. for_each f l) (k a) (λ _. Keeps-for_each f l k) s

  -- After a loop that succeeds, every element has what its round gave, if later rounds keep it.
  pub for_each-All :
      {A : Type 0} (P : A → S → Type 0) (f : A → Exec S E (Unit {0})) (l : List A)
      → ((a : A) (s t : S) → R s t → P a s → P a t)
      → ((a : A) → Keeps R (f a))
      → ((a : A) (s t : S) → f a s ≡ (ok tt, t) → P a t)
      → (s t : S) → for_each f l s ≡ (ok tt, t)
      → All (λ a. P a t) l
  unfolding for_each
  for_each-All P f [] stable k each s t h = tt
  for_each-All P f (a ∷ l) stable k each s t h =
      let (_, u, first, rest) = resume-ok (f a s) (λ _. for_each f l) tt t h in
      (
        stable a u t
            (rw (ap (λ (p : Result E (Unit {0}) × S). p.1) rest) at (Keeps-for_each f l k u))
            (each a s u first),
        for_each-All P f l stable k each u t rest,
      )
