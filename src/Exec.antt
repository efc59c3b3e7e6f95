-- ===== src/Exec.antt =====
-- Methods that take `&mut self` and return a `Result`. What was written before an error stays
-- written, so the state comes back beside the error too.
pub mod Laws
use rgb_wallet.Prelude.{Result, ok, err, List, [], ◌∷◌, ◌≡◌, refl}

abbrev pub Exec {ℓ} : Type ℓ → Type ℓ → Type ℓ → Type ℓ
Exec S E A = S → Result E A × S

module _ {ℓ} {S E A : Type ℓ} where
  abbrev pub pure : A → Exec S E A
  pure a s = (ok a, s)

  abbrev pub throw : E → Exec S E A
  throw e s = (err e, s)

module _ {ℓ} {S E A B : Type ℓ} where
  abbrev pub resume : Result E A × S → (A → Exec S E B) → Result E B × S
  resume (ok a, s) f = f a s
  resume (err e, s) f = (err e, s)

  infixl 5 ◌>>=◌ ◌>>◌
  abbrev pub ◌>>=◌ : Exec S E A → (A → Exec S E B) → Exec S E B
  ◌>>=◌ m f s = resume (m s) f

  abbrev pub ◌>>◌ : Exec S E A → Exec S E B → Exec S E B
  m >> n = m >>= λ _. n

-- A loop with `?` in its body.
module _ {ℓ} {S E A : Type ℓ} where
  unfoldable pub for_each : (A → Exec S E (Unit {ℓ})) → List A → Exec S E (Unit {ℓ})
  for_each f [] = pure tt
  for_each f (a ∷ l) = do f a; for_each f l
