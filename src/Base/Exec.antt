-- ===== src/Base/Exec.antt =====
-- `Result<A, E>`, and methods on `&mut self` that return one. What a method wrote before it
-- returned an error stays written, so the state comes back beside the error too.
pub mod Keeps
use Prim.Native.Nat.{ℕ}
use mathlib.Core.Path.{◌≡◌, refl}
use mathlib.Core.Logic.{◌⊎◌, inl, inr}
use mathlib.Core.Bool.{Bool, true, false}
use mathlib.Core.Option.{Option, none, some}

pub data Result {ℓ} (A E : Type ℓ) : Type ℓ where
  ok : A → Result A E
  err : E → Result A E

module _ {ℓ} {A E : Type ℓ} where
  -- `Option::ok_or_else`
  abbrev pub ok_or : Option A → E → Result A E
  ok_or none e = err e
  ok_or (some a) e = ok a

  abbrev pub is_ok : Result A E → Bool
  is_ok (ok a) = true
  is_ok (err e) = false

  abbrev pub map_err : {F : Type ℓ} → (E → F) → Result A E → Result A F
  map_err f (ok a) = ok a
  map_err f (err e) = err (f e)

-- To split on a computed result and keep the equation.
pub Result-cases {ℓ} :
    {A E : Type ℓ} (r : Result A E) → ((a : A) × (r ≡ ok a)) ⊎ ((e : E) × (r ≡ err e))
Result-cases (ok a) = inl (a, refl)
Result-cases (err e) = inr (e, refl)

abbrev pub Exec {ℓ} : Type ℓ → Type ℓ → Type ℓ → Type ℓ
Exec S E A = S → Result A E × S

module _ {ℓ} {S E A : Type ℓ} where
  pub pure : A → Exec S E A
  pure a s = (ok a, s)

  pub raise : E → Exec S E A
  raise e s = (err e, s)

  pub lift : Result A E → Exec S E A
  lift r s = (r, s)

  pub gets : (S → A) → Exec S E A
  gets f s = (ok (f s), s)

  -- A step that always returns a value, and may change the state.
  pub stateful : (S → A × S) → Exec S E A
  stateful f s = let (a, s') = f s in (ok a, s')

module _ {ℓ} {S E : Type ℓ} where
  pub modify : (S → S) → Exec S E (Unit {ℓ})
  modify f s = (ok tt, f s)

module _ {ℓ} {S E A B : Type ℓ} where
  abbrev pub continue : Result A E → (A → Exec S E B) → Exec S E B
  continue (ok a) f s = f a s
  continue (err e) f s = (err e, s)

  infixl 10 ◌>>=◌ ◌>>◌
  unfoldable pub ◌>>=◌ : Exec S E A → (A → Exec S E B) → Exec S E B
  unfolding pure raise lift gets stateful modify
  ◌>>=◌ m f s = let (r, s') = m s in continue r f s'

  abbrev pub ◌>>◌ : Exec S E A → Exec S E B → Exec S E B
  m >> n = m >>= λ _. n
