-- ===== src/Base/Exec/Keeps.antt =====
-- Invariants of methods, one rule for each way to build one.
use mathlib.Core.Bool.{Bool, true, false}
use slight.Base.Tests.{if◌then◌else◌}
use mathlib.Core.Path.{◌≡◌, refl, subst}
use slight.Base.Exec.{Result, ok, err, Exec, pure, raise, lift, gets, stateful, modify, ◌>>=◌}

-- Where the property holds before the method, it holds after it, also where it fails.
pub record Keeps {ℓ} {S E A : Type ℓ} (P : S → Type ℓ) (method : Exec S E A) : Type ℓ where
  pub at : (before : S) → P before → P (method before).1

module _ {ℓ} {S E A : Type ℓ} {P : S → Type ℓ} where
  pub Keeps-stateful : (f : S → A × S) → ((i : S) → P i → P (f i).1) → Keeps P (stateful {E = E} f)
  unfolding stateful
  Keeps-stateful f kept = record { at = kept }

  -- A method that leaves the state alone.
  Keeps-reading : (method : Exec S E A) → ((i : S) → i ≡ (method i).1) → Keeps P method
  Keeps-reading method same = record { at = λ i. subst P (same i) }

  pub Keeps-gets : (read : S → A) → Keeps P (gets {E = E} read)
  unfolding gets
  Keeps-gets read = Keeps-reading _ λ i. refl

  pub Keeps-lift : (result : Result A E) → Keeps P (lift result)
  unfolding lift
  Keeps-lift result = Keeps-reading _ λ i. refl

  pub Keeps-pure : (value : A) → Keeps P (pure {E = E} value)
  unfolding pure
  Keeps-pure value = Keeps-reading _ λ i. refl

  pub Keeps-raise : (fault : E) → Keeps P (raise {A = A} fault)
  unfolding raise
  Keeps-raise fault = Keeps-reading _ λ i. refl

  pub Keeps-if :
      (test : Bool) (this other : Exec S E A)
      → Keeps P this
      → Keeps P other
      → Keeps P (if test then this else other)
  Keeps-if true this other h k = h
  Keeps-if false this other h k = k

module _ {ℓ} {S E : Type ℓ} {P : S → Type ℓ} where
  pub Keeps-modify : (f : S → S) → ((s : S) → P s → P (f s)) → Keeps P (modify {E = E} f)
  unfolding modify
  Keeps-modify f kept = record { at = kept }

module _ {ℓ} {S E A B : Type ℓ} {P : S → Type ℓ} where
  Keeps-continue :
      (r : Result A E) (f : A → Exec S E B) (s : S)
      → ((a : A) → Keeps P (f a))
      → P s
      → P ((lift r >>= f) s).1
  unfolding ◌>>=◌
  Keeps-continue (ok value) next i later h = (later value).at i h
  Keeps-continue (err fault) next i later h = h

  pub Keeps-bind :
      (first : Exec S E A) (next : A → Exec S E B)
      → Keeps P first
      → ((a : A) → Keeps P (next a))
      → Keeps P (first >>= next)
  unfolding ◌>>=◌
  Keeps-bind first next kept later = record {
    at = λ i h. Keeps-continue (first i).0 next (first i).1 later (kept.at i h);
  }

pub ruleset keeps_rules = (Keeps-if, Keeps-bind, Keeps-gets, Keeps-lift, Keeps-raise, Keeps-pure)
