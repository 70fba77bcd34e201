-- ===== src/Base/HashMap.antt =====
-- `HashMap<String, V>`. The representation is private: other modules have the laws. An iteration
-- runs over `entries`, whose order is the order of insertion; the order in Rust is arbitrary.
use Prim.Native.Nat.{ℕ}
use Prim.Native.String.{String}
use mathlib.Core.Path.{◌≡◌, refl, sym, ap, ◌∙◌}
use mathlib.Core.Logic.{◌⊎◌, inl, inr}
use mathlib.Core.Bool.{Bool, true, false}
use mathlib.Core.Option
use mathlib.Core.Option.{Option, none, some}
use mathlib.Core.List.{List, [], ◌∷◌, ◌++◌, map}
use native.Mathlib.Omega.{arith}
use slight.Base.Tests.{if◌then◌else◌, is_some}
use slight.Base.Lists.{length}
use slight.Base.Text.{◌==◌, eq_iff}

pub record HashMap {ℓ} (V : Type ℓ) : Type ℓ where
  pub entries : List (String × V)

module _ {ℓ} {V : Type ℓ} where
  pub find : String → List (String × V) → Option V
  find k [] = none
  find k ((j, v) ∷ l) = if j == k then some v else find k l

  put : String → V → List (String × V) → List (String × V)
  put k v [] = (k, v) ∷ []
  put k v ((j, w) ∷ l) = if j == k then (j, v) ∷ l else (j, w) ∷ put k v l

  change : String → (V → V) → List (String × V) → List (String × V)
  change k f [] = []
  change k f ((j, w) ∷ l) = if j == k then (j, f w) ∷ l else (j, w) ∷ change k f l

  without : String → List (String × V) → List (String × V)
  without k [] = []
  without k ((j, w) ∷ l) = let rest = without k l in if j == k then rest else (j, w) ∷ rest

  abbrev pub empty : HashMap V
  empty = record { entries = [] }

  unfoldable pub get : HashMap V → String → Option V
  unfolding find
  get m k = find k m.entries

  unfoldable pub insert : HashMap V → String → V → HashMap V
  unfolding put
  insert m k v = record { entries = put k v m.entries }

  unfoldable pub remove : HashMap V → String → HashMap V
  unfolding without
  remove m k = record { entries = without k m.entries }

  -- A change through `get_mut`; nothing happens where the key is missing.
  unfoldable pub adjust : HashMap V → String → (V → V) → HashMap V
  unfolding change
  adjust m k f = record { entries = change k f m.entries }

  abbrev pub contains_key : HashMap V → String → Bool
  contains_key m k = is_some (get m k)

  abbrev pub values : HashMap V → List V
  values m = map (λ e. e.1) m.entries

  abbrev pub len : HashMap V → ℕ
  len m = length m.entries

  -- `iter_mut`.
  unfoldable pub map_values : HashMap V → (V → V) → HashMap V
  map_values m f = record { entries = map (λ e. (e.0, f e.1)) m.entries }

  find-map :
      (j : String) (f : V → V) (l : List (String × V))
      → find j (map (λ e. (e.0, f e.1)) l) ≡ Option.map f (find j l)
  unfolding find
  find-map j f [] = refl
  find-map j f ((i, w) ∷ l) = ground (arith, find-map j f l)

  find-put :
      (k j : String) (v : V) (l : List (String × V))
      → find j (put k v l) ≡ (if k == j then some v else find j l)
  unfolding find put
  find-put k j v [] = ground arith
  find-put k j v ((i, w) ∷ l) = ground (arith, eq_iff k j, eq_iff i k, eq_iff i j, find-put k j v l)

  find-change :
      (k j : String) (f : V → V) (l : List (String × V))
      → find j (change k f l) ≡ (if k == j then Option.map f (find j l) else find j l)
  unfolding find change
  find-change k j f [] = ground arith
  find-change k j f ((i, w) ∷ l) =
      ground (arith, eq_iff k j, eq_iff i k, eq_iff i j, find-change k j f l)

  find-without :
      (k j : String) (l : List (String × V))
      → find j (without k l) ≡ (if k == j then none else find j l)
  unfolding find without
  find-without k j [] = ground arith
  find-without k j ((i, w) ∷ l) =
      ground (arith, eq_iff k j, eq_iff i k, eq_iff i j, find-without k j l)

  pub get-remove :
      (m : HashMap V) (k j : String) → get (remove m k) j ≡ (if k == j then none else get m j)
  unfolding get remove
  get-remove m k j = find-without k j m.entries

  pub get-insert :
      (m : HashMap V) (k j : String) (v : V)
      → get (insert m k v) j ≡ (if k == j then some v else get m j)
  unfolding get insert
  get-insert m k j v = find-put k j v m.entries

  pub get-adjust :
      (m : HashMap V) (k j : String) (f : V → V)
      → get (adjust m k f) j ≡ (if k == j then Option.map f (get m j) else get m j)
  unfolding get adjust
  get-adjust m k j f = find-change k j f m.entries

  pub get-map_values :
      (m : HashMap V) (j : String) (f : V → V) → get (map_values m f) j ≡ Option.map f (get m j)
  unfolding get map_values
  get-map_values m j f = find-map j f m.entries

  pub get-adjust_same :
      (m : HashMap V) (k : String) (f : V → V) (v : V)
      → get m k ≡ some v
      → get (adjust m k f) k ≡ some (f v)
  get-adjust_same m k f v e =
      let same : k == k ≡ true = (eq_iff k k).1 refl in rw (get-adjust m k k f, same, e) refl

  find-entry :
      (before after : List (String × V)) (k : String) (v : V)
      → is_some (find k (before ++ (k, v) ∷ after)) ≡ true
  unfolding find
  find-entry [] after k v = ground (arith, (eq_iff k k).1 refl)
  find-entry ((j, w) ∷ before) after k v = ground (arith, find-entry before after k v)

  -- The keys of an iteration are those of the map.
  pub get-entry :
      (before after : List (String × V)) (k : String) (v : V) (m : HashMap V)
      → m.entries ≡ before ++ (k, v) ∷ after
      → contains_key m k ≡ true
  unfolding get
  get-entry before after k v m e = rw e (find-entry before after k v)

  pub contains_key-adjust :
      (m : HashMap V) (k j : String) (f : V → V) → contains_key (adjust m k f) j ≡ contains_key m j
  contains_key-adjust m k j f = rw (get-adjust m k j f) (ground arith)

  pub contains_key-map_values :
      (m : HashMap V) (j : String) (f : V → V) → contains_key (map_values m f) j ≡ contains_key m j
  contains_key-map_values m j f = rw (get-map_values m j f) (ground arith)

  mapped_inv :
      (f : V → V) (o : Option V) (v : V)
      → Option.map f o ≡ some v
      → (w : V) × (o ≡ some w) × (v ≡ f w)
  mapped_inv f none v e = cc
  mapped_inv f (some w) v e = (w, refl, cc)

  pub get-map_values_inv :
      (m : HashMap V) (j : String) (f : V → V) (v : V)
      → get (map_values m f) j ≡ some v
      → (w : V) × (get m j ≡ some w) × (v ≡ f w)
  get-map_values_inv m j f v e = mapped_inv f (get m j) v (sym (get-map_values m j f) ∙ e)

  changed_inv :
      (b : Bool) (f : V → V) (o : Option V) (v : V)
      → (if b then Option.map f o else o) ≡ some v
      → ((w : V) × (b ≡ true) × (o ≡ some w) × (v ≡ f w)) ⊎ (o ≡ some v)
  changed_inv true f none v e = cc
  changed_inv true f (some w) v e = inl (w, refl, refl, cc)
  changed_inv false f o v e = inr e

  -- An entry of a changed map is the changed one or an old one.
  pub get-adjust_inv :
      (m : HashMap V) (k j : String) (f : V → V) (v : V)
      → get (adjust m k f) j ≡ some v
      → ((w : V) × (k ≡ j) × (get m k ≡ some w) × (v ≡ f w)) ⊎ (get m j ≡ some v)
  get-adjust_inv m k j f v e =
      elim (changed_inv (k == j) f (get m j) v (sym (get-adjust m k j f) ∙ e)) [
        | inl (w, p, q, r) ↦
            let same : k ≡ j = (eq_iff k j).0 p in inl (w, same, ap (get m) same ∙ q, r)
        | inr q ↦ inr q
      ]

  pub get-insert_inv :
      (m : HashMap V) (k j : String) (w v : V)
      → get (insert m k w) j ≡ some v
      → ((k ≡ j) × (v ≡ w)) ⊎ (get m j ≡ some v)
  get-insert_inv m k j w v e = ground (arith, get-insert m k j w, eq_iff k j)

pub get-empty {ℓ} : {V : Type ℓ} (k : String) → get (empty {V = V}) k ≡ none
unfolding get
get-empty k = refl

pub ruleset map_laws = (get-empty, get-insert, get-adjust, get-map_values)
