-- ===== src/Base/Sort.antt =====
-- `sort_by_key`: the stable sort of the standard library, as an insertion sort.
use mathlib.Core.Path.{◌≡◌}
use mathlib.Core.Logic.{inl, inr}
use mathlib.Core.Bool.{Bool, true, false}
use mathlib.Core.List.{List, [], ◌∷◌, Perm}
use mathlib.Core.List.Perm
use slight.Base.Tests.{if◌then◌else◌, Bool-cases}

module _ {ℓ} {A : Type ℓ} (le : A → A → Bool) where
  insert_sorted : A → List A → List A
  insert_sorted x [] = x ∷ []
  insert_sorted x (y ∷ ys) =
      let rest = insert_sorted x ys in if le x y then x ∷ y ∷ ys else y ∷ rest

  unfoldable pub sort_by : List A → List A
  unfolding insert_sorted
  sort_by [] = []
  sort_by (x ∷ xs) = insert_sorted x (sort_by xs)

  insert_sorted-perm : (x : A) (ys : List A) → Perm (insert_sorted x ys) (x ∷ ys)
  unfolding insert_sorted
  insert_sorted-perm x [] = Perm.refl (x ∷ [])
  insert_sorted-perm x (y ∷ ys) = elim (Bool-cases (le x y)) [
    | inl e ↦ rw e (Perm.refl (x ∷ y ∷ ys))
    | inr e ↦ rw e (Perm.trans (Perm.cons y (insert_sorted-perm x ys)) (Perm.swap x y ys))
  ]

  -- The sort loses nothing and adds nothing.
  pub sort_by-perm : (xs : List A) → Perm (sort_by xs) xs
  unfolding sort_by
  sort_by-perm [] = Perm.nil
  sort_by-perm (x ∷ xs) =
      Perm.trans (insert_sorted-perm x (sort_by xs)) (Perm.cons x (sort_by-perm xs))

  -- The first entry comes before all that follow, and so on down the list.
  abbrev pub AllLe : A → List A → Type 0
  AllLe x [] = Unit {0}
  AllLe x (y ∷ ys) = (le x y ≡ true) × AllLe x ys

  abbrev pub IsSorted : List A → Type 0
  IsSorted [] = Unit {0}
  IsSorted (x ∷ xs) = AllLe x xs × IsSorted xs

  module _ (total : (x y : A) → le x y ≡ false → le y x ≡ true)
      (trans : (x y z : A) → le x y ≡ true → le y z ≡ true → le x z ≡ true) where
    AllLe-trans : (x y : A) (zs : List A) → le x y ≡ true → AllLe y zs → AllLe x zs
    AllLe-trans x y [] h a = tt
    AllLe-trans x y (z ∷ zs) h a = (trans x y z h a.0, AllLe-trans x y zs h a.1)

    AllLe-insert :
        (z x : A) (ys : List A) → le z x ≡ true → AllLe z ys → AllLe z (insert_sorted x ys)
    unfolding insert_sorted
    AllLe-insert z x [] h a = (h, tt)
    AllLe-insert z x (y ∷ ys) h a = elim (Bool-cases (le x y)) [
      | inl e ↦ rw e (h, (a.0, a.1))
      | inr e ↦ rw e (a.0, AllLe-insert z x ys h a.1)
    ]

    insert_sorted-IsSorted : (x : A) (ys : List A) → IsSorted ys → IsSorted (insert_sorted x ys)
    unfolding insert_sorted
    insert_sorted-IsSorted x [] s = (tt, tt)
    insert_sorted-IsSorted x (y ∷ ys) s = elim (Bool-cases (le x y)) [
      | inl e ↦ rw e ((e, AllLe-trans x y ys e s.0), s)
      | inr e ↦ rw e (AllLe-insert y x ys (total x y e) s.0, insert_sorted-IsSorted x ys s.1)
    ]

    pub sort_by-IsSorted : (xs : List A) → IsSorted (sort_by xs)
    unfolding sort_by
    sort_by-IsSorted [] = tt
    sort_by-IsSorted (x ∷ xs) = insert_sorted-IsSorted x (sort_by xs) (sort_by-IsSorted xs)
