-- ===== src/Base/Members.antt =====
-- Lists of texts: membership and absence of repetitions, as tests.
use Prim.Native.String.{String}
use mathlib.Core.Path.{◌≡◌, refl}
use mathlib.Core.Bool.{Bool, true, false, not, ◌&&◌, ◌||◌}
use mathlib.Core.List.{List, [], ◌∷◌, ◌++◌}
use native.Mathlib.Omega.{arith}
use slight.Base.Text.{◌==◌, eq_iff}

unfoldable pub among : String → List String → Bool
among k [] = false
among k (j ∷ l) = j == k || among k l

unfoldable pub distinct : List String → Bool
distinct [] = true
distinct (j ∷ l) = not (among j l) && distinct l

pub among-snoc : (k j : String) (l : List String) → among k (l ++ j ∷ []) ≡ (among k l || j == k)
unfolding among
among-snoc k j [] = ground arith
among-snoc k j (i ∷ l) = ground (arith, among-snoc k j l)

pub distinct-snoc :
    (j : String) (l : List String) → distinct (l ++ j ∷ []) ≡ (distinct l && not (among j l))
unfolding distinct among
distinct-snoc j [] = refl
distinct-snoc j (i ∷ l) =
    ground (arith, distinct-snoc j l, among-snoc i j l, eq_iff i j, eq_iff j i)
