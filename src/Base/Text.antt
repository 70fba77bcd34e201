-- ===== src/Base/Text.antt =====
-- The parts of Rust's `str` that the program uses: `trim`, `is_empty`, `strip_prefix`,
-- `chars().take(n)` and `format!`.
use Prim.Native.Nat.{ℕ, zero, suc, ◌/◌, ◌%◌}
use Prim.Native.Char.{Char, code}
use Prim.Native.String.{String}
use mathlib.Core.Path.{◌≡◌, refl}
use mathlib.Core.Bool.{Bool, true, false, ◌&&◌, ◌||◌}
use mathlib.Core.Option.{Option, none, some}
use Prim.Native.String.{◌++◌}
use text.Mathlib.Text.{◌==◌}
use text.Mathlib.TextEquality.{eq_iff}
use slight.Base.Tests.{leb, if◌then◌else◌}
pub use text.Mathlib.Text.{◌==◌}
pub use text.Mathlib.TextEquality.{eq_iff}
pub use text.Mathlib.TextPositions.{eq_refl}
pub use Prim.Native.String.{◌++◌}

-- The code points with the Unicode property White_Space.
abbrev pub is_whitespace : ℕ → Bool
is_whitespace c =
    (leb 9 c && leb c 13)
    || (leb 32 c && leb c 32)
    || (leb 0x85 c && leb c 0x85)
    || (leb 0xa0 c && leb c 0xa0)
    || (leb 0x1680 c && leb c 0x1680)
    || (leb 0x2000 c && leb c 0x200a)
    || (leb 0x2028 c && leb c 0x2029)
    || (leb 0x202f c && leb c 0x202f)
    || (leb 0x205f c && leb c 0x205f)
    || (leb 0x3000 c && leb c 0x3000)

pub is_empty : String → Bool
is_empty String.[] = true
is_empty (String.◌∷◌ c s) = false

pub trim_start : String → String
trim_start String.[] = String.[]
trim_start (String.◌∷◌ c s) =
    let rest = trim_start s in if is_whitespace (code c) then rest else String.◌∷◌ c s

-- A character of the end stays if it or one after it is no whitespace.
abbrev keep_end : Char → String → String
keep_end c String.[] = if is_whitespace (code c) then String.[] else String.◌∷◌ c String.[]
keep_end c (String.◌∷◌ d s) = String.◌∷◌ c (String.◌∷◌ d s)

pub trim_end : String → String
trim_end String.[] = String.[]
trim_end (String.◌∷◌ c s) = keep_end c (trim_end s)

unfoldable pub trim : String → String
unfolding trim_start trim_end
trim s = trim_end (trim_start s)

unfoldable pub strip_prefix : String → String → Option String
strip_prefix String.[] s = some s
strip_prefix (String.◌∷◌ p ps) String.[] = none
strip_prefix (String.◌∷◌ p ps) (String.◌∷◌ c cs) =
    let rest = strip_prefix ps cs in
    if leb (code p) (code c) && leb (code c) (code p) then rest else none

pub take_chars : ℕ → String → String
take_chars zero s = String.[]
take_chars (suc n) String.[] = String.[]
take_chars (suc n) (String.◌∷◌ c s) = String.◌∷◌ c (take_chars n s)

unfoldable pub length_chars : String → ℕ
length_chars String.[] = 0
length_chars (String.◌∷◌ c s) = suc (length_chars s)

-- `{}` of an unsigned integer. `suc n` rounds are enough, since each divides by ten.
abbrev digit : ℕ → String
digit n =
    if leb n 0
    then "0"
    else if leb n 1
    then "1"
    else if leb n 2
    then "2"
    else if leb n 3
    then "3"
    else if leb n 4
    then "4"
    else if leb n 5
    then "5"
    else if leb n 6
    then "6"
    else if leb n 7
    then "7"
    else if leb n 8
    then "8"
    else "9"

digits : ℕ → ℕ → String
digits zero n = ""
digits (suc fuel) n =
    let rest = digits fuel (n / 10) in if leb n 9 then digit n else rest ++ digit (n % 10)

unfoldable pub decimal : ℕ → String
unfolding digits
decimal n = digits (suc n) n

-- Decidable equality of texts, from the native comparison.
dec_of_test : (s t : String) (b : Bool) → (s == t) ≡ b → Dec (s ≡ t)
dec_of_test s t true e = yes ((eq_iff s t).0 e)
dec_of_test s t false e = no λ p. cc ((eq_iff s t).1 p)

unfoldable pub String_discrete : Discrete String
unfolding dec_of_test
String_discrete s t = dec_of_test s t (s == t) refl
