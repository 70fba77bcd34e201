-- ===== src/Base/Int.antt =====
-- `i64` values, which the code stores, compares, and splits into a date. `negsuc n` is -(n + 1).
use Prim.Native.Nat.{ℕ, zero, suc, ◌+◌, ◌-◌, ◌*◌, ◌/◌, ◌%◌}
use mathlib.Core.Bool.{Bool, true, false}
use slight.Base.Tests.{leb, if◌then◌else◌}

pub data ℤ : Type 0 where
  pos : ℕ → ℤ
  negsuc : ℕ → ℤ

abbrev pub leb_ℤ : ℤ → ℤ → Bool
leb_ℤ (pos a) (pos b) = leb a b
leb_ℤ (pos a) (negsuc b) = false
leb_ℤ (negsuc a) (pos b) = true
leb_ℤ (negsuc a) (negsuc b) = leb b a

-- a - b, and the negation of a natural number.
abbrev pub sub_ℕ : ℕ → ℕ → ℤ
sub_ℕ a b = if leb b a then pos (a - b) else negsuc (b - a - 1)

abbrev pub neg_ℕ : ℕ → ℤ
neg_ℕ zero = pos 0
neg_ℕ (suc n) = negsuc n

-- z + n, and z * k and z / k for a positive k; Rust's `/` goes towards zero.
abbrev pub add_ℕ : ℤ → ℕ → ℤ
add_ℕ (pos a) n = pos (a + n)
add_ℕ (negsuc a) n = sub_ℕ n (a + 1)

abbrev pub take_ℕ : ℤ → ℕ → ℤ
take_ℕ (pos a) n = sub_ℕ a n
take_ℕ (negsuc a) n = negsuc (a + n)

abbrev pub mul_ℕ : ℤ → ℕ → ℤ
mul_ℕ (pos a) k = pos (a * k)
mul_ℕ (negsuc a) k = neg_ℕ ((a + 1) * k)

abbrev pub div_ℕ : ℤ → ℕ → ℤ
div_ℕ (pos a) k = pos (a / k)
div_ℕ (negsuc a) k = neg_ℕ ((a + 1) / k)

-- a - b
abbrev pub sub_ℤ : ℤ → ℤ → ℤ
sub_ℤ a (pos b) = take_ℕ a b
sub_ℤ a (negsuc b) = add_ℕ a (b + 1)

-- `div_euclid` and `rem_euclid` by a positive number.
abbrev pub div_euclid : ℤ → ℕ → ℤ
div_euclid (pos a) k = pos (a / k)
div_euclid (negsuc a) k = negsuc (a / k)

abbrev pub rem_euclid : ℤ → ℕ → ℕ
rem_euclid (pos a) k = a % k
rem_euclid (negsuc a) k = k - 1 - a % k

-- `as u64`
abbrev pub as_u64 : ℤ → ℕ
as_u64 (pos a) = a % 0x10000000000000000
as_u64 (negsuc a) = 0xffffffffffffffff - a % 0x10000000000000000
