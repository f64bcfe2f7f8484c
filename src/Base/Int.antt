-- ===== src/Base/Int.antt =====
-- Go's signed integers. `negsuc n` is -(n + 1); the library's ℤ stands on the unary numbers.
use Prim.Native.Nat.{ℕ, suc, ◌+◌, ◌-◌, ◌*◌, ◌^◌, ◌%◌, ◌≤◌}
use mathlib.Core.Path.{◌≡◌, refl}
use mathlib.Core.Bool.{Bool}
use rupicola_go.Base.Tests.{ltb, if◌then◌else◌}

pub data ℤ : Type 0 where
  pos : ℕ → ℤ
  negsuc : ℕ → ℤ

abbrev pub pos_part : ℤ → ℕ
pos_part (pos n) = n
pos_part (negsuc n) = 0

abbrev pub neg_part : ℤ → ℕ
neg_part (pos n) = 0
neg_part (negsuc n) = suc n

-- -n
abbrev pub neg : ℕ → ℤ
neg n = if ltb 0 n then negsuc (n - 1) else pos 0

abbrev pub ltb_ℤ : ℤ → ℤ → Bool
ltb_ℤ a b = ltb (pos_part a + neg_part b) (pos_part b + neg_part a)

infix 50 ◌≤ℤ◌
abbrev pub ◌≤ℤ◌ : ℤ → ℤ → Type 0
a ≤ℤ b = pos_part a + neg_part b ≤ pos_part b + neg_part a

-- The largest int64.
abbrev pub max_int64 : ℕ
max_int64 = 2 ^ 63 - 1

-- The conversion int64(n) of an unsigned 64-bit value: bit 63 is the sign.
abbrev pub to_int64 : ℕ → ℤ
to_int64 n = let m = n % 2 ^ 64 in if ltb m (2 ^ 63) then pos m else negsuc (2 ^ 64 - 1 - m)

-- n * k of an int64 and a positive constant, with its wrap-around.
unfoldable pub mul_int64 : ℤ → ℕ → ℤ
mul_int64 (pos n) k = to_int64 (n * k)
mul_int64 (negsuc n) k = to_int64 (2 ^ 64 - suc n * k % 2 ^ 64)

-- The conversion uint16(n).
unfoldable pub to_uint16 : ℤ → ℕ
to_uint16 (pos n) = n % 2 ^ 16
to_uint16 (negsuc n) = 2 ^ 16 - 1 - n % 2 ^ 16

products :
    (mul_int64 (negsuc 0) 1000000 ≡ neg 1000000)
    × (mul_int64 (pos 10000) 1000000 ≡ pos 10000000000)
    × (mul_int64 (pos (2 ^ 62)) 2 ≡ neg (2 ^ 63))
unfolding mul_int64
products = (refl, refl, refl)
