-- ===== src/Base/Decimal.antt =====
-- Decimal printing (strconv.Itoa, FormatUint) and octal parsing, by digits.
use Prim.Native.Nat.{ℕ, zero, suc, ◌+◌, ◌/◌, ◌%◌}
use mathlib.Core.Path.{◌≡◌, refl}
use mathlib.Core.List.{[], ◌∷◌}
use rupicola_go.Base.Tests.{Bytes, lit, ltb, if◌then◌else◌}
use rupicola_go.Base.Int.{ℤ, pos, negsuc, neg}

-- The digits of n, in front of what follows. Fuel n + 1 is enough.
print_onto : ℕ → ℕ → Bytes → Bytes
print_onto zero n rest = rest
print_onto (suc fuel) n rest =
    let more = print_onto fuel (n / 10) ((b'0' + n % 10) ∷ rest) in
    if ltb n 10 then (b'0' + n) ∷ rest else more

unfoldable pub print_nat : ℕ → Bytes
unfolding print_onto
print_nat n = print_onto (suc n) n []

unfoldable pub print_int : ℤ → Bytes
unfolding print_nat
print_int (pos n) = print_nat n
print_int (negsuc n) = b'-' ∷ print_nat (suc n)

print_int_test : print_int (neg 1203) ≡ lit "-1203"
unfolding print_int
print_int_test = refl
