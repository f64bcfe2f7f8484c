-- ===== src/Config/Value/Bounds.antt =====
-- The range of the 32-bit getters (config/config.go).
use rupicola_go.Base.{◌-◌, ◌^◌, arith, ◌≡◌}
use rupicola_go.Base.Int.{ℤ, pos, neg, ◌≤ℤ◌}
use rupicola_go.Rpc.Errors.{int_beq}
use rupicola_go.Config.Value.{Value, int64, int32}

-- An int32.
abbrev pub InInt32 : ℤ → Type 0
InInt32 n = (neg (2 ^ 31) ≤ℤ n) × (n ≤ℤ pos (2 ^ 31 - 1))

-- Int32 gives a number within the range of an int32, whatever the value, if the default is within
-- it.
pub int32-InInt32 : (v : Value) (def : ℤ) → InInt32 def → InInt32 (int32 v def)
unfolding int32
int32-InInt32 v def h = ground arith

-- Int32 gives the integer of a value, or the default where there is none, unchanged if both are
-- within the range of an int32.
pub int32-int64 :
    (v : Value) (def : ℤ) → InInt32 def → InInt32 (int64 v def) → int32 v def ≡ int64 v def
unfolding int32 int_beq
int32-int64 v def h k = ground arith
