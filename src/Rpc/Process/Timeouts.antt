-- ===== src/Rpc/Process/Timeouts.antt =====
-- The time limit of a call (`process` of rupicolarpc/rupicolarpc.go).
use rupicola_go.Base.{ℕ, ◌&&◌, ◌||◌, Bool, ◌≡◌, arith, ◌==◌, nat_eq, leb}
use rupicola_go.Base.Int.{pos, pos_part}
use rupicola_go.Rpc.Process.{effective_timeout}

-- A duration t is within a limit, of which 0 means none.
abbrev pub within : ℕ → ℕ → Bool
within limit t = limit == 0 || leb t limit

-- Of two limits that are not negative, the one in force allows exactly the durations that both
-- allow, 0 standing for no limit.
pub within-effective_timeout :
    (global own t : ℕ)
    → within (pos_part (effective_timeout (pos global) (pos own))) t
      ≡ (within global t && within own t)
unfolding effective_timeout
within-effective_timeout global own t = ground arith
