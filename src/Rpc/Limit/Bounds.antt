-- ===== src/Rpc/Limit/Bounds.antt =====
-- The budget of `exceptionalLimitedWriter`, over any sequence of writes.
use rupicola_go.Base.{ℕ, ◌+◌, ◌≤◌, ◌<◌, Bytes, List, [], ◌∷◌, length, none, some, ◌≡◌, arith}
use rupicola_go.Base.Int.{pos}
use rupicola_go.Rpc.Value.{rpc}
use rupicola_go.Rpc.Errors.{err_limit_exceed}
use rupicola_go.Rpc.Limit.{Write, Limiter, set_limit, limited_write}

-- io.Writer: no more bytes are reported than were given, and all of them where there is no error.
pub record IsWriter {S : Type 0} (write : Write S) : Type 0 where
  pub reports : (p : Bytes) (s : S) → (write p s).n ≤ length p
  pub complete : (p : Bytes) (s : S) → (write p s).err ≡ none → (write p s).n ≡ length p

module _ {S : Type 0} (write : Write S) where
  -- The bytes that a sequence of writes hands on, those of failed writes included.
  pub accepted : List Bytes → Limiter S → ℕ
  accepted [] l = 0
  accepted (p ∷ ps) l = let r = limited_write write p l in r.n + accepted ps r.sink

  spends :
      IsWriter write
      → (p : Bytes) (l : Limiter S)
      → (limited_write write p l).n + (limited_write write p l).sink.room ≡ l.room
  unfolding limited_write
  spends w p l = ground (arith, w.reports p l.sink)

  accepted-le-room : IsWriter write → (ps : List Bytes) (l : Limiter S) → accepted ps l ≤ l.room
  unfolding accepted
  accepted-le-room w [] l = omega arith
  accepted-le-room w (p ∷ ps) l =
      omega (arith, spends w p l, accepted-le-room w ps (limited_write write p l).sink)

  -- After SetLimit(n) with n > 0 any sequence of writes hands on at most n bytes, if the writer
  -- below reports no more bytes than it is given.
  pub accepted-le-limit :
      (w : IsWriter write) (n : ℕ) (ps : List Bytes) (l : Limiter S)
      → 0 < n
      → accepted ps (set_limit (pos n) l) ≤ n
  unfolding set_limit
  accepted-le-limit w n ps l h = ground (arith, accepted-le-room w ps (set_limit (pos n) l))

  -- A write beyond the budget fails with the limit error and leaves the writer as it was; any other
  -- is that of the writer below, with its bytes taken off the budget.
  limited_write_cases :
      (p : Bytes) (l : Limiter S)
      → (l.room < length p
          → limited_write write p l ≡ record { n = 0; err = some (rpc err_limit_exceed); sink = l })
        × (0 < l.room
            → length p ≤ l.room
            → ((limited_write write p l).err ≡ (write p l.sink).err)
              × ((limited_write write p l).n ≡ (write p l.sink).n)
              × ((limited_write write p l).sink.sink ≡ (write p l.sink).sink))
  unfolding limited_write
  limited_write_cases p l = (λ h. ground arith, λ h k. ground arith)
