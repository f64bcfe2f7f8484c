-- ===== src/Rpc/Base.antt =====
-- `baseResponse` (rupicolarpc/respones.go), which the three responsers embed, and what they ask of
-- their surroundings.
use rupicola_go.Base.{Bytes, Bool, false, Option, none, some, lit}
use rupicola_go.Base.Int.{ℤ}
use rupicola_go.Rpc.Value.{Any, null, GoError, other, Envelope}
use rupicola_go.Rpc.Limit.{Wrote, Write, Limiter, set_limit, limited_write, encode, Outcome}

-- The transport that the server gives to a request, with its Write and Flush, and the text that
-- encoding/json makes of an object (with the line end of Encode; `none` where it fails).
pub record Env : Type 1 where
  pub Sink : Type 0
  pub write : Bytes → Sink → Wrote Sink
  pub flush : Sink → Sink
  pub marshal : Envelope → Option Bytes

-- `transport` is the limiter's writer. The id is `none` for a nil pointer; `some null` at first, so
-- that errors are sent.
pub record Response (S : Type 0) : Type 0 where
  pub limiter : Limiter S
  pub failed : Option GoError
  pub result_set : Bool
  pub id : Option Any

abbrev pub err_result_already_set : GoError
err_result_already_set = other (lit "Result already set")

module _ {S : Type 0} where
  unfoldable pub new_base_response : Limiter S → Response S
  new_base_response l = record { limiter = l; failed = none; result_set = false; id = some null }

  unfoldable pub max_response : ℤ → Response S → Response S
  unfolding set_limit
  max_response max b = record b { limiter = set_limit max b.limiter; failed = none }

  unfoldable pub set_id : Option Any → Response S → Response S
  set_id id b = record b { id = id }

  -- b.encoder.Encode(v)
  unfoldable pub encode_response :
      (Envelope → Option Bytes) → Write S → Envelope → Response S → Outcome (Response S)
  unfolding encode
  encode_response marshal write v b =
      let (err, failed, limiter) = encode marshal write v b.failed b.limiter in
      (err, record b { limiter = limiter; failed = failed })

  unfoldable pub write_response : Write S → Write (Response S)
  unfolding limited_write
  write_response write p b =
      let r = limited_write write p b.limiter in
      record { n = r.n; err = r.err; sink = record b { limiter = r.sink } }
