-- ===== src/Rpc/Plain/Answers.antt =====
-- What Close sends for a plain RPC response (rupicolarpc/rpcresponse.go).
use rupicola_go.Base.{◌≤◌, ◌<◌, Bytes, length, false, Option, none, some, ◌≡◌, refl, arith}
use rupicola_go.Base.Int.{max_int64}
use rupicola_go.Rpc.Value.{Any, text, GoError}
use rupicola_go.Rpc.Errors.{new_error, new_result}
use rupicola_go.Rpc.Base.{Env}
use rupicola_go.Rpc.Plain.{Plain, buffer, set_response_error, close}

-- Nothing has been sent yet: the transport holds `out`, and the answer will carry `id`; without one
-- no result or error was kept.
pub record IsPending {T : Type 0} (out : T) (id : Option Any) (b : Plain T) : Type 0 where
  pub raw : b.raw ≡ out
  pub unsent : b.data_sent ≡ false
  pub named : b.base.id ≡ id
  pub quiet : id ≡ none → b.base.result_set ≡ false

module _ (E : Env) where
  -- An error that is set before Close takes the place of all that was written: the transport gets
  -- the one write of the error object.
  pub close-set_response_error :
      (e : GoError) (b : Plain E.Sink) (out : E.Sink) (i : Any) (line : Bytes)
      → IsPending out (some i) b
      → E.marshal (new_error e (some i)) ≡ some line
      → 0 < length line
      → (close E (set_response_error E e b).1).1.raw ≡ (E.write line out).sink
  unfolding close set_response_error
  close-set_response_error e b out i line h m p = ground arith

  -- Where no result was set on a response that has an id and was not closed, Close sends what was
  -- written as the text of the result, in one write and past the limit of the method, if the object
  -- has a text no longer than the largest int64.
  pub close_written :
      (b : Plain E.Sink) (out : E.Sink) (i : Any) (line : Bytes)
      → IsPending out (some i) b
      → b.base.result_set ≡ false
      → E.marshal (new_result (text (buffer b)) (some i)) ≡ some line
      → 0 < length line
      → length line ≤ max_int64
      → (close E b).1.raw ≡ (E.write line out).sink
  unfolding close
  close_written b out i line h r m p fits = ground arith

  -- A response without an id sends nothing, whatever was written or set before.
  pub close_silent :
      (b : Plain E.Sink) (out : E.Sink)
      → IsPending out none b
      → ((close E b).0 ≡ none) × ((close E b).1.raw ≡ out)
  unfolding close
  close_silent b out h = ground (arith, h.quiet refl)
