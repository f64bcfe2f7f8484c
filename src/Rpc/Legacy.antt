-- ===== src/Rpc/Legacy.antt =====
-- `legacyStreamingResponse` (rupicolarpc/legacystreaming.go): the output of the method as it is.
use rupicola_go.Base.{Bytes, none}
use rupicola_go.Base.Int.{neg}
use rupicola_go.Base.Decimal.{print_int}
use rupicola_go.Rpc.Value.{Any, int, text, GoError}
use rupicola_go.Rpc.Limit.{Write, Outcome, exceptional_limit_write}
use rupicola_go.Rpc.Base.{Env, Response, new_base_response, write_response}

module _ (E : Env) where
  abbrev pub Legacy : Type 0
  Legacy = Response E.Sink

  unfoldable pub new_legacy_streaming_response : E.Sink → Legacy
  unfolding new_base_response exceptional_limit_write
  new_legacy_streaming_response out = new_base_response (exceptional_limit_write out (neg 1))

  unfoldable pub write : Write Legacy
  unfolding write_response
  write = write_response E.write

  unfoldable pub set_response_error : GoError → Legacy → Outcome Legacy
  set_response_error e b = (none, b)

  -- io.WriteString(b, s)
  write_string : Bytes → Legacy → Outcome Legacy
  unfolding write
  write_string s b = let r = write s b in (r.err, r.sink)

  -- Only a string or an integer is written; `set_response_error` does nothing to an error.
  unfoldable pub set_response_result : Any → Legacy → Outcome Legacy
  unfolding write_string
  set_response_result (text s) b = write_string s b
  set_response_result (int n) b = write_string (print_int n) b
  set_response_result _ b = (none, b)

  -- The default Close of the base.
  unfoldable pub close : Legacy → Outcome Legacy
  close b = (none, b)
