-- ===== src/Rpc/Plain.antt =====
-- `rpcResponse` (rupicolarpc/rpcresponse.go): the answer is gathered in a buffer behind the limiter
-- and copied to the transport by Close.
pub mod Answers
pub mod Results
use rupicola_go.Base.{
  ℕ, Bytes, [], ◌∷◌, length, Bool, true, false, not, Option, none, some, lit, ltb, ◌==◌, nat_eq,
  if◌then◌else◌, drop,
}
use rupicola_go.Base.Int.{ℤ, pos, neg}
use rupicola_go.Rpc.Value.{Any, text, GoError, other, Envelope}
use rupicola_go.Rpc.Errors.{new_error, new_result}
use rupicola_go.Rpc.Limit.{
  Wrote, Write, Limiter, Outcome, ◌or_return◌, exceptional_limit_write, buffer_write, err_marshal,
}
use rupicola_go.Rpc.Base.{
  Env, Response, new_base_response, max_response, set_id, encode_response, write_response,
  err_result_already_set,
}

-- The buffer is the base's transport.
pub record Plain (T : Type 0) : Type 0 where
  pub base : Response Bytes
  pub raw : T
  pub data_sent : Bool
  pub prev_err : Option GoError

abbrev pub err_short_write : GoError
err_short_write = other (lit "short write")

abbrev pub set_buffer : Bytes → Response Bytes → Response Bytes
set_buffer s b = record b { limiter = record (b.limiter) { sink = s } }

abbrev pub buffer : {T : Type 0} → Plain T → Bytes
buffer b = b.base.limiter.sink

module _ (E : Env) where
  unfoldable pub new_rpc_response : E.Sink → Plain E.Sink
  unfolding new_base_response exceptional_limit_write
  new_rpc_response w = record {
    base = new_base_response (exceptional_limit_write [] (neg 1));
    raw = w;
    data_sent = false;
    prev_err = none;
  }

  unfoldable pub flush : Plain E.Sink → Plain E.Sink
  flush b = record b { raw = E.flush b.raw }

  unfoldable pub write : Write (Plain E.Sink)
  unfolding write_response
  write p b =
      if b.base.result_set
      then record { n = 0; err = some err_result_already_set; sink = b }
      else let r = write_response buffer_write p b.base in
        record { n = r.n; err = r.err; sink = record b { base = r.sink } }

  -- b.dst.Encode: straight into the buffer, past the limiter. The buffer takes all, so this encoder
  -- never keeps an error.
  unfoldable pub encode_unlimited : Envelope → Plain E.Sink → Outcome (Plain E.Sink)
  encode_unlimited v b = elim (E.marshal v) [
    | none ↦ (some err_marshal, b)
    | some line ↦ (none, record b { base = set_buffer (buffer_write line (buffer b)).sink b.base })
  ]

  unfoldable pub set_response_error : GoError → Plain E.Sink → Outcome (Plain E.Sink)
  unfolding encode_unlimited new_error
  set_response_error e b =
      if b.data_sent then (some err_result_already_set, b) else elim b.base.id [
        | none ↦ (none, b)
        | some id ↦ encode_unlimited (new_error e (some id)) (record b {
          prev_err = some e;
          base = record (set_buffer [] b.base) { result_set = true };
        })
      ]

  unfoldable pub set_response_result : Any → Plain E.Sink → Outcome (Plain E.Sink)
  unfolding encode_response new_result
  set_response_result result b =
      if b.base.result_set then (some err_result_already_set, b) else elim b.base.id [
        | none ↦ (none, b)
        | some id ↦
            let (err, base) =
              encode_response E.marshal buffer_write (new_result result (some id))
                (record (b.base) { result_set = true }) in
            (err, record b { base = base })
      ]

  -- io.Copy(b.raw, b.buffer), by the buffer's WriteTo: one Write of all that it holds.
  unfoldable pub copy_buffer : Plain E.Sink → Outcome (Plain E.Sink)
  copy_buffer b =
      if length (buffer b) == 0
      then (none, b)
      else let r = E.write (buffer b) b.raw in
        let rest = record b { raw = r.sink; base = set_buffer (drop r.n (buffer b)) b.base } in
        elim r.err [
          | some e ↦ (some e, rest)
          | none ↦ (if r.n == length (buffer b) then none else some err_short_write, rest)
        ]

  -- `if !b.resultSet { … }` of Close: what was written becomes the result.
  unfoldable pub wrap_content : Plain E.Sink → Outcome (Plain E.Sink)
  unfolding set_response_result max_response
  wrap_content b =
      if b.base.result_set
      then (none, b)
      else set_response_result (text (buffer b))
          (record b { base = set_buffer [] (max_response (pos 0) b.base) })

  unfoldable pub close : Plain E.Sink → Outcome (Plain E.Sink)
  unfolding wrap_content copy_buffer
  close b =
      if b.data_sent
      then (none, b)
      else (wrap_content (record b { data_sent = true }) or_return copy_buffer)
