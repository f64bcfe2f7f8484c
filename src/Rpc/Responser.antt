-- ===== src/Rpc/Responser.antt =====
-- The interface `rpcResponserPriv`: one constructor for each implementation, and its methods by
-- dispatch; the choice of a responser, and io.Copy into it (rupicolarpc/rupicolarpc.go).
use rupicola_go.Base.{
  Bytes, List, [], ◌∷◌, length, Option, none, some, ◌==◌, nat_eq, bytes_eq, if◌then◌else◌,
}
use rupicola_go.Base.Int.{ℤ}
use rupicola_go.Rpc.Value.{
  Any, GoError, MethodType, rpc_method, streaming_method_legacy, streaming_method, unknown_method,
  version20s, Reader,
}
use rupicola_go.Rpc.Limit.{Write, Outcome, ◌or_return◌}
use rupicola_go.Rpc.Base.{Env, max_response, set_id}
use rupicola_go.Rpc.Plain
use rupicola_go.Rpc.Plain.{Plain, err_short_write}
use rupicola_go.Rpc.Legacy
use rupicola_go.Rpc.Legacy.{Legacy}
use rupicola_go.Rpc.Streaming
use rupicola_go.Rpc.Streaming.{Streaming}

pub data Responser (E : Env) : Type 0 where
  plain : Plain E.Sink → Responser E
  legacy : Legacy E → Responser E
  streaming : Streaming E.Sink → Responser E

module _ {E : Env} where
  abbrev on_plain : Outcome (Plain E.Sink) → Outcome (Responser E)
  on_plain (e, b) = (e, plain b)

  abbrev on_legacy : Outcome (Legacy E) → Outcome (Responser E)
  on_legacy (e, b) = (e, legacy b)

  abbrev on_streaming : Outcome (Streaming E.Sink) → Outcome (Responser E)
  on_streaming (e, b) = (e, streaming b)

module _ (E : Env) where
  unfoldable pub set_response_result : Any → Responser E → Outcome (Responser E)
  unfolding Plain.set_response_result Legacy.set_response_result Streaming.set_response_result
  set_response_result r (plain b) = on_plain (Plain.set_response_result E r b)
  set_response_result r (legacy b) = on_legacy (Legacy.set_response_result E r b)
  set_response_result r (streaming b) = on_streaming (Streaming.set_response_result E r b)

  unfoldable pub set_response_error : GoError → Responser E → Outcome (Responser E)
  unfolding Plain.set_response_error Legacy.set_response_error Streaming.set_response_error
  set_response_error e (plain b) = on_plain (Plain.set_response_error E e b)
  set_response_error e (legacy b) = on_legacy (Legacy.set_response_error E e b)
  set_response_error e (streaming b) = on_streaming (Streaming.set_response_error E e b)

  unfoldable pub close : Responser E → Outcome (Responser E)
  unfolding Plain.close Legacy.close Streaming.close
  close (plain b) = on_plain (Plain.close E b)
  close (legacy b) = on_legacy (Legacy.close E b)
  close (streaming b) = on_streaming (Streaming.close E b)

  unfoldable pub write : Write (Responser E)
  unfolding Plain.write Legacy.write Streaming.write
  write p (plain b) =
      let r = Plain.write E p b in record { n = r.n; err = r.err; sink = plain r.sink }
  write p (legacy b) =
      let r = Legacy.write E p b in record { n = r.n; err = r.err; sink = legacy r.sink }
  write p (streaming b) =
      let r = Streaming.write E p b in record { n = r.n; err = r.err; sink = streaming r.sink }

  -- MaxResponse of the embedded base.
  unfoldable pub limit_response : ℤ → Responser E → Responser E
  unfolding max_response
  limit_response max (plain b) = plain (record b { base = max_response max b.base })
  limit_response max (legacy b) = legacy (max_response max b)
  limit_response max (streaming b) = streaming (record b { base = max_response max b.base })

  unfoldable pub identify : Option Any → Responser E → Responser E
  unfolding set_id
  identify id (plain b) = plain (record b { base = set_id id b.base })
  identify id (legacy b) = legacy (set_id id b)
  identify id (streaming b) = streaming (record b { base = set_id id b.base })

  -- Flush of the transport: `raw` where the base stands on a buffer.
  unfoldable pub flush : Responser E → Responser E
  unfolding Plain.flush
  flush (plain b) = plain (Plain.flush E b)
  flush (legacy b) =
      legacy (record b { limiter = record (b.limiter) { sink = E.flush b.limiter.sink } })
  flush (streaming b) = streaming (record b {
    base = record (b.base) {
      limiter = record (b.base.limiter) { sink = E.flush b.base.limiter.sink };
    };
  })

  -- `none` is the panic on an unknown type.
  unfoldable pub new_responser : E.Sink → MethodType → Option (Responser E)
  unfolding Plain.new_rpc_response Legacy.new_legacy_streaming_response
      Streaming.new_streaming_response
  new_responser out rpc_method = some (plain (Plain.new_rpc_response E out))
  new_responser out streaming_method_legacy =
      some (legacy (Legacy.new_legacy_streaming_response E out))
  new_responser out streaming_method = some (streaming (Streaming.new_streaming_response E out 0))
  new_responser out unknown_method = none

  -- The version is the request's Jsonrpc.
  unfoldable pub change_protocol_if_required : Responser E → Bytes → Responser E
  unfolding Streaming.new_streaming_response
  change_protocol_if_required (legacy b) version =
      if version == version20s
      then streaming (Streaming.new_streaming_response E b.limiter.sink 0)
      else legacy b
  change_protocol_if_required (plain b) version = plain b
  change_protocol_if_required (streaming b) version = streaming b

  -- One round of io.Copy: a read that returned no bytes is passed over.
  unfoldable pub copy_chunk : Bytes → Responser E → Outcome (Responser E)
  copy_chunk c s =
      if length c == 0
      then (none, s)
      else let r = write c s in
        elim r.err [
          | some e ↦ (some e, r.sink)
          | none ↦ (if r.n == length c then none else some err_short_write, r.sink)
        ]

  unfoldable pub copy_chunks : List Bytes → Responser E → Outcome (Responser E)
  copy_chunks [] s = (none, s)
  copy_chunks (c ∷ cs) s = copy_chunk c s or_return copy_chunks cs

  -- io.Copy(responser, reader)
  unfoldable pub copy_reader : Reader → Responser E → Outcome (Responser E)
  unfolding copy_chunks
  copy_reader r s = copy_chunks r.chunks s or_return λ s'. (r.fault, s')

  -- What the transport holds.
  unfoldable pub transport : Responser E → E.Sink
  transport (plain b) = b.raw
  transport (legacy b) = b.limiter.sink
  transport (streaming b) = b.base.limiter.sink
