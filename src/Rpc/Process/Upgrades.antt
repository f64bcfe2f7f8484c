-- ===== src/Rpc/Process/Upgrades.antt =====
-- The output of a method in the streaming mode of version 2.0+s, from the request to the footer
-- (rupicolarpc/rupicolarpc.go, streaming.go).
use mathlib.Core.Option.{some-injective}
use rupicola_go.Base.{
  ℕ, Bytes, List, [], ◌∷◌, flatten, true, Option, none, some, ◌≡◌, ◌≢◌, refl, sym, ap, ◌∙◌, arith,
  ◌==◌, nat_eq, bytes_eq,
}
use rupicola_go.Base.Int.{to_int64}
use rupicola_go.Rpc.Value.{
  MethodType, Any, GoError, Reader, Call, set_result, reader, streaming_method_legacy, version20s,
}
use rupicola_go.Rpc.Limit.{Outcome, ◌or_return◌}
use rupicola_go.Rpc.Base.{Env, Response, max_response, set_id}
use rupicola_go.Rpc.Streaming
use rupicola_go.Rpc.Streaming.{Streaming, new_streaming_response}
use rupicola_go.Rpc.Streaming.Lines.{outcome}
use rupicola_go.Rpc.Streaming.Objects.{IsNew, stream_objects, encode_all, write_close-Follows}
use rupicola_go.Rpc.Legacy
use rupicola_go.Rpc.Responser
use rupicola_go.Rpc.Responser.{
  Responser, legacy, streaming, transport, copy_chunks, copy_reader, change_protocol_if_required,
}
use rupicola_go.Rpc.Registry.{MethodDef, Processor, find_method}
use rupicola_go.Rpc.Decode.{Body, read_from, is_valid}
use rupicola_go.Rpc.Process.{
  Live, in_time, dispatch, ensure_protocol, identified, copy_flushed, forced, serve_method,
  invoke_method, process_context, read_from_transport, close, finish_response, run_calls, call,
  set_response_result,
}
use rupicola_go.Rpc.Process.Refusals.{seen, process-request}
use rupicola_go.Rpc.Process.Results.{dispatch-found}
use rupicola_go.Rpc.Process.Streams.{legacy_request, streamed, process_context-streamed}
use rupicola_go.Rpc.Process.Copies.{copy_chunks-write}

-- Where a sequence has no error, its first part has none.
or_return-none :
    {S : Type 0} (m : Outcome S) (f : S → Outcome S)
    → (m or_return f).0 ≡ none
    → (m.0 ≡ none) × ((m or_return f) ≡ f m.1)
or_return-none (none, s) f h = (refl, refl)
or_return-none (some e, s) f h = cc

copy_reader-write :
    (E : Env) (r : Reader) (b : Streaming E.Sink)
    → b.chunk_size ≡ 0
    → r.fault ≡ none
    → flatten r.chunks ≢ []
    → (outcome (Streaming.write E (flatten r.chunks) b)).0 ≡ none
    → copy_reader E r (streaming b)
      ≡ (none, streaming (outcome (Streaming.write E (flatten r.chunks) b)).1)
unfolding copy_reader
copy_reader-write E r b z no_fault some_output written =
    let w = outcome (Streaming.write E (flatten r.chunks) b) in
    ap (λ (o : Outcome (Responser E)). o or_return λ s'. (r.fault, s'))
      (copy_chunks-write E r.chunks b z some_output)
    ∙ ap
        (λ (x : Option GoError).
          let o : Outcome (Responser E) = (x, streaming w.1) in o or_return λ s'. (r.fault, s'))
        written
    ∙ ap (λ (x : Option GoError). (x, streaming w.1)) no_fault

finish_response-streaming :
    (E : Env) (b : Streaming E.Sink)
    → ((finish_response {E = E} none (streaming b)).0 ≡ (Streaming.close E b).0)
      × (transport E (finish_response {E = E} none (streaming b)).1
          ≡ (Streaming.close E b).1.base.limiter.sink)
unfolding finish_response transport Responser.close
finish_response-streaming E b = (refl, refl)

close-streaming :
    {E : Env} {U : Type 0} (f : Live E U) (b : Streaming E.Sink)
    → f.responser ≡ streaming b
    → f.err ≡ none
    → close f ≡ finish_response none (streaming b)
unfolding close ensure_protocol change_protocol_if_required
close-streaming {E} {U} f b e h =
    ap
      (λ (s : Responser E).
        finish_response f.err (change_protocol_if_required E s f.request.jsonrpc))
      e
    ∙ ap (λ (x : Option GoError). finish_response x (streaming b)) h

change_protocol-upgrades :
    (E : Env) (out : E.Sink) (version : Bytes)
    → (version == version20s) ≡ true
    → change_protocol_if_required E (legacy (Legacy.new_legacy_streaming_response E out)) version
      ≡ streaming (new_streaming_response E out 0)
unfolding change_protocol_if_required Legacy.new_legacy_streaming_response
change_protocol-upgrades E out version h = ground arith

module _ (E : Env) {U : Type 0} (p : Processor U) (body : Body) (u : U) (flush_at : Option ℕ)
    (out : E.Sink) (m : MethodDef U) where
  -- The stream that the method writes to.
  abbrev pub upgraded : Streaming E.Sink
  upgraded =
      let new = new_streaming_response E out 0 in
      record new {
        base =
            max_response (to_int64 m.limits.max_response) (set_id (read_from body).1.id new.base);
      }

  upgraded-IsNew : IsNew E upgraded
  unfolding new_streaming_response
  upgraded-IsNew = record { closed = refl; chunk = refl; first = refl; buffer = refl }

  upgraded-chunk : upgraded.chunk_size ≡ 0
  unfolding new_streaming_response
  upgraded-chunk = refl

  upgraded-id : upgraded.base.id ≡ (read_from body).1.id
  unfolding max_response set_id new_streaming_response
  upgraded-id = refl

  encoded-upgraded :
      (r : Reader) {base : Response E.Sink}
      → encode_all E (stream_objects (read_from body).1.id (flatten r.chunks)) upgraded.base
        ≡ (none, base)
      → encode_all E (stream_objects upgraded.base.id (flatten r.chunks)) upgraded.base
        ≡ (none, base)
  encoded-upgraded r sent =
      ap (λ (id : Option Any). encode_all E (stream_objects id (flatten r.chunks)) upgraded.base)
        upgraded-id
      ∙ sent

  module _ (read : (read_from body).0 ≡ none) (valid : is_valid (read_from body).1 ≡ true)
      (version : ((read_from body).1.jsonrpc == version20s) ≡ true)
      (found : find_method (read_from body).1.method streaming_method_legacy p ≡ some m) where
    upgraded-called :
        (f : Live E U) × (f.responser ≡ streaming upgraded)
        × (f.mode ≡ streaming_method_legacy)
        × (streamed E p body u flush_at out ≡ run_calls (m.invoker (seen body u)) f)
    unfolding identified read_from_transport serve_method invoke_method ensure_protocol
        Responser.identify Responser.limit_response
    upgraded-called =
        let f = read_from_transport body (legacy_request E u flush_at out) in
        let ensured : ensure_protocol f
            ≡ record f { responser = streaming (new_streaming_response E out 0) } =
          ap (λ (s : Responser E). record f { responser = s })
            (change_protocol-upgrades E out (read_from body).1.jsonrpc version) in
        (
          _,
          refl,
          refl,
          process-request p in_time _ read
              ∙ ap (λ (g : Live E U). dispatch p in_time (identified g)) ensured
              ∙ dispatch-found p in_time _ valid found,
        )

    streamed-written :
        (r : Reader)
        → m.invoker (seen body u) ≡ set_result (reader r) ∷ []
        → r.fault ≡ none
        → flatten r.chunks ≢ []
        → (outcome (Streaming.write E (flatten r.chunks) upgraded)).0 ≡ none
        → ((streamed E p body u flush_at out).err ≡ none)
          × ((streamed E p body u flush_at out).responser
              ≡ streaming (outcome (Streaming.write E (flatten r.chunks) upgraded)).1)
    unfolding set_response_result run_calls call copy_flushed forced
    streamed-written r calls no_fault some_output written =
        let (f, e, mode, run) = upgraded-called in
        let w = outcome (Streaming.write E (flatten r.chunks) upgraded) in
        let same : streamed E p body u flush_at out ≡ run_calls (set_result (reader r) ∷ []) f =
          run ∙ ap (λ (cs : List Call). run_calls cs f) calls in
        let whole : copy_flushed {E = E} (forced f.mode f.flush_at) r f.responser
            ≡ (none, streaming w.1) =
          ap (λ (t : MethodType). copy_flushed {E = E} (forced t f.flush_at) r f.responser) mode
          ∙ ap (copy_reader E r) e
          ∙ copy_reader-write E r upgraded upgraded-chunk no_fault some_output written in
        (
          ap (λ (g : Live E U). g.err) same ∙ ap (λ (o : Outcome (Responser E)). o.0) whole,
          ap (λ (g : Live E U). g.responser) same ∙ ap (λ (o : Outcome (Responser E)). o.1) whole,
        )

    -- A valid request of version 2.0+s in the legacy streaming mode, whose method gives in time a
    -- reader with some output and no error, is answered by a header, one object for each line of
    -- the output, one for what follows the last line end, if anything does, and a footer, in this
    -- order and with the id of the request, whatever chunks the output came in: if these objects
    -- can be encoded one after the other under the limit of the method, ProcessContext returns no
    -- error and leaves on the transport just what they leave.
    pub stream_output :
        (r : Reader) {o : Outcome (Responser E)} {base : Response E.Sink}
        → process_context p body streaming_method_legacy u in_time flush_at out ≡ some o
        → m.invoker (seen body u) ≡ set_result (reader r) ∷ []
        → r.fault ≡ none
        → flatten r.chunks ≢ []
        → encode_all E (stream_objects (read_from body).1.id (flatten r.chunks)) upgraded.base
          ≡ (none, base)
        → (o.0 ≡ none) × (transport E o.1 ≡ base.limiter.sink)
    stream_output r {o} {base} run calls no_fault some_output sent =
        let w = outcome (Streaming.write E (flatten r.chunks) upgraded) in
        let (err, behind) = write_close-Follows E (flatten r.chunks) upgraded upgraded-IsNew in
        let all = encoded-upgraded r sent in
        let (written, closed) =
          or_return-none w (Streaming.close E)
            (err ∙ ap (λ (q : Outcome (Response E.Sink)). q.0) all) in
        let (e, k) = streamed-written r calls no_fault some_output written in
        let ended : o ≡ finish_response none (streaming w.1) =
          some-injective o (close (streamed E p body u flush_at out))
            (sym run ∙ process_context-streamed E p body u flush_at out)
          ∙ close-streaming (streamed E p body u flush_at out) w.1 k e in
        let (last, left) = finish_response-streaming E w.1 in
        (
          ap (λ (x : Outcome (Responser E)). x.0) ended
              ∙ last
              ∙ ap (λ (x : Outcome (Streaming E.Sink)). x.0) (sym closed)
              ∙ err
              ∙ ap (λ (q : Outcome (Response E.Sink)). q.0) all,
          ap (λ (x : Outcome (Responser E)). transport E x.1) ended
              ∙ left
              ∙ ap (λ (x : Outcome (Streaming E.Sink)). x.1.base.limiter.sink) (sym closed)
              ∙ ap (λ (x : Response E.Sink). x.limiter.sink) behind
              ∙ ap (λ (q : Outcome (Response E.Sink)). q.1.limiter.sink) all,
        )
