-- ===== src/Rpc/Process/Streams.antt =====
-- The output of a method in the legacy streaming mode (rupicolarpc/rupicolarpc.go,
-- legacystreaming.go).
use rupicola_go.Base.{
  ℕ, ◌-◌, ◌≤◌, Bytes, List, [], ◌∷◌, length, length-append, flatten, true, false, Option, none,
  some, ◌≡◌, refl, sym, ap, ◌∙◌, arith, ◌==◌, nat_eq, bytes_eq, if◌then◌else◌,
}
use mathlib.Core.Option.{some-injective}
use rupicola_go.Base.Int.{max_int64, to_int64}
use rupicola_go.Rpc.Value.{
  MethodType, Any, GoError, Reader, Call, set_result, reader, streaming_method_legacy, version20s,
}
use rupicola_go.Rpc.Limit.{Outcome, ◌or_return◌}
use rupicola_go.Rpc.Base.{Env}
use rupicola_go.Rpc.Legacy
use rupicola_go.Rpc.Legacy.{Legacy}
use rupicola_go.Rpc.Responser
use rupicola_go.Rpc.Responser.{
  Responser, legacy, transport, copy_chunk, copy_chunks, copy_reader, change_protocol_if_required,
}
use rupicola_go.Rpc.Registry.{MethodDef, Processor, find_method}
use rupicola_go.Rpc.Decode.{RequestData, Body, read_from, is_valid, empty_request}
use rupicola_go.Rpc.Process.{
  Live, in_time, dispatch, ensure_protocol, identified, copy_flushed, forced, serve_method,
  invoke_method, process, process_context, read_from_transport, spawn_request, close,
  finish_response, run_calls, call, set_response_result,
}
use rupicola_go.Rpc.Process.Refusals.{seen, process-request}
use rupicola_go.Rpc.Process.Results.{allowed, dispatch-found}

-- A transport that takes all that it is given.
abbrev pub TakesAll : Env → Type 0
TakesAll E = (p : Bytes) (s : E.Sink) → ((E.write p s).n ≡ length p) × ((E.write p s).err ≡ none)

-- The transport after one write for each chunk that is not empty.
unfoldable pub sent : (E : Env) → List Bytes → E.Sink → E.Sink
sent E [] s = s
sent E (c ∷ cs) s = sent E cs (if length c == 0 then s else (E.write c s).sink)

module _ (E : Env) (takes : TakesAll E) where
  copy_chunk-legacy :
      (c : Bytes) (b : Legacy E)
      → length c ≤ b.limiter.room
      → (b' : Legacy E) × (copy_chunk E c (legacy b) ≡ (none, legacy b'))
        × (b'.limiter.room ≡ b.limiter.room - length c)
        × (b'.limiter.sink
            ≡ (if length c == 0 then b.limiter.sink else (E.write c b.limiter.sink).sink))
  unfolding copy_chunk Responser.write Legacy.write
  copy_chunk-legacy [] b fits = (b, refl, omega arith, refl)
  copy_chunk-legacy (x ∷ c) b fits = (
    (Legacy.write E (x ∷ c) b).sink,
    ground (arith, takes (x ∷ c) b.limiter.sink),
    ground (arith, takes (x ∷ c) b.limiter.sink),
    ground arith,
  )

  copy_chunks-legacy :
      (cs : List Bytes) (b : Legacy E)
      → length (flatten cs) ≤ b.limiter.room
      → (b' : Legacy E) × (copy_chunks E cs (legacy b) ≡ (none, legacy b'))
        × (b'.limiter.sink ≡ sent E cs b.limiter.sink)
  unfolding copy_chunks sent
  copy_chunks-legacy [] b fits = (b, refl, refl)
  copy_chunks-legacy (c ∷ cs) b fits =
      let (b1, e1, room, s1) =
        copy_chunk-legacy c b (omega (arith, length-append c (flatten cs))) in
      let (b2, e2, s2) =
        copy_chunks-legacy cs b1 (omega (arith, room, length-append c (flatten cs))) in
      (
        b2,
        ap (λ (o : Outcome (Responser E)). o or_return copy_chunks E cs) e1 ∙ e2,
        s2 ∙ ap (sent E cs) s1,
      )

  copy_reader-legacy :
      (r : Reader) (b : Legacy E)
      → length (flatten r.chunks) ≤ b.limiter.room
      → (b' : Legacy E) × (copy_reader E r (legacy b) ≡ (r.fault, legacy b'))
        × (b'.limiter.sink ≡ sent E r.chunks b.limiter.sink)
  unfolding copy_reader
  copy_reader-legacy r b fits =
      let (b', e, s) = copy_chunks-legacy r.chunks b fits in
      (b', ap (λ (o : Outcome (Responser E)). o or_return λ s'. (r.fault, s')) e, s)

change_protocol-legacy :
    {E : Env} (b : Legacy E) (version : Bytes)
    → (version == version20s) ≡ false
    → change_protocol_if_required E (legacy b) version ≡ legacy b
unfolding change_protocol_if_required
change_protocol-legacy b version h = ground arith

ensure_protocol-legacy :
    {E : Env} {U : Type 0} (f : Live E U) (b : Legacy E)
    → f.responser ≡ legacy b
    → (f.request.jsonrpc == version20s) ≡ false
    → ensure_protocol f ≡ f
unfolding ensure_protocol
ensure_protocol-legacy {E} {U} f b e h =
    ap (λ (s : Responser E). record f { responser = s })
      (ap (λ (s : Responser E). change_protocol_if_required E s f.request.jsonrpc) e
        ∙ change_protocol-legacy b f.request.jsonrpc h
        ∙ sym e)

finish_response-legacy :
    (E : Env) (err : Option GoError) (b : Legacy E)
    → ((finish_response {E = E} err (legacy b)).0 ≡ err)
      × (transport E (finish_response {E = E} err (legacy b)).1 ≡ b.limiter.sink)
unfolding finish_response transport Responser.set_response_error Responser.close
    Responser.limit_response
finish_response-legacy E none b = (refl, refl)
finish_response-legacy E (some e) b = (refl, refl)

close-legacy :
    {E : Env} {U : Type 0} (f : Live E U) (b : Legacy E)
    → f.responser ≡ legacy b
    → (f.request.jsonrpc == version20s) ≡ false
    → close f ≡ finish_response f.err (legacy b)
unfolding close
close-legacy {E} {U} f b e h =
    ap (λ (g : Live E U). finish_response g.err g.responser) (ensure_protocol-legacy f b e h)
    ∙ ap (finish_response f.err) e

limited-legacy :
    (E : Env) (out : E.Sink) (id : Option Any) (n : ℕ)
    → n ≤ max_int64
    → (b : Legacy E) × (Responser.limit_response E
          (to_int64 n)
          (Responser.identify E id (legacy (Legacy.new_legacy_streaming_response E out)))
        ≡ legacy b)
      × (b.limiter.room ≡ allowed n)
      × (b.limiter.sink ≡ out)
unfolding Responser.limit_response Responser.identify Legacy.new_legacy_streaming_response
limited-legacy E out id n h = (_, refl, ground arith, refl)

-- A request of the legacy streaming mode before its body is read.
abbrev pub legacy_request : (E : Env) {U : Type 0} → U → Option ℕ → E.Sink → Live E U
legacy_request E u flush_at out = record {
  request = empty_request;
  responser = legacy (Legacy.new_legacy_streaming_response E out);
  err = none;
  mode = streaming_method_legacy;
  user_data = u;
  time_limit = none;
  flush_at = flush_at;
}

module _ (E : Env) {U : Type 0} (p : Processor U) (body : Body) (u : U) (flush_at : Option ℕ)
    (out : E.Sink) where
  abbrev pub streamed : Live E U
  streamed = process p in_time (read_from_transport body (legacy_request E u flush_at out))

  pub process_context-streamed :
      process_context p body streaming_method_legacy u in_time flush_at out ≡ some (close streamed)
  unfolding process_context spawn_request Responser.new_responser
  process_context-streamed = refl

  module _ (m : MethodDef U) (read : (read_from body).0 ≡ none)
      (valid : is_valid (read_from body).1 ≡ true)
      (plain_version : ((read_from body).1.jsonrpc == version20s) ≡ false)
      (found : find_method (read_from body).1.method streaming_method_legacy p ≡ some m)
      (bounded : m.limits.max_response ≤ max_int64) where
    abbrev streamed_to : Responser E
    streamed_to = Responser.limit_response E (to_int64 m.limits.max_response) (
        Responser.identify E (read_from body).1.id
          (legacy (Legacy.new_legacy_streaming_response E out)))

    streamed-called :
        (f : Live E U) × (f.responser ≡ streamed_to)
        × (f.mode ≡ streaming_method_legacy)
        × (f.request ≡ (read_from body).1)
        × (streamed ≡ run_calls (m.invoker (seen body u)) f)
    unfolding identified read_from_transport serve_method invoke_method
    streamed-called = (
      _,
      refl,
      refl,
      refl,
      process-request p in_time _ read
          ∙ ap (λ (f : Live E U). dispatch p in_time (identified f))
              (ensure_protocol-legacy (read_from_transport body (legacy_request E u flush_at out)) _
                refl plain_version)
          ∙ dispatch-found p in_time _ valid found,
    )

    streamed-reader :
        (r : Reader)
        → TakesAll E
        → m.invoker (seen body u) ≡ set_result (reader r) ∷ []
        → length (flatten r.chunks) ≤ allowed m.limits.max_response
        → (b : Legacy E) × (streamed.err ≡ r.fault)
          × (streamed.responser ≡ legacy b)
          × (b.limiter.sink ≡ sent E r.chunks out)
          × (streamed.request ≡ (read_from body).1)
    unfolding set_response_result run_calls call copy_flushed forced
    streamed-reader r takes calls fits =
        let (f, e, mode, request, run) = streamed-called in
        let (b, k, room, empty) =
          limited-legacy E out (read_from body).1.id m.limits.max_response bounded in
        let same : streamed ≡ run_calls (set_result (reader r) ∷ []) f =
          run ∙ ap (λ (cs : List Call). run_calls cs f) calls in
        let (b', copied, all) = copy_reader-legacy E takes r b (omega (arith, room)) in
        let whole : copy_flushed {E = E} (forced f.mode f.flush_at) r f.responser
            ≡ (r.fault, legacy b') =
          ap (λ (t : MethodType). copy_flushed {E = E} (forced t f.flush_at) r f.responser) mode
          ∙ ap (copy_reader E r) (e ∙ k)
          ∙ copied in
        (
          b',
          ap (λ (g : Live E U). g.err) same ∙ ap (λ (o : Outcome (Responser E)). o.0) whole,
          ap (λ (g : Live E U). g.responser) same ∙ ap (λ (o : Outcome (Responser E)). o.1) whole,
          all ∙ ap (sent E r.chunks) empty,
          ap (λ (g : Live E U). g.request) same ∙ request,
        )

    -- A valid request of the legacy streaming mode, of a version that does not upgrade it, whose
    -- method gives a reader in time with an output within its limit, has each chunk that is not
    -- empty written to the transport as it is, in order and with nothing else, and ProcessContext
    -- returns the error with which the reader ended. The transport takes all that it is given.
    pub legacy_output :
        (r : Reader) {o : Outcome (Responser E)}
        → TakesAll E
        → process_context p body streaming_method_legacy u in_time flush_at out ≡ some o
        → m.invoker (seen body u) ≡ set_result (reader r) ∷ []
        → length (flatten r.chunks) ≤ allowed m.limits.max_response
        → (o.0 ≡ r.fault) × (transport E o.1 ≡ sent E r.chunks out)
    legacy_output r {o} takes run calls fits =
        let (b, e, k, all, request) = streamed-reader r takes calls fits in
        let version : (streamed.request.jsonrpc == version20s) ≡ false =
          ap (λ (q : RequestData). q.jsonrpc == version20s) request ∙ plain_version in
        let closed : o ≡ finish_response r.fault (legacy b) =
          some-injective o (close streamed) (sym run ∙ process_context-streamed)
          ∙ close-legacy streamed b k version
          ∙ ap (λ (x : Option GoError). finish_response x (legacy b)) e in
        let (err, left) = finish_response-legacy E r.fault b in
        (
          ap (λ (x : Outcome (Responser E)). x.0) closed ∙ err,
          ap (λ (x : Outcome (Responser E)). transport E x.1) closed ∙ left ∙ all,
        )
