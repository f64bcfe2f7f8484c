-- ===== src/Rpc/Process/Answers.antt =====
-- The one answer of an RPC request, end to end: reading, processing and closing
-- (ProcessContext of rupicolarpc/rupicolarpc.go, in RPC mode).
use rupicola_go.Base.{
  ℕ, ◌<◌, Bytes, length, Option, none, some, ◌≡◌, refl, arith, Bool-cases, Option-cases, inl, inr,
  ◌∙◌, ap, sym,
}
use mathlib.Core.Path.{subst}
use mathlib.Core.Option.{some-injective}
use rupicola_go.Base.Int.{ℤ}
use rupicola_go.Rpc.Value.{Any, null, GoError, rpc_method}
use rupicola_go.Rpc.Errors.{new_error}
use rupicola_go.Rpc.Limit.{Outcome}
use rupicola_go.Rpc.Base.{Env}
use rupicola_go.Rpc.Plain
use rupicola_go.Rpc.Plain.{Plain}
use rupicola_go.Rpc.Responser
use rupicola_go.Rpc.Responser.{
  Responser, plain, legacy, streaming, transport, change_protocol_if_required,
}
use rupicola_go.Rpc.Registry.{MethodDef, Processor, find_method}
use rupicola_go.Rpc.Decode.{Body, read_from, is_valid, empty_request}
use rupicola_go.Rpc.Process.{
  dispatch, identified, finish_response, Live, Schedule, ensure_protocol, serve_method, process,
  close, spawn_request, read_from_transport, process_context,
}
use rupicola_go.Rpc.Process.Pending.{Pending, limit_response-Pending, invoke_method-Pending}
use rupicola_go.Rpc.Process.Closing.{
  ensure_protocol-Pending, Fresh, Fresh-Pending, identify-Pending, finish_response-error,
  finish_response-silent, close-finish,
}

-- The id that the answer carries: that of the request, or null where no request was read.
unfoldable pub answer_id : Body → Option Any
answer_id body = elim (read_from body).0 [ some _ ↦ some null | none ↦ (read_from body).1.id ]

-- An RPC request before its body is read.
abbrev pub rpc_request : (E : Env) {U : Type 0} → U → Option ℕ → E.Sink → Live E U
rpc_request E u flush_at out = record {
  request = empty_request;
  responser = plain (Plain.new_rpc_response E out);
  err = none;
  mode = rpc_method;
  user_data = u;
  time_limit = none;
  flush_at = flush_at;
}

-- The request as ProcessContext closes it.
unfoldable pub served :
    (E : Env) {U : Type 0} → Processor U → Body → U → Schedule → Option ℕ → E.Sink → Live E U
served E p body u sched flush_at out =
    process p sched (read_from_transport body (rpc_request E u flush_at out))

pub process_context-served :
    (E : Env) {U : Type 0} (p : Processor U) (body : Body) (u : U) (sched : Schedule)
    (flush_at : Option ℕ) (out : E.Sink)
    → process_context p body rpc_method u sched flush_at out
      ≡ some (close (served E p body u sched flush_at out))
unfolding process_context served spawn_request Responser.new_responser
process_context-served E p body u sched flush_at out = refl

finish_response-keeps :
    {E : Env} (e : GoError) (s : Responser E) → (finish_response (some e) s).0 ≡ some e
unfolding finish_response
finish_response-keeps e s = refl

pub answer_id_read :
    (body : Body) → (read_from body).0 ≡ none → answer_id body ≡ (read_from body).1.id
unfolding answer_id
answer_id_read body h = ground arith

answer_id_failed :
    (body : Body) {e : GoError} → (read_from body).0 ≡ some e → answer_id body ≡ some null
unfolding answer_id
answer_id_failed body h = ground arith

new_rpc_response-Fresh :
    (E : Env) (out : E.Sink) → Fresh {E = E} out (plain (Plain.new_rpc_response E out))
unfolding Plain.new_rpc_response
new_rpc_response-Fresh E out = ground arith

module _ (E : Env) (flush_keeps : (s : E.Sink) → E.flush s ≡ s) {U : Type 0} where
  serve_method-Pending :
      (m : MethodDef U) (global : ℤ) (sched : Schedule) (out : E.Sink) (id : Option Any)
      (f : Live E U)
      → Pending out id f.responser
      → Pending out id (serve_method m global sched f).responser
  unfolding serve_method
  serve_method-Pending m global sched out id f h =
      invoke_method-Pending E flush_keeps out id _ sched _
        (limit_response-Pending E flush_keeps out id _ f.responser h)

  dispatch-Pending :
      (p : Processor U) (sched : Schedule) (out : E.Sink) (id : Option Any) (f : Live E U)
      → Pending out id f.responser
      → Pending out id (dispatch p sched f).responser
  unfolding dispatch
  dispatch-Pending p sched out id f h = elim (Bool-cases (is_valid f.request)) [
    | inr e ↦ rw e h
    | inl e ↦ elim (Option-cases (find_method f.request.method f.mode p)) [
      | inl k ↦ rw (e, k) h
      | inr (m, k) ↦ rw (e, k) (serve_method-Pending m _ sched out id f h)
    ]
  ]

  process-refused :
      (p : Processor U) (sched : Schedule) (f : Live E U) {e : GoError}
      → f.err ≡ some e
      → process p sched f ≡ f
  unfolding process
  process-refused p sched f h = ground arith

  process-accepted :
      (p : Processor U) (sched : Schedule) (f : Live E U)
      → f.err ≡ none
      → process p sched f ≡ dispatch p sched (identified (ensure_protocol f))
  unfolding process
  process-accepted p sched f h = ground arith

  process-Pending :
      (p : Processor U) (sched : Schedule) (out : E.Sink) (f : Live E U)
      → f.err ≡ none
      → Fresh out f.responser
      → Pending out f.request.id (process p sched f).responser
  unfolding identified
  process-Pending p sched out f e h =
      rw
        (
          process-accepted p sched f e,
          ensure_protocol-Pending out (some null) f (Fresh-Pending out f.responser h),
        )
        (dispatch-Pending p sched out f.request.id (identified f)
          (identify-Pending E out f.request.id f.responser h))

  served-Pending :
      (p : Processor U) (body : Body) (u : U) (sched : Schedule) (flush_at : Option ℕ)
      (out : E.Sink)
      → Pending out (answer_id body) (served E p body u sched flush_at out).responser
  unfolding served read_from_transport
  served-Pending p body u sched flush_at out = elim (Option-cases (read_from body).0) [
    | inl k ↦ rw (answer_id_read body k) (
        process-Pending p sched out (read_from_transport body (rpc_request E u flush_at out)) k
          (new_rpc_response-Fresh E out))
    | inr (e, k) ↦ rw (answer_id_failed body k) (
        rw (process-refused p sched (read_from_transport body (rpc_request E u flush_at out)) k)
          (new_rpc_response-Fresh E out).0)
  ]

  answered :
      (p : Processor U) (body : Body) (u : U) (sched : Schedule) (flush_at : Option ℕ)
      (out : E.Sink) {r : Outcome (Responser E)}
      → process_context p body rpc_method u sched flush_at out ≡ some r
      → let f = served E p body u sched flush_at out in finish_response f.err f.responser ≡ r
  answered p body u sched flush_at out {r} run =
      let f = served E p body u sched flush_at out in
      sym (close-finish E out f (answer_id body) (served-Pending p body u sched flush_at out))
      ∙ some-injective (close f) r
          (sym (process_context-served E p body u sched flush_at out) ∙ run)

  -- An RPC request that ends with an error, of whatever origin, leaves exactly one write on the
  -- transport, the error object with the id of the request, and ProcessContext returns that error.
  -- The request has an id or was not read, the error object has a text, and a flush adds nothing.
  pub rpc_error :
      (p : Processor U) (body : Body) (u : U) (sched : Schedule) (flush_at : Option ℕ)
      (out : E.Sink) (i : Any) (line : Bytes) {e : GoError} {r : Outcome (Responser E)}
      → process_context p body rpc_method u sched flush_at out ≡ some r
      → (served E p body u sched flush_at out).err ≡ some e
      → answer_id body ≡ some i
      → E.marshal (new_error e (some i)) ≡ some line
      → 0 < length line
      → (r.0 ≡ some e) × (transport E r.1 ≡ (E.write line out).sink)
  rpc_error p body u sched flush_at out i line {e} {r} run failed named m l =
      let f = served E p body u sched flush_at out in
      let pending : Pending out (some i) f.responser =
        subst (λ (id : Option Any). Pending out id f.responser) named
          (served-Pending p body u sched flush_at out) in
      subst
        (λ (x : Outcome (Responser E)).
          (x.0 ≡ some e) × (transport E x.1 ≡ (E.write line out).sink))
        (ap (λ (o : Option GoError). finish_response o f.responser) (sym failed)
          ∙ answered p body u sched flush_at out run)
        (
          finish_response-keeps e f.responser,
          finish_response-error E out e i line f.responser pending m l,
        )

  -- An RPC request that is read and has no id leaves nothing on the transport, whatever its method
  -- writes, sets or fails with, if a flush adds nothing.
  pub rpc_notification :
      (p : Processor U) (body : Body) (u : U) (sched : Schedule) (flush_at : Option ℕ)
      (out : E.Sink) {r : Outcome (Responser E)}
      → process_context p body rpc_method u sched flush_at out ≡ some r
      → answer_id body ≡ none
      → transport E r.1 ≡ out
  rpc_notification p body u sched flush_at out {r} run named =
      let f = served E p body u sched flush_at out in
      let pending : Pending out none f.responser =
        subst (λ (id : Option Any). Pending out id f.responser) named
          (served-Pending p body u sched flush_at out) in
      subst (λ (x : Outcome (Responser E)). transport E x.1 ≡ out)
        (answered p body u sched flush_at out run)
        (finish_response-silent E out f.err f.responser pending).1
