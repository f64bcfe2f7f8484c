-- ===== src/Rpc/Process/Pending.antt =====
-- An RPC request sends nothing before it is closed: every operation that a method can reach keeps
-- the transport, the id and the right to answer (rupicolarpc/rupicolarpc.go, rpcresponse.go).
use rupicola_go.Base.{
  ℕ, Bytes, List, [], ◌∷◌, take, drop, length, Bool, true, false, Option, none, some, ◌≡◌, arith,
  Bool-cases, Option-cases, inl, inr, ◌==◌, nat_eq,
}
use rupicola_go.Base.Int.{ℤ}
use rupicola_go.Rpc.Value.{Any, GoError, Reader, reader, value, Call, set_error, set_result}
use rupicola_go.Rpc.Limit.{or_return-keeps}
use rupicola_go.Rpc.Base.{Env}
use rupicola_go.Rpc.Plain.Answers.{IsPending}
use rupicola_go.Rpc.Responser
use rupicola_go.Rpc.Responser.{
  Responser, plain, legacy, streaming, copy_chunk, copy_chunks, copy_reader,
}
use rupicola_go.Rpc.Process.{
  Live, Schedule, in_time, expired, interrupted, copy_flushed, forced, set_response_error,
  set_response_result, call, run_calls, interrupt, invoke_method,
}

module _ {E : Env} where
  abbrev pub Pending : E.Sink → Option Any → Responser E → Type 0
  Pending out id (plain b) = IsPending out id b
  Pending out id _ = ⊥

-- A flush adds nothing to what the transport holds.
module _ (E : Env) (flush_keeps : (s : E.Sink) → E.flush s ≡ s) (out : E.Sink)
    (id : Option Any) where
  write-Pending :
      (p : Bytes) (s : Responser E) → Pending out id s → Pending out id (Responser.write E p s).sink
  unfolding Responser.write
  write-Pending p (plain b) h = ground arith
  write-Pending p (legacy b) h = h
  write-Pending p (streaming b) h = h

  set_response_error-Pending :
      (e : GoError) (s : Responser E)
      → Pending out id s
      → Pending out id (Responser.set_response_error E e s).1
  unfolding Responser.set_response_error
  set_response_error-Pending e (plain b) h = ground arith
  set_response_error-Pending e (legacy b) h = h
  set_response_error-Pending e (streaming b) h = absurd h

  set_response_result-Pending :
      (a : Any) (s : Responser E)
      → Pending out id s
      → Pending out id (Responser.set_response_result E a s).1
  unfolding Responser.set_response_result
  set_response_result-Pending a (plain b) h = ground arith
  set_response_result-Pending a (legacy b) h = absurd h
  set_response_result-Pending a (streaming b) h = absurd h

  pub limit_response-Pending :
      (n : ℤ) (s : Responser E) → Pending out id s → Pending out id (Responser.limit_response E n s)
  unfolding Responser.limit_response
  limit_response-Pending n (plain b) h = ground arith
  limit_response-Pending n (legacy b) h = h
  limit_response-Pending n (streaming b) h = h

  flush-Pending : (s : Responser E) → Pending out id s → Pending out id (Responser.flush E s)
  unfolding Responser.flush
  flush-Pending (plain b) h = ground (arith, flush_keeps b.raw)
  flush-Pending (legacy b) h = h
  flush-Pending (streaming b) h = h

  copy_chunk-Pending :
      (c : Bytes) (s : Responser E) → Pending out id s → Pending out id (copy_chunk E c s).1
  unfolding copy_chunk
  copy_chunk-Pending c s h = elim (Bool-cases (length c == 0)) [
    | inl e ↦ rw e h
    | inr e ↦ elim (Option-cases (Responser.write E c s).err) [
      | inl k ↦ rw (e, k) (write-Pending c s h)
      | inr (x, k) ↦ rw (e, k) (write-Pending c s h)
    ]
  ]

  copy_chunks-Pending :
      (cs : List Bytes) (s : Responser E) → Pending out id s → Pending out id (copy_chunks E cs s).1
  unfolding copy_chunks
  copy_chunks-Pending [] s h = h
  copy_chunks-Pending (c ∷ cs) s h =
      or_return-keeps (Pending out id) (copy_chunk E c s) _ (copy_chunk-Pending c s h)
        (copy_chunks-Pending cs)

  copy_reader-Pending :
      (r : Reader) (s : Responser E) → Pending out id s → Pending out id (copy_reader E r s).1
  unfolding copy_reader
  copy_reader-Pending r s h =
      or_return-keeps (Pending out id) (copy_chunks E r.chunks s) _
        (copy_chunks-Pending r.chunks s h) (λ _ k. k)

  copy_flushed-Pending :
      (at_chunk : Option ℕ) (r : Reader) (s : Responser E)
      → Pending out id s
      → Pending out id (copy_flushed at_chunk r s).1
  unfolding copy_flushed
  copy_flushed-Pending none r s h = copy_reader-Pending r s h
  copy_flushed-Pending (some n) r s h =
      or_return-keeps (Pending out id) (copy_chunks E (take n r.chunks) s) _
        (copy_chunks-Pending (take n r.chunks) s h)
        (λ s' k. copy_reader-Pending _ (Responser.flush E s') (flush-Pending s' k))

  module _ {U : Type 0} where
    call-Pending :
        (c : Call) (f : Live E U) → Pending out id f.responser → Pending out id (call c f).responser
    unfolding call set_response_error set_response_result
    call-Pending (set_error e) f h = set_response_error-Pending e f.responser h
    call-Pending (set_result (reader r)) f h =
        copy_flushed-Pending (forced f.mode f.flush_at) r f.responser h
    call-Pending (set_result (value a)) f h = set_response_result-Pending a f.responser h

    run_calls-Pending :
        (cs : List Call) (f : Live E U)
        → Pending out id f.responser
        → Pending out id (run_calls cs f).responser
    unfolding run_calls
    run_calls-Pending [] f h = h
    run_calls-Pending (c ∷ cs) f h = run_calls-Pending cs (call c f) (call-Pending c f h)

    interrupt-Pending :
        (cs : List Call) (n : ℕ) (rest : Bool) (f : Live E U)
        → Pending out id f.responser
        → Pending out id (interrupt cs n rest f).responser
    unfolding interrupt
    interrupt-Pending (set_result (reader r) ∷ cs) n true f h =
        or_return-keeps (Pending out id) (copy_chunks E (take n r.chunks) f.responser) _
          (copy_chunks-Pending (take n r.chunks) f.responser h) (copy_reader-Pending _)
    interrupt-Pending (set_result (reader r) ∷ cs) n false f h =
        copy_chunks-Pending (take n r.chunks) f.responser h
    interrupt-Pending _ n rest f h = h

    pub invoke_method-Pending :
        (cs : List Call) (sched : Schedule) (f : Live E U)
        → Pending out id f.responser
        → Pending out id (invoke_method cs sched f).responser
    unfolding invoke_method
    invoke_method-Pending cs in_time f h = run_calls-Pending cs f h
    invoke_method-Pending cs (expired k) f h = run_calls-Pending (take k cs) f h
    invoke_method-Pending cs (interrupted k n rest) f h =
        interrupt-Pending (drop k cs) n rest _ (run_calls-Pending (take k cs) f h)
