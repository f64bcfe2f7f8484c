-- ===== src/Rpc/Process/Late.antt =====
-- A copy that is under way when the context of its request ends (rupicolarpc/rupicolarpc.go).
use rupicola_go.Base.{
  ℕ, Bytes, List, [], ◌∷◌, ◌++◌, take, drop, take-append-drop, true, Option, none, some, ◌≡◌, refl,
  sym, ap, ◌∙◌,
}
use rupicola_go.Rpc.Value.{
  MethodType, rpc_method, streaming_method_legacy, streaming_method, unknown_method, Reader, Call,
  set_error, set_result, reader, value,
}
use rupicola_go.Rpc.Limit.{Outcome, ◌or_return◌, or_return_assoc}
use rupicola_go.Rpc.Base.{Env}
use rupicola_go.Rpc.Responser
use rupicola_go.Rpc.Responser.{Responser, copy_chunk, copy_chunks, copy_reader}
use rupicola_go.Rpc.Registry.{MethodDef, Processor, find_method}
use rupicola_go.Rpc.Decode.{Body, read_from, is_valid}
use rupicola_go.Rpc.Process.{
  Live, in_time, interrupted, ensure_protocol, identified, dispatch, serve_method, forced,
  copy_flushed, call, invoke_method, interrupt, run_calls, set_response_result, set_response_error,
  request_of, process, process_context, read_from_transport, spawn_request, close,
}
use rupicola_go.Rpc.Process.Refusals.{seen, process-request}
use rupicola_go.Rpc.Process.Results.{dispatch-found}

or_return-same :
    {S : Type 0} (m : Outcome S) (f g : S → Outcome S)
    → ((s : S) → f s ≡ g s)
    → (m or_return f) ≡ (m or_return g)
or_return-same (none, s) f g h = h s
or_return-same (some e, s) f g h = refl

forced-none : (mode : MethodType) → forced mode none ≡ none
unfolding forced
forced-none rpc_method = refl
forced-none streaming_method_legacy = refl
forced-none streaming_method = refl
forced-none unknown_method = refl

module _ (E : Env) where
  copy_chunks-append :
      (cs ds : List Bytes) (s : Responser E)
      → copy_chunks E (cs ++ ds) s ≡ (copy_chunks E cs s or_return copy_chunks E ds)
  unfolding copy_chunks
  copy_chunks-append [] ds s = refl
  copy_chunks-append (c ∷ cs) ds s =
      or_return-same (copy_chunk E c s) (copy_chunks E (cs ++ ds))
        (λ s'. copy_chunks E cs s' or_return copy_chunks E ds) (copy_chunks-append cs ds)
      ∙ sym (or_return_assoc (copy_chunk E c s) (copy_chunks E cs) (copy_chunks E ds))

  -- A copy in two parts is the copy of the whole.
  copy_reader-parts :
      (n : ℕ) (r : Reader) (s : Responser E)
      → (copy_chunks E (take n r.chunks) s
          or_return copy_reader E (record r { chunks = drop n r.chunks }))
        ≡ copy_reader E r s
  unfolding copy_reader
  copy_reader-parts n r s =
      let end : Responser E → Outcome (Responser E) = λ s'. (r.fault, s') in
      sym
        (or_return_assoc (copy_chunks E (take n r.chunks) s) (copy_chunks E (drop n r.chunks)) end)
      ∙ ap (λ (o : Outcome (Responser E)). o or_return end)
          (sym (copy_chunks-append (take n r.chunks) (drop n r.chunks) s))
      ∙ ap (λ (cs : List Bytes). copy_chunks E cs s or_return end) (take-append-drop n r.chunks)

module _ {E : Env} {U : Type 0} where
  call-flush_at : (c : Call) (f : Live E U) → (call c f).flush_at ≡ f.flush_at
  unfolding call set_response_result set_response_error
  call-flush_at (set_error e) f = refl
  call-flush_at (set_result (reader r)) f = refl
  call-flush_at (set_result (value a)) f = refl

  run_calls-flush_at : (cs : List Call) (f : Live E U) → (run_calls cs f).flush_at ≡ f.flush_at
  unfolding run_calls
  run_calls-flush_at [] f = refl
  run_calls-flush_at (c ∷ cs) f = run_calls-flush_at cs (call c f) ∙ call-flush_at c f

  run_calls-append :
      (cs ds : List Call) (f : Live E U) → run_calls (cs ++ ds) f ≡ run_calls ds (run_calls cs f)
  unfolding run_calls
  run_calls-append [] ds f = refl
  run_calls-append (c ∷ cs) ds f = run_calls-append cs ds (call c f)

  interrupt-copy :
      (r : Reader) (n : ℕ) (f : Live E U)
      → f.flush_at ≡ none
      → interrupt (set_result (reader r) ∷ []) n true f ≡ run_calls (set_result (reader r) ∷ []) f
  unfolding interrupt run_calls call set_response_result copy_flushed
  interrupt-copy r n f h =
      let whole : (copy_chunks E (take n r.chunks) f.responser
            or_return copy_reader E (record r { chunks = drop n r.chunks }))
          ≡ copy_flushed (forced f.mode f.flush_at) r f.responser =
        copy_reader-parts E n r f.responser
        ∙ sym (
            ap (λ (at_chunk : Option ℕ). copy_flushed {E = E} at_chunk r f.responser)
              (ap (forced f.mode) h ∙ forced-none f.mode)) in
      ap (λ (o : Outcome (Responser E)). record f { err = o.0; responser = o.1 }) whole

  invoke_method-copy :
      (calls : List Call) (k n : ℕ) (r : Reader) (f : Live E U)
      → drop k calls ≡ set_result (reader r) ∷ []
      → f.flush_at ≡ none
      → invoke_method calls (interrupted k n true) f ≡ invoke_method calls in_time f
  unfolding invoke_method
  invoke_method-copy calls k n r f e h =
      let before = run_calls (take k calls) f in
      ap (λ (cs : List Call). interrupt cs n true before) e
      ∙ interrupt-copy r n before (run_calls-flush_at (take k calls) f ∙ h)
      ∙ ap (λ (cs : List Call). run_calls cs before) (sym e)
      ∙ sym (run_calls-append (take k calls) (drop k calls) f)
      ∙ ap (λ (cs : List Call). run_calls cs f) (take-append-drop k calls)

  dispatch-copy :
      (p : Processor U) (k n : ℕ) (r : Reader) (f : Live E U) {m : MethodDef U}
      → is_valid f.request ≡ true
      → find_method f.request.method f.mode p ≡ some m
      → drop k (m.invoker (request_of f)) ≡ set_result (reader r) ∷ []
      → f.flush_at ≡ none
      → dispatch p (interrupted k n true) f ≡ dispatch p in_time f
  unfolding serve_method
  dispatch-copy p k n r f {m} valid found last h =
      dispatch-found p (interrupted k n true) f valid found
      ∙ invoke_method-copy (m.invoker (request_of f)) k n r _ last h
      ∙ sym (dispatch-found p in_time f valid found)

  process-copy :
      (p : Processor U) (k n : ℕ) (r : Reader) (f : Live E U) {m : MethodDef U}
      → f.err ≡ none
      → is_valid f.request ≡ true
      → find_method f.request.method f.mode p ≡ some m
      → drop k (m.invoker (request_of f)) ≡ set_result (reader r) ∷ []
      → f.flush_at ≡ none
      → process p (interrupted k n true) f ≡ process p in_time f
  unfolding identified ensure_protocol
  process-copy p k n r f ok valid found last h =
      process-request p (interrupted k n true) f ok
      ∙ dispatch-copy p k n r (identified (ensure_protocol f)) valid found last h
      ∙ sym (process-request p in_time f ok)

-- A copy that is the last call of the method, and within which the context of the request ends, is
-- answered as if it had been done in time, and not by the Timeout error, if it ends while `process`
-- waits for it. The request is valid, its method is known, and no flush is forced.
process_context-late_copy :
    (E : Env) {U : Type 0} (p : Processor U) (body : Body) (mode : MethodType) (u : U) (k n : ℕ)
    (out : E.Sink) {m : MethodDef U} (r : Reader)
    → (read_from body).0 ≡ none
    → is_valid (read_from body).1 ≡ true
    → find_method (read_from body).1.method mode p ≡ some m
    → drop k (m.invoker (seen body u)) ≡ set_result (reader r) ∷ []
    → process_context {E = E} p body mode u (interrupted k n true) none out
      ≡ process_context {E = E} p body mode u in_time none out
unfolding process_context spawn_request read_from_transport Responser.new_responser
process_context-late_copy E p body rpc_method u k n out r read valid found last =
    ap (λ (f : Live E _). some (close f)) (process-copy p k n r _ read valid found last refl)
process_context-late_copy E p body streaming_method_legacy u k n out r read valid found last =
    ap (λ (f : Live E _). some (close f)) (process-copy p k n r _ read valid found last refl)
process_context-late_copy E p body streaming_method u k n out r read valid found last =
    ap (λ (f : Live E _). some (close f)) (process-copy p k n r _ read valid found last refl)
process_context-late_copy E p body unknown_method u k n out r read valid found last = refl
