-- ===== src/Rpc/Process/Refusals.antt =====
-- The errors that end an RPC request (rupicolarpc/rupicolarpc.go), each with its answer.
use rupicola_go.Base.{
  ℕ, ◌<◌, Bytes, List, [], ◌∷◌, length, drop, Bool, true, false, Option, none, some, ◌≡◌, refl,
  arith, ap, ◌∙◌, nat_eq,
}
use rupicola_go.Rpc.Value.{Any, rpc, Call, set_error, set_result, reader, value, rpc_method}
use rupicola_go.Rpc.Errors.{new_error, err_timeout, err_method_not_found, err_invalid_request}
use rupicola_go.Rpc.Limit.{Outcome}
use rupicola_go.Rpc.Base.{Env}
use rupicola_go.Rpc.Responser.{Responser, transport}
use rupicola_go.Rpc.Registry.{Request, MethodDef, Processor, find_method}
use rupicola_go.Rpc.Decode.{Body, read_from, is_valid}
use rupicola_go.Rpc.Process.{
  Live, Schedule, in_time, expired, interrupted, ensure_protocol, identified, dispatch,
  serve_method, invoke_method, interrupt, request_of, process, process_context, read_from_transport,
}
use rupicola_go.Rpc.Process.Answers.{served, rpc_request, answer_id, rpc_error}

-- What the method is called with.
abbrev pub seen : {U : Type 0} → Body → U → Request U
seen body u = record {
  method = (read_from body).1.method;
  version = (read_from body).1.jsonrpc;
  params = (read_from body).1.params;
  user_data = u;
}

-- The first call is the copy of a reader.
abbrev pub IsCopy : List Call → Type 0
IsCopy (set_result (reader r) ∷ cs) = Unit
IsCopy _ = ⊥

-- The schedules in which the context ends first, and not within a copy that ends while `process`
-- still waits.
abbrev pub IsLate : List Call → Schedule → Type 0
IsLate calls in_time = ⊥
IsLate calls (expired k) = Unit
IsLate calls (interrupted k n false) = Unit
IsLate calls (interrupted k n true) = ¬ IsCopy (drop k calls)

module _ {E : Env} {U : Type 0} where
  interrupt-late :
      (calls : List Call) (n : ℕ) (f : Live E U)
      → (interrupt calls n false f).err ≡ some (rpc err_timeout)
  unfolding interrupt
  interrupt-late (set_result (reader r) ∷ cs) n f = refl
  interrupt-late _ n f = refl

  interrupt-no_copy :
      (calls : List Call) (n : ℕ) (rest : Bool) (f : Live E U)
      → ¬ IsCopy calls
      → (interrupt calls n rest f).err ≡ some (rpc err_timeout)
  unfolding interrupt
  interrupt-no_copy [] n rest f h = refl
  interrupt-no_copy (set_error e ∷ cs) n rest f h = refl
  interrupt-no_copy (set_result (value a) ∷ cs) n rest f h = refl
  interrupt-no_copy (set_result (reader r) ∷ cs) n rest f h = absurd (h tt)

  invoke_method-late :
      (calls : List Call) (sched : Schedule) (f : Live E U)
      → IsLate calls sched
      → (invoke_method calls sched f).err ≡ some (rpc err_timeout)
  unfolding invoke_method
  invoke_method-late calls in_time f h = absurd h
  invoke_method-late calls (expired k) f h = refl
  invoke_method-late calls (interrupted k n true) f h = interrupt-no_copy (drop k calls) n true _ h
  invoke_method-late calls (interrupted k n false) f h = interrupt-late (drop k calls) n _

  -- What `process` checks, before and after the protocol is settled.
  pub process-request :
      (p : Processor U) (sched : Schedule) (f : Live E U)
      → f.err ≡ none
      → process p sched f ≡ dispatch p sched (identified (ensure_protocol f))
  unfolding process
  process-request p sched f h = ground arith

  dispatch-invalid :
      (p : Processor U) (sched : Schedule) (f : Live E U)
      → is_valid f.request ≡ false
      → (dispatch p sched f).err ≡ some (rpc err_invalid_request)
  unfolding dispatch
  dispatch-invalid p sched f h = ground arith

  dispatch-unknown :
      (p : Processor U) (sched : Schedule) (f : Live E U)
      → is_valid f.request ≡ true
      → find_method f.request.method f.mode p ≡ none
      → (dispatch p sched f).err ≡ some (rpc err_method_not_found)
  unfolding dispatch
  dispatch-unknown p sched f h k = ground arith

  dispatch-late :
      (p : Processor U) (sched : Schedule) (f : Live E U) {m : MethodDef U}
      → is_valid f.request ≡ true
      → find_method f.request.method f.mode p ≡ some m
      → IsLate (m.invoker (request_of f)) sched
      → (dispatch p sched f).err ≡ some (rpc err_timeout)
  unfolding dispatch serve_method
  dispatch-late p sched f {m} h k late =
      rw (h, k) (invoke_method-late (m.invoker (request_of f)) sched _ late)

module _ (E : Env) (flush_keeps : (s : E.Sink) → E.flush s ≡ s) {U : Type 0} (p : Processor U)
    (body : Body) (u : U) (sched : Schedule) (flush_at : Option ℕ) (out : E.Sink) where
  abbrev served_here : Live E U
  served_here = served E p body u sched flush_at out

  served-dispatch :
      (read_from body).0 ≡ none
      → served_here
        ≡ dispatch p sched
            (identified (ensure_protocol (read_from_transport body (rpc_request E u flush_at out))))
  unfolding served read_from_transport
  served-dispatch h = process-request p sched _ h

  served-late :
      {m : MethodDef U}
      → (read_from body).0 ≡ none
      → is_valid (read_from body).1 ≡ true
      → find_method (read_from body).1.method rpc_method p ≡ some m
      → IsLate (m.invoker (seen body u)) sched
      → served_here.err ≡ some (rpc err_timeout)
  unfolding identified ensure_protocol read_from_transport
  served-late {m} h v found late =
      ap (λ (f : Live E U). f.err) (served-dispatch h) ∙ dispatch-late p sched _ v found late

  served-invalid :
      (read_from body).0 ≡ none
      → is_valid (read_from body).1 ≡ false
      → served_here.err ≡ some (rpc err_invalid_request)
  unfolding identified ensure_protocol read_from_transport
  served-invalid h v =
      ap (λ (f : Live E U). f.err) (served-dispatch h) ∙ dispatch-invalid p sched _ v

  served-unknown :
      (read_from body).0 ≡ none
      → is_valid (read_from body).1 ≡ true
      → find_method (read_from body).1.method rpc_method p ≡ none
      → served_here.err ≡ some (rpc err_method_not_found)
  unfolding identified ensure_protocol read_from_transport
  served-unknown h v found =
      ap (λ (f : Live E U). f.err) (served-dispatch h) ∙ dispatch-unknown p sched _ v found

  module _ (i : Any) (line : Bytes) {r : Outcome (Responser E)}
      (run : process_context p body rpc_method u sched flush_at out ≡ some r)
      (read : (read_from body).0 ≡ none) (named : (read_from body).1.id ≡ some i)
      (full : 0 < length line) where
    answer_id-named : answer_id body ≡ some i
    unfolding answer_id
    answer_id-named = ground arith

    -- A valid request for a known method whose context ends before the method is done is answered
    -- by the Timeout error with its id, whatever the method had written, unless the context ends
    -- within the copy of a reader and that copy ends while process waits for it. The error object
    -- has a text, and a flush adds nothing.
    pub rpc_timeout :
        {m : MethodDef U}
        → is_valid (read_from body).1 ≡ true
        → find_method (read_from body).1.method rpc_method p ≡ some m
        → IsLate (m.invoker (seen body u)) sched
        → E.marshal (new_error (rpc err_timeout) (some i)) ≡ some line
        → (r.0 ≡ some (rpc err_timeout)) × (transport E r.1 ≡ (E.write line out).sink)
    rpc_timeout valid found late m =
        rpc_error E flush_keeps p body u sched flush_at out i line run
          (served-late read valid found late) answer_id-named m full

    -- A request that is read but has a wrong version or no method name is answered by Invalid
    -- Request with its id; no method is called. The error object has a text, and a flush adds
    -- nothing.
    pub rpc_invalid :
        is_valid (read_from body).1 ≡ false
        → E.marshal (new_error (rpc err_invalid_request) (some i)) ≡ some line
        → (r.0 ≡ some (rpc err_invalid_request)) × (transport E r.1 ≡ (E.write line out).sink)
    rpc_invalid invalid m =
        rpc_error E flush_keeps p body u sched flush_at out i line run (served-invalid read invalid)
          answer_id-named m full

    -- A valid request for a method that has no RPC definition is answered by Method not found with
    -- its id. The error object has a text, and a flush adds nothing.
    pub rpc_unknown :
        is_valid (read_from body).1 ≡ true
        → find_method (read_from body).1.method rpc_method p ≡ none
        → E.marshal (new_error (rpc err_method_not_found) (some i)) ≡ some line
        → (r.0 ≡ some (rpc err_method_not_found)) × (transport E r.1 ≡ (E.write line out).sink)
    rpc_unknown valid missing m =
        rpc_error E flush_keeps p body u sched flush_at out i line run
          (served-unknown read valid missing) answer_id-named m full
