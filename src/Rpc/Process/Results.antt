-- ===== src/Rpc/Process/Results.antt =====
-- The answer of an RPC request whose method is done in time (rupicolarpc/rupicolarpc.go).
use rupicola_go.Base.{
  ℕ, ◌≤◌, ◌<◌, Bytes, List, [], ◌∷◌, length, true, Option, none, some, ◌≡◌, refl, sym, ap, ◌∙◌,
  arith, ◌==◌, nat_eq, if◌then◌else◌,
}
use mathlib.Core.Path.{subst}
use mathlib.Core.Option.{some-injective}
use rupicola_go.Base.Int.{max_int64, to_int64}
use rupicola_go.Rpc.Value.{Any, rpc, Call, set_result, value, rpc_method}
use rupicola_go.Rpc.Errors.{new_error, new_result, err_limit_exceed}
use rupicola_go.Rpc.Limit.{Outcome}
use rupicola_go.Rpc.Base.{Env}
use rupicola_go.Rpc.Plain
use rupicola_go.Rpc.Plain.{Plain}
use rupicola_go.Rpc.Plain.Results.{Holds, set_response_result_fits, set_response_result_exceeds}
use rupicola_go.Rpc.Responser
use rupicola_go.Rpc.Responser.{Responser, plain, transport, copy_chunks, copy_reader}
use rupicola_go.Rpc.Registry.{MethodDef, Processor, find_method}
use rupicola_go.Rpc.Decode.{Body, read_from, is_valid}
use rupicola_go.Rpc.Process.{
  Live, Schedule, in_time, ensure_protocol, identified, dispatch, serve_method, invoke_method,
  process_context, read_from_transport, close, finish_response, run_calls, call, global_timeout,
  set_response_result,
}
use rupicola_go.Rpc.Process.Refusals.{process-request, seen}
use rupicola_go.Rpc.Process.Answers.{served, answer_id_read, rpc_error, process_context-served}

-- The bytes that a limit allows, of which 0 means none.
abbrev pub allowed : ℕ → ℕ
allowed n = if n == 0 then max_int64 else n

limited-Holds :
    (E : Env) (out : E.Sink) (i : Any) (n : ℕ)
    → n ≤ max_int64
    → (b : Plain E.Sink) × (Responser.limit_response E
          (to_int64 n)
          (Responser.identify E (some i) (plain (Plain.new_rpc_response E out)))
        ≡ plain b)
      × Holds out (some i) (allowed n) [] b
unfolding Responser.limit_response Responser.identify Plain.new_rpc_response
limited-Holds E out i n h = (_, refl, ground arith)

close-plain :
    {E : Env} {U : Type 0} (f : Live E U) (b : Plain E.Sink)
    → f.responser ≡ plain b
    → f.err ≡ none
    → transport E (close f).1 ≡ (Plain.close E b).1.raw
unfolding close ensure_protocol finish_response transport Responser.close
    Responser.change_protocol_if_required
close-plain f b h k = ground arith

module _ {E : Env} {U : Type 0} where
  pub dispatch-found :
      (p : Processor U) (sched : Schedule) (f : Live E U) {m : MethodDef U}
      → is_valid f.request ≡ true
      → find_method f.request.method f.mode p ≡ some m
      → dispatch p sched f ≡ serve_method m (global_timeout f.mode p) sched f
  unfolding dispatch
  dispatch-found p sched f h k = ground arith

module _ (E : Env) {U : Type 0} (p : Processor U) (body : Body) (u : U) (flush_at : Option ℕ)
    (out : E.Sink) where
  module _ (i : Any) (m : MethodDef U) (read : (read_from body).0 ≡ none)
      (named : (read_from body).1.id ≡ some i) (valid : is_valid (read_from body).1 ≡ true)
      (found : find_method (read_from body).1.method rpc_method p ≡ some m)
      (bounded : m.limits.max_response ≤ max_int64) where
    -- The responser that the method writes to.
    abbrev pub limited : Responser E
    limited =
        Responser.limit_response E (to_int64 m.limits.max_response)
          (Responser.identify E (read_from body).1.id (plain (Plain.new_rpc_response E out)))

    pub served-called :
        (f : Live E U) × (f.responser ≡ limited)
        × (f.mode ≡ rpc_method)
        × (f.flush_at ≡ flush_at)
        × (served E p body u in_time flush_at out ≡ run_calls (m.invoker (seen body u)) f)
    unfolding served identified ensure_protocol read_from_transport serve_method invoke_method
        Responser.change_protocol_if_required
    served-called = (
      _,
      refl,
      refl,
      refl,
      process-request p in_time _ read ∙ dispatch-found p in_time _ valid found,
    )

    pub limited-plain :
        (b : Plain E.Sink) × (limited ≡ plain b)
        × Holds out (some i) (allowed m.limits.max_response) [] b
    limited-plain =
        subst
          (λ (id : Option Any).
            (b : Plain E.Sink) × (Responser.limit_response E (to_int64 m.limits.max_response)
                (Responser.identify E id (plain (Plain.new_rpc_response E out)))
              ≡ plain b)
            × Holds out (some i) (allowed m.limits.max_response) [] b)
          (sym named) (limited-Holds E out i m.limits.max_response bounded)

    served-value :
        (a : Any)
        → m.invoker (seen body u) ≡ set_result (value a) ∷ []
        → (b : Plain E.Sink) × Holds out (some i) (allowed m.limits.max_response) [] b
          × ((served E p body u in_time flush_at out).err ≡ (Plain.set_response_result E a b).0)
          × ((served E p body u in_time flush_at out).responser
              ≡ plain (Plain.set_response_result E a b).1)
    unfolding set_response_result Responser.set_response_result run_calls call
    served-value a calls =
        let (f, e, _, _, run) = served-called in
        let (b, k, h) = limited-plain in
        let same : served E p body u in_time flush_at out
            ≡ run_calls (set_result (value a) ∷ []) f =
          run ∙ ap (λ (cs : List Call). run_calls cs f) calls in
        let there : f.responser ≡ plain b = e ∙ k in
        (
          b,
          h,
          ap (λ (g : Live E U). g.err) same
              ∙ ap (λ (s : Responser E). (Responser.set_response_result E a s).0) there,
          ap (λ (g : Live E U). g.responser) same
              ∙ ap (λ (s : Responser E). (Responser.set_response_result E a s).1) there,
        )

    -- What the answer leaves on the transport, for one that ends with no error.
    pub closed-plain :
        (b : Plain E.Sink) {r : Outcome (Responser E)}
        → process_context p body rpc_method u in_time flush_at out ≡ some r
        → (served E p body u in_time flush_at out).err ≡ none
        → (served E p body u in_time flush_at out).responser ≡ plain b
        → transport E r.1 ≡ (Plain.close E b).1.raw
    closed-plain b {r} run e k =
        let f = served E p body u in_time flush_at out in
        ap (λ (o : Outcome (Responser E)). transport E o.1)
          (some-injective r (close f)
            (sym run ∙ process_context-served E p body u in_time flush_at out))
        ∙ close-plain f b k e

    -- A valid request whose method gives one value in time is answered by the one write of the
    -- result object with its id, if that object has a text within the limit of the method. The
    -- limit is within an int64, and 0 stands for the largest.
    pub rpc_result :
        (a : Any) (line : Bytes) {r : Outcome (Responser E)}
        → process_context p body rpc_method u in_time flush_at out ≡ some r
        → m.invoker (seen body u) ≡ set_result (value a) ∷ []
        → E.marshal (new_result a (some i)) ≡ some line
        → 0 < length line
        → length line ≤ allowed m.limits.max_response
        → transport E r.1 ≡ (E.write line out).sink
    rpc_result a line run calls marshalled full fits =
        let (b, h, e, k) = served-value a calls in
        let (none_set, sent) =
          set_response_result_fits E out (some i) a i (allowed m.limits.max_response) line b h
            marshalled full fits in
        closed-plain (Plain.set_response_result E a b).1 run (e ∙ none_set) k ∙ sent

    -- The limit of a method counts the JSON around a value too: if the whole result object of a
    -- value is longer than the limit, the answer to the valid request is the error Limit Exceed
    -- with the id of the request, and nothing of the result is sent. The error object has a text,
    -- and a flush adds nothing.
    pub rpc_limit :
        (a : Any) (long line : Bytes) {r : Outcome (Responser E)}
        → ((s : E.Sink) → E.flush s ≡ s)
        → process_context p body rpc_method u in_time flush_at out ≡ some r
        → m.invoker (seen body u) ≡ set_result (value a) ∷ []
        → E.marshal (new_result a (some i)) ≡ some long
        → allowed m.limits.max_response < length long
        → E.marshal (new_error (rpc err_limit_exceed) (some i)) ≡ some line
        → 0 < length line
        → (r.0 ≡ some (rpc err_limit_exceed)) × (transport E r.1 ≡ (E.write line out).sink)
    rpc_limit a long line keeps run calls marshalled big refusal full =
        let (b, h, e, k) = served-value a calls in
        rpc_error E keeps p body u in_time flush_at out i line run
          (e
            ∙ set_response_result_exceeds E out (some i) a i (allowed m.limits.max_response) long b
                h marshalled big)
          (answer_id_read body read ∙ named) refusal full
