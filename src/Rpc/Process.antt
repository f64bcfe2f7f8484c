-- ===== src/Rpc/Process.antt =====
-- The life of a request: `jsonRPCrequestPriv` and ProcessContext (rupicolarpc/rupicolarpc.go).
pub mod Pending
pub mod Closing
pub mod Answers
pub mod Refusals
pub mod Results
pub mod Outputs
pub mod Streams
pub mod Copies
pub mod Upgrades
pub mod Timeouts
pub mod Late
use rupicola_go.Base.{
  ℕ, zero, suc, Bytes, List, [], ◌∷◌, take, drop, Bool, true, false, not, ◌&&◌, Option, none, some,
  if◌then◌else◌,
}
use rupicola_go.Base.Int.{ℤ, pos, ltb_ℤ, to_int64}
use rupicola_go.Rpc.Value.{
  Any, GoError, rpc, MethodType, Reader, Result, reader, value, Call, set_error, set_result,
}
use rupicola_go.Rpc.Errors.{int_beq, err_invalid_request, err_method_not_found, err_timeout}
use rupicola_go.Rpc.Limit.{Outcome, ◌or_return◌}
use rupicola_go.Rpc.Base.{Env}
use rupicola_go.Rpc.Responser
use rupicola_go.Rpc.Responser.{Responser, copy_chunks, copy_reader, change_protocol_if_required}
use rupicola_go.Rpc.Registry.{Request, MethodDef, Limits, Processor, find_method, at}
use rupicola_go.Rpc.Decode.{RequestData, Body, read_from, is_valid, empty_request}

-- The limit in force: the lower of the two that are not 0.
unfoldable pub effective_timeout : ℤ → ℤ → ℤ
unfolding int_beq
effective_timeout global own =
    if int_beq global (pos 0)
    then own
    else if not (int_beq own (pos 0)) && ltb_ℤ own global
    then own
    else global

-- When the request's context ends, seen from the calls that the method makes on its responser.
--   in_time: never before the method is done.
--   expired k: after k of its calls.
--   interrupted k n rest: within the call after these, a copy, when n of its reader's chunks are
--     delivered; `rest` tells whether the copy ends within the 500 ms that process waits.
-- What a copy that goes on behind that wait still writes to a stream is left out.
pub data Schedule : Type 0 where
  in_time : Schedule
  expired : ℕ → Schedule
  interrupted : ℕ → ℕ → Bool → Schedule

-- `jsonRPCrequestPriv`. `time_limit` is the timeout put on its context; `flush_at` the chunk before
-- which the timer of SetResponseResult forces a flush (`none` if the copy ends before).
pub record Live (E : Env) (U : Type 0) : Type 0 where
  pub request : RequestData
  pub responser : Responser E
  pub err : Option GoError
  pub mode : MethodType
  pub user_data : U
  pub time_limit : Option ℤ
  pub flush_at : Option ℕ

-- The forced flush is for RPC alone.
unfoldable pub forced : MethodType → Option ℕ → Option ℕ
forced MethodType.rpc_method at_chunk = at_chunk
forced MethodType.unknown_method at_chunk = at_chunk
forced _ at_chunk = none

unfoldable pub copy_flushed : {E : Env} → Option ℕ → Reader → Responser E → Outcome (Responser E)
copy_flushed {E} none r s = copy_reader E r s
copy_flushed {E} (some n) r s = copy_chunks E (take n r.chunks) s or_return λ s'.
    copy_reader E (record r { chunks = drop n r.chunks }) (Responser.flush E s')

-- The timeout of the type; a type with no limits panics before it is read.
abbrev global_timeout : {U : Type 0} → MethodType → Processor U → ℤ
global_timeout metype p = elim (at metype p.limits) [ none ↦ pos 0 | some l ↦ l.exec_timeout ]

-- An error is sent with no limit on its size.
unfoldable pub finish_response : {E : Env} → Option GoError → Responser E → Outcome (Responser E)
finish_response {E} none s = Responser.close E s
finish_response {E} (some e) s =
    let (_, s') = Responser.set_response_error E e (Responser.limit_response E (pos 0) s) in
    let (_, s'') = Responser.close E s' in (some e, s'')

module _ {E : Env} {U : Type 0} where
  unfoldable pub ensure_protocol : Live E U → Live E U
  unfolding change_protocol_if_required
  ensure_protocol f = record f {
    responser = change_protocol_if_required E f.responser f.request.jsonrpc;
  }

  -- The context has not ended.
  unfoldable pub set_response_error : GoError → Live E U → Live E U
  set_response_error e f = record f {
    err = some e;
    responser = (Responser.set_response_error E e f.responser).1;
  }

  unfoldable pub set_response_result : Result → Live E U → Live E U
  set_response_result (reader r) f =
      let (err, s) = copy_flushed (forced f.mode f.flush_at) r f.responser in
      record f { err = err; responser = s }
  set_response_result (value a) f =
      let (err, s) = Responser.set_response_result E a f.responser in
      record f { err = err; responser = s }

  unfoldable pub call : Call → Live E U → Live E U
  call (set_error e) f = set_response_error e f
  call (set_result r) f = set_response_result r f

  unfoldable pub run_calls : List Call → Live E U → Live E U
  run_calls [] f = f
  run_calls (c ∷ cs) f = run_calls cs (call c f)

  -- The select chose the context: the calls that begin later do nothing.
  abbrev timed_out : Live E U → Live E U
  timed_out f = record f { err = some (rpc err_timeout) }

  -- The copy that is under way when the context ends, if the next call is one. Its rest is copied
  -- behind the main routine's back, and its error then replaces the timeout.
  unfoldable pub interrupt : List Call → ℕ → Bool → Live E U → Live E U
  interrupt (set_result (reader r) ∷ cs) n true f =
      let (err, s) =
        copy_chunks E (take n r.chunks) f.responser
        or_return copy_reader E (record r { chunks = drop n r.chunks }) in
      record f { err = err; responser = s }
  interrupt (set_result (reader r) ∷ cs) n false f =
      timed_out (record f { responser = (copy_chunks E (take n r.chunks) f.responser).1 })
  interrupt _ n rest f = timed_out f

  -- The goroutine with the two selects.
  unfoldable pub invoke_method : List Call → Schedule → Live E U → Live E U
  invoke_method calls in_time f = run_calls calls f
  invoke_method calls (expired k) f = timed_out (run_calls (take k calls) f)
  invoke_method calls (interrupted k n rest) f =
      interrupt (drop k calls) n rest (run_calls (take k calls) f)

  -- The request that the method sees.
  abbrev pub request_of : Live E U → Request U
  request_of f = record {
    method = f.request.method;
    version = f.request.jsonrpc;
    params = f.request.params;
    user_data = f.user_data;
  }

  -- From the found method on: limits, then the call.
  unfoldable pub serve_method : MethodDef U → ℤ → Schedule → Live E U → Live E U
  serve_method m global sched f =
      let timeout = effective_timeout global m.limits.exec_timeout in
      let f' : Live E U = record f {
        responser = Responser.limit_response E (to_int64 m.limits.max_response) f.responser;
        time_limit = if ltb_ℤ (pos 0) timeout then some timeout else none;
      } in
      invoke_method (m.invoker (request_of f')) sched f'

  -- The checks of `process` behind the protocol and the id.
  unfoldable pub dispatch : Processor U → Schedule → Live E U → Live E U
  dispatch p sched f =
      if is_valid f.request
      then elim (find_method f.request.method f.mode p) [
        | none ↦ record f { err = some (rpc err_method_not_found) }
        | some m ↦ serve_method m (global_timeout f.mode p) sched f
      ]
      else record f { err = some (rpc err_invalid_request) }

  unfoldable pub identified : Live E U → Live E U
  identified f = record f { responser = Responser.identify E f.request.id f.responser }

  unfoldable pub process : Processor U → Schedule → Live E U → Live E U
  process p sched f = elim f.err [
    | some e ↦ f
    | none ↦ dispatch p sched (identified (ensure_protocol f))
  ]

  -- (*jsonRPCrequestPriv).Close: its error, and the responser in the end.
  unfoldable pub close : Live E U → Outcome (Responser E)
  close f = let g = ensure_protocol f in finish_response g.err g.responser

  -- spawnRequest; `none` is the panic of newResponser.
  unfoldable pub spawn_request : E.Sink → MethodType → U → Option ℕ → Option (Live E U)
  spawn_request out mode user_data flush_at = elim (Responser.new_responser E out mode) [
    | none ↦ none
    | some s ↦ some (record {
      request = empty_request;
      responser = s;
      err = none;
      mode = mode;
      user_data = user_data;
      time_limit = none;
      flush_at = flush_at;
    })
  ]

  unfoldable pub read_from_transport : Body → Live E U → Live E U
  unfolding read_from
  read_from_transport body f =
      let (err, request) = read_from body in record f { err = err; request = request }

  -- The error that ProcessContext returns, and the responser as it is left.
  unfoldable pub process_context :
      Processor U
      → Body
      → MethodType
      → U
      → Schedule
      → Option ℕ
      → E.Sink
      → Option (Outcome (Responser E))
  process_context p body mode user_data sched flush_at out =
      elim (spawn_request out mode user_data flush_at) [
        | none ↦ none
        | some f ↦ some (close (process p sched (read_from_transport body f)))
      ]
