-- ===== src/Tests/RpcRuns.antt =====
-- Requests of the RPC mode, the table of methods, and the writer with a limit.
use rupicola_go.Base.{
  ℕ, Option, Bytes, lit, [], ◌∷◌, none, some, false, ◌≡◌, refl, arith, bytes_eq, ◌≤◌,
}
use rupicola_go.Base.Int.{pos}
use rupicola_go.Rpc.Value.{reader, set_result, float, text, rpc, other, value}
use rupicola_go.Rpc.Limit.{Outcome, Limiter, buffer_write, set_limit}
use rupicola_go.Rpc.Limit.Bounds.{IsWriter, accepted, accepted-le-limit}
use rupicola_go.Rpc.Errors.{
  err_limit_exceed, err_timeout, err_method_not_found, new_error, new_result,
}
use rupicola_go.Rpc.Plain.{Plain}
use rupicola_go.Rpc.Plain.Answers.{IsPending}
use rupicola_go.Rpc.Responser.{Responser, transport}
use rupicola_go.Rpc.Decode.{Body, read_from, is_valid}
use rupicola_go.Rpc.Process.{
  Schedule, in_time, expired, close, process, read_from_transport, dispatch, identified,
  ensure_protocol, serve_method, invoke_method, run_calls, call, set_response_error,
  set_response_result,
}
use rupicola_go.Rpc.Process.Results.{rpc_result, rpc_limit}
use rupicola_go.Rpc.Process.Outputs.{rpc_output}
use rupicola_go.Rpc.Registry.{
  find_method, MethodDef, Request, Returned, success, Processor, empty_by_type,
  default_streaming_limits, old_to_new,
}
use rupicola_go.Rpc.Process.Answers.{
  served, answer_id, rpc_error, rpc_notification, process_context-served,
}
use rupicola_go.Rpc.Process.Refusals.{rpc_timeout, rpc_unknown}
use rupicola_go.Tests.{
  limited_to, program_output, log_env, one_method, broken_method, run_request, run_notification,
  missing_request,
}

abbrev closed : Body → Schedule → Outcome (Responser log_env)
closed body sched = close (served log_env one_method body tt sched none [])

run-err : (served log_env one_method run_request tt in_time none []).err ≡ some (other (lit "boom"))
unfolding served process read_from_transport read_from dispatch identified ensure_protocol is_valid
    find_method serve_method invoke_method run_calls call set_response_error set_response_result
    bytes_eq
run-err = refl

run-id : answer_id run_request ≡ some (float (lit "7"))
unfolding answer_id read_from bytes_eq
run-id = refl

rpc_error_example :
    ((closed run_request in_time).0 ≡ some (other (lit "boom")))
    × (transport log_env (closed run_request in_time).1 ≡ lit "error Internal error")
unfolding new_error
rpc_error_example =
    rpc_error log_env (λ s. refl) one_method run_request tt in_time none [] (float (lit "7"))
      (lit "error Internal error")
      (process_context-served log_env one_method run_request tt in_time none []) run-err run-id refl
      (omega arith)

rpc_notification_example : transport log_env (closed run_notification in_time).1 ≡ []
unfolding answer_id read_from bytes_eq
rpc_notification_example =
    rpc_notification log_env (λ s. refl) one_method run_notification tt in_time none []
      (process_context-served log_env one_method run_notification tt in_time none []) refl

rpc_timeout_example :
    ((closed run_request (expired 1)).0 ≡ some (rpc err_timeout))
    × (transport log_env (closed run_request (expired 1)).1 ≡ lit "error Timeout")
unfolding read_from is_valid find_method bytes_eq new_error
rpc_timeout_example =
    rpc_timeout log_env (λ s. refl) one_method run_request tt (expired 1) none [] (float (lit "7"))
      (lit "error Timeout")
      (process_context-served log_env one_method run_request tt (expired 1) none []) refl refl
      (omega arith) refl refl tt refl

rpc_unknown_example :
    ((closed missing_request in_time).0 ≡ some (rpc err_method_not_found))
    × (transport log_env (closed missing_request in_time).1 ≡ lit "error Method not found")
unfolding read_from is_valid find_method bytes_eq new_error
rpc_unknown_example =
    rpc_unknown log_env (λ s. refl) one_method missing_request tt in_time none [] (float (lit "7"))
      (lit "error Method not found")
      (process_context-served log_env one_method missing_request tt in_time none []) refl refl
      (omega arith) refl refl refl

abbrev empty_limiter : Limiter Bytes
empty_limiter = record { sink = []; room = 0 }

buffer_write-IsWriter : IsWriter buffer_write
buffer_write-IsWriter = record { reports = λ p s. omega arith; complete = λ p s h. refl }

accepted-le-limit_example :
    accepted buffer_write (lit "abc" ∷ lit "defgh" ∷ lit "i" ∷ []) (set_limit (pos 5) empty_limiter)
    ≤ 5
accepted-le-limit_example =
    accepted-le-limit buffer_write buffer_write-IsWriter 5 (lit "abc" ∷ lit "defgh" ∷ lit "i" ∷ [])
      empty_limiter (omega arith)

abbrev half_written : Plain Bytes
half_written = record {
  base = record {
    limiter = record { sink = lit "half"; room = 10 };
    failed = none;
    result_set = false;
    id = some (float (lit "7"));
  };
  raw = lit "sent ";
  data_sent = false;
  prev_err = none;
}

half_written-IsPending : IsPending (lit "sent ") (some (float (lit "7"))) half_written
half_written-IsPending = record { raw = refl; unsent = refl; named = refl; quiet = λ e. refl }

abbrev greet : Request Unit → Returned
greet r = success (value (text (lit "hi")))

abbrev two_methods : Processor Unit
two_methods = record one_method {
  methods =
      (lit "run", record empty_by_type { at_rpc = some broken_method })
      ∷ (
        lit "greet",
        record empty_by_type {
          at_legacy =
              some (record { invoker = old_to_new greet; limits = default_streaming_limits });
        },
      )
      ∷ [];
}

abbrev running : MethodDef Unit → Processor Unit
running m = record one_method {
  methods = (lit "run", record empty_by_type { at_rpc = some m }) ∷ [];
}

abbrev greets : ℕ → MethodDef Unit
greets n = limited_to n (λ r. set_result (value (text (lit "hello"))) ∷ [])

abbrev prints : MethodDef Unit
prints = limited_to 5 (λ r. set_result (reader program_output) ∷ [])

abbrev ended : MethodDef Unit → Option ℕ → Outcome (Responser log_env)
ended m flush_at = close (served log_env (running m) run_request tt in_time flush_at [])

rpc_result_example : transport log_env (ended (greets 20) none).1 ≡ lit "result hello"
unfolding read_from is_valid find_method bytes_eq new_result
rpc_result_example =
    rpc_result log_env (running (greets 20)) run_request tt none [] (float (lit "7")) (greets 20)
      refl refl refl refl (omega arith) (text (lit "hello")) (lit "result hello")
      (process_context-served log_env (running (greets 20)) run_request tt in_time none []) refl
      refl (omega arith) (omega arith)

rpc_limit_example :
    ((ended (greets 4) none).0 ≡ some (rpc err_limit_exceed))
    × (transport log_env (ended (greets 4) none).1 ≡ lit "error Limit Exceed")
unfolding read_from is_valid find_method bytes_eq new_result new_error
rpc_limit_example =
    rpc_limit log_env (running (greets 4)) run_request tt none [] (float (lit "7")) (greets 4) refl
      refl refl refl (omega arith) (text (lit "hello")) (lit "result hello")
      (lit "error Limit Exceed") (λ s. refl)
      (process_context-served log_env (running (greets 4)) run_request tt in_time none []) refl refl
      (omega arith) refl (omega arith)

rpc_output_example : transport log_env (ended prints (some 1)).1 ≡ lit "result hello"
unfolding read_from is_valid find_method bytes_eq new_result
rpc_output_example =
    rpc_output log_env (running prints) run_request tt (some 1) [] (float (lit "7")) prints refl
      refl refl refl (omega arith) (λ s. refl) program_output (lit "result hello")
      (process_context-served log_env (running prints) run_request tt in_time (some 1) []) refl refl
      (omega arith) refl (omega arith) (omega arith)
