-- ===== src/Tests.antt =====
-- The code run on concrete requests and files. The shared part: a transport that keeps what it is
-- given, a processor with one method, and its requests.
mod RpcRuns
mod StreamRuns
mod ConfigRuns
mod MethodRuns
mod ServerRuns
mod SettingsRuns
mod ListenRuns
use rupicola_go.Base.{ℕ, Bytes, lit, List, [], ◌∷◌, ◌++◌, Option, none, some, true, false}
use rupicola_go.Base.Int.{pos}
use rupicola_go.Base.Dict.{Dict}
use rupicola_go.Rpc.Value.{
  Reader, Any, null, float, text, Fields, end, field, obj, rpc, other, Call, set_error, set_result,
  value, Envelope, answer, text_line, byte_line,
}
use rupicola_go.Rpc.Limit.{buffer_write}
use rupicola_go.Rpc.Base.{Env}
use rupicola_go.Rpc.Registry.{
  Request, Invoker, Processor, empty_by_type, default_rpc_limits, default_streaming_limits,
  MethodDef,
}
use rupicola_go.Server.Command.{System}
use rupicola_go.Rpc.Decode.{Body, document}

-- A text for each object: its message, its result, or its line.
abbrev shown : Envelope → Option Bytes
shown (answer version none (text s) id) = some (lit "result " ++ s)
shown (answer version none a id) = some (lit "result")
shown (answer version (some e) a id) = some (lit "error " ++ e.message)
shown (text_line s id) = some (lit "line " ++ s)
shown (byte_line s id) = some (lit "bytes " ++ s)

abbrev pub log_env : Env
log_env = record { Sink = Bytes; write = buffer_write; flush = λ s. s; marshal = shown }

-- A method that gives a result and then an error.
abbrev broken : Invoker Unit
broken r = set_result (value (text (lit "half"))) ∷ set_error (other (lit "boom")) ∷ []

abbrev pub broken_method : MethodDef Unit
broken_method = record { invoker = broken; limits = default_rpc_limits }

abbrev pub one_method : Processor Unit
one_method = record {
  methods = (lit "run", record empty_by_type { at_rpc = some broken_method }) ∷ [];
  limits = record {
    at_rpc = some default_rpc_limits;
    at_legacy = some default_streaming_limits;
    at_streaming = some default_streaming_limits;
    at_unknown = none;
  };
}

abbrev named_request : Bytes → Fields → Body
named_request method rest =
    document
      (obj (field (lit "jsonrpc") (text (lit "2.0")) (field (lit "method") (text method) rest)))
      false

abbrev with_id : Fields
with_id = field (lit "id") (float (lit "7")) end

abbrev pub run_request : Body
run_request = named_request (lit "run") with_id

abbrev pub run_notification : Body
run_notification = named_request (lit "run") end

abbrev pub missing_request : Body
missing_request = named_request (lit "stop") with_id

abbrev pub nameless_request : Body
nameless_request = named_request [] with_id

-- A system whose programs start and print nothing.
abbrev pub quiet_system : System
quiet_system = record {
  stdin_made = λ c. true;
  stdout_made = λ c. true;
  start = λ c. none;
  output = λ c. record { chunks = []; fault = none };
  wait = λ c. none;
  marshal = λ d. none;
}

-- A method with a limit, by its calls.
abbrev pub limited_to : ℕ → (Request Unit → List Call) → MethodDef Unit
limited_to n calls = record {
  invoker = calls;
  limits = record { exec_timeout = pos 0; max_response = n };
}

abbrev pub program_output : Reader
program_output = record { chunks = lit "he" ∷ [] ∷ lit "llo" ∷ []; fault = none }
