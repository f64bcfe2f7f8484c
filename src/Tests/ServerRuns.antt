-- ===== src/Tests/ServerRuns.antt =====
-- Calls with and without credentials.
use rupicola_go.Base.{lit, [], ◌∷◌, ◌&&◌, ◌||◌, true, false, none, some, ◌≡◌, refl, arith, bytes_eq}
use rupicola_go.Base.Int.{pos, neg}
use rupicola_go.Rpc.Value.{rpc}
use rupicola_go.Rpc.Errors.{new_error}
use rupicola_go.Rpc.Process.{in_time}
use rupicola_go.Rpc.Registry.{Request, Processor, find_method, new_json_rpc_processor}
use rupicola_go.Rpc.Decode.{malformed}
use rupicola_go.Method.Def.{MethodDef, utf8, nil, cons, arg}
use rupicola_go.Method.Params.{check_params}
use rupicola_go.Method.Args.{evaluate_all}
use rupicola_go.Server.Command.{
  RpcContext, Command, prepare_command, make_command, may_call, rpc_unauthorized_error,
}
use rupicola_go.Server.Command.{piped}
use rupicola_go.Server.Command.Encoded.{AllBytes, decode, piped-decode}
use rupicola_go.Method.Def.{base64}
use rupicola_go.Rpc.Value.{Reader}
use rupicola_go.Base.{Bytes, ◌++◌, length, flatten}
use rupicola_go.Server.Command.Access.{prepare_command_safe}
use rupicola_go.Settings.Def.{Config, backend_stderr, ll_warn}
use rupicola_go.Server.Http.{
  type_of, new_processor, HttpRequest, processed, serve_http, too_big, is_valid_auth,
}
use rupicola_go.Server.Http.Methods.{definition, new_processor_finds}
use rupicola_go.Server.Http.Access.{serve_http_unauthorized}
use rupicola_go.Tests.{log_env, quiet_system}

abbrev uptime : MethodDef
uptime = record {
  streamed = false;
  is_private = true;
  encoding = utf8;
  params = [];
  exec = lit "uptime";
  delay = pos 0;
  args = cons (arg (lit "-p") false true false nil) nil;
  run_as = record { uid = 1; gid = 2 };
  limits = record { exec_timeout = neg 1; max_response = neg 1 };
}

abbrev local_caller : RpcContext
local_caller = record { is_authorized = false; allow_private = true; is_rpc = true }

abbrev remote_caller : RpcContext
remote_caller = record { is_authorized = false; allow_private = false; is_rpc = true }

abbrev known_caller : RpcContext
known_caller = record { is_authorized = true; allow_private = false; is_rpc = true }

abbrev uptime_command : Command
uptime_command = record {
  exec = lit "uptime";
  arguments = lit "-p" ∷ [];
  run_as = record { uid = 1; gid = 2 };
}

prepare_command_safe_example :
    ((local_caller.is_authorized || (local_caller.allow_private && uptime.is_private)) ≡ true)
    × (uptime_command.exec ≡ uptime.exec)
    × (uptime_command.run_as ≡ uptime.run_as)
unfolding prepare_command make_command may_call check_params evaluate_all
prepare_command_safe_example =
    prepare_command_safe quiet_system uptime local_caller none uptime_command refl

abbrev remote_request : Request RpcContext
remote_request = record {
  method = lit "uptime";
  version = lit "2.0";
  params = none;
  user_data = remote_caller;
}

abbrev guarded : Config
guarded = record {
  protocol = record {
    bind = [];
    login = lit "admin";
    password = lit "hash";
    uri_rpc = lit "/jsonrpc";
    uri_streamed = lit "/streaming";
  };
  limits = record {
    read_timeout = pos 0;
    exec_timeout = pos 0;
    payload_size = 100;
    max_response = 0;
  };
  log = record { backend = backend_stderr; path = []; log_level = ll_warn };
  methods = [];
}

abbrev stranger : HttpRequest
stranger = record {
  method = lit "POST";
  content_length = pos 10;
  uri = lit "/jsonrpc";
  login = lit "admin";
  password = lit "guess";
  loopback = false;
  body = malformed;
}

serve_http_unauthorized_example :
    serve_http
      (λ given kept. false)
      log_env
      new_json_rpc_processor
      guarded
      true
      stranger
      in_time
      none
      []
    ≡ processed (some (some (rpc rpc_unauthorized_error), lit "error Unauthorized"))
unfolding too_big is_valid_auth bytes_eq new_error
serve_http_unauthorized_example =
    serve_http_unauthorized log_env (λ given kept. false) new_json_rpc_processor guarded true
      stranger in_time none [] (lit "error Unauthorized") (λ s. refl) refl refl refl refl refl refl
      (omega arith)

abbrev one_configured : Config
one_configured = record guarded { methods = (lit "uptime", uptime) ∷ [] }

new_processor_finds_example :
    (p : Processor RpcContext) × (new_processor quiet_system one_configured ≡ some p)
    × (find_method (lit "uptime") (type_of uptime) p ≡ some (definition quiet_system uptime))
unfolding bytes_eq
new_processor_finds_example =
    new_processor_finds quiet_system one_configured (lit "uptime") uptime (refl, tt) refl

abbrev four_bytes : Reader
four_bytes = record { chunks = lit "ab" ∷ lit "cd" ∷ []; fault = none }

four_bytes-AllBytes : AllBytes (flatten four_bytes.chunks)
four_bytes-AllBytes = (omega arith, (omega arith, (omega arith, (omega arith, tt))))

piped-decode_example :
    (left : Bytes) × (lit "abcd" ≡ decode (flatten (piped base64 four_bytes).chunks) ++ left)
    × (length left ≡ 1)
piped-decode_example = piped-decode four_bytes four_bytes-AllBytes
