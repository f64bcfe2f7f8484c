-- ===== src/Settings/Read.antt =====
-- ReadConfig: the configuration record from the values that Load has merged (config.go).
pub mod Laws
use rupicola_go.Base.{ℕ, Bytes, List, [], ◌∷◌, ◌++◌, Bool, false, Option, none, some, lit, bytes_eq}
use rupicola_go.Base.Int.{ℤ, pos, negsuc, mul_int64, to_uint16}
use rupicola_go.Base.Dict.{Dict}
use rupicola_go.Rpc.Value.{GoError, other}
use rupicola_go.Config.Value.{
  to_int32, Value, mapa, Values, nil, cons, Entries, end, entry, get, raw, as_string, as_bool,
  int64, entries, elements, uint32, int32,
}
use rupicola_go.Method.Def.{
  Encoding, utf8, base64, base85, ParamType, string_type, MethodParam, RunAs, MethodDef,
}
use rupicola_go.Method.Args.{from_vals}
use rupicola_go.Method.Validate.{validate}
use rupicola_go.Settings.Def.{
  ServerLimits, BindType, http, https, unix, Bind, Protocol, LogDef, Config,
}
use rupicola_go.Settings.Parse.{
  parse_backend, parse_loglevel, parse_encoding, parse_bind_type, parse_method_param_type,
  shamefull_file_mode_fix,
}

-- The user and group that the server runs as: os.Getuid, os.Getgid and os.Getegid.
pub record Identity : Type 0 where
  pub uid : ℕ
  pub gid : ℕ
  pub egid : ℕ

-- time.Millisecond and time.Second.
abbrev millisecond : ℕ
millisecond = 1000000

abbrev second : ℕ
second = 1000000000

-- v.Get(…).Duration(def) * unit
duration : Value → List Bytes → ℤ → ℕ → ℤ
unfolding get int64 mul_int64
duration v keys def unit = mul_int64 (int64 (get keys v) def) unit

string_at : Value → List Bytes → Bytes → Bytes
unfolding get as_string
string_at v keys def = as_string (get keys v) def

bool_at : Value → List Bytes → Bool
unfolding get as_bool
bool_at v keys = as_bool (get keys v) false

unfoldable pub read_limits : Value → ServerLimits
unfolding duration get uint32
read_limits section = record {
  read_timeout = duration section (lit "read-timeout" ∷ []) (pos 10000) millisecond;
  exec_timeout = duration section (lit "exec-timeout" ∷ []) (pos 0) millisecond;
  payload_size = uint32 (get (lit "payload-size" ∷ []) section) 5242880;
  max_response = uint32 (get (lit "max-response" ∷ []) section) 5242880;
}

-- The results of parseBindType and parseEncoding where their errors are dropped.
abbrev bind_type_or_http : Option BindType → BindType
bind_type_or_http none = http
bind_type_or_http (some t) = t

abbrev encoding_or_utf8 : Option Encoding → Encoding
encoding_or_utf8 none = utf8
encoding_or_utf8 (some e) = e

abbrev type_or_string : Option ParamType → ParamType
type_or_string none = string_type
type_or_string (some t) = t

-- One round of the loop over the bind points.
unfoldable pub read_bind : Identity → Value → Bind
unfolding string_at bool_at get int32 uint32 to_uint16 shamefull_file_mode_fix parse_bind_type
read_bind me v = record {
  type = bind_type_or_http (parse_bind_type (string_at v (lit "type" ∷ []) []));
  address = string_at v (lit "address" ∷ []) [];
  port = to_uint16 (int32 (get (lit "port" ∷ []) v) (pos 0));
  allow_private = bool_at v (lit "allow_private" ∷ []);
  cert = string_at v (lit "cert" ∷ []) [];
  key = string_at v (lit "key" ∷ []) [];
  mode = shamefull_file_mode_fix (uint32 (get (lit "mode" ∷ []) v) 666);
  uid = int32 (get (lit "uid" ∷ []) v) (to_int32 (pos me.uid));
  gid = int32 (get (lit "gid" ∷ []) v) (to_int32 (pos me.gid));
}

read_binds : Identity → Values → List Bind
unfolding read_bind
read_binds me nil = []
read_binds me (cons v vs) = read_bind me v ∷ read_binds me vs

unfoldable pub read_protocol : Identity → Value → Protocol
unfolding string_at read_binds get elements
read_protocol me section = record {
  bind = read_binds me (elements (get (lit "bind" ∷ []) section));
  login = string_at section (lit "auth-basic" ∷ lit "login" ∷ []) [];
  password = string_at section (lit "auth-basic" ∷ lit "password" ∷ []) [];
  uri_streamed = string_at section (lit "uri" ∷ lit "streamed" ∷ []) (lit "/streaming");
  uri_rpc = string_at section (lit "uri" ∷ lit "rpc" ∷ []) (lit "/jsonrpc");
}

-- The loop over the parameters of a method. An unknown type is a string.
unfoldable pub read_params : Entries → Dict MethodParam
unfolding string_at bool_at get raw parse_method_param_type
read_params end = []
read_params (entry name v es) =
    (
      name,
      record {
        type = type_or_string (parse_method_param_type (string_at v (lit "type" ∷ []) []));
        optional = bool_at v (lit "optional" ∷ []);
        default_val = raw (get (lit "default" ∷ []) v);
      },
    )
    ∷ read_params es

-- The definition of one method, before it is validated.
unfoldable pub read_method : Identity → Value → MethodDef
unfolding duration string_at bool_at get int64 uint32 from_vals elements entries read_params
    parse_encoding
read_method me v = record {
  streamed = bool_at v (lit "streamed" ∷ []);
  is_private = bool_at v (lit "private" ∷ []);
  encoding = encoding_or_utf8 (parse_encoding (string_at v (lit "encoding" ∷ []) (lit "utf8")));
  params = read_params (entries (get (lit "params" ∷ []) v));
  exec = string_at v (lit "invoke" ∷ lit "exec" ∷ []) [];
  delay = duration v (lit "invoke" ∷ lit "delay" ∷ []) (pos 0) second;
  args = from_vals (elements (get (lit "invoke" ∷ lit "args" ∷ []) v));
  run_as = record {
    uid = uint32 (get (lit "invoke" ∷ lit "run-as" ∷ lit "uid" ∷ []) v) me.uid;
    gid = uint32 (get (lit "invoke" ∷ lit "run-as" ∷ lit "gid" ∷ []) v) me.egid;
  };
  limits = record {
    exec_timeout = duration v (lit "limits" ∷ lit "exec-timeout" ∷ []) (negsuc 0) millisecond;
    max_response = int64 (get (lit "limits" ∷ lit "max-response" ∷ []) v) (negsuc 0);
  };
}

-- A result or an error.
pub data Read {ℓ} (A : Type ℓ) : Type ℓ where
  ok : A → Read A
  failed : GoError → Read A

infixl 5 ◌and_then◌
abbrev pub ◌and_then◌ {ℓ κ} : {A : Type ℓ} {B : Type κ} → Read A → (A → Read B) → Read B
(ok a) and_then k = k a
(failed e) and_then k = failed e

abbrev undeclared_error : Bytes → GoError
undeclared_error name = other (lit "Undeclared param '" ++ name ++ lit "' in arguments")

-- The check of one method, and the loop over the methods.
unfoldable pub checked : MethodDef → Read MethodDef
unfolding validate
checked m = elim (validate m.args m.params) [
  | none ↦ ok m
  | some name ↦ failed (undeclared_error name)
]

unfoldable pub read_methods : Identity → Entries → Read (Dict MethodDef)
read_methods me end = ok []
read_methods me (entry name v es) =
    checked (read_method me v) and_then λ m. read_methods me es and_then λ ms. ok ((name, m) ∷ ms)

unfoldable pub read_log : Value → Read LogDef
unfolding string_at parse_backend parse_loglevel
read_log section =
    let backend = string_at section (lit "backend" ∷ []) [] in
    let level = string_at section (lit "level" ∷ []) (lit "warn") in
    elim (parse_backend backend) [
      | none ↦ failed (other (lit "Unknown backend " ++ backend))
      | some b ↦ elim (parse_loglevel level) [
        | none ↦ failed (other (lit "unknown log level: " ++ level))
        | some l ↦
            ok
              (record { backend = b; path = string_at section (lit "path" ∷ []) []; log_level = l })
      ]
    ]

-- ReadConfig behind Load.
unfoldable pub read_config : Identity → Entries → Read Config
unfolding get entries
read_config me root =
    let x = mapa root in
    read_methods me (entries (get (lit "methods" ∷ []) x)) and_then λ methods.
    read_log (get (lit "log" ∷ []) x) and_then λ log. ok (record {
      protocol = read_protocol me (get (lit "protocol" ∷ []) x);
      limits = read_limits (get (lit "limits" ∷ []) x);
      log = log;
      methods = methods;
    })
