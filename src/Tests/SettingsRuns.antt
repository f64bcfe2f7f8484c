-- ===== src/Tests/SettingsRuns.antt =====
-- A configuration read and turned into a processor.
use rupicola_go.Base.{lit, [], ◌∷◌, true, some, ◌≡◌, refl, bytes_eq}
use rupicola_go.Rpc.Value.{text}
use rupicola_go.Rpc.Registry.{Processor, find_method}
use rupicola_go.Config.Value.{
  Value, get_key, mapa, lista, scalar, invalid, Entries, end, entry, nil, cons, get, entries,
}
use rupicola_go.Method.Validate.{validate}
use rupicola_go.Method.Validate.Laws.{all_declared}
use rupicola_go.Settings.Def.{Config, backend_stderr, ll_warn}
use rupicola_go.Settings.Read.{
  Identity, ok, read_method, read_methods, read_protocol, read_limits, read_log, read_config,
  checked, read_params,
}
use rupicola_go.Settings.Read.Laws.{read_config-all_declared}
use rupicola_go.Server.Command.{RpcContext}
use rupicola_go.Server.Http.{new_processor, type_of}
use rupicola_go.Server.Http.Methods.{definition}
use rupicola_go.Server.Http.Configured.{read_config_finds}
use rupicola_go.Tests.{quiet_system}

abbrev me : Identity
me = record { uid = 1000; gid = 1000; egid = 1000 }

abbrev echo_value : Value
echo_value = mapa (
    entry (lit "invoke")
      (mapa (
        entry (lit "exec") (scalar (text (lit "echo"))) (
          entry (lit "args")
            (lista (cons (mapa (entry (lit "param") (scalar (text (lit "word"))) end)) nil)) end)))
      (entry (lit "params")
        (mapa
          (entry (lit "word") (mapa (entry (lit "type") (scalar (text (lit "string"))) end)) end))
        end))

abbrev root : Entries
root = entry (lit "methods") (mapa (entry (lit "echo") echo_value end)) end

abbrev configured : Config
configured = record {
  protocol = read_protocol me invalid;
  limits = read_limits invalid;
  log = record { backend = backend_stderr; path = []; log_level = ll_warn };
  methods = (lit "echo", read_method me echo_value) ∷ [];
}

root-configured : read_config me root ≡ ok configured
unfolding read_config read_methods checked validate read_method read_params read_log bytes_eq
root-configured = refl

read_config-all_declared_example :
    all_declared (read_method me echo_value).params (read_method me echo_value).args ≡ true
unfolding bytes_eq
read_config-all_declared_example =
    read_config-all_declared me root configured (lit "echo") (read_method me echo_value)
      root-configured refl

read_config_finds_example :
    (p : Processor RpcContext) × (new_processor quiet_system configured ≡ some p)
    × (find_method (lit "echo") (type_of (read_method me echo_value)) p
        ≡ some (definition quiet_system (read_method me echo_value)))
unfolding get entries bytes_eq get_key
read_config_finds_example =
    read_config_finds quiet_system me root configured (lit "echo") echo_value (refl, tt)
      root-configured refl
