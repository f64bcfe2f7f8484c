-- ===== src/Server/Http/Configured.antt =====
-- From the configuration files to the processor (config.go, processor.go).
use rupicola_go.Base.{Bytes, some, ◌≡◌, ◌∙◌, ap}
use rupicola_go.Config.Value.{Value, Entries, find}
use rupicola_go.Config.Merge.{NodupKeys}
use rupicola_go.Rpc.Registry.{Processor, find_method}
use rupicola_go.Settings.Def.{Config}
use rupicola_go.Settings.Read.{Identity, ok, read_method, read_config}
use rupicola_go.Settings.Read.Laws.{
  methods_of, read_as, read_config-methods, lookup-read_methods, read_methods-NodupNames,
}
use rupicola_go.Server.Command.{RpcContext, System}
use rupicola_go.Server.Http.{new_processor, type_of}
use rupicola_go.Server.Http.Methods.{definition, new_processor_finds}

-- A configuration that ReadConfig accepts makes a processor in which every entry of its methods
-- section is found under its name and under the type that it is configured with, with the
-- definition that the entry is read into. No name has two entries.
pub read_config_finds :
    (sys : System) (me : Identity) (root : Entries) (conf : Config) (name : Bytes) (v : Value)
    → NodupKeys (methods_of root)
    → read_config me root ≡ ok conf
    → find name (methods_of root) ≡ some v
    → (p : Processor RpcContext) × (new_processor sys conf ≡ some p)
      × (find_method name (type_of (read_method me v)) p ≡ some (definition sys (read_method me v)))
read_config_finds sys me root conf name v n h e =
    let read = read_config-methods me root conf h in
    new_processor_finds sys conf name (read_method me v)
      (read_methods-NodupNames me (methods_of root) conf.methods n read)
      (lookup-read_methods me (methods_of root) conf.methods name read ∙ ap (read_as me) e)
