-- ===== src/Listen/Main.antt =====
-- The entry of the program: its arguments, its checks and its signals (cmd/rupicola/main.go,
-- poorargparse.go).
pub mod Restart
use rupicola_go.Base.{
  ℕ, ◌<◌, Bytes, lit, List, [], ◌∷◌, Bool, true, false, Option, none, some, ltb, length, ◌==◌,
  bytes_eq, nat_eq, if◌then◌else◌, ◌≡◌, refl,
}
use rupicola_go.Base.Dict.{Dict, insert}
use rupicola_go.Rpc.Value.{GoError}
use rupicola_go.Settings.Def.{
  BindType, http, https, unix, Bind, Config, LogDef, Backend, backend_keep,
}
use rupicola_go.Settings.Read.{Read, ok, failed}
use rupicola_go.Settings.Logging.{Loggers, set_logging}
use rupicola_go.Listen.Kernel.{Kernel, end_process}
use rupicola_go.Listen.Lock.{remove, or_else}
use rupicola_go.Listen.Serve.{Served, panics, serves, fails, listen_and_serve}

-- The signals that the program asks for. SIGKILL cannot be caught.
pub data Signal : Type 0 where
  interrupt kill terminate hangup : Signal

-- The names of the unix sockets are removed, one after the other; an error is logged. `fault` is
-- one of the system.
module _ (fault : Bytes → Option Bytes) where
  unfoldable pub unlink_as : BindType → Bytes → Kernel → Kernel
  unlink_as unix addr k = or_else (remove (fault addr) addr k) k
  unlink_as http addr k = k
  unlink_as https addr k = k

  unfoldable pub unlink_sockets : List Bind → Kernel → Kernel
  unfolding unlink_as
  unlink_sockets [] k = k
  unlink_sockets (b ∷ bs) k = unlink_sockets bs (unlink_as b.type b.address k)

  -- The loop of registerCleanupAtExit over the signals in order: the kernel after the exit of the
  -- process p, or `none` where it waits for more of them.
  unfoldable pub handle_signals : ℕ → Config → List Signal → Kernel → Option Kernel
  unfolding unlink_sockets
  handle_signals p conf [] k = none
  handle_signals p conf (hangup ∷ signals) k = handle_signals p conf signals k
  handle_signals p conf (interrupt ∷ signals) k =
      some (end_process p (unlink_sockets conf.protocol.bind k))
  handle_signals p conf (kill ∷ signals) k =
      some (end_process p (unlink_sockets conf.protocol.bind k))
  handle_signals p conf (terminate ∷ signals) k =
      some (end_process p (unlink_sockets conf.protocol.bind k))

-- Why the program exits, always with status 1.
pub data Reason : Type 0 where
  usage : Reason
  bad_config : GoError → Reason
  no_methods : Reason
  no_binds : Reason
  no_syslog : Reason
  stopped : Bytes → Reason

pub data Ended : Type 0 where
  exits : Reason → Ended
  panicked : Ended
  running : Ended

-- What the program stands on: ReadConfig of a path, the system log, the workers.
pub record World : Type 0 where
  pub read : Bytes → Read Config
  pub dial : Bytes → Option Bytes
  pub listen : Bind → Option (ℕ × Bytes)
  pub loggers : Loggers

abbrev ended : Served → Ended
ended panics = panicked
ended serves = running
ended (fails e) = exits (stopped e)

-- With --pretty the output of the logger is kept.
unfoldable pub kept_backend : Bool → LogDef → LogDef
kept_backend pretty log = if pretty then record log { backend = backend_keep } else log

unfoldable pub run_config : World → Bool → Config → Ended
unfolding kept_backend
run_config w pretty conf =
    if length conf.methods == 0
    then exits no_methods
    else if length conf.protocol.bind == 0
    then exits no_binds
    else elim (set_logging w.dial (kept_backend pretty conf.log) w.loggers) [
      | none ↦ exits no_syslog
      | some loggers ↦ ended (listen_and_serve w.listen conf)
    ]

-- main, of the two flags.
unfoldable pub main : World → Bytes → Bool → Ended
unfolding run_config
main w config_path pretty = if config_path == [] then exits usage else elim (w.read config_path) [
  | failed e ↦ exits (bad_config e)
  | ok conf ↦ run_config w pretty conf
]

-- poorString: the default of a name.
unfoldable pub poor_string : Bytes → Bytes → Dict Bytes → Dict Bytes
poor_string name def storage = insert name def storage

-- poorParse: the program's name, "--config" and a path, and whatever follows.
unfoldable pub poor_parse : List Bytes → Dict Bytes → Dict Bytes
poor_parse (name ∷ flag ∷ path ∷ more) storage =
    if flag == lit "--config" then insert (lit "config") path storage else storage
poor_parse args storage = storage

poor_parse_test :
    poor_parse
      (lit "rupicola" ∷ lit "--config" ∷ lit "/etc" ∷ [])
      (poor_string (lit "config") [] [])
    ≡ (lit "config", lit "/etc") ∷ []
unfolding poor_parse poor_string bytes_eq
poor_parse_test = refl
