-- ===== src/Settings/Logging.antt =====
-- The set-up of the logger: `SetLogging` and the system log behind it (config.go, config_nix.go).
use rupicola_go.Base.{Bytes, Option, none, some}
use rupicola_go.Settings.Def.{
  Backend, backend_stdout, backend_syslog, backend_stderr, backend_keep, LogLevel, ll_off, ll_error,
  ll_warn, ll_info, ll_debug, LogDef,
}

-- The levels of zerolog that are used.
pub data Level : Type 0 where
  debug_level info_level warn_level error_level disabled : Level

-- Where a logger writes. `syslog` is the daemon facility of a system log, for "rupicola".
pub data Output : Type 0 where
  stdout stderr : Output
  syslog : Bytes → Output

pub record Logger : Type 0 where
  pub level : Level
  pub output : Output

-- zerolog's global level, and the loggers of the two packages.
pub record Loggers : Type 0 where
  pub global_level : Level
  pub server : Logger
  pub rpc : Logger

unfoldable pub level_of : LogLevel → Level
level_of ll_error = error_level
level_of ll_warn = warn_level
level_of ll_info = info_level
level_of ll_debug = debug_level
level_of ll_off = disabled

-- `dial` tells why the system log of a path cannot be reached.
module _ (dial : Bytes → Option Bytes) where
  unfoldable pub configure_syslog : Bytes → Option Output
  configure_syslog path = elim (dial path) [ some e ↦ none | none ↦ some (syslog path) ]

  unfoldable pub output_of : Backend → Bytes → Output → Option Output
  unfolding configure_syslog
  output_of backend_keep path now = some now
  output_of backend_stderr path now = some stderr
  output_of backend_stdout path now = some stdout
  output_of backend_syslog path now = configure_syslog path

  -- `none` where the program exits.
  unfoldable pub set_logging : LogDef → Loggers → Option Loggers
  unfolding output_of level_of
  set_logging log now = elim (output_of log.backend log.path now.server.output) [
    | none ↦ none
    | some out ↦
        let logger : Logger = record { level = level_of log.log_level; output = out } in
        some (record { global_level = level_of log.log_level; server = logger; rpc = logger })
  ]
