-- ===== src/Settings/Def.antt =====
-- The configuration of the server: `Config` and its parts (config.go).
use rupicola_go.Base.{ℕ, Bytes, List, Bool}
use rupicola_go.Base.Int.{ℤ}
use rupicola_go.Base.Dict.{Dict}
use rupicola_go.Method.Def.{MethodDef}

-- Limits. Durations are in nanoseconds.
pub record ServerLimits : Type 0 where
  pub read_timeout : ℤ
  pub exec_timeout : ℤ
  pub payload_size : ℕ
  pub max_response : ℕ

pub data BindType : Type 0 where
  http https unix : BindType

-- `port` is a uint16 and `mode` a uint32.
pub record Bind : Type 0 where
  pub type : BindType
  pub address : Bytes
  pub port : ℕ
  pub allow_private : Bool
  pub cert : Bytes
  pub key : Bytes
  pub mode : ℕ
  pub uid : ℤ
  pub gid : ℤ

pub record Protocol : Type 0 where
  pub bind : List Bind
  pub login : Bytes
  pub password : Bytes
  pub uri_streamed : Bytes
  pub uri_rpc : Bytes

pub data Backend : Type 0 where
  backend_stdout backend_syslog backend_stderr backend_keep : Backend

pub data LogLevel : Type 0 where
  ll_off ll_error ll_warn ll_info ll_debug : LogLevel

pub record LogDef : Type 0 where
  pub backend : Backend
  pub path : Bytes
  pub log_level : LogLevel

pub record Config : Type 0 where
  pub protocol : Protocol
  pub limits : ServerLimits
  pub log : LogDef
  pub methods : Dict MethodDef
