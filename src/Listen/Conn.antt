-- ===== src/Listen/Conn.antt =====
-- TCP connections: the listener, what Accept gives, and the deadline of a write; the reader that
-- fails (utils.go, utils_nix.go).
use rupicola_go.Base.{ℕ, ◌+◌, Bool, Bytes, Option, none, some, true}
use rupicola_go.Method.Def.{RunAs}
use rupicola_go.Listen.Lock.{Attempt, failed, done}

-- What net.Listen gives, and what ListenKeepAlive makes of it.
pub data Listener : Type 0 where
  tcp : ℕ → Listener
  other : ℕ → Listener
  keep_alive : ℕ → Listener

unfoldable pub listen_keep_alive : Attempt Listener → Attempt Listener
listen_keep_alive (failed e) = failed e
listen_keep_alive (done (tcp n)) = done (keep_alive n)
listen_keep_alive (done l) = done l

-- The probes of an idle connection: after 30 s, at most 4, every 5 s. In nanoseconds.
pub record KeepAlive : Type 0 where
  pub idle : ℕ
  pub count : ℕ
  pub interval : ℕ

abbrev pub probes : KeepAlive
probes = record { idle = 30000000000; count = 4; interval = 5000000000 }

-- A connection whose writes have a deadline.
pub record GuardedConn : Type 0 where
  pub conn : ℕ

-- Accept: the connection, or the error of AcceptTCP or of setting the probes.
unfoldable pub accept : Attempt ℕ → (ℕ → KeepAlive → Option Bytes) → Attempt GuardedConn
accept (failed e) set = failed e
accept (done c) set = elim (set c probes) [ some e ↦ failed e | none ↦ done (record { conn = c }) ]

abbrev pub global_tcp_write_timeout : ℕ
global_tcp_write_timeout = 60000000000

-- (*writeWithGuard).Write at a time: the write goes on under a deadline of its own.
unfoldable pub guarded_write :
    (ℕ → GuardedConn → Bytes → ℕ × Option Bytes) → ℕ → GuardedConn → Bytes → ℕ × Option Bytes
guarded_write write now c p = write (now + global_tcp_write_timeout) c p

-- failureReader, by its error.
unfoldable pub failure_read : Bytes → ℕ × Option Bytes
failure_read e = (0, some e)

unfoldable pub failure_close : Bytes → Option Bytes
failure_close e = some e

-- SetUserGroup: the credentials of a process.
pub record Credential : Type 0 where
  pub uid : ℕ
  pub gid : ℕ
  pub no_set_groups : Bool

unfoldable pub set_user_group : RunAs → Credential
set_user_group run_as = record { uid = run_as.uid; gid = run_as.gid; no_set_groups = true }
