-- ===== src/Listen/Lock/Steps.antt =====
-- Processes that open one address at the same time: each is at a stage of `ListenUnixLock` or of
-- `Close`, and a step is one system call of one of them (filelock.go).
use rupicola_go.Base.{ℕ, Bytes, Option, none, some, nat_eq, bytes_eq, ◌≡◌}
use rupicola_go.Listen.Paths.{lock_path}
use rupicola_go.Listen.Kernel.{Kernel, update, create, set_lock, close_file, end_process}
use rupicola_go.Listen.Lock.{
  Faults, LockFile, UnixListenerWithLock, done, or_else, write_pid, clear_leftovers, net_listen,
  close_socket, remove,
}

-- `created i` has opened the lock file of number i, `locked` has the lock, `cleared` has removed the
-- leftovers, `serving n` has the socket n. `dropped` has failed with the file still open, `lost`
-- has ended. `shutting` has closed its socket, `unnamed` has removed the lock file's name too.
pub data Stage : Type 0 where
  idle lost : Stage
  created locked cleared dropped shutting unnamed : ℕ → Stage
  serving : ℕ → ℕ → Stage

pub record System : Type 0 where
  pub kernel : Kernel
  pub stage : ℕ → Stage

abbrev pub moved : System → ℕ → Kernel → Stage → System
moved s p k st = record { kernel = k; stage = update s.stage p st }

module _ (addr : Bytes) where
  abbrev pub lock_file : ℕ → LockFile
  lock_file i = record { number = i; name = lock_path addr }

  abbrev pub listener : ℕ → ℕ → UnixListenerWithLock
  listener n i = record { socket = n; address = addr; file = some (lock_file i) }

  -- The steps of ListenUnixLock; the end of a process, at any time; and the collector, which closes
  -- a file that nobody refers to.
  pub data Opening (s : System) : System → Type 0 where
    creates :
        (p : ℕ)
        → s.stage p ≡ idle
        → Opening s (
            moved s p
              (create (lock_path addr) s.kernel).1
              (created (create (lock_path addr) s.kernel).0))
    locks :
        (p i : ℕ) (k : Kernel)
        → s.stage p ≡ created i
        → set_lock p i s.kernel ≡ some k
        → Opening s (moved s p k (locked i))
    loses : (p i : ℕ) → s.stage p ≡ created i → Opening s (moved s p s.kernel lost)
    clears :
        (p i : ℕ) (f : Faults) (k : Kernel)
        → s.stage p ≡ locked i
        → clear_leftovers f addr (write_pid f p i s.kernel) ≡ done k
        → Opening s (moved s p k (cleared i))
    leaves :
        (p i : ℕ) (f : Faults)
        → s.stage p ≡ locked i
        → Opening s (moved s p (write_pid f p i s.kernel) (dropped i))
    listens :
        (p i n : ℕ) (k : Kernel)
        → s.stage p ≡ cleared i
        → net_listen none p addr s.kernel ≡ done (n, k)
        → Opening s (moved s p k (serving n i))
    fails : (p i : ℕ) → s.stage p ≡ cleared i → Opening s (moved s p s.kernel (dropped i))
    collects :
        (p i : ℕ) → s.stage p ≡ dropped i → Opening s (moved s p (close_file p i s.kernel) lost)
    dies : (p : ℕ) → Opening s (moved s p (end_process p s.kernel) idle)

  -- The steps of Close.
  pub data Closing (s : System) : System → Type 0 where
    shuts :
        (p n i : ℕ)
        → s.stage p ≡ serving n i
        → Closing s
            (moved s p (or_else (close_socket (listener n i) s.kernel) s.kernel) (shutting i))
    unnames :
        (p i : ℕ) (fault : Option Bytes)
        → s.stage p ≡ shutting i
        → Closing s
            (moved s p (or_else (remove fault (lock_path addr) s.kernel) s.kernel) (unnamed i))
    releases :
        (p i : ℕ) → s.stage p ≡ unnamed i → Closing s (moved s p (close_file p i s.kernel) lost)

  pub data Step (s t : System) : Type 0 where
    opening : Opening s t → Step s t
    closing : Closing s t → Step s t

-- Any number of steps of a relation.
pub data Run (R : System → System → Type 0) (s : System) : System → Type 0 where
  here : Run R s s
  next : {t u : System} → Run R s t → R t u → Run R s u

pub Run-append : {R : System → System → Type 0} {s t u : System} → Run R s t → Run R t u → Run R s u
Run-append r here = r
Run-append r (next q st) = next (Run-append r q) st
