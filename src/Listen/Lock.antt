-- ===== src/Listen/Lock.antt =====
-- The lock on a unix socket: `ListenUnixLock` and `UnixListenerWithLock` (filelock.go).
pub mod Steps
pub mod Invariant
pub mod Exclusion
pub mod Live
pub mod Quiet
pub mod Opens
pub mod Closes
pub mod Alone
pub mod Race
use rupicola_go.Base.{
  ℕ, Bytes, lit, ◌++◌, Bool, true, false, ◌||◌, Option, none, some, bytes_eq, nat_eq, if◌then◌else◌,
}
use rupicola_go.Base.Decimal.{print_nat}
use rupicola_go.Listen.Paths.{has_prefix, lock_path}
use rupicola_go.Listen.Kernel.{
  Kernel, not_found, locked_elsewhere, in_use, closed_twice, create, set_lock, append_text, unlink,
  close_file, bind_file, bind_name, shut,
}

-- A lock file and its name.
pub record LockFile : Type 0 where
  pub number : ℕ
  pub name : Bytes

-- UnixListenerWithLock: the listener with its socket and address, and the file.
pub record UnixListenerWithLock : Type 0 where
  pub socket : ℕ
  pub address : Bytes
  pub file : Option LockFile

-- What the system may report on its own, by the call: an error with its text. `stat` is one other
-- than "not exist".
pub record Faults : Type 0 where
  pub create : Option Bytes
  pub lock : Option Bytes
  pub write : Option Bytes
  pub stat : Option Bytes
  pub remove : Option Bytes
  pub listen : Option Bytes

-- A call that changes nothing where it fails.
pub data Attempt {ℓ} (A : Type ℓ) : Type ℓ where
  failed : Bytes → Attempt A
  done : A → Attempt A

pub data Listened : Type 0 where
  refused : Bytes → Listened
  listening : UnixListenerWithLock → Listened

abbrev pub is_some {ℓ} : {A : Type ℓ} → Option A → Bool
is_some none = false
is_some (some a) = true

-- os.Remove with its errors.
unfoldable pub remove : Option Bytes → Bytes → Kernel → Attempt Kernel
remove (some e) path k = failed e
remove none path k = elim (k.files path) [ none ↦ failed not_found | some i ↦ done (unlink path k) ]

-- net.Listen("unix", addr).
unfoldable pub net_listen : Option Bytes → ℕ → Bytes → Kernel → Attempt (ℕ × Kernel)
net_listen (some e) p addr k = failed e
net_listen none p addr k =
    if has_prefix addr (lit "@")
    then elim (k.names addr) [ some i ↦ failed in_use | none ↦ done (bind_name p addr k) ]
    else elim (k.files addr) [ some i ↦ failed in_use | none ↦ done (bind_file p addr k) ]

-- The last part of ListenUnixLock, behind the lock.
unfoldable pub listen_with : Option Bytes → ℕ → Bytes → Option LockFile → Kernel → Listened × Kernel
listen_with fault p addr file k = elim (net_listen fault p addr k) [
  | failed e ↦ (refused e, k)
  | done (i, k') ↦ (listening (record { socket = i; address = addr; file = file }), k')
]

-- The test of os.Stat, and the removal of what an earlier process left.
unfoldable pub clear_leftovers : Faults → Bytes → Kernel → Attempt Kernel
clear_leftovers f addr k =
    if is_some f.stat || is_some (k.files addr) then remove f.remove addr k else done k

-- io.WriteString of the PID; an error is only logged.
unfoldable pub write_pid : Faults → ℕ → ℕ → Kernel → Kernel
write_pid f p i k = if is_some f.write then k else append_text i (print_nat p) k

-- The lock, at once or not at all.
unfoldable pub take_lock : Option Bytes → ℕ → ℕ → Kernel → Attempt Kernel
take_lock (some e) p i k = failed e
take_lock none p i k = elim (set_lock p i k) [ none ↦ failed locked_elsewhere | some k' ↦ done k' ]

-- Behind the lock: the PID, the leftovers and the socket.
unfoldable pub listen_locked : Faults → ℕ → Bytes → LockFile → Kernel → Listened × Kernel
listen_locked f p addr file k =
    let written = write_pid f p file.number k in
    elim (clear_leftovers f addr written) [
      | failed e ↦
          (refused (lit "socket leftovers are still there " ++ addr ++ lit " " ++ e), written)
      | done cleared ↦ listen_with f.listen p addr (some file) cleared
    ]

-- ListenUnixLock of the process p. The lock file stays open where it is refused.
unfoldable pub listen_unix_lock : Faults → ℕ → Bytes → Kernel → Listened × Kernel
listen_unix_lock f p addr k =
    if has_prefix addr (lit "@") then listen_with f.listen p addr none k else elim f.create [
      | some e ↦ (refused (lit "failed create lock file " ++ lock_path addr ++ lit ": " ++ e), k)
      | none ↦
          let (i, k') = create (lock_path addr) k in
          elim (take_lock f.lock p i k') [
            | failed e ↦ (
              refused (lit "failed geting exclusive lock " ++ lock_path addr ++ lit ": " ++ e),
              k',
            )
            | done locked ↦
                listen_locked f p addr (record { number = i; name = lock_path addr }) locked
          ]
    ]

-- (*net.UnixListener).Close: the name of the socket is unlinked, and the socket closed.
unfoldable pub close_socket : UnixListenerWithLock → Kernel → Attempt Kernel
close_socket l k =
    if is_some (k.server l.socket)
    then done (shut l.socket (if has_prefix l.address (lit "@") then k else unlink l.address k))
    else failed closed_twice

abbrev pub error_of {ℓ} : {A : Type ℓ} → Attempt A → Option Bytes
error_of (failed e) = some e
error_of (done a) = none

abbrev pub or_else {ℓ} : {A : Type ℓ} → Attempt A → A → A
or_else (failed e) a = a
or_else (done b) a = b

abbrev pub first_error : Option Bytes → Option Bytes → Option Bytes
first_error (some e) other = some e
first_error none other = other

pub record Closed : Type 0 where
  pub error : Option Bytes
  pub listener : Option UnixListenerWithLock
  pub kernel : Kernel

-- Close. The faults are those of os.Remove and of the file's own Close.
unfoldable pub close :
    Option Bytes → Option Bytes → ℕ → Option UnixListenerWithLock → Kernel → Closed
close fault_remove fault_close p none k = record { error = none; listener = none; kernel = k }
close fault_remove fault_close p (some l) k = elim l.file [
  | none ↦ record { error = none; listener = some l; kernel = k }
  | some file ↦
      let shut_down = close_socket l k in
      let k1 = or_else shut_down k in
      let removed = remove fault_remove file.name k1 in
      record {
        error = first_error (error_of shut_down) (first_error (error_of removed) fault_close);
        listener = some (record l { file = none });
        kernel = close_file p file.number (or_else removed k1);
      }
]
