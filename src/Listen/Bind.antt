-- ===== src/Listen/Bind.antt =====
-- Serving at a bind point: `(*Bind).Bind` (bind.go), with the umask for the socket's mode.
pub mod Modes
pub mod Ends
pub mod Abstract
use Prim.Native.Nat.{bit_and, bit_xor}
use rupicola_go.Base.{ℕ, Bytes, lit, ◌∷◌, ◌++◌, List, [], Option, none, some}
use rupicola_go.Base.Decimal.{print_nat}
use rupicola_go.Settings.Def.{BindType, http, https, unix, Bind}
use rupicola_go.Listen.Kernel.{Kernel, not_found}
use rupicola_go.Listen.Lock.{
  Faults, Listened, refused, listening, UnixListenerWithLock, Closed, listen_unix_lock, close,
  Attempt, failed, done, first_error,
}

-- The system and net/http as Bind calls them: the errors of a listening TCP socket by its address;
-- Serve and ServeTLS up to where they would close the listener, with their error and what has
-- become of the kernel; the errors of chown and of the calls in Close.
pub record Host : Type 0 where
  pub faults : Faults
  pub listen_tcp : Bytes → Option Bytes
  pub serve : Bind → Kernel → Bytes × Kernel
  pub serve_tls : Bind → Kernel → Bytes × Kernel
  pub chown : Option Bytes
  pub close_remove : Option Bytes
  pub close_file : Option Bytes

-- syscall.Umask: the old mask and the new one, of nine bits.
unfoldable pub set_umask : ℕ → ℕ → ℕ × ℕ
set_umask mask umask = (umask, bit_and mask 511)

-- The mode of a new socket under a mask of at most nine bits.
unfoldable pub mode_under : ℕ → ℕ
mode_under umask = bit_xor 511 umask

-- The error that Bind returns, what it leaves, and the mode that a unix socket was made with.
pub record Bound : Type 0 where
  pub error : Bytes
  pub kernel : Kernel
  pub umask : ℕ
  pub mode : Option ℕ
  pub served : Option UnixListenerWithLock

-- os.Chown.
unfoldable pub chown : Option Bytes → Bytes → Kernel → Option Bytes
chown (some e) path k = some e
chown none path k = elim (k.files path) [ none ↦ some not_found | some i ↦ none ]

-- srv.Addr
unfoldable pub tcp_address : Bind → Bytes
unfolding print_nat
tcp_address b = b.address ++ b':' ∷ print_nat b.port

-- A listener, then Serve on it.
unfoldable pub bind_tcp :
    Option Bytes → (Bind → Kernel → Bytes × Kernel) → Bind → ℕ → Kernel → Bound
bind_tcp (some e) serve b umask k = record {
  error = e;
  kernel = k;
  umask = umask;
  mode = none;
  served = none;
}
bind_tcp none serve b umask k =
    let (e, k') = serve b k in
    record { error = e; kernel = k'; umask = umask; mode = none; served = none }

-- Behind ListenUnixLock: chown and Serve, which closes the listener; then the deferred Close.
unfoldable pub serve_unix : Host → ℕ → Bind → UnixListenerWithLock → Kernel → Bytes × Kernel
serve_unix h p b l k = elim (chown h.chown b.address k) [
  | some e ↦ (e, (close h.close_remove h.close_file p (some l) k).kernel)
  | none ↦
      let (e, k') = h.serve b k in
      let closed = close h.close_remove h.close_file p (some l) k' in
      (e, (close h.close_remove h.close_file p closed.listener closed.kernel).kernel)
]

-- The result of ListenUnixLock, with the mask put back and the mode that the socket has.
unfoldable pub serve_listened : Host → ℕ → Bind → ℕ → ℕ → Listened → Kernel → Bound
serve_listened h p b umask mode (refused e) k = record {
  error = e;
  kernel = k;
  umask = umask;
  mode = none;
  served = none;
}
serve_listened h p b umask mode (listening l) k =
    let (e, k') = serve_unix h p b l k in
    record { error = e; kernel = k'; umask = umask; mode = some mode; served = some l }

unfoldable pub bind_unix : Host → ℕ → Bind → ℕ → Kernel → Bound
unfolding set_umask mode_under
bind_unix h p b umask k =
    let (old, masked) = set_umask (bit_xor b.mode 511) umask in
    let (l, k') = listen_unix_lock h.faults p b.address k in
    let (_, restored) = set_umask old masked in
    serve_listened h p b restored (mode_under masked) l k'

unfoldable pub bind_as : BindType → Host → ℕ → Bind → ℕ → Kernel → Bound
unfolding tcp_address
bind_as http h p b umask k = bind_tcp (h.listen_tcp (tcp_address b)) h.serve b umask k
bind_as https h p b umask k = bind_tcp (h.listen_tcp (tcp_address b)) h.serve_tls b umask k
bind_as unix h p b umask k = bind_unix h p b umask k

-- (*Bind).Bind of the process p, under its umask. A bind point has one of the three types.
unfoldable pub bind : Host → ℕ → Bind → ℕ → Kernel → Bound
unfolding bind_as
bind h p b umask k = bind_as b.type h p b umask k
