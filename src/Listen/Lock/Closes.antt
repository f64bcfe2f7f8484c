-- ===== src/Listen/Lock/Closes.antt =====
-- What `Close` leaves behind (filelock.go).
use rupicola_go.Base.{
  ℕ, Bytes, lit, true, false, Option, none, some, nat_eq, bytes_eq, ==_iff, ◌≡◌, ◌≢◌, refl, ◌∙◌,
  sym, arith,
}
use rupicola_go.Listen.Paths.Apart.{lock_path-apart}
use rupicola_go.Listen.Paths.{has_prefix, lock_path}
use rupicola_go.Listen.Kernel.{Kernel, in_use, close_file, unlink, bind_name, shut}
use rupicola_go.Listen.Lock.{
  Faults, listening, refused, done, net_listen, listen_unix_lock, listen_with, close, close_socket,
  remove, UnixListenerWithLock,
}
use rupicola_go.Listen.Lock.Opens.{IsListening}

close_socket-served :
    (l : UnixListenerWithLock) (p : ℕ) (k : Kernel)
    → k.server l.socket ≡ some p
    → has_prefix l.address (lit "@") ≡ false
    → close_socket l k ≡ done (shut l.socket (unlink l.address k))
unfolding close_socket
close_socket-served l p k served named = rw (served, close_socket) (rw named refl)

remove-there :
    (path : Bytes) (i : ℕ) (k : Kernel)
    → k.files path ≡ some i
    → remove none path k ≡ done (unlink path k)
unfolding remove
remove-there path i k there = rw (there, remove) refl

unlink-other :
    (addr path : Bytes) (n : ℕ) (k : Kernel)
    → addr ≢ path
    → (shut n (unlink addr k)).files path ≡ k.files path
unfolding shut unlink
unlink-other addr path n k apart = ground (arith, ==_iff path addr)

-- Close of a listener that is served, on a file name.
closes_all :
    (addr : Bytes) (p : ℕ) (l : UnixListenerWithLock) (k : Kernel)
    → has_prefix l.address (lit "@") ≡ false
    → (w : IsListening addr p l k)
    → close none none p (some l) k ≡ record {
      error = none;
      listener = some (record l { file = none });
      kernel = close_file p w.number (unlink (lock_path addr) (shut l.socket (unlink l.address k)));
    }
unfolding close
closes_all addr p l k named w =
    let shut_down = close_socket-served l p k w.served named in
    let shut_kernel = shut l.socket (unlink l.address k) in
    let kept =
      unlink-other l.address (lock_path addr) l.socket k (rw w.address (lock_path-apart addr)) in
    let removed = remove-there (lock_path addr) w.number shut_kernel (kept ∙ w.lock_named) in
    rw (w.file, close) (rw (shut_down, removed) refl)

-- Close of a listener that has its socket and its lock removes the names of both, frees the lock and
-- the socket, and gives no error. The calls in it do not fail and the address is not abstract.
pub close-listening :
    (addr : Bytes) (p : ℕ) (l : UnixListenerWithLock) (k : Kernel)
    → has_prefix addr (lit "@") ≡ false
    → (w : IsListening addr p l k)
    → let closed = close none none p (some l) k in
      (closed.error ≡ none)
      × (closed.listener ≡ some (record l { file = none }))
      × (closed.kernel.files addr ≡ none)
      × (closed.kernel.files (lock_path addr) ≡ none)
      × (closed.kernel.owner w.number ≡ none)
      × (closed.kernel.server l.socket ≡ none)
unfolding shut unlink close_file
close-listening addr p l k named w =
    let all = closes_all addr p l k (rw w.address named) w in
    rw (all, w.address)
      (
        refl,
        refl,
        ground (arith, ==_iff addr addr),
        ground (arith, ==_iff (lock_path addr) (lock_path addr)),
        ground (arith, w.lock_held),
        ground arith,
      )

listens_abstract :
    (addr : Bytes) (fault : Option Bytes) (p : ℕ) (k k' : Kernel) {l : UnixListenerWithLock}
    → has_prefix addr (lit "@") ≡ true
    → listen_with fault p addr none k ≡ (listening l, k')
    → (l.file ≡ none) × (k'.names addr ≡ some l.socket) × (k'.server l.socket ≡ some p)
unfolding listen_with net_listen bind_name
listens_abstract addr (some e) p k k' named h = cc
listens_abstract addr none p k k' named h = ground (arith, ==_iff addr addr)

refuses_abstract :
    (addr : Bytes) (f : Faults) (q n : ℕ) (k : Kernel)
    → has_prefix addr (lit "@") ≡ true
    → f.listen ≡ none
    → k.names addr ≡ some n
    → listen_unix_lock f q addr k ≡ (refused in_use, k)
unfolding listen_unix_lock listen_with net_listen
refuses_abstract addr f q n k named no_fault taken = ground arith

pub close-unlocked :
    (e e' : Option Bytes) (p : ℕ) (l : UnixListenerWithLock) (k : Kernel)
    → l.file ≡ none
    → close e e' p (some l) k ≡ record { error = none; listener = some l; kernel = k }
unfolding close
close-unlocked e e' p l k unlocked = ground arith

pub listen_unix_lock-abstract :
    (addr : Bytes) (f : Faults) (p : ℕ) (k : Kernel)
    → has_prefix addr (lit "@") ≡ true
    → listen_unix_lock f p addr k ≡ listen_with f.listen p addr none k
unfolding listen_unix_lock
listen_unix_lock-abstract addr f p k named = rw (named, listen_unix_lock) refl

-- Close of the listener of an abstract address does nothing: the process still listens on its socket,
-- and any later ListenUnixLock of the address is refused.
pub close-abstract :
    (addr : Bytes) (f g : Faults) (p q : ℕ) (k k' : Kernel) {l : UnixListenerWithLock}
    → has_prefix addr (lit "@") ≡ true
    → listen_unix_lock f p addr k ≡ (listening l, k')
    → g.listen ≡ none
    → let closed = close none none p (some l) k' in
      (closed.error ≡ none)
      × (closed.kernel.server l.socket ≡ some p)
      × (listen_unix_lock g q addr closed.kernel ≡ (refused in_use, k'))
close-abstract addr f g p q k k' {l} named h no_fault =
    let opened = sym (listen_unix_lock-abstract addr f p k named) ∙ h in
    let (unlocked, taken, served) = listens_abstract addr f.listen p k k' named opened in
    rw (close-unlocked none none p l k' unlocked)
      (refl, served, refuses_abstract addr g q l.socket k' named no_fault taken)
