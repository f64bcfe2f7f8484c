-- ===== src/Listen/Bind/Ends.antt =====
-- How serving on a unix socket ends (bind.go).
use Prim.Native.Nat.{bit_xor}
use mathlib.Core.Path.{subst}
use rupicola_go.Base.{
  ℕ, Bytes, lit, Option, none, some, false, ◌≡◌, refl, ap, sym, ◌∙◌, bytes_eq, Option-cases, inl,
  inr,
}
use rupicola_go.Settings.Def.{Bind, BindType, unix}
use rupicola_go.Listen.Paths.{has_prefix, lock_path}
use rupicola_go.Listen.Kernel.{Kernel}
use rupicola_go.Listen.Lock.{
  Listened, listening, listen_unix_lock, close, UnixListenerWithLock, LockFile, Closed,
}
use rupicola_go.Listen.Lock.Opens.{IsListening}
use rupicola_go.Listen.Lock.Closes.{close-listening, close-unlocked}
use rupicola_go.Listen.Bind.{
  Host, Bound, bind, bind_as, bind_unix, serve_listened, serve_unix, chown, set_umask, mode_under,
}

-- The owner of the lock behind a listener.
abbrev pub lock_owner : Option LockFile → Kernel → Option ℕ
lock_owner none k = none
lock_owner (some file) k = k.owner file.number

-- Neither the socket nor the lock of a listener is left.
pub record IsGone (addr : Bytes) (l : UnixListenerWithLock) (k : Kernel) : Type 0 where
  pub address : k.files addr ≡ none
  pub lock : k.files (lock_path addr) ≡ none
  pub unlocked : lock_owner l.file k ≡ none
  pub closed : k.server l.socket ≡ none

close-IsGone :
    (addr : Bytes) (p : ℕ) (l : UnixListenerWithLock) (k : Kernel)
    → has_prefix addr (lit "@") ≡ false
    → IsListening addr p l k
    → IsGone addr l (close none none p (some l) k).kernel
close-IsGone addr p l k named w =
    let gone = close-listening addr p l k named w in
    record {
      address = gone.2;
      lock = gone.3;
      unlocked =
          ap (λ (f : Option LockFile). lock_owner f (close none none p (some l) k).kernel) w.file
          ∙ gone.4;
      closed = gone.5;
    }

-- A second Close does nothing.
close_twice :
    (p : ℕ) (l : UnixListenerWithLock) (once : Closed)
    → once.listener ≡ some (record l { file = none })
    → (close none none p once.listener once.kernel).kernel ≡ once.kernel
close_twice p l once closed =
    ap (λ (o : Option UnixListenerWithLock). (close none none p o once.kernel).kernel) closed
    ∙ ap (λ (c : Closed). c.kernel)
        (close-unlocked none none p (record l { file = none }) once.kernel refl)

-- The error of Bind behind a listener: that of chown, or that of Serve.
abbrev pub ended_by : Option Bytes → Bytes → Bytes
ended_by none e = e
ended_by (some denied) e = denied

chown-there : (path : Bytes) (n : ℕ) (k : Kernel) → k.files path ≡ some n → chown none path k ≡ none
unfolding chown
chown-there path n k there = rw (there, chown) refl

chown-fault : (e : Bytes) (path : Bytes) (k : Kernel) → chown (some e) path k ≡ some e
unfolding chown
chown-fault e path k = refl

-- The two ways of serve_unix, by what chown says.
module _ (h : Host) (p : ℕ) (b : Bind) (l : UnixListenerWithLock) (k : Kernel) where
  abbrev closed_once : Closed
  closed_once = close h.close_remove h.close_file p (some l) (h.serve b k).1

  pub serve_unix-denied :
      (e : Bytes)
      → chown h.chown b.address k ≡ some e
      → serve_unix h p b l k ≡ (e, (close h.close_remove h.close_file p (some l) k).kernel)
  unfolding serve_unix
  serve_unix-denied e denied = rw (denied, serve_unix) refl

  serve_unix-served :
      chown h.chown b.address k ≡ none
      → serve_unix h p b l k ≡ (
        (h.serve b k).0,
        (close h.close_remove h.close_file p closed_once.listener closed_once.kernel).kernel,
      )
  unfolding serve_unix
  serve_unix-served allowed = rw (allowed, serve_unix) refl

-- A host whose calls in Close do not fail.
abbrev pub closes_quietly : Host → Host
closes_quietly h = record h { close_remove = none; close_file = none }

serve_unix-IsGone :
    (h : Host) (p : ℕ) (b : Bind) (l : UnixListenerWithLock) (k : Kernel)
    → has_prefix b.address (lit "@") ≡ false
    → IsListening b.address p l k
    → IsListening b.address p l (h.serve b k).1
    → ((serve_unix (closes_quietly h) p b l k).0 ≡ ended_by h.chown (h.serve b k).0)
      × IsGone b.address l (serve_unix (closes_quietly h) p b l k).1
serve_unix-IsGone h p b l k named v w = elim (Option-cases h.chown) [
  | inl allowed ↦
      let there =
        ap (λ (c : Option Bytes). chown c b.address k) allowed
        ∙ chown-there b.address l.socket k v.reached in
      let once = close none none p (some l) (h.serve b k).1 in
      let again = close_twice p l once (close-listening b.address p l _ named w).1 in
      rw (serve_unix-served (closes_quietly h) p b l k there) (
        ap (λ (c : Option Bytes). ended_by c (h.serve b k).0) (sym allowed),
        subst (λ (m : Kernel). IsGone b.address l m) (sym again)
            (close-IsGone b.address p l (h.serve b k).1 named w),
      )
  | inr (e, denied) ↦
      let fails =
        ap (λ (c : Option Bytes). chown c b.address k) denied ∙ chown-fault e b.address k in
      rw (serve_unix-denied (closes_quietly h) p b l k e fails) (
        ap (λ (c : Option Bytes). ended_by c (h.serve b k).0) (sym denied),
        close-IsGone b.address p l k named v,
      )
]

pub bind-listening :
    (h : Host) (p : ℕ) (b : Bind) (umask : ℕ) (l : UnixListenerWithLock) (k k' : Kernel)
    → b.type ≡ unix
    → listen_unix_lock h.faults p b.address k ≡ (listening l, k')
    → ((bind h p b umask k).error ≡ (serve_unix h p b l k').0)
      × ((bind h p b umask k).kernel ≡ (serve_unix h p b l k').1)
unfolding bind bind_as bind_unix serve_listened
bind-listening h p b umask l k k' typed made =
    let mask = set_umask (bit_xor b.mode 511) umask in
    let restored = (set_umask mask.0 mask.1).1 in
    let from =
      λ (r : Listened × Kernel). serve_listened h p b restored (mode_under mask.1) r.0 r.1 in
    let same : bind h p b umask k ≡ from (listening l, k') =
      ap (λ (t : BindType). bind_as t h p b umask k) typed ∙ ap from made in
    (ap (λ (r : Bound). r.error) same, ap (λ (r : Bound). r.kernel) same)

-- Where Bind has got a listener of a unix socket, it returns the error of chown, or else that with
-- which Serve ended, and on both ways neither the name of the socket nor the lock file nor the lock
-- is left, and nobody listens on the socket. Serve leaves the socket and the lock to the process,
-- the calls in Close do not fail, and the address is not abstract.
pub bind-IsGone :
    (h : Host) (p : ℕ) (b : Bind) (umask : ℕ) (l : UnixListenerWithLock) (k k' : Kernel)
    → b.type ≡ unix
    → has_prefix b.address (lit "@") ≡ false
    → listen_unix_lock h.faults p b.address k ≡ (listening l, k')
    → IsListening b.address p l k'
    → IsListening b.address p l (h.serve b k').1
    → let r = bind (closes_quietly h) p b umask k in
      (r.error ≡ ended_by h.chown (h.serve b k').0) × IsGone b.address l r.kernel
bind-IsGone h p b umask l k k' typed named made v w =
    let served = bind-listening (closes_quietly h) p b umask l k k' typed made in
    let gone = serve_unix-IsGone h p b l k' named v w in
    (served.0 ∙ gone.0, subst (λ (m : Kernel). IsGone b.address l m) (sym served.1) gone.1)
