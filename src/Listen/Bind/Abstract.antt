-- ===== src/Listen/Bind/Abstract.antt =====
-- A bind point on an abstract socket address (bind.go, filelock.go).
use rupicola_go.Base.{
  ℕ, Bytes, lit, Option, none, some, true, ◌≡◌, refl, ap, ◌∙◌, arith, bytes_eq, ==_iff,
}
use rupicola_go.Settings.Def.{Bind, unix}
use rupicola_go.Listen.Paths.{has_prefix}
use rupicola_go.Listen.Kernel.{Kernel, not_found, bind_name}
use rupicola_go.Listen.Lock.{listening, UnixListenerWithLock, Closed, listen_with, net_listen}
use rupicola_go.Listen.Lock.Closes.{listen_unix_lock-abstract, close-unlocked}
use rupicola_go.Listen.Bind.{Host, bind, chown}
use rupicola_go.Listen.Bind.Ends.{bind-listening, serve_unix-denied}

-- The listener of an abstract address, which has no lock file.
abbrev unlocked : Bytes → ℕ → UnixListenerWithLock
unlocked addr n = record { socket = n; address = addr; file = none }

listens-free :
    (fault : Option Bytes) (p : ℕ) (addr : Bytes) (k : Kernel)
    → has_prefix addr (lit "@") ≡ true
    → fault ≡ none
    → k.names addr ≡ none
    → listen_with fault p addr none k
      ≡ (listening (unlocked addr (bind_name p addr k).0), (bind_name p addr k).1)
unfolding listen_with net_listen
listens-free fault p addr k named no_fault free = ground arith

chown-missing :
    (fault : Option Bytes) (path : Bytes) (k : Kernel)
    → fault ≡ none
    → k.files path ≡ none
    → chown fault path k ≡ some not_found
unfolding chown
chown-missing fault path k no_fault missing = ground arith

bound_name :
    (p : ℕ) (addr : Bytes) (k : Kernel)
    → let (n, k') = bind_name p addr k in
      (k'.files ≡ k.files) × (k'.names addr ≡ some n) × (k'.server n ≡ some p)
unfolding bind_name
bound_name p addr k = ground (arith, ==_iff addr addr)

-- Bind on an abstract address that is free ends with the error of chown that the file is not there,
-- without serving, and leaves the socket open and its name taken. The system reports no error of
-- its own, and no file has the name of the address.
pub bind-abstract :
    (h : Host) (p : ℕ) (b : Bind) (umask : ℕ) (k : Kernel)
    → b.type ≡ unix
    → has_prefix b.address (lit "@") ≡ true
    → h.faults.listen ≡ none
    → h.chown ≡ none
    → k.names b.address ≡ none
    → k.files b.address ≡ none
    → let r = bind h p b umask k in
      (n : ℕ) × (r.error ≡ not_found)
      × (r.kernel.names b.address ≡ some n)
      × (r.kernel.server n ≡ some p)
bind-abstract h p b umask k typed named no_fault allowed free missing =
    let made = bind_name p b.address k in
    let l = unlocked b.address made.0 in
    let opened =
      listen_unix_lock-abstract b.address h.faults p k named
      ∙ listens-free h.faults.listen p b.address k named no_fault free in
    let kept = bound_name p b.address k in
    let gone =
      chown-missing h.chown b.address made.1 allowed
        (ap (λ (files : Bytes → Option ℕ). files b.address) kept.0 ∙ missing) in
    let ended = bind-listening h p b umask l k made.1 typed opened in
    let denied = serve_unix-denied h p b l made.1 not_found gone in
    let same : (bind h p b umask k).kernel ≡ made.1 =
      ended.1
      ∙ ap (λ (r : Bytes × Kernel). r.1) denied
      ∙ ap (λ (c : Closed). c.kernel)
          (close-unlocked h.close_remove h.close_file p l made.1 refl) in
    (
      made.0,
      ended.0 ∙ ap (λ (r : Bytes × Kernel). r.0) denied,
      ap (λ (m : Kernel). m.names b.address) same ∙ kept.1,
      ap (λ (m : Kernel). m.server made.0) same ∙ kept.2,
    )
