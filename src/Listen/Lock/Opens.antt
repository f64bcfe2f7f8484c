-- ===== src/Listen/Lock/Opens.antt =====
-- What `ListenUnixLock` leaves where nothing or a lock is in its way (filelock.go).
use rupicola_go.Base.{
  ℕ, ◌<◌, [], ◌++◌, Bytes, lit, false, Option, none, some, nat_eq, bytes_eq, ==_iff, ◌≡◌, ◌≢◌, refl,
  ◌∙◌, ap, arith, inl, inr, ◌⊎◌,
}
use rupicola_go.Listen.Paths.{has_prefix, lock_path}
use rupicola_go.Listen.Kernel.{Kernel, locked_elsewhere, update, create, set_lock, bind_file}
use rupicola_go.Listen.Lock.{
  Faults, listening, refused, done, failed, listen_unix_lock, listen_locked, listen_with, take_lock,
  UnixListenerWithLock,
}
use rupicola_go.Listen.Lock.Quiet.{no_faults, clears_up, binds}

module _ (addr : Bytes) where
  -- The lock file is new, free, or the process's own.
  abbrev pub IsFree : ℕ → Kernel → Type 0
  IsFree p k =
      (k.files (lock_path addr) ≡ none)
      ⊎ ((i : ℕ) × (k.files (lock_path addr) ≡ some i)
          × ((k.owner i ≡ none) ⊎ (k.owner i ≡ some p)))

  -- What a listener of p has in the kernel.
  pub record IsListening (p : ℕ) (l : UnixListenerWithLock) (k : Kernel) : Type 0 where
    pub address : l.address ≡ addr
    pub reached : k.files addr ≡ some l.socket
    pub served : k.server l.socket ≡ some p
    pub number : ℕ
    pub file : l.file ≡ some (record { number = number; name = lock_path addr })
    pub lock_named : k.files (lock_path addr) ≡ some number
    pub lock_held : k.owner number ≡ some p

module _ (addr : Bytes) (named : has_prefix addr (lit "@") ≡ false) where
  takes_free :
      (p : ℕ) (k : Kernel)
      → IsFree addr p k
      → ((i : ℕ) → k.files (lock_path addr) ≡ some i → i < k.next)
      → let (i, made) = create (lock_path addr) k in
        (k' : Kernel) × (take_lock none p i made ≡ done k')
        × (k'.owner i ≡ some p)
        × (k'.files (lock_path addr) ≡ some i)
        × (i < k'.next)
  unfolding create take_lock set_lock
  takes_free p k free old =
      let (i, made) = create (lock_path addr) k in
      elim free [
        | inl new ↦ (
          record made { owner = update made.owner i (some p) },
          ground arith,
          ground arith,
          ground (arith, ==_iff (lock_path addr) (lock_path addr)),
          ground arith,
        )
        | inr (j, there, inl unlocked) ↦ (
          record made { owner = update made.owner i (some p) },
          ground arith,
          ground arith,
          ground arith,
          ground (arith, old j),
        )
        | inr (j, there, inr own) ↦
            (made, ground arith, ground arith, ground arith, ground (arith, old j))
      ]

  listens_locked :
      (p i : ℕ) (k : Kernel)
      → k.owner i ≡ some p
      → k.files (lock_path addr) ≡ some i
      → i < k.next
      → (l : UnixListenerWithLock) × (k' : Kernel) × (listen_locked no_faults p addr
            (record { number = i; name = lock_path addr })
            k
          ≡ (listening l, k'))
        × IsListening addr p l k'
  unfolding listen_locked listen_with bind_file
  listens_locked p i k owner file small =
      let (k2, cleared_up, unnamed, kept, owner2, numbers) = clears_up addr named p i k in
      let (bound, kept2) = binds addr named p k2 unnamed in
      let made = bind_file p addr k2 in
      (
        record {
          socket = made.0;
          address = addr;
          file = some (record { number = i; name = lock_path addr });
        },
        made.1,
        rw (cleared_up, listen_locked) (rw (bound, listen_with) refl),
        record {
          address = refl;
          reached = ground (arith, ==_iff addr addr);
          served = ground arith;
          number = i;
          file = refl;
          lock_named = kept2 ∙ kept ∙ file;
          lock_held = ground (arith, ap (λ (o : ℕ → Option ℕ). o i) owner2);
        },
      )

-- The steps of ListenUnixLock up to the lock, on a file name.
opens_lock :
    (addr : Bytes) (f : Faults) (p : ℕ) (k : Kernel)
    → has_prefix addr (lit "@") ≡ false
    → f.create ≡ none
    → let (i, made) = create (lock_path addr) k in
      listen_unix_lock f p addr k ≡ elim (take_lock f.lock p i made) [
        | failed e ↦
            (refused (lit "failed geting exclusive lock " ++ lock_path addr ++ lit ": " ++ e), made)
        | done locked ↦ listen_locked f p addr (record { number = i; name = lock_path addr }) locked
      ]
unfolding listen_unix_lock
opens_lock addr f p k named no_create = rw (named, listen_unix_lock) (rw no_create refl)

create-there :
    (path : Bytes) (i : ℕ) (k : Kernel)
    → k.files path ≡ some i
    → create path k ≡ (i, record k { text = update k.text i [] })
unfolding create
create-there path i k there = rw (there, create) refl

-- The lock of another process is not taken, also where the file has just been opened.
take_lock-elsewhere :
    (fault : Option Bytes) (path : Bytes) (p q i : ℕ) (k : Kernel)
    → fault ≡ none
    → k.files path ≡ some i
    → k.owner i ≡ some q
    → q ≢ p
    → take_lock fault p (create path k).0 (create path k).1 ≡ failed locked_elsewhere
unfolding take_lock set_lock create
take_lock-elsewhere fault path p q i k no_fault there owner ne = ground arith

-- ListenUnixLock of p succeeds, and p has what a listener has.
abbrev pub CanListen : Bytes → ℕ → Kernel → Type 0
CanListen addr p k =
    (l : UnixListenerWithLock) × (k' : Kernel) × (listen_unix_lock no_faults p addr k
      ≡ (listening l, k'))
    × IsListening addr p l k'

-- Where the lock file of an address is not there, not locked, or locked by the process itself,
-- ListenUnixLock gives a listener whatever stands at the address, and the process has the socket at
-- the address and the lock on the file of the name. The system reports no error of its own, the
-- address is not abstract, and the number of the lock file, if it is there, is one in use.
pub listen_unix_lock-IsListening :
    (addr : Bytes) (p : ℕ) (k : Kernel)
    → has_prefix addr (lit "@") ≡ false
    → IsFree addr p k
    → ((i : ℕ) → k.files (lock_path addr) ≡ some i → i < k.next)
    → (l : UnixListenerWithLock) × (k' : Kernel) × (listen_unix_lock no_faults p addr k
        ≡ (listening l, k'))
      × IsListening addr p l k'
listen_unix_lock-IsListening addr p k named free old =
    let (k1, taken, owner, file, small) = takes_free addr named p k free old in
    let i = (create (lock_path addr) k).0 in
    let (l, k2, listened, valid) = listens_locked addr named p i k1 owner file small in
    (l, k2, opens_lock addr no_faults p k named refl ∙ rw taken listened, valid)

-- Where another process has the lock, ListenUnixLock is refused with the error of the lock, and
-- nothing changes but that the lock file is emptied. The lock file is there and the system reports
-- no error of its own before that.
pub listen_unix_lock-locked :
    (addr : Bytes) (f : Faults) (p q i : ℕ) (k : Kernel)
    → has_prefix addr (lit "@") ≡ false
    → (f.create ≡ none) × (f.lock ≡ none)
    → k.files (lock_path addr) ≡ some i
    → k.owner i ≡ some q
    → q ≢ p
    → listen_unix_lock f p addr k ≡ (
      refused
          (lit "failed geting exclusive lock " ++ lock_path addr ++ lit ": " ++ locked_elsewhere),
      record k { text = update k.text i [] },
    )
listen_unix_lock-locked addr f p q i k named (no_create, no_lock) file owner ne =
    let e : Bytes =
      lit "failed geting exclusive lock " ++ lock_path addr ++ lit ": " ++ locked_elsewhere in
    opens_lock addr f p k named no_create
    ∙ rw (take_lock-elsewhere f.lock (lock_path addr) p q i k no_lock file owner ne)
        (ap (λ (made : ℕ × Kernel). (refused e, made.1)) (create-there (lock_path addr) i k file))
