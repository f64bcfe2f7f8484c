-- ===== src/Listen/Lock/Live.antt =====
-- What becomes of the socket of a process that serves, while no process closes its listener
-- (filelock.go).
use rupicola_go.Base.{
  ℕ, Bytes, lit, Bool, true, false, none, some, nat_eq, bytes_eq, ==_iff, ◌≡◌, ◌≢◌, refl, arith,
}
use rupicola_go.Listen.Paths.{has_prefix, lock_path}
use rupicola_go.Listen.Kernel.{
  Kernel, create, set_lock, close_file, end_process, bind_file, append_text,
}
use rupicola_go.Listen.Lock.{Faults, done, write_pid, net_listen}
use rupicola_go.Listen.Lock.Steps.{
  Stage, idle, lost, created, locked, cleared, dropped, serving, System, moved, Opening, creates,
  locks, loses, clears, leaves, listens, fails, collects, dies, Run, here, next,
}
use rupicola_go.Listen.Lock.Invariant.{holds, Inv, Run-Inv}
use rupicola_go.Listen.Lock.Exclusion.{IsFresh, IsFresh-Inv, unique_holder}

-- The name of the socket leads to it, and the process listens on it.
abbrev pub IsLive : Bytes → Kernel → ℕ → ℕ → Type 0
IsLive addr k p n = (k.files addr ≡ some n) × (k.server n ≡ some p)

abbrev AllLive : Bytes → System → Type 0
AllLive addr s = (p n i : ℕ) → s.stage p ≡ serving n i → IsLive addr s.kernel p n

-- Another process takes the stage `st`, and what is live stays so unless both hold the lock.
moved-AllLive :
    (addr : Bytes) (s : System) (p : ℕ) (k : Kernel) (st : Stage)
    → AllLive addr s
    → ((n i : ℕ) → st ≡ serving n i → IsLive addr k p n)
    → ((q n i : ℕ) → q ≢ p → s.stage q ≡ serving n i → IsLive addr s.kernel q n → IsLive addr k q n)
    → AllLive addr (moved s p k st)
moved-AllLive addr s p k st w own others q n i e = ground (arith, own n i, others q n i, w q n i)

abbrev serves : Stage → Bool
serves (serving n i) = true
serves st = false

-- The same for a stage at which the process does not serve.
other-AllLive :
    (addr : Bytes) (s : System) (p : ℕ) (k : Kernel) (st : Stage)
    → AllLive addr s
    → serves st ≡ false
    → ((q n i : ℕ) → q ≢ p → s.stage q ≡ serving n i → IsLive addr s.kernel q n → IsLive addr k q n)
    → AllLive addr (moved s p k st)
other-AllLive addr s p k st w quiet others =
    moved-AllLive addr s p k st w (λ n i e. ground arith) others

module _ (addr : Bytes) (named : has_prefix addr (lit "@") ≡ false) where
  create-IsLive :
      (k : Kernel) (q n : ℕ) → IsLive addr k q n → IsLive addr (create (lock_path addr) k).1 q n
  unfolding create
  create-IsLive k q n w = ground (arith, ==_iff addr (lock_path addr))

  set_lock-IsLive :
      (k k' : Kernel) (p i q n : ℕ)
      → set_lock p i k ≡ some k'
      → IsLive addr k q n
      → IsLive addr k' q n
  unfolding set_lock
  set_lock-IsLive k k' p i q n e w = ground arith

  write_pid-IsLive :
      (f : Faults) (k : Kernel) (p i q n : ℕ)
      → IsLive addr k q n
      → IsLive addr (write_pid f p i k) q n
  unfolding write_pid append_text
  write_pid-IsLive f k p i q n w = ground arith

  end_process-IsLive :
      (k : Kernel) (p q n : ℕ) → q ≢ p → IsLive addr k q n → IsLive addr (end_process p k) q n
  unfolding end_process
  end_process-IsLive k p q n ne w = ground arith

  listens-IsLive :
      (k k' : Kernel) (p n : ℕ) → net_listen none p addr k ≡ done (n, k') → IsLive addr k' p n
  unfolding net_listen bind_file
  listens-IsLive k k' p n e = ground (arith, ==_iff addr addr)

  -- Beside the holder of the lock nobody serves.
  lone :
      (s : System) (p i : ℕ) (k : Kernel)
      → Inv (lock_path addr) s
      → holds (s.stage p) ≡ some i
      → (q n j : ℕ) → q ≢ p
      → s.stage q ≡ serving n j
      → IsLive addr s.kernel q n
      → IsLive addr k q n
  lone s p i k v h q n j ne e l = absurd (ne (unique_holder (lock_path addr) s q p j i v (rw e) h))

  Opening-AllLive :
      {s t : System} → Opening addr s t → Inv (lock_path addr) s → AllLive addr s → AllLive addr t
  unfolding close_file
  Opening-AllLive {s} (creates p h) v w =
      let made = create (lock_path addr) s.kernel in
      other-AllLive addr s p made.1 (created made.0) w refl
        (λ q n j ne e l. create-IsLive s.kernel q n l)
  Opening-AllLive {s} (locks p i k h g) v w =
      other-AllLive addr s p k (locked i) w refl
        (λ q n j ne e l. set_lock-IsLive s.kernel k p i q n g l)
  Opening-AllLive {s} (loses p i h) v w =
      other-AllLive addr s p s.kernel lost w refl (λ q n j ne e l. l)
  Opening-AllLive {s} (clears p i f k h g) v w =
      other-AllLive addr s p k (cleared i) w refl (lone s p i k v (rw h))
  Opening-AllLive {s} (leaves p i f h) v w =
      other-AllLive addr s p (write_pid f p i s.kernel) (dropped i) w refl
        (λ q n j ne e l. write_pid-IsLive f s.kernel p i q n l)
  Opening-AllLive {s} (listens p i n k h g) v w =
      moved-AllLive addr s p k (serving n i) w
        (λ m j e. ground (arith, listens-IsLive s.kernel k p n g)) (lone s p i k v (rw h))
  Opening-AllLive {s} (fails p i h) v w =
      other-AllLive addr s p s.kernel (dropped i) w refl (λ q n j ne e l. l)
  Opening-AllLive {s} (collects p i h) v w =
      other-AllLive addr s p (close_file p i s.kernel) lost w refl (λ q n j ne e l. l)
  Opening-AllLive {s} (dies p) v w =
      other-AllLive addr s p (end_process p s.kernel) idle w refl
        (λ q n j ne e l. end_process-IsLive s.kernel p q n ne l)

  Run-AllLive :
      {s t : System}
      → Run (Opening addr) s t
      → Inv (lock_path addr) s
      → AllLive addr s
      → AllLive addr t
  Run-AllLive here v w = w
  Run-AllLive (next r st) v w = Opening-AllLive st (Run-Inv addr r v) (Run-AllLive r v w)

-- While processes open an address, fail, die or are collected in any order, and none closes its
-- listener, the socket of a process that serves is not taken away: the address leads to it, the
-- process listens on it, and it owns the lock on the file of the name. The address is not abstract,
-- the number of its lock file, if it is there, is one in use, and all processes start idle.
pub Opening-IsLive :
    (addr : Bytes) {s t : System} (p n i : ℕ)
    → has_prefix addr (lit "@") ≡ false
    → IsFresh (lock_path addr) s
    → Run (Opening addr) s t
    → t.stage p ≡ serving n i
    → (t.kernel.files addr ≡ some n)
      × (t.kernel.server n ≡ some p)
      × (t.kernel.owner i ≡ some p)
      × (t.kernel.files (lock_path addr) ≡ some i)
Opening-IsLive addr {s} {t} p n i named fresh r e =
    let v = IsFresh-Inv (lock_path addr) s fresh in
    let none_serves : AllLive addr s = λ q m j h. ground (arith, fresh.idle_all q) in
    let live = Run-AllLive addr named r v none_serves p n i e in
    let w = Run-Inv addr r v in (live.0, live.1, w.held p i (rw e), w.named p i (rw e))
