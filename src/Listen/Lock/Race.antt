-- ===== src/Listen/Lock/Race.antt =====
-- How two processes come to serve one address when a third closes its listener (filelock.go).
use rupicola_go.Base.{
  ℕ, Bytes, lit, false, Option, none, some, nat_eq, bytes_eq, ==_iff, ◌≡◌, ◌≢◌, sym, ap, ◌∙◌, arith,
}
use rupicola_go.Listen.Paths.Apart.{lock_path-apart}
use rupicola_go.Listen.Paths.{has_prefix, lock_path}
use rupicola_go.Listen.Kernel.{
  Kernel, update, create, set_lock, close_file, shut, unlink, bind_file,
}
use rupicola_go.Listen.Lock.{or_else, close_socket, remove}
use rupicola_go.Listen.Lock.Quiet.{no_faults, clears_up, binds}
use rupicola_go.Listen.Lock.Steps.{
  Stage, idle, lost, created, locked, cleared, serving, unnamed, shutting, System, moved, listener,
  creates, locks, clears, listens, shuts, unnames, releases, Step, opening, closing, Run, here,
  next, Run-append,
}

module _ (addr : Bytes) (named : has_prefix addr (lit "@") ≡ false) where
  -- What p's way to serving gives it, and leaves to the others.
  record Acquired (s : System) (p i : ℕ) : Type 0 where
    after : System
    socket : ℕ
    run : Run (Step addr) s after
    own : after.stage p ≡ serving socket i
    others : (q : ℕ) → q ≢ p → after.stage q ≡ s.stage q
    lock : after.kernel.files (lock_path addr) ≡ s.kernel.files (lock_path addr)

  -- From an open lock file that nobody has locked to serving, undisturbed.
  acquire :
      (s : System) (p i : ℕ) → s.stage p ≡ created i → s.kernel.owner i ≡ none → Acquired s p i
  unfolding set_lock bind_file
  acquire s p i h free =
      let k1 : Kernel = record (s.kernel) { owner = update s.kernel.owner i (some p) } in
      let s1 = moved s p k1 (locked i) in
      let (k2, cleared_up, unnamed_now, kept, owner, numbers) = clears_up addr named p i k1 in
      let s2 = moved s1 p k2 (cleared i) in
      let (bound, kept2) = binds addr named p k2 unnamed_now in
      let n = (bind_file p addr k2).0 in
      let k3 = (bind_file p addr k2).1 in
      record {
        after = moved s2 p k3 (serving n i);
        socket = n;
        run =
            next
              (next (next here (opening (locks p i k1 h (ground arith))))
                (opening (clears p i no_faults k2 (ground arith) cleared_up)))
              (opening (listens p i n k3 (ground arith) bound));
        own = ground arith;
        others = λ q ne. ground arith;
        lock = ground arith;
      }

  close_socket-keeps :
      (n i : ℕ) (k : Kernel)
      → let k' = or_else (close_socket (listener addr n i) k) k in
        (k'.owner ≡ k.owner) × (k'.files (lock_path addr) ≡ k.files (lock_path addr))
  unfolding close_socket unlink shut
  close_socket-keeps n i k = ground (arith, lock_path-apart addr, ==_iff (lock_path addr) addr)

  -- The process q has opened the lock file before p, which serves, closes its listener.
  record Freed (s : System) (p q i : ℕ) : Type 0 where
    after : System
    run : Run (Step addr) s after
    own : after.stage q ≡ created i
    others : (r : ℕ) → r ≢ p → r ≢ q → after.stage r ≡ s.stage r
    lock : after.kernel.files (lock_path addr) ≡ none
    free : after.kernel.owner i ≡ none

  closes_behind :
      (s : System) (p q n i : ℕ)
      → q ≢ p
      → s.stage p ≡ serving n i
      → s.stage q ≡ idle
      → s.kernel.files (lock_path addr) ≡ some i
      → s.kernel.owner i ≡ some p
      → Freed s p q i
  unfolding create remove unlink close_file
  closes_behind s p q n i ne hp hq file owner =
      let k1 : Kernel = (create (lock_path addr) s.kernel).1 in
      let s1 = moved s q k1 (created (create (lock_path addr) s.kernel).0) in
      let kept = close_socket-keeps n i k1 in
      let k2 : Kernel = or_else (close_socket (listener addr n i) k1) k1 in
      let s2 = moved s1 p k2 (shutting i) in
      let k3 : Kernel = or_else (remove none (lock_path addr) k2) k2 in
      let s3 = moved s2 p k3 (unnamed i) in
      let k4 = close_file p i k3 in
      record {
        after = moved s3 p k4 (lost);
        run =
            next
              (next
                (next (next here (opening (creates q hq))) (closing (shuts p n i (ground arith))))
                (closing (unnames p i none (ground arith))))
              (closing (releases p i (ground arith)));
        own = ground arith;
        others = λ r nrp nrq. ground arith;
        lock = ground (arith, kept.1, ==_iff (lock_path addr) (lock_path addr));
        free = ground (arith, ap (λ (o : ℕ → Option ℕ). o i) kept.0);
      }

  opens_new :
      (s : System) (r : ℕ)
      → s.stage r ≡ idle
      → s.kernel.files (lock_path addr) ≡ none
      → (t : System) × (j : ℕ) × Run (Step addr) s t
        × (t.stage r ≡ created j)
        × (t.kernel.owner j ≡ none)
        × ((q : ℕ) → q ≢ r → t.stage q ≡ s.stage q)
  unfolding create
  opens_new s r h free =
      let made = create (lock_path addr) s.kernel in
      (
        moved s r made.1 (created made.0),
        made.0,
        next here (opening (creates r h)),
        ground arith,
        ground arith,
        λ q ne. ground arith,
      )

abbrev pub IsServing : Stage → Type 0
IsServing st = (n : ℕ) × (i : ℕ) × (st ≡ serving n i)

-- From any state in which a process serves with its lock, and two others are idle, some steps lead
-- to a state in which both others serve the address, if the first closes its listener. The address
-- is not abstract.
pub Closing-not_exclusive :
    (addr : Bytes) (s : System) (p q r n i : ℕ)
    → has_prefix addr (lit "@") ≡ false
    → (q ≢ p) × (r ≢ p) × (r ≢ q)
    → s.stage p ≡ serving n i
    → (s.stage q ≡ idle) × (s.stage r ≡ idle)
    → s.kernel.files (lock_path addr) ≡ some i
    → s.kernel.owner i ≡ some p
    → (t : System) × Run (Step addr) s t × IsServing (t.stage q) × IsServing (t.stage r)
Closing-not_exclusive addr s p q r n i named (nqp, nrp, nrq) hp (hq, hr) file owner =
    let a = closes_behind addr named s p q n i nqp hp hq file owner in
    let b = acquire addr named a.after q i a.own a.free in
    let (u, j, opened, made, unlocked, same) =
      opens_new addr named b.after r (b.others r nrq ∙ a.others r nrp nrq ∙ hr) (b.lock ∙ a.lock) in
    let c = acquire addr named u r j made unlocked in
    let run = Run-append (Run-append a.run b.run) (Run-append opened c.run) in
    let nqr : q ≢ r = λ e. nrq (sym e) in
    (c.after, run, (b.socket, i, c.others q nqr ∙ same q nqr ∙ b.own), (c.socket, j, c.own))
