-- ===== src/Listen/Lock/Alone.antt =====
-- `ListenUnixLock` as a whole is a run of the steps (filelock.go).
use rupicola_go.Base.{
  ℕ, Bytes, lit, false, Option, none, some, nat_eq, bytes_eq, ◌≡◌, ◌≢◌, refl, ◌∙◌, arith,
  Option-cases, inl, inr, ◌⊎◌,
}
use rupicola_go.Listen.Paths.{has_prefix, lock_path}
use rupicola_go.Listen.Kernel.{Kernel, create, set_lock}
use rupicola_go.Listen.Lock.{
  Faults, Listened, listening, refused, Attempt, done, failed, write_pid, clear_leftovers,
  net_listen, listen_unix_lock, listen_locked, listen_with, take_lock,
}
use rupicola_go.Listen.Lock.Steps.{
  Stage, idle, lost, created, locked, cleared, dropped, serving, System, moved, listener, lock_file,
  Opening, creates, locks, loses, clears, leaves, listens, fails, Run, here, next, Run-append,
}

pub Attempt-cases {ℓ} :
    {A : Type ℓ} (a : Attempt A) → ((e : Bytes) × (a ≡ failed e)) ⊎ ((b : A) × (a ≡ done b))
Attempt-cases (failed e) = inl (e, refl)
Attempt-cases (done b) = inr (b, refl)

module _ (addr : Bytes) where
  -- The stage that the result leaves the process at: it serves the socket of the listener, or not.
  abbrev pub IsLeft : Listened → Stage → Type 0
  IsLeft (listening l) st = (n : ℕ) × (i : ℕ) × (l ≡ listener addr n i) × (st ≡ serving n i)
  IsLeft (refused e) st = (n i : ℕ) → st ≢ serving n i

  -- A run in which only p moves, to the kernel and the stage of a result.
  pub record Alone (s : System) (p : ℕ) (r : Listened × Kernel) : Type 0 where
    pub after : System
    pub run : Run (Opening addr) s after
    pub kernel : after.kernel ≡ r.1
    pub left : IsLeft r.0 (after.stage p)
    pub others : (q : ℕ) → q ≢ p → after.stage q ≡ s.stage q

  no_fault-net_listen :
      (fault : Option Bytes) (p n : ℕ) (k k' : Kernel)
      → net_listen fault p addr k ≡ done (n, k')
      → net_listen none p addr k ≡ done (n, k')
  unfolding net_listen
  no_fault-net_listen (some e) p n k k' h = cc
  no_fault-net_listen none p n k k' h = h

  no_fault-take_lock :
      (fault : Option Bytes) (p i : ℕ) (k k' : Kernel)
      → take_lock fault p i k ≡ done k'
      → set_lock p i k ≡ some k'
  unfolding take_lock
  no_fault-take_lock fault p i k k' h = ground arith

  -- One step in front of a run.
  after_step :
      (s t : System) (p : ℕ) (r : Listened × Kernel)
      → Opening addr s t
      → ((q : ℕ) → q ≢ p → t.stage q ≡ s.stage q)
      → Alone t p r
      → Alone s p r
  after_step s t p r st same a = record {
    after = a.after;
    run = Run-append (next here st) a.run;
    kernel = a.kernel;
    left = a.left;
    others = λ q ne. a.others q ne ∙ same q ne;
  }

  listen_with-Alone :
      (f : Faults) (s : System) (p i : ℕ)
      → s.stage p ≡ cleared i
      → Alone s p (listen_with f.listen p addr (some (lock_file addr i)) s.kernel)
  unfolding listen_with
  listen_with-Alone f s p i h = elim (Attempt-cases (net_listen f.listen p addr s.kernel)) [
    | inl (e, stopped) ↦
        rw (stopped, listen_with)
          (record {
            after = moved s p s.kernel (dropped i);
            run = next here (fails p i h);
            kernel = refl;
            left = λ n j. ground arith;
            others = λ q ne. ground arith;
          })
    | inr ((n, k), bound) ↦
        rw (bound, listen_with)
          (record {
            after = moved s p k (serving n i);
            run = next here (listens p i n k h (no_fault-net_listen f.listen p n s.kernel k bound));
            kernel = refl;
            left = (n, i, refl, ground arith);
            others = λ q ne. ground arith;
          })
  ]

  listen_locked-Alone :
      (f : Faults) (s : System) (p i : ℕ)
      → s.stage p ≡ locked i
      → Alone s p (listen_locked f p addr (lock_file addr i) s.kernel)
  unfolding listen_locked
  listen_locked-Alone f s p i h =
      elim (Attempt-cases (clear_leftovers f addr (write_pid f p i s.kernel))) [
        | inl (e, stopped) ↦
            rw (stopped, listen_locked)
              (record {
                after = moved s p (write_pid f p i s.kernel) (dropped i);
                run = next here (leaves p i f h);
                kernel = refl;
                left = λ n j. ground arith;
                others = λ q ne. ground arith;
              })
        | inr (k, cleared_up) ↦
            let t = moved s p k (cleared i) in
            rw (cleared_up, listen_locked)
              (after_step s t p _ (clears p i f k h cleared_up) (λ q ne. ground arith)
                (listen_with-Alone f t p i (ground arith)))
      ]

  -- ListenUnixLock of an idle process on an address that is not abstract is a run of the steps,
  -- whatever the system reports: the run ends in the kernel that the function leaves, the process
  -- serves the socket of the listener if it is given one and serves nothing otherwise, and no other
  -- process has moved.
  pub listen_unix_lock-Alone :
      (f : Faults) (s : System) (p : ℕ)
      → has_prefix addr (lit "@") ≡ false
      → s.stage p ≡ idle
      → Alone s p (listen_unix_lock f p addr s.kernel)
  unfolding listen_unix_lock
  listen_unix_lock-Alone f s p named h = rw named (elim (Option-cases f.create) [
    | inr (e, denied) ↦ rw denied (record {
      after = s;
      run = here;
      kernel = refl;
      left = λ n j. ground arith;
      others = λ q ne. refl;
    })
    | inl made ↦
        let i = (create (lock_path addr) s.kernel).0 in
        let k = (create (lock_path addr) s.kernel).1 in
        let t = moved s p k (created i) in
        rw made (
          after_step s t p _ (creates p h) (λ q ne. ground arith)
            (elim (Attempt-cases (take_lock f.lock p i k)) [
              | inl (e, stopped) ↦ rw stopped (record {
                after = moved t p k lost;
                run = next here (loses p i (ground arith));
                kernel = refl;
                left = λ n j. ground arith;
                others = λ q ne. ground arith;
              })
              | inr (k', taken) ↦
                  let u = moved t p k' (locked i) in
                  let st : Opening addr t u =
                    locks p i k' (ground arith) (no_fault-take_lock f.lock p i k k' taken) in
                  rw taken (
                    after_step t u p _ st (λ q ne. ground arith)
                      (listen_locked-Alone f u p i (ground arith)))
            ]))
  ])
