-- ===== src/Listen/Lock/Quiet.antt =====
-- The last calls of `ListenUnixLock` where the system reports no error of its own (filelock.go).
use rupicola_go.Base.{
  ℕ, Bytes, lit, Option-cases, inl, inr, false, none, nat_eq, bytes_eq, ==_iff, ◌≡◌, refl, arith,
}
use rupicola_go.Base.Decimal.{print_nat}
use rupicola_go.Listen.Paths.Apart.{lock_path-apart}
use rupicola_go.Listen.Paths.{has_prefix, lock_path}
use rupicola_go.Listen.Kernel.{Kernel, unlink, bind_file, append_text}
use rupicola_go.Listen.Lock.{Faults, done, write_pid, clear_leftovers, net_listen, remove}

abbrev pub no_faults : Faults
no_faults = record {
  create = none;
  lock = none;
  write = none;
  stat = none;
  remove = none;
  listen = none;
}

module _ (addr : Bytes) (named : has_prefix addr (lit "@") ≡ false) where
  -- Without faults the leftovers are removed and the name is free.
  pub clears_up :
      (p i : ℕ) (k : Kernel)
      → (k' : Kernel) × (clear_leftovers no_faults addr (write_pid no_faults p i k) ≡ done k')
        × (k'.files addr ≡ none)
        × (k'.files (lock_path addr) ≡ k.files (lock_path addr))
        × (k'.owner ≡ k.owner)
        × (k'.next ≡ k.next)
  unfolding clear_leftovers write_pid append_text remove unlink
  clears_up p i k = elim (Option-cases (k.files addr)) [
    | inl free ↦
        (append_text i (print_nat p) k, ground arith, ground arith, ground arith, refl, refl)
    | inr (n, taken) ↦ (
      unlink addr (append_text i (print_nat p) k),
      ground arith,
      ground (arith, ==_iff addr addr),
      ground
          (arith, lock_path-apart addr, ==_iff addr (lock_path addr), ==_iff (lock_path addr) addr),
      refl,
      refl,
    )
  ]

  pub binds :
      (p : ℕ) (k : Kernel)
      → k.files addr ≡ none
      → (net_listen none p addr k ≡ done (bind_file p addr k))
        × ((bind_file p addr k).1.files (lock_path addr) ≡ k.files (lock_path addr))
  unfolding net_listen bind_file
  binds p k free =
      (ground arith, ground (arith, lock_path-apart addr, ==_iff (lock_path addr) addr))
