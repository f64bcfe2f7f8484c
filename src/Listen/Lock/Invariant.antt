-- ===== src/Listen/Lock/Invariant.antt =====
-- What the stages of the processes say of the lock file, while no process closes its listener
-- (filelock.go).
use rupicola_go.Base.{
  ℕ, ◌<◌, Bytes, Option, none, some, nat_eq, bytes_eq, ==_iff, ◌≡◌, ◌≢◌, refl, ap, arith,
}
use rupicola_go.Listen.Paths.Apart.{lock_path-apart}
use rupicola_go.Listen.Paths.{lock_path}
use rupicola_go.Listen.Kernel.{
  Kernel, create, set_lock, close_file, end_process, unlink, bind_file, bind_name, append_text,
}
use rupicola_go.Listen.Lock.{Faults, done, write_pid, clear_leftovers, net_listen, remove}
use rupicola_go.Listen.Lock.Steps.{
  Stage, idle, lost, created, locked, cleared, dropped, shutting, unnamed, serving, System, moved,
  Opening, creates, locks, loses, clears, leaves, listens, fails, collects, dies, Run, here, next,
}

-- The lock file that a process has open.
abbrev pub file_of : Stage → Option ℕ
file_of idle = none
file_of lost = none
file_of (created i) = some i
file_of (locked i) = some i
file_of (cleared i) = some i
file_of (dropped i) = some i
file_of (shutting i) = some i
file_of (unnamed i) = some i
file_of (serving n i) = some i

-- The lock file that a process has locked.
abbrev pub holds : Stage → Option ℕ
holds (created i) = none
holds st = file_of st

module _ (path : Bytes) where
  -- What the stages say of the kernel.
  pub record Inv (s : System) : Type 0 where
    pub held : (p i : ℕ) → holds (s.stage p) ≡ some i → s.kernel.owner i ≡ some p
    pub named : (p i : ℕ) → file_of (s.stage p) ≡ some i → s.kernel.files path ≡ some i
    pub old : (i : ℕ) → s.kernel.files path ≡ some i → i < s.kernel.next

record IsQuiet (path : Bytes) (k k' : Kernel) : Type 0 where
  owner : k'.owner ≡ k.owner
  numbers : k'.next ≡ k.next
  files : k'.files path ≡ k.files path

write_pid-IsQuiet :
    (path : Bytes) (f : Faults) (p i : ℕ) (k : Kernel) → IsQuiet path k (write_pid f p i k)
unfolding write_pid append_text
write_pid-IsQuiet path f p i k = ground arith

-- Removing the leftovers touches the address only.
clear_leftovers-IsQuiet :
    (addr path : Bytes)
    → addr ≢ path
    → (f : Faults) (p i : ℕ) (k k' : Kernel) → clear_leftovers f addr (write_pid f p i k) ≡ done k'
    → IsQuiet path k k'
unfolding clear_leftovers write_pid remove unlink append_text
clear_leftovers-IsQuiet addr path apart f p i k k' h = ground (arith, ==_iff path addr)

pub holds-file_of : (st : Stage) (i : ℕ) → holds st ≡ some i → file_of st ≡ some i
holds-file_of st i h = ground arith

-- What a step of the process p keeps for the others, and has for itself.
record Keeps (path : Bytes) (k : Kernel) (p : ℕ) (k' : Kernel) (st : Stage) : Type 0 where
  held : (i : ℕ) → holds st ≡ some i → k'.owner i ≡ some p
  named : (i : ℕ) → file_of st ≡ some i → k'.files path ≡ some i
  old : (i : ℕ) → k'.files path ≡ some i → i < k'.next
  others : (q i : ℕ) → q ≢ p → k.files path ≡ some i → k.owner i ≡ some q → k'.owner i ≡ some q
  names : (i : ℕ) → k.files path ≡ some i → k'.files path ≡ some i

Keeps-Inv :
    (path : Bytes) (s : System) (p : ℕ) (k : Kernel) (st : Stage)
    → Inv path s
    → Keeps path s.kernel p k st
    → Inv path (moved s p k st)
Keeps-Inv path s p k st v w = record {
  held = λ q i e.
      ground (arith, w.held i, w.others q i, v.held q i, v.named q i, holds-file_of (s.stage q) i);
  named = λ q i e. ground (arith, w.named i, w.names i, v.named q i);
  old = w.old;
}

module _ (addr : Bytes) where
  abbrev path : Bytes
  path = lock_path addr

  create-Keeps :
      (s : System) (p : ℕ)
      → Inv path s
      → Keeps path s.kernel p (create path s.kernel).1 (created (create path s.kernel).0)
  unfolding create
  create-Keeps s p v = record {
    held = λ i e. ground arith;
    named = λ i e. ground (arith, ==_iff path path);
    old = λ i e. ground (arith, v.old i, ==_iff path path);
    others = λ q i ne e o. ground (arith, v.old i);
    names = λ i e. ground arith;
  }

  locks-Keeps :
      (s : System) (p i : ℕ) (k : Kernel)
      → Inv path s
      → s.stage p ≡ created i
      → set_lock p i s.kernel ≡ some k
      → Keeps path s.kernel p k (locked i)
  unfolding set_lock
  locks-Keeps s p i k v h e = record {
    held = λ j q. ground (arith);
    named = λ j q. ground (arith, v.named p i);
    old = λ j q. ground (arith, v.old j);
    others = λ q j ne n o. ground arith;
    names = λ j q. ground arith;
  }

  listens-Keeps :
      (s : System) (p i n : ℕ) (k : Kernel)
      → Inv path s
      → s.stage p ≡ cleared i
      → net_listen none p addr s.kernel ≡ done (n, k)
      → Keeps path s.kernel p k (serving n i)
  unfolding net_listen bind_file bind_name
  listens-Keeps s p i n k v h e = record {
    held = λ j q. ground (arith, v.held p i, v.named p i, v.old i);
    named = λ j q. ground (arith, v.named p i, ==_iff path addr);
    old = λ j q. ground (arith, v.old j, ==_iff path addr);
    others = λ q j ne m o. ground (arith, v.old j);
    names = λ j q. ground (arith, ==_iff path addr);
  }

  -- A step that leaves the lock, the numbers and the name of the lock file as they are.
  quiet-Keeps :
      (s : System) (p i : ℕ) (k : Kernel) (st : Stage)
      → Inv path s
      → holds (s.stage p) ≡ some i
      → file_of st ≡ some i
      → IsQuiet path s.kernel k
      → Keeps path s.kernel p k st
  quiet-Keeps s p i k st v h e quiet = record {
    held = λ j q.
        ground (arith, v.held p i, holds-file_of st j, ap (λ (o : ℕ → Option ℕ). o i) quiet.owner);
    named = λ j q. ground (arith, v.named p i, holds-file_of (s.stage p) i, quiet.files);
    old = λ j q. ground (arith, v.old j, quiet.files, quiet.numbers);
    others = λ q j ne m o. ground (arith, ap (λ (o : ℕ → Option ℕ). o j) quiet.owner);
    names = λ j q. ground (arith, quiet.files);
  }

  ends-Keeps :
      (s : System) (p : ℕ) (k : Kernel) (st : Stage)
      → Inv path s
      → file_of st ≡ none
      → (k.files ≡ s.kernel.files) × (k.next ≡ s.kernel.next)
      → ((q i : ℕ) → q ≢ p → s.kernel.owner i ≡ some q → k.owner i ≡ some q)
      → Keeps path s.kernel p k st
  ends-Keeps s p k st v h e others = record {
    held = λ i q. ground (arith, holds-file_of st i);
    named = λ i q. ground arith;
    old = λ i q. ground (arith, v.old i, ap (λ (m : Bytes → Option ℕ). m path) e.0);
    others = λ q i ne n o. others q i ne o;
    names = λ i q. ground (arith, ap (λ (m : Bytes → Option ℕ). m path) e.0);
  }

  release-others :
      (s : System) (p j q i : ℕ)
      → q ≢ p
      → s.kernel.owner i ≡ some q
      → (close_file p j s.kernel).owner i ≡ some q
  unfolding close_file
  release-others s p j q i ne o = ground arith

  exit-others :
      (s : System) (p q i : ℕ)
      → q ≢ p
      → s.kernel.owner i ≡ some q
      → (end_process p s.kernel).owner i ≡ some q
  unfolding end_process
  exit-others s p q i ne o = ground arith

  Opening-Inv : {s t : System} → Opening addr s t → Inv path s → Inv path t
  unfolding close_file end_process
  Opening-Inv {s} (creates p h) v = Keeps-Inv path s p _ _ v (create-Keeps s p v)
  Opening-Inv {s} (locks p i k h e) v = Keeps-Inv path s p _ _ v (locks-Keeps s p i k v h e)
  Opening-Inv {s} (loses p i h) v =
      Keeps-Inv path s p _ _ v (ends-Keeps s p _ _ v refl (refl, refl) (λ q j ne o. o))
  Opening-Inv {s} (clears p i f k h e) v =
      let quiet = clear_leftovers-IsQuiet addr path (lock_path-apart addr) f p i s.kernel k e in
      Keeps-Inv path s p _ _ v (quiet-Keeps s p i _ _ v (rw h) refl quiet)
  Opening-Inv {s} (leaves p i f h) v =
      let quiet = write_pid-IsQuiet path f p i s.kernel in
      Keeps-Inv path s p _ _ v (quiet-Keeps s p i _ _ v (rw h) refl quiet)
  Opening-Inv {s} (listens p i n k h e) v = Keeps-Inv path s p _ _ v (listens-Keeps s p i n k v h e)
  Opening-Inv {s} (fails p i h) v =
      Keeps-Inv path s p _ _ v (
        quiet-Keeps s p i _ _ v (rw h) refl (record { owner = refl; numbers = refl; files = refl }))
  Opening-Inv {s} (collects p i h) v =
      Keeps-Inv path s p _ _ v (ends-Keeps s p _ _ v refl (refl, refl) (release-others s p i))
  Opening-Inv {s} (dies p) v =
      Keeps-Inv path s p _ _ v (ends-Keeps s p _ _ v refl (refl, refl) (exit-others s p))

  pub Run-Inv : {s t : System} → Run (Opening addr) s t → Inv path s → Inv path t
  Run-Inv here v = v
  Run-Inv (next r st) v = Opening-Inv st (Run-Inv r v)
