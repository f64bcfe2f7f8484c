-- ===== src/Listen/Lock/Exclusion.antt =====
-- Who holds the lock of an address, while no process closes its listener (filelock.go).
use rupicola_go.Base.{ℕ, ◌<◌, Bytes, some, ◌≡◌, arith}
use rupicola_go.Listen.Paths.{lock_path}
use rupicola_go.Listen.Lock.Steps.{idle, System, Opening, Run}
use rupicola_go.Listen.Lock.Invariant.{holds, holds-file_of, Inv, Run-Inv}

pub unique_holder :
    (path : Bytes) (s : System) (p q i j : ℕ)
    → Inv path s
    → holds (s.stage p) ≡ some i
    → holds (s.stage q) ≡ some j
    → p ≡ q
unique_holder path s p q i j v hp hq = ground (
  arith,
  v.held p i,
  v.held q j,
  v.named p i,
  v.named q j,
  holds-file_of (s.stage p) i,
  holds-file_of (s.stage q) j,
)

-- Before anyone begins: every process is idle, and the numbers in use are below the next one.
pub record IsFresh (path : Bytes) (s : System) : Type 0 where
  pub idle_all : (p : ℕ) → s.stage p ≡ idle
  pub old : (i : ℕ) → s.kernel.files path ≡ some i → i < s.kernel.next

pub IsFresh-Inv : (path : Bytes) (s : System) → IsFresh path s → Inv path s
IsFresh-Inv path s v = record {
  held = λ p i e. ground (arith, v.idle_all p);
  named = λ p i e. ground (arith, v.idle_all p);
  old = v.old;
}

-- While processes open an address, fail, die or are collected in any order, and none closes its
-- listener, no two of them hold the lock of the address at the same time. All processes start idle,
-- and the number of the lock file, if it is there, is one in use.
pub Opening-exclusive :
    (addr : Bytes) {s t : System} (p q i j : ℕ)
    → IsFresh (lock_path addr) s
    → Run (Opening addr) s t
    → holds (t.stage p) ≡ some i
    → holds (t.stage q) ≡ some j
    → p ≡ q
Opening-exclusive addr {s} {t} p q i j fresh r hp hq =
    let v = Run-Inv addr r (IsFresh-Inv (lock_path addr) s fresh) in
    unique_holder (lock_path addr) t p q i j v hp hq
