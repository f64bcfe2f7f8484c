-- ===== src/Listen/Kernel.antt =====
-- The part of the operating system that the listeners use: names of files, POSIX locks, sockets.
-- A file and a socket have a number, by which a process knows them when their name is gone. A lock
-- belongs to a process. Errors are texts.
use rupicola_go.Base.{
  ℕ, suc, Bytes, lit, [], ◌++◌, Bool, false, Option, none, some, ◌==◌, Comparable, bytes_eq, nat_eq,
  if◌then◌else◌,
}

abbrev pub update {ℓ κ} : {K : Type ℓ} {A : Type κ} ⦃c : Comparable K⦄ → (K → A) → K → A → K → A
update f k v j = if j == k then v else f j

-- `names` are the abstract socket addresses. `owner` is the process with the write lock on a file,
-- `server` the one that listens on a socket.
pub record Kernel : Type 0 where
  pub files : Bytes → Option ℕ
  pub names : Bytes → Option ℕ
  pub next : ℕ
  pub owner : ℕ → Option ℕ
  pub server : ℕ → Option ℕ
  pub text : ℕ → Bytes

abbrev pub not_found : Bytes
not_found = lit "no such file or directory"

abbrev pub locked_elsewhere : Bytes
locked_elsewhere = lit "resource temporarily unavailable"

abbrev pub in_use : Bytes
in_use = lit "address already in use"

abbrev pub closed_twice : Bytes
closed_twice = lit "use of closed network connection"

-- os.Create: a file that is there is emptied and opened.
unfoldable pub create : Bytes → Kernel → ℕ × Kernel
create path k = elim (k.files path) [
  | some i ↦ (i, record k { text = update k.text i [] })
  | none ↦ (
    k.next,
    record k {
      files = update k.files path (some k.next);
      next = suc k.next;
      owner = update k.owner k.next none;
      text = update k.text k.next [];
    },
  )
]

-- fcntl(F_SETLK): a process does not wait, and its own lock is no obstacle.
unfoldable pub set_lock : ℕ → ℕ → Kernel → Option Kernel
set_lock p i k = elim (k.owner i) [
  | none ↦ some (record k { owner = update k.owner i (some p) })
  | some q ↦ if q == p then some k else none
]

unfoldable pub append_text : ℕ → Bytes → Kernel → Kernel
append_text i s k = record k { text = update k.text i (k.text i ++ s) }

-- os.Remove takes the name away and leaves the file.
unfoldable pub unlink : Bytes → Kernel → Kernel
unlink path k = record k { files = update k.files path none }

-- Whether the process p has the lock.
abbrev pub is_owner : ℕ → Option ℕ → Bool
is_owner p none = false
is_owner p (some q) = q == p

-- Closing a file gives up the lock that the process has on it, by whichever descriptor.
unfoldable pub close_file : ℕ → ℕ → Kernel → Kernel
close_file p i k = record k {
  owner = if is_owner p (k.owner i) then update k.owner i none else k.owner;
}

-- The end of a process: its locks and its sockets are given up, all names stay.
unfoldable pub end_process : ℕ → Kernel → Kernel
end_process p k = record k {
  owner = λ i. if is_owner p (k.owner i) then none else k.owner i;
  server = λ i. if is_owner p (k.server i) then none else k.server i;
}

-- A new socket on a file name or on an abstract one, where the name is free.
unfoldable pub bind_file : ℕ → Bytes → Kernel → ℕ × Kernel
bind_file p path k = (
  k.next,
  record k {
    files = update k.files path (some k.next);
    next = suc k.next;
    owner = update k.owner k.next none;
    server = update k.server k.next (some p);
  },
)

unfoldable pub bind_name : ℕ → Bytes → Kernel → ℕ × Kernel
bind_name p name k = (
  k.next,
  record k {
    names = update k.names name (some k.next);
    next = suc k.next;
    server = update k.server k.next (some p);
  },
)

-- The end of the listening on a socket.
unfoldable pub shut : ℕ → Kernel → Kernel
shut i k = record k { server = update k.server i none }
