-- ===== src/Listen/Main/Restart.antt =====
-- Starting again after the end of a process, by a signal that it handles or by one that it cannot
-- (cmd/rupicola/main.go, filelock.go).
use mathlib.Core.Path.{subst}
use rupicola_go.Base.{
  ℕ, ◌<◌, Bytes, lit, List, [], ◌∷◌, false, Option, none, some, ◌≡◌, ◌⊎◌, inl, inr, refl, ap, sym,
  ◌∙◌, arith, bytes_eq, ==_iff,
}
use rupicola_go.Settings.Def.{BindType, http, https, unix, Bind, Config}
use rupicola_go.Listen.Paths.{has_prefix, lock_path}
use rupicola_go.Listen.Kernel.{Kernel, end_process, unlink}
use rupicola_go.Listen.Lock.{UnixListenerWithLock, remove, or_else}
use rupicola_go.Listen.Lock.Opens.{IsListening, IsFree, CanListen, listen_unix_lock-IsListening}
use rupicola_go.Listen.Main.{
  Signal, interrupt, kill, terminate, hangup, unlink_as, unlink_sockets, handle_signals,
}

-- A kernel with fewer names and nothing else changed in its files and locks.
record Fewer (k k' : Kernel) : Type 0 where
  files : (path : Bytes) → (k'.files path ≡ none) ⊎ (k'.files path ≡ k.files path)
  owner : k'.owner ≡ k.owner
  numbers : k'.next ≡ k.next

same : (k : Kernel) → Fewer k k
same k = record { files = λ path. inr refl; owner = refl; numbers = refl }

then_fewer : {a b c : Kernel} → Fewer a b → Fewer b c → Fewer a c
then_fewer v w = record {
  files = λ path. ground (arith, v.files path, w.files path);
  owner = w.owner ∙ v.owner;
  numbers = w.numbers ∙ v.numbers;
}

remove-Fewer :
    (fault : Option Bytes) (addr : Bytes) (k : Kernel) → Fewer k (or_else (remove fault addr k) k)
unfolding remove unlink
remove-Fewer fault addr k = record {
  files = λ path. ground (arith, ==_iff path addr);
  owner = ground arith;
  numbers = ground arith;
}

module _ (fault : Bytes → Option Bytes) where
  unlink_as-Fewer : (t : BindType) (addr : Bytes) (k : Kernel) → Fewer k (unlink_as fault t addr k)
  unfolding unlink_as
  unlink_as-Fewer unix addr k = remove-Fewer (fault addr) addr k
  unlink_as-Fewer http addr k = same k
  unlink_as-Fewer https addr k = same k

  unlink_sockets-Fewer : (bs : List Bind) (k : Kernel) → Fewer k (unlink_sockets fault bs k)
  unfolding unlink_sockets
  unlink_sockets-Fewer [] k = same k
  unlink_sockets-Fewer (b ∷ bs) k =
      then_fewer (unlink_as-Fewer b.type b.address k)
        (unlink_sockets-Fewer bs (unlink_as fault b.type b.address k))

  handle_signals-Fewer :
      (p : ℕ) (conf : Config) (signals : List Signal) (k k' : Kernel)
      → handle_signals fault p conf signals k ≡ some k'
      → (m : Kernel) × Fewer k m × (k' ≡ end_process p m)
  unfolding handle_signals
  handle_signals-Fewer p conf [] k k' h = cc
  handle_signals-Fewer p conf (hangup ∷ signals) k k' h = handle_signals-Fewer p conf signals k k' h
  handle_signals-Fewer p conf (interrupt ∷ signals) k k' h =
      (unlink_sockets fault conf.protocol.bind k, unlink_sockets-Fewer conf.protocol.bind k, cc)
  handle_signals-Fewer p conf (kill ∷ signals) k k' h =
      (unlink_sockets fault conf.protocol.bind k, unlink_sockets-Fewer conf.protocol.bind k, cc)
  handle_signals-Fewer p conf (terminate ∷ signals) k k' h =
      (unlink_sockets fault conf.protocol.bind k, unlink_sockets-Fewer conf.protocol.bind k, cc)

-- The lock of a process that has ended is free, or its file is gone.
Fewer-IsFree :
    (addr : Bytes) (p q : ℕ) (l : UnixListenerWithLock) (k m : Kernel)
    → IsListening addr p l k
    → Fewer k m
    → IsFree addr q (end_process p m)
unfolding end_process
Fewer-IsFree addr p q l k m w v = elim (v.files (lock_path addr)) [
  | inl gone ↦ inl gone
  | inr there ↦ inr (
    w.number,
    there ∙ w.lock_named,
    inl (ground (arith, ap (λ (o : ℕ → Option ℕ). o w.number) v.owner, w.lock_held)),
  )
]

Fewer-numbers :
    (addr : Bytes) (p : ℕ) (l : UnixListenerWithLock) (k m : Kernel)
    → (w : IsListening addr p l k) → w.number < k.next
    → Fewer k m
    → (i : ℕ) → (end_process p m).files (lock_path addr) ≡ some i
    → i < (end_process p m).next
unfolding end_process
Fewer-numbers addr p l k m w small v i h =
    ground (arith, v.files (lock_path addr), w.lock_named, v.numbers)

Fewer-restart :
    (addr : Bytes) (p q : ℕ) (l : UnixListenerWithLock) (k m : Kernel)
    → has_prefix addr (lit "@") ≡ false
    → (w : IsListening addr p l k) → w.number < k.next
    → Fewer k m
    → CanListen addr q (end_process p m)
Fewer-restart addr p q l k m named w small v =
    listen_unix_lock-IsListening addr q (end_process p m) named (Fewer-IsFree addr p q l k m w v)
      (Fewer-numbers addr p l k m w small v)

-- After the end of a process that listened, killed or by its signal loop, whatever the latter could
-- not remove, ListenUnixLock of any process succeeds on the address, and that process has the
-- socket and the lock. The system reports no error of its own there, the address is not abstract,
-- and the number of the lock file is one in use.
pub restart-IsListening :
    (fault : Bytes → Option Bytes) (conf : Config) (signals : List Signal) (addr : Bytes) (p q : ℕ)
    (l : UnixListenerWithLock) (k k' : Kernel)
    → has_prefix addr (lit "@") ≡ false
    → (w : IsListening addr p l k) → w.number < k.next
    → ((k' ≡ end_process p k) ⊎ (handle_signals fault p conf signals k ≡ some k'))
    → CanListen addr q k'
restart-IsListening fault conf signals addr p q l k k' named w small (inl killed) =
    subst (λ (m : Kernel). CanListen addr q m) (sym killed)
      (Fewer-restart addr p q l k k named w small (same k))
restart-IsListening fault conf signals addr p q l k k' named w small (inr handled) =
    let (m, fewer, stopped) = handle_signals-Fewer fault p conf signals k k' handled in
    subst (λ (m : Kernel). CanListen addr q m) (sym stopped)
      (Fewer-restart addr p q l k m named w small fewer)
