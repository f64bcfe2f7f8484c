-- ===== src/Listen/Bind/Modes.antt =====
-- The umask around ListenUnixLock, and the mode of the socket (bind.go, config.go).
use Prim.Native.Nat.{bit_and, bit_xor}
use rupicola_go.Base.{
  ℕ, zero, suc, ◌+◌, ◌*◌, ◌/◌, ◌%◌, ◌<◌, Bytes, Option, none, some, Bool, true, ◌&&◌, ◌≡◌, refl, ap,
  arith, nat_beq_iff, ◌==◌, nat_eq, ◌⊎◌, inl, inr,
}
use rupicola_go.Settings.Def.{BindType, Bind, http, https, unix}
use rupicola_go.Settings.Parse.{shamefull_file_mode_fix}
use rupicola_go.Listen.Kernel.{Kernel}
use rupicola_go.Listen.Lock.{UnixListenerWithLock, Listened, listening, refused, listen_unix_lock}
use rupicola_go.Listen.Bind.{
  Host, Bound, bind, bind_as, bind_unix, serve_listened, bind_tcp, set_umask, mode_under,
}

every_below : ℕ → (ℕ → Bool) → Bool
every_below zero test = true
every_below (suc n) test = test n && every_below n test

every_below-test :
    (n : ℕ) (test : ℕ → Bool) (m : ℕ) → every_below n test ≡ true → m < n → test m ≡ true
unfolding every_below
every_below-test zero test m h lt = absurd (omega arith)
every_below-test (suc n) test m h lt = ground (arith, every_below-test n test m)

masks : every_below 512 (λ m. bit_and m 511 == m) ≡ true
unfolding every_below
masks = refl

inverted : every_below 512 (λ m. bit_xor 511 (bit_and (bit_xor m 511) 511) == m) ≡ true
unfolding every_below
inverted = refl

-- The decimal number with the octal digits of m, as a mode is written in a configuration.
abbrev octal_as_decimal : ℕ → ℕ
octal_as_decimal m = m / 64 * 100 + m / 8 % 8 * 10 + m % 8

fixes : every_below 512 (λ m. shamefull_file_mode_fix (octal_as_decimal m) == m) ≡ true
unfolding every_below shamefull_file_mode_fix
fixes = refl

-- A mode of nine bits whose octal digits are written as a decimal number is read back by
-- shamefullFileModeFix.
pub shamefull_file_mode_fix-octal :
    (m : ℕ) → m < 512 → shamefull_file_mode_fix (octal_as_decimal m) ≡ m
shamefull_file_mode_fix-octal m h =
    (nat_beq_iff _ m).0
      (every_below-test 512 (λ m. shamefull_file_mode_fix (octal_as_decimal m) == m) m fixes h)

umask_kept : (umask : ℕ) → umask < 512 → bit_and umask 511 ≡ umask
umask_kept umask h =
    (nat_beq_iff _ umask).0 (every_below-test 512 (λ m. bit_and m 511 == m) umask masks h)

mode_kept : (m : ℕ) → m < 512 → bit_xor 511 (bit_and (bit_xor m 511) 511) ≡ m
mode_kept m h =
    (nat_beq_iff _ m).0
      (every_below-test 512 (λ m. bit_xor 511 (bit_and (bit_xor m 511) 511) == m) m inverted h)

Listened-cases :
    (r : Listened)
    → ((e : Bytes) × (r ≡ refused e)) ⊎ ((l : UnixListenerWithLock) × (r ≡ listening l))
Listened-cases (refused e) = inl (e, refl)
Listened-cases (listening l) = inr (l, refl)

module _ (h : Host) (p : ℕ) (b : Bind) (umask : ℕ) (k : Kernel) where
  -- The mask is as before, and a socket has the configured mode.
  abbrev pub IsMasked : Bound → Type 0
  IsMasked r = (r.umask ≡ umask) × ((r.mode ≡ none) ⊎ (r.mode ≡ some b.mode))

  bind_unix-IsMasked : umask < 512 → b.mode < 512 → IsMasked (bind_unix h p b umask k)
  unfolding bind_unix serve_listened set_umask mode_under
  bind_unix-IsMasked small mode =
      elim (Listened-cases (listen_unix_lock h.faults p b.address k).0) [
        | inl (e, stopped) ↦
            rw (stopped, bind_unix, serve_listened) (umask_kept umask small, inl refl)
        | inr (l, made) ↦
            rw (made, bind_unix, serve_listened)
              (umask_kept umask small, inr (ap some (mode_kept b.mode mode)))
      ]

  bind_tcp-IsMasked :
      (fault : Option Bytes) (serve : Bind → Kernel → Bytes × Kernel)
      → IsMasked (bind_tcp fault serve b umask k)
  unfolding bind_tcp
  bind_tcp-IsMasked fault serve = ground arith

  bind_as-IsMasked :
      (t : BindType) → umask < 512 → b.mode < 512 → IsMasked (bind_as t h p b umask k)
  unfolding bind_as
  bind_as-IsMasked http small mode = bind_tcp-IsMasked _ _
  bind_as-IsMasked https small mode = bind_tcp-IsMasked _ _
  bind_as-IsMasked unix small mode = bind_unix-IsMasked small mode

-- However Bind ends, the umask of the process is what it was, and a unix socket that was made has
-- the configured mode. The mask and the mode are within nine bits.
pub bind-IsMasked :
    (h : Host) (p : ℕ) (b : Bind) (umask : ℕ) (k : Kernel)
    → umask < 512
    → b.mode < 512
    → IsMasked h p b umask k (bind h p b umask k)
unfolding bind
bind-IsMasked h p b umask k small mode = bind_as-IsMasked h p b umask k b.type small mode
