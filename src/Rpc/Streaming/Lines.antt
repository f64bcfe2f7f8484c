-- ===== src/Rpc/Streaming/Lines.antt =====
-- The line mode of `Write` against the lines of its input (rupicolarpc/streaming.go).
use rupicola_go.Base.{
  ℕ, Bytes, List, [], ◌∷◌, ◌++◌, append-nil, append_assoc, true, false, none, ◌≡◌, ◌≢◌, refl, sym,
  ap, ◌∙◌, arith, ◌==◌, nat_eq, All,
}
use native.Mathlib.Decide.{ℕ_discrete}
use rupicola_go.Rpc.Value.{text_line}
use rupicola_go.Rpc.Limit.{Wrote, Outcome, ◌or_return◌}
use rupicola_go.Rpc.Base.{Env}
use rupicola_go.Rpc.Streaming.{
  Streaming, newline, split_after, onto_first, ends_line, without_ending, send, reset, write_piece,
  write_lines,
}

-- The lines of p, the first of them behind `rest`, and what follows the last line end.
unfoldable pub cut : Bytes → Bytes → List Bytes × Bytes
cut rest [] = ([], rest)
cut rest (c ∷ p) = elim (c == newline) [
  | true ↦ let (ls, r) = cut [] p in (rest ∷ ls, r)
  | false ↦ cut (rest ++ c ∷ []) p
]

cut-line :
    (rest p : Bytes) (c : ℕ) → c ≡ newline → cut rest (c ∷ p) ≡ (rest ∷ (cut [] p).0, (cut [] p).1)
unfolding cut
cut-line rest p c h = ground arith

cut-other : (rest p : Bytes) (c : ℕ) → c ≢ newline → cut rest (c ∷ p) ≡ cut (rest ++ c ∷ []) p
unfolding cut
cut-other rest p c h = ground arith

-- The text that lines and a rest stand for.
abbrev pub joined : List Bytes → Bytes → Bytes
joined [] rest = rest
joined (l ∷ ls) rest = l ++ newline ∷ joined ls rest

-- No byte is lost, added or moved: the lines, each with its line end, and the rest are the input.
pub joined-cut : (rest p : Bytes) → let (ls, r) = cut rest p in joined ls r ≡ rest ++ p
unfolding cut
joined-cut rest [] = sym (append-nil rest)
joined-cut rest (c ∷ p) = elim (ℕ_discrete c newline) [
  | yes e ↦ rw (cut-line rest p c e, joined-cut [] p) (ap (λ (d : ℕ). rest ++ d ∷ p) (sym e))
  | no h ↦ rw (cut-other rest p c h) (joined-cut (rest ++ c ∷ []) p ∙ append_assoc rest (c ∷ []) p)
]

abbrev pub NoNewline : Bytes → Type 0
NoNewline = All (λ c. c ≢ newline)

NoNewline-append : (s : Bytes) (c : ℕ) → NoNewline s → c ≢ newline → NoNewline (s ++ c ∷ [])
NoNewline-append [] c h k = (k, tt)
NoNewline-append (d ∷ s) c h k = (h.0, NoNewline-append s c h.1 k)

pub cut-NoNewline :
    (rest p : Bytes) → NoNewline rest → All NoNewline (cut rest p).0 × NoNewline (cut rest p).1
unfolding cut
cut-NoNewline rest [] h = (tt, h)
cut-NoNewline rest (c ∷ p) h = elim (ℕ_discrete c newline) [
  | yes e ↦ rw (cut-line rest p c e) (let (hs, r) = cut-NoNewline [] p tt in ((h, hs), r))
  | no k ↦
      rw (cut-other rest p c k) (cut-NoNewline (rest ++ c ∷ []) p (NoNewline-append rest c h k))
]

pub cut-append :
    (rest p q : Bytes)
    → cut rest (p ++ q) ≡ ((cut rest p).0 ++ (cut (cut rest p).1 q).0, (cut (cut rest p).1 q).1)
unfolding cut
cut-append rest [] q = refl
cut-append rest (c ∷ p) q = elim (ℕ_discrete c newline) [
  | yes e ↦ rw (cut-line rest (p ++ q) c e, cut-line rest p c e) (rw (cut-append [] p q))
  | no k ↦ rw (cut-other rest (p ++ q) c k, cut-other rest p c k) (cut-append (rest ++ c ∷ []) p q)
]

split_after-nil : split_after [] ≡ [] ∷ []
unfolding split_after
split_after-nil = refl

split_after-newline :
    (c : ℕ) (p : Bytes) → c ≡ newline → split_after (c ∷ p) ≡ (newline ∷ []) ∷ split_after p
unfolding split_after
split_after-newline c p e = ground arith

split_after-other :
    (c : ℕ) (p : Bytes) → c ≢ newline → split_after (c ∷ p) ≡ onto_first c (split_after p)
unfolding split_after
split_after-other c p h = ground arith

-- The error and the state of a Write, without its count.
abbrev pub outcome : {S : Type 0} → Wrote S → Outcome S
outcome w = (w.err, w.sink)

module _ (E : Env) where
  -- Each line is sent as a text object, in order; the rest waits in the buffer.
  unfoldable pub deliver : List Bytes → Bytes → Streaming E.Sink → Outcome (Streaming E.Sink)
  deliver [] rest b = (none, record b { buffer = rest })
  deliver (l ∷ ls) rest b = send E (text_line l b.base.id) (reset E b) or_return deliver ls rest

  write_piece-any_count :
      (v : Bytes) (n m : ℕ) (b : Streaming E.Sink)
      → outcome (write_piece E v n b) ≡ outcome (write_piece E v m b)
  unfolding write_piece
  write_piece-any_count v n m b = ground arith

  -- Two lists of pieces do the same if their first pieces do, and the rest is one.
  write_lines-first :
      (v w : Bytes) (vs : List Bytes) (n m : ℕ) (b b' : Streaming E.Sink)
      → ((i j : ℕ) (s : Streaming E.Sink)
          → outcome (write_lines E vs i s) ≡ outcome (write_lines E vs j s))
      → outcome (write_piece E v n b) ≡ outcome (write_piece E w m b')
      → outcome (write_lines E (v ∷ vs) n b) ≡ outcome (write_lines E (w ∷ vs) m b')
  unfolding write_lines
  write_lines-first v w vs n m b b' same h =
      ground
        (arith, same (write_piece E v n b).n (write_piece E w m b').n (write_piece E v n b).sink)

  write_lines-any_count :
      (vs : List Bytes) (n m : ℕ) (b : Streaming E.Sink)
      → outcome (write_lines E vs n b) ≡ outcome (write_lines E vs m b)
  unfolding write_lines
  write_lines-any_count [] n m b = refl
  write_lines-any_count (v ∷ vs) n m b =
      write_lines-first v v vs n m b b (write_lines-any_count vs) (write_piece-any_count v n m b)

  -- A byte in front of a piece counts like a byte that waits in the buffer.
  write_piece-cons :
      (c : ℕ) (v : Bytes) (n : ℕ) (b : Streaming E.Sink)
      → c ≢ newline
      → outcome (write_piece E (c ∷ v) n b)
        ≡ outcome (write_piece E v n (record b { buffer = b.buffer ++ c ∷ [] }))
  unfolding write_piece ends_line without_ending
  write_piece-cons c [] n b h = ground arith
  write_piece-cons c (d ∷ v) n b h = ground (
    arith,
    append_assoc b.buffer (c ∷ []) (without_ending (d ∷ v)),
    append_assoc b.buffer (c ∷ []) (d ∷ v),
  )

  write_piece-nil : (n : ℕ) (b : Streaming E.Sink) → outcome (write_piece E [] n b) ≡ (none, b)
  unfolding write_piece
  write_piece-nil n b = refl

  write_lines-onto_first :
      (c : ℕ) (vs : List Bytes) (n : ℕ) (b : Streaming E.Sink)
      → c ≢ newline
      → outcome (write_lines E (onto_first c vs) n b)
        ≡ outcome (write_lines E vs n (record b { buffer = b.buffer ++ c ∷ [] }))
  unfolding write_lines
  write_lines-onto_first c [] n b h = ground (
    arith,
    write_piece-cons c [] n b h,
    write_piece-nil n (record b { buffer = b.buffer ++ c ∷ [] }),
  )
  write_lines-onto_first c (v ∷ vs) n b h =
      write_lines-first (c ∷ v) v vs n n b (record b { buffer = b.buffer ++ c ∷ [] })
        (write_lines-any_count vs) (write_piece-cons c v n b h)

  -- A piece that is a line end alone sends what waits.
  write_piece-newline :
      (n : ℕ) (b : Streaming E.Sink)
      → outcome (write_piece E (newline ∷ []) n b)
        ≡ send E (text_line b.buffer b.base.id) (reset E b)
  unfolding write_piece ends_line without_ending
  write_piece-newline n b = ground (arith, append-nil b.buffer)

  send-keeps_buffer :
      (l : Bytes) (b : Streaming E.Sink)
      → (send E (text_line l b.base.id) (reset E b)).1.buffer ≡ []
  unfolding send
  send-keeps_buffer l b = refl

  -- What waits in the buffer is for the lines to say.
  pub deliver-buffer :
      (ls : List Bytes) (rest w : Bytes) (b : Streaming E.Sink)
      → deliver ls rest (record b { buffer = w }) ≡ deliver ls rest b
  unfolding deliver
  deliver-buffer [] rest w b = refl
  deliver-buffer (l ∷ ls) rest w b = refl

  write_lines-line :
      (vs : List Bytes) (ls : List Bytes) (rest : Bytes) (n : ℕ) (b : Streaming E.Sink)
      → ((s : Streaming E.Sink)
          → s.buffer ≡ []
          → outcome (write_lines E vs 0 s) ≡ deliver ls rest s)
      → outcome (write_lines E ((newline ∷ []) ∷ vs) n b) ≡ deliver (b.buffer ∷ ls) rest b
  unfolding write_lines deliver
  write_lines-line vs ls rest n b same =
      let sent = send E (text_line b.buffer b.base.id) (reset E b) in
      let r = write_piece E (newline ∷ []) n b in
      ground (
        arith,
        write_piece-newline n b,
        write_lines-any_count vs r.n 0 sent.1,
        same sent.1 (send-keeps_buffer b.buffer b),
      )

  write_lines-nil :
      (n : ℕ) (b : Streaming E.Sink)
      → outcome (write_lines E ([] ∷ []) n b) ≡ deliver (cut b.buffer []).0 (cut b.buffer []).1 b
  unfolding write_lines write_piece cut deliver
  write_lines-nil n b = refl

  -- Whatever pieces SplitAfter makes of p, what is sent are the lines of p, the first one behind
  -- what waited, and what is left waits in turn.
  pub write_lines-eq-deliver :
      (p : Bytes) (n : ℕ) (b : Streaming E.Sink)
      → outcome (write_lines E (split_after p) n b)
        ≡ deliver (cut b.buffer p).0 (cut b.buffer p).1 b
  write_lines-eq-deliver [] n b = rw split_after-nil (write_lines-nil n b)
  write_lines-eq-deliver (c ∷ p) n b = elim (ℕ_discrete c newline) [
    | yes e ↦
        rw (split_after-newline c p e, cut-line b.buffer p c e)
          (write_lines-line (split_after p) (cut [] p).0 (cut [] p).1 n b (λ s h.
            write_lines-eq-deliver p 0 s ∙ ap (λ (w : Bytes). deliver (cut w p).0 (cut w p).1 s) h))
    | no h ↦
        rw (split_after-other c p h, cut-other b.buffer p c h)
          (write_lines-onto_first c (split_after p) n b h
            ∙ write_lines-eq-deliver p n (record b { buffer = b.buffer ++ c ∷ [] })
            ∙ deliver-buffer (cut (b.buffer ++ c ∷ []) p).0 (cut (b.buffer ++ c ∷ []) p).1
                (b.buffer ++ c ∷ []) b)
  ]
