-- ===== src/Rpc/Streaming/Chunks.antt =====
-- The chunk mode of `Write` against the bytes of its input (rupicolarpc/streaming.go).
use rupicola_go.Base.{
  ℕ, zero, suc, ◌+◌, ◌-◌, ◌%◌, ◌≤◌, ◌<◌, Bytes, List, [], ◌∷◌, ◌++◌, append_assoc, length,
  length-append, length-take, length-drop, take, drop, take-append-drop, flatten, true, false, none,
  ◌≡◌, ◌≢◌, refl, ap, ◌∙◌, arith, nat_eq, ltb, All, Bool-cases, inl, inr,
}
use native.Mathlib.Nat.{mod_self, mod-eq_of_lt}
use rupicola_go.Rpc.Value.{byte_line}
use rupicola_go.Rpc.Limit.{Outcome, ◌or_return◌, or_return-cong}
use rupicola_go.Rpc.Base.{Env}
use rupicola_go.Rpc.Streaming.{Streaming, send, reset, commit, write_chunks, write_body}
use rupicola_go.Rpc.Streaming.Lines.{outcome}

module _ (E : Env) where
  -- Each chunk is sent as an object of bytes, in order; the rest waits in the buffer.
  unfoldable pub deliver_chunks : List Bytes → Bytes → Streaming E.Sink → Outcome (Streaming E.Sink)
  deliver_chunks [] rest b = (none, record b { buffer = rest })
  deliver_chunks (c ∷ cs) rest b =
      send E (byte_line c b.base.id) (reset E b) or_return deliver_chunks cs rest

  -- The chunks and the rest of a text, for a chunk size.
  pub record Cut (size : ℕ) (p : Bytes) (cs : List Bytes) (rest : Bytes) : Type 0 where
    pub whole : flatten cs ++ rest ≡ p
    pub full : All (λ c. length c ≡ size) cs
    pub short : length rest ≤ size

  write_chunks-last :
      (fuel : ℕ) (p : Bytes) (n : ℕ) (b : Streaming E.Sink)
      → ltb b.chunk_size (length p) ≡ false
      → outcome (write_chunks E (suc fuel) p n (reset E b)) ≡ (none, record b { buffer = p })
  unfolding write_chunks
  write_chunks-last fuel p n b h = ground arith

  write_chunks-more :
      (fuel : ℕ) (p : Bytes) (n : ℕ) (b : Streaming E.Sink)
      → ltb b.chunk_size (length p) ≡ true
      → outcome (write_chunks E (suc fuel) p n (reset E b)) ≡ (
          send E (byte_line (take b.chunk_size p) b.base.id) (reset E b) or_return λ b'.
          outcome (write_chunks E fuel (drop b.chunk_size p) (n + b.chunk_size) b'))
  unfolding write_chunks
  write_chunks-more fuel p n b h = ground arith

  Cut-more :
      (size : ℕ) (p : Bytes) (cs : List Bytes) (rest : Bytes)
      → size < length p
      → Cut size (drop size p) cs rest
      → Cut size p (take size p ∷ cs) rest
  Cut-more size p cs rest long cut = record {
    whole =
        append_assoc (take size p) (flatten cs) rest
        ∙ ap (λ (q : Bytes). take size p ++ q) cut.whole
        ∙ take-append-drop size p;
    full = (omega (arith, length-take size p), cut.full);
    short = cut.short;
  }

  write_chunks-deliver :
      (fuel : ℕ) (p : Bytes) (n : ℕ) (b : Streaming E.Sink)
      → 0 < b.chunk_size
      → length p ≤ fuel
      → (cs : List Bytes) × (rest : Bytes) × (outcome (write_chunks E fuel p n (reset E b))
          ≡ deliver_chunks cs rest b)
        × Cut b.chunk_size p cs rest
  unfolding write_chunks deliver_chunks send
  write_chunks-deliver zero p n b h k =
      ([], p, refl, record { whole = refl; full = tt; short = omega arith })
  write_chunks-deliver (suc fuel) p n b h k = elim (Bool-cases (ltb b.chunk_size (length p))) [
    | inr e ↦ (
      [],
      p,
      write_chunks-last fuel p n b e,
      record { whole = refl; full = tt; short = ground arith },
    )
    | inl e ↦
        let size = b.chunk_size in
        let sent = send E (byte_line (take size p) b.base.id) (reset E b) in
        let long : size < length p = ground arith in
        let (cs, rest, same, cut) =
          write_chunks-deliver fuel (drop size p) (n + size) sent.1 h
            (omega (arith, length-drop size p)) in
        (
          take size p ∷ cs,
          rest,
          write_chunks-more fuel p n b e ∙ or_return-cong sent _ _ (λ _. same),
          Cut-more size p cs rest long cut,
        )
  ]

  -- The bytes that fill up what waits: none if nothing waits, and otherwise those missing.
  missing_bytes :
      (size held : ℕ) → held ≤ size → 0 < size → held ≢ 0 → held + (size - held) % size ≡ size
  missing_bytes size held h k l =
      omega (arith, mod-eq_of_lt {n = size - held} {m = size} (omega arith))

  no_missing : (size : ℕ) → (size - 0) % size ≡ 0
  no_missing size = ap (λ (n : ℕ). n % size) (omega arith) ∙ mod_self size

  abbrev missing : Bytes → Streaming E.Sink → ℕ
  missing held b = (b.chunk_size - length held) % b.chunk_size

  -- The branches of Write, for a response that holds some bytes.
  write_body-short :
      (held p : Bytes) (b : Streaming E.Sink)
      → length p + length held < b.chunk_size
      → outcome (write_body E p (record b { buffer = held }))
        ≡ (none, record b { buffer = held ++ p })
  unfolding write_body
  write_body-short held p b h = ground arith

  write_body-full :
      (held p : Bytes) (b : Streaming E.Sink)
      → 0 < b.chunk_size
      → b.chunk_size ≤ length p + length held
      → outcome (write_body E p (record b { buffer = held })) ≡ (
          commit E (record b { buffer = held ++ take (missing held b) p }) or_return λ b'.
          outcome (write_chunks E (length p) (drop (missing held b) p) (missing held b) b'))
  unfolding write_body
  write_body-full held p b h k = ground arith

  commit-chunk :
      (held : Bytes) (b : Streaming E.Sink)
      → 0 < b.chunk_size
      → 0 < length held
      → commit E (record b { buffer = held }) ≡ send E (byte_line held b.base.id) (reset E b)
  unfolding commit send
  commit-chunk held b h k = ground arith

  -- What is sent, for all branches.
  unfoldable pub Sends : Bytes → Bytes → Streaming E.Sink → Type 0
  Sends held p b =
      (cs : List Bytes) × (rest : Bytes) × (outcome (write_body E p (record b { buffer = held }))
        ≡ deliver_chunks cs rest b)
      × Cut b.chunk_size (held ++ p) cs rest

  Sends-short :
      (held p : Bytes) (b : Streaming E.Sink)
      → length p + length held < b.chunk_size
      → Sends held p b
  unfolding Sends deliver_chunks
  Sends-short held p b h = (
    [],
    held ++ p,
    write_body-short held p b h,
    record { whole = refl; full = tt; short = omega (arith, length-append held p) },
  )

  Sends-empty :
      (p : Bytes) (b : Streaming E.Sink)
      → 0 < b.chunk_size
      → b.chunk_size ≤ length p + 0
      → Sends [] p b
  unfolding Sends commit
  Sends-empty p b h k =
      let (cs, rest, same, cut) = write_chunks-deliver (length p) p 0 b h (omega arith) in
      (
        cs,
        rest,
        write_body-full [] p b h k
            ∙ ap
                (λ (n : ℕ). commit E (record b { buffer = take n p }) or_return λ b'.
                  outcome (write_chunks E (length p) (drop n p) n b'))
                (no_missing b.chunk_size)
            ∙ same,
        cut,
      )

  Sends-held :
      (held p : Bytes) (b : Streaming E.Sink)
      → 0 < b.chunk_size
      → 0 < length held
      → length held ≤ b.chunk_size
      → b.chunk_size ≤ length p + length held
      → Sends held p b
  unfolding Sends deliver_chunks send
  Sends-held held p b h l k full =
      let n = missing held b in
      let filled = held ++ take n p in
      let size : length filled ≡ b.chunk_size = omega (
        arith,
        length-append held (take n p),
        length-take n p,
        missing_bytes b.chunk_size (length held) k h (λ e. omega (arith, e)),
      ) in
      let sent = send E (byte_line filled b.base.id) (reset E b) in
      let (cs, rest, same, cut) =
        write_chunks-deliver (length p) (drop n p) n sent.1 h (omega (arith, length-drop n p)) in
      (
        filled ∷ cs,
        rest,
        write_body-full held p b h full
            ∙ ap
                (λ (o : Outcome (Streaming E.Sink)).
                  o or_return λ b'. outcome (write_chunks E (length p) (drop n p) n b'))
                (commit-chunk filled b h (omega (arith, size)))
            ∙ or_return-cong sent _ _ (λ _. same),
        record {
          whole =
              append_assoc filled (flatten cs) rest
              ∙ ap (λ (q : Bytes). filled ++ q) cut.whole
              ∙ append_assoc held (take n p) (drop n p)
              ∙ ap (λ (q : Bytes). held ++ q) (take-append-drop n p);
          full = (size, cut.full);
          short = cut.short;
        },
      )

  Sends-full :
      (held p : Bytes) (b : Streaming E.Sink)
      → 0 < b.chunk_size
      → length held ≤ b.chunk_size
      → b.chunk_size ≤ length p + length held
      → Sends held p b
  Sends-full [] p b h k full = Sends-empty p b h full
  Sends-full (x ∷ held) p b h k full = Sends-held (x ∷ held) p b h (omega arith) k full

  pub Sends-any :
      (held p : Bytes) (b : Streaming E.Sink)
      → 0 < b.chunk_size
      → length held ≤ b.chunk_size
      → Sends held p b
  Sends-any held p b h k = elim (Bool-cases (ltb (length p + length held) b.chunk_size)) [
    | inl e ↦ Sends-short held p b (ground arith)
    | inr e ↦ Sends-full held p b h k (ground arith)
  ]
