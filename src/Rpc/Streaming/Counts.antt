-- ===== src/Rpc/Streaming/Counts.antt =====
-- The number of bytes that `Write` reports (rupicolarpc/streaming.go).
use rupicola_go.Base.{
  ℕ, zero, suc, ◌+◌, ◌-◌, ◌%◌, ◌≤◌, ◌<◌, Bytes, List, [], ◌∷◌, length, take, drop, ◌++◌,
  length-drop, length-append, none, ◌≡◌, refl, arith, ◌⊎◌, nat_eq,
}
use native.Mathlib.Nat.{mod-le}
use rupicola_go.Rpc.Value.{byte_line}
use rupicola_go.Rpc.Base.{Env}
use rupicola_go.Rpc.Streaming.{
  Streaming, split_after, onto_first, write_piece, write_lines, write_chunks, write_body,
  write_header, write, commit, send, set_response_result,
}

abbrev total : List Bytes → ℕ
total [] = 0
total (v ∷ vs) = length v + total vs

total-onto_first : (c : ℕ) (vs : List Bytes) → total (onto_first c vs) ≡ suc (total vs)
total-onto_first c [] = refl
total-onto_first c (v ∷ vs) = omega arith

total-split_after : (p : Bytes) → total (split_after p) ≡ length p
unfolding split_after
total-split_after [] = refl
total-split_after (c ∷ p) = ground (arith, total-split_after p, total-onto_first c (split_after p))

-- In chunk mode no more than a chunk waits in the buffer.
abbrev pub FitsChunk : {S : Type 0} → Streaming S → Type 0
FitsChunk b = (b.chunk_size ≡ 0) ⊎ (length b.buffer ≤ b.chunk_size)

module _ (E : Env) where
  write_piece_count :
      (v : Bytes) (n : ℕ) (b : Streaming E.Sink)
      → (write_piece E v n b).err ≡ none
      → (write_piece E v n b).n ≡ n + length v
  unfolding write_piece
  write_piece_count v n b h = ground arith

  write_lines_count :
      (vs : List Bytes) (n : ℕ) (b : Streaming E.Sink)
      → (write_lines E vs n b).err ≡ none
      → (write_lines E vs n b).n ≡ n + total vs
  unfolding write_lines
  write_lines_count [] n b h = omega arith
  write_lines_count (v ∷ vs) n b h =
      let r = write_piece E v n b in
      ground (arith, write_piece_count v n b, write_lines_count vs r.n r.sink)

  write_chunks_count :
      (fuel : ℕ) (p : Bytes) (n : ℕ) (b : Streaming E.Sink)
      → (write_chunks E fuel p n b).err ≡ none
      → (write_chunks E fuel p n b).n ≡ n + length p
  unfolding write_chunks
  write_chunks_count zero p n b h = refl
  write_chunks_count (suc fuel) p n b h =
      let sent = send E (byte_line (take b.chunk_size p) b.base.id) b in
      ground (
        arith,
        length-drop b.chunk_size p,
        write_chunks_count fuel (drop b.chunk_size p) (n + b.chunk_size) sent.1,
      )

  write_body_count :
      (p : Bytes) (b : Streaming E.Sink)
      → FitsChunk b
      → (write_body E p b).err ≡ none
      → (write_body E p b).n ≡ length p
  unfolding write_body
  write_body_count p b h k =
      let missing = (b.chunk_size - length b.buffer) % b.chunk_size in
      let sent = commit E (record b { buffer = b.buffer ++ take missing p }) in
      ground (
        arith,
        mod-le (b.chunk_size - length b.buffer) b.chunk_size,
        length-drop missing p,
        write_lines_count (split_after p) 0 b,
        total-split_after p,
        write_chunks_count (length p) (drop missing p) missing sent.1,
      )

  write_header-keeps : (b : Streaming E.Sink) → FitsChunk b → FitsChunk (write_header E b).1
  unfolding write_header set_response_result commit send
  write_header-keeps b h = ground arith

  -- A streaming write without an error reports the whole length of its input, in line mode and in
  -- chunk mode. In chunk mode no more than a chunk waits in the buffer.
  pub write_count :
      (p : Bytes) (b : Streaming E.Sink)
      → FitsChunk b
      → (write E p b).err ≡ none
      → (write E p b).n ≡ length p
  unfolding write
  write_count p b h k =
      ground (arith, write_header-keeps b h, write_body_count p (write_header E b).1)

  commit-empty :
      (b : Streaming E.Sink)
      → ((commit E b).1.chunk_size ≡ b.chunk_size) × (length (commit E b).1.buffer ≡ 0)
  unfolding commit send
  commit-empty b = ground arith

  write_chunks-FitsChunk :
      (fuel : ℕ) (p : Bytes) (n : ℕ) (b : Streaming E.Sink)
      → 0 < b.chunk_size
      → length b.buffer ≡ 0
      → length p ≤ fuel
      → FitsChunk (write_chunks E fuel p n b).sink
  unfolding write_chunks send
  write_chunks-FitsChunk zero p n b c h k = ground (arith, length-append b.buffer p)
  write_chunks-FitsChunk (suc fuel) p n b c h k =
      let sent = send E (byte_line (take b.chunk_size p) b.base.id) b in
      ground (
        arith,
        length-append b.buffer p,
        length-drop b.chunk_size p,
        write_chunks-FitsChunk fuel (drop b.chunk_size p) (n + b.chunk_size) sent.1,
      )

  pub write_lines-keeps :
      (vs : List Bytes) (n : ℕ) (b : Streaming E.Sink)
      → (write_lines E vs n b).sink.chunk_size ≡ b.chunk_size
  unfolding write_lines write_piece send
  write_lines-keeps [] n b = refl
  write_lines-keeps (v ∷ vs) n b =
      let r = write_piece E v n b in ground (arith, write_lines-keeps vs r.n r.sink)

  write_body-FitsChunk :
      (p : Bytes) (b : Streaming E.Sink) → FitsChunk b → FitsChunk (write_body E p b).sink
  unfolding write_body
  write_body-FitsChunk p b h =
      let missing = (b.chunk_size - length b.buffer) % b.chunk_size in
      let filled : Streaming E.Sink = record b { buffer = b.buffer ++ take missing p } in
      ground (
        arith,
        length-append b.buffer p,
        length-drop missing p,
        write_lines-keeps (split_after p) 0 b,
        commit-empty filled,
        write_chunks-FitsChunk (length p) (drop missing p) missing (commit E filled).1,
      )

  -- Every streaming write, whether or not it fails, keeps it that in chunk mode no more than a
  -- chunk waits in the buffer.
  pub write-FitsChunk :
      (p : Bytes) (b : Streaming E.Sink) → FitsChunk b → FitsChunk (write E p b).sink
  unfolding write
  write-FitsChunk p b h =
      ground (arith, write_header-keeps b h, write_body-FitsChunk p (write_header E b).1)
