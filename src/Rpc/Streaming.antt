-- ===== src/Rpc/Streaming.antt =====
-- `streamingResponse` (rupicolarpc/streaming.go): each line of the output as one JSON object,
-- between a header and a footer; or, with a chunk size, each chunk.
pub mod Lines
pub mod Append
pub mod Whole
pub mod Counts
pub mod Chunks
pub mod Final
pub mod Objects
use rupicola_go.Base.{
  ℕ, zero, suc, ◌+◌, ◌-◌, ◌%◌, Bytes, List, [], ◌∷◌, ◌++◌, length, take, drop, Bool, true, false,
  not, Option, none, some, lit, ltb, ◌==◌, nat_eq, if◌then◌else◌,
}
use rupicola_go.Base.Int.{ℤ, pos}
use rupicola_go.Rpc.Value.{Any, text, GoError, other, Envelope, text_line, byte_line, version20s}
use rupicola_go.Rpc.Errors.{new_error_ex, new_result_ex}
use rupicola_go.Rpc.Limit.{Wrote, Write, Outcome, ◌or_return◌, exceptional_limit_write}
use rupicola_go.Rpc.Base.{Env, Response, new_base_response, max_response, encode_response}

pub record Streaming (T : Type 0) : Type 0 where
  pub base : Response T
  pub buffer : Bytes
  pub chunk_size : ℕ
  pub first_write : Bool
  pub is_closed : Bool

abbrev pub newline : ℕ
newline = 10

abbrev pub eof : GoError
eof = other (lit "EOF")

-- bytes.SplitAfter(p, "\n"): the pieces end with their line end, and the last piece has none.
abbrev pub onto_first : ℕ → List Bytes → List Bytes
onto_first c [] = (c ∷ []) ∷ []
onto_first c (piece ∷ pieces) = (c ∷ piece) ∷ pieces

unfoldable pub split_after : Bytes → List Bytes
split_after [] = [] ∷ []
split_after (c ∷ p) =
    let pieces = split_after p in if c == newline then (c ∷ []) ∷ pieces else onto_first c pieces

-- v[len(v)-1] == '\n', and v[:len(v)-1], of a v that is not empty.
unfoldable pub ends_line : Bytes → Bool
ends_line [] = false
ends_line (c ∷ []) = c == newline
ends_line (c ∷ d ∷ v) = ends_line (d ∷ v)

unfoldable pub without_ending : Bytes → Bytes
without_ending [] = []
without_ending (c ∷ []) = []
without_ending (c ∷ d ∷ v) = c ∷ without_ending (d ∷ v)

module _ (E : Env) where
  unfoldable pub new_streaming_response : E.Sink → ℕ → Streaming E.Sink
  unfolding new_base_response exceptional_limit_write
  new_streaming_response writer n = record {
    base = new_base_response (exceptional_limit_write writer (pos 0));
    buffer = [];
    chunk_size = n;
    first_write = true;
    is_closed = false;
  }

  -- b.encoder.Encode(v)
  unfoldable pub send : Envelope → Streaming E.Sink → Outcome (Streaming E.Sink)
  unfolding encode_response
  send v b =
      let (err, base) = encode_response E.marshal E.write v b.base in
      (err, record b { base = base })

  abbrev pub reset : Streaming E.Sink → Streaming E.Sink
  reset b = record b { buffer = [] }

  unfoldable pub commit : Streaming E.Sink → Outcome (Streaming E.Sink)
  unfolding send
  commit b =
      if length b.buffer == 0
      then (none, b)
      else let line =
          if b.chunk_size == 0
          then text_line b.buffer b.base.id
          else byte_line b.buffer b.base.id in
        let (err, b') = send line b in (err, reset b')

  unfoldable pub set_response_result : Any → Streaming E.Sink → Outcome (Streaming E.Sink)
  unfolding commit new_result_ex
  set_response_result r b =
      if b.is_closed
      then (none, b)
      else (commit b or_return λ b'. send (new_result_ex r b'.base.id version20s) b')

  unfoldable pub close : Streaming E.Sink → Outcome (Streaming E.Sink)
  unfolding set_response_result
  close b = commit b or_return λ b'.
      let (err, b'') =
        if b'.is_closed then (none, b') else set_response_result (text (lit "Done")) b' in
      (err, record b'' { is_closed = true })

  -- The deferred Close follows the Close whose error is returned; its own error is dropped.
  finish_error : Outcome (Streaming E.Sink) → Outcome (Streaming E.Sink)
  unfolding close
  finish_error (some e, b) = (some e, (close b).1)
  finish_error (none, b) = let (err, b') = close b in (err, (close b').1)

  unfoldable pub set_response_error : GoError → Streaming E.Sink → Outcome (Streaming E.Sink)
  unfolding finish_error commit new_error_ex max_response
  set_response_error e b =
      if b.is_closed
      then (none, b)
      else (commit b or_return λ b'. finish_error (
          send (new_error_ex e b'.base.id version20s)
            (record b' { base = max_response (pos 0) b'.base; is_closed = true })))

  -- One piece of the loop over the lines; n counts the bytes taken so far.
  unfoldable pub write_piece : Bytes → ℕ → Streaming E.Sink → Wrote (Streaming E.Sink)
  unfolding send ends_line without_ending
  write_piece v n b =
      if length v == 0
      then record { n = n; err = none; sink = b }
      else if ends_line v
      then (let (err, b') = send (text_line (b.buffer ++ without_ending v) b.base.id) (reset b) in
          record { n = elim err [ none ↦ n + length v | some e ↦ n ]; err = err; sink = b' })
      else record { n = n + length v; err = none; sink = record b { buffer = b.buffer ++ v } }

  unfoldable pub write_lines : List Bytes → ℕ → Streaming E.Sink → Wrote (Streaming E.Sink)
  write_lines [] n b = record { n = n; err = none; sink = b }
  write_lines (v ∷ vs) n b =
      let r = write_piece v n b in elim r.err [ some e ↦ r | none ↦ write_lines vs r.n r.sink ]

  -- The loop `for ; chunk+b.chunkSize < len(p); chunk += b.chunkSize`, over the bytes that are left,
  -- and the buffering of the last of them. Each round takes chunk_size > 0 bytes of them, so their
  -- number is fuel enough.
  unfoldable pub write_chunks : ℕ → Bytes → ℕ → Streaming E.Sink → Wrote (Streaming E.Sink)
  unfolding send
  write_chunks zero p n b = record {
    n = n + length p;
    err = none;
    sink = record b { buffer = b.buffer ++ p };
  }
  write_chunks (suc fuel) p n b = elim (ltb b.chunk_size (length p)) [
    | true ↦
        let (err, b') = send (byte_line (take b.chunk_size p) b.base.id) b in
        elim err [
          | some e ↦ record { n = n + b.chunk_size; err = some e; sink = b' }
          | none ↦ write_chunks fuel (drop b.chunk_size p) (n + b.chunk_size) b'
        ]
    | false ↦ record { n = n + length p; err = none; sink = record b { buffer = b.buffer ++ p } }
  ]

  -- The branches of Write by the chunk size, after the header.
  unfoldable pub write_body : Bytes → Streaming E.Sink → Wrote (Streaming E.Sink)
  write_body p b =
      if b.chunk_size == 0
      then write_lines (split_after p) 0 b
      else if ltb (length p + length b.buffer) b.chunk_size
      then record { n = length p; err = none; sink = record b { buffer = b.buffer ++ p } }
      else let missing = (b.chunk_size - length b.buffer) % b.chunk_size in
        let (err, b') = commit (record b { buffer = b.buffer ++ take missing p }) in
        elim err [
          | some e ↦ record { n = missing; err = some e; sink = b' }
          | none ↦ write_chunks (length p) (drop missing p) missing b'
        ]

  -- The first write sends the header before anything else.
  unfoldable pub write_header : Streaming E.Sink → Outcome (Streaming E.Sink)
  unfolding set_response_result
  write_header b =
      if b.first_write
      then (let (err, b') = set_response_result (text (lit "OK")) b in
          (err, record b' { first_write = false }))
      else (none, b)

  unfoldable pub write : Write (Streaming E.Sink)
  write p b =
      if b.is_closed
      then record { n = 0; err = some eof; sink = b }
      else let (err, b') = write_header b in
        elim err [ some e ↦ record { n = 0; err = some e; sink = b' } | none ↦ write_body p b' ]
