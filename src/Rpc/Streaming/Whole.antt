-- ===== src/Rpc/Streaming/Whole.antt =====
-- What `Write` sends against its input (rupicolarpc/streaming.go).
use rupicola_go.Base.{false, ◌≤◌, ◌<◌, length, ◌∙◌, arith, Bytes, List, ◌++◌, ◌≡◌, All}
use rupicola_go.Rpc.Base.{Env}
use rupicola_go.Rpc.Streaming.{Streaming, write, write_header, write_body}
use rupicola_go.Rpc.Streaming.Lines.{
  cut, joined, joined-cut, NoNewline, cut-NoNewline, outcome, deliver,
}
use rupicola_go.Rpc.Streaming.Chunks.{deliver_chunks, Cut, Sends, Sends-any}
use rupicola_go.Rpc.Streaming.Append.{IsOpen, write-eq-deliver}

-- In line mode behind the header, a write sends objects whose lines, each with a line end, and what
-- then waits in the buffer are together what waited before and the bytes written, in order; no line
-- has a line end in it. What waited had none either.
pub write_lines_whole :
    (E : Env) (p : Bytes) (b : Streaming E.Sink)
    → IsOpen E b
    → NoNewline b.buffer
    → (ls : List Bytes) × (rest : Bytes) × (outcome (write E p b) ≡ deliver E ls rest b)
      × (joined ls rest ≡ b.buffer ++ p)
      × All NoNewline ls
      × NoNewline rest
write_lines_whole E p b h k =
    let (ls, rest) = cut b.buffer p in
    let (hs, hr) = cut-NoNewline b.buffer p k in
    (ls, rest, write-eq-deliver E p b h, joined-cut b.buffer p, hs, hr)

write-body :
    (E : Env) (p : Bytes) (b : Streaming E.Sink)
    → b.is_closed ≡ false
    → b.first_write ≡ false
    → outcome (write E p b) ≡ outcome (write_body E p b)
unfolding write write_header
write-body E p b h k = ground arith

-- In chunk mode behind the header, a write sends chunks of exactly the chunk size, and what then
-- waits in the buffer is at most a chunk; together they are what waited before and the bytes
-- written, in order. What waited was at most a chunk.
pub write_chunks_whole :
    (E : Env) (p : Bytes) (b : Streaming E.Sink)
    → b.is_closed ≡ false
    → b.first_write ≡ false
    → 0 < b.chunk_size
    → length b.buffer ≤ b.chunk_size
    → (cs : List Bytes) × (rest : Bytes) × (outcome (write E p b) ≡ deliver_chunks E cs rest b)
      × Cut E b.chunk_size (b.buffer ++ p) cs rest
unfolding Sends
write_chunks_whole E p b h k l held =
    let (cs, rest, same, cut) = Sends-any E b.buffer p b l held in
    (cs, rest, write-body E p b h k ∙ same, cut)
