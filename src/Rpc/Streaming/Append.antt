-- ===== src/Rpc/Streaming/Append.antt =====
-- The output in line mode does not depend on how it is divided into writes.
use rupicola_go.Base.{
  Bytes, List, [], ◌∷◌, ◌++◌, true, false, none, some, ◌≡◌, refl, sym, ap, ◌∙◌, arith, nat_eq,
  Bool-cases, inl, inr,
}
use rupicola_go.Rpc.Value.{text_line}
use rupicola_go.Rpc.Limit.{◌or_return◌, or_return-cong, or_return_assoc}
use rupicola_go.Rpc.Base.{Env}
use rupicola_go.Rpc.Streaming.{
  Streaming, send, reset, set_response_result, commit, write_header, write_body, write, eof,
}
use rupicola_go.Rpc.Streaming.Lines.{
  cut, cut-append, outcome, deliver, deliver-buffer, write_lines-eq-deliver,
}

module _ (E : Env) where
  -- Two responses that differ in what they hold and in how far their encoders are.
  record SameMode (b b' : Streaming E.Sink) : Type 0 where
    closed : b'.is_closed ≡ b.is_closed
    chunk : b'.chunk_size ≡ b.chunk_size
    first : b'.first_write ≡ b.first_write

  deliver-SameMode :
      (ls : List Bytes) (rest : Bytes) (b : Streaming E.Sink) → SameMode b (deliver E ls rest b).1
  unfolding deliver send
  deliver-SameMode [] rest b = ground arith
  deliver-SameMode (l ∷ ls) rest b =
      ground (arith, deliver-SameMode ls rest (send E (text_line l b.base.id) (reset E b)).1)

  deliver-rest :
      (ls : List Bytes) (rest : Bytes) (b : Streaming E.Sink)
      → (deliver E ls rest b).0 ≡ none
      → (deliver E ls rest b).1.buffer ≡ rest
  unfolding deliver
  deliver-rest [] rest b h = refl
  deliver-rest (l ∷ ls) rest b h =
      ground (arith, deliver-rest ls rest (send E (text_line l b.base.id) (reset E b)).1)

  deliver-append :
      (ls ms : List Bytes) (r s : Bytes) (b : Streaming E.Sink)
      → deliver E (ls ++ ms) s b ≡ (deliver E ls r b or_return deliver E ms s)
  unfolding deliver
  deliver-append [] ms r s b = sym (deliver-buffer E ms s r b)
  deliver-append (l ∷ ls) ms r s b =
      ground (arith, deliver-append ls ms r s (send E (text_line l b.base.id) (reset E b)).1)

  -- Line mode, behind the header.
  pub record IsOpen (b : Streaming E.Sink) : Type 0 where
    pub closed : b.is_closed ≡ false
    pub chunk : b.chunk_size ≡ 0
    pub first : b.first_write ≡ false

  pub write-eq-deliver :
      (p : Bytes) (b : Streaming E.Sink)
      → IsOpen b
      → outcome (write E p b) ≡ deliver E (cut b.buffer p).0 (cut b.buffer p).1 b
  unfolding write write_header write_body
  write-eq-deliver p b h = ground (arith, write_lines-eq-deliver E p 0 b)

  write-append_open :
      (p q : Bytes) (b : Streaming E.Sink)
      → IsOpen b
      → outcome (write E (p ++ q) b)
        ≡ (outcome (write E p b) or_return λ b'. outcome (write E q b'))
  write-append_open p q b h =
      let r = cut b.buffer p in
      let d = deliver E r.0 r.1 b in
      let m = deliver-SameMode r.0 r.1 b in
      rw (write-eq-deliver (p ++ q) b h, write-eq-deliver p b h, cut-append b.buffer p q)
        (deliver-append r.0 (cut r.1 q).0 r.1 (cut r.1 q).1 b
          ∙ or_return-cong d _ _ (λ e. sym (
              write-eq-deliver q d.1 (ground arith)
              ∙ ap (λ (w : Bytes). deliver E (cut w q).0 (cut w q).1 d.1)
                  (deliver-rest r.0 r.1 b e))))

  -- After the header has gone out, or failed.
  pub write_header-IsOpen :
      (b : Streaming E.Sink) → b.is_closed ≡ false → b.chunk_size ≡ 0 → IsOpen (write_header E b).1
  unfolding write_header set_response_result commit send
  write_header-IsOpen b h k = ground arith

  write_closed :
      (p : Bytes) (b : Streaming E.Sink)
      → b.is_closed ≡ true
      → outcome (write E p b) ≡ (some eof, b)
  unfolding write
  write_closed p b h = ground arith

  write_opened :
      (p : Bytes) (b : Streaming E.Sink)
      → b.is_closed ≡ false
      → outcome (write E p b) ≡ (write_header E b or_return λ b'. outcome (write_body E p b'))
  unfolding write
  write_opened p b h = ground arith

  write_header-open : (b : Streaming E.Sink) → IsOpen b → write_header E b ≡ (none, b)
  unfolding write_header
  write_header-open b h = ground arith

  pub write-eq-header :
      (p : Bytes) (b : Streaming E.Sink)
      → b.is_closed ≡ false
      → b.chunk_size ≡ 0
      → outcome (write E p b) ≡ (write_header E b or_return λ b'. outcome (write E p b'))
  write-eq-header p b h k =
      let header = write_header E b in
      let is_open = write_header-IsOpen b h k in
      write_opened p b h
      ∙ or_return-cong header _ _ (λ e.
        sym (write_opened p header.1 is_open.closed ∙ rw (write_header-open header.1 is_open)))

  -- In line mode the error and the state after one write of p ++ q are those after a write of p
  -- and, if that had no error, a write of q: the output does not depend on how it is cut into
  -- writes.
  pub write-append :
      (p q : Bytes) (b : Streaming E.Sink)
      → b.chunk_size ≡ 0
      → outcome (write E (p ++ q) b)
        ≡ (outcome (write E p b) or_return λ b'. outcome (write E q b'))
  write-append p q b h = elim (Bool-cases b.is_closed) [
    | inl shut ↦ rw (write_closed (p ++ q) b shut, write_closed p b shut)
    | inr opened ↦
        let header = write_header E b in
        rw (write-eq-header (p ++ q) b opened h, write-eq-header p b opened h)
          (or_return-cong header _ _
              (λ e. write-append_open p q header.1 (write_header-IsOpen b opened h))
            ∙ sym (or_return_assoc header _ _))
  ]
