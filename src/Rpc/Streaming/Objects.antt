-- ===== src/Rpc/Streaming/Objects.antt =====
-- All that a stream in line mode sends, from its first write to its Close
-- (rupicolarpc/streaming.go).
use mathlib.Core.Path.{subst}
use rupicola_go.Base.{
  ℕ, Bytes, String, lit, List, [], ◌∷◌, ◌++◌, true, false, Option, none, some, ◌≡◌, refl, sym, ap,
  ◌∙◌, arith, nat_eq,
}
use rupicola_go.Rpc.Value.{Any, text, Envelope, text_line, version20s}
use rupicola_go.Rpc.Errors.{new_result_ex}
use rupicola_go.Rpc.Limit.{Outcome, ◌or_return◌, or_return_assoc}
use rupicola_go.Rpc.Base.{Env, Response, encode_response}
use rupicola_go.Rpc.Streaming.{
  Streaming, send, reset, commit, set_response_result, close, write, write_header,
}
use rupicola_go.Rpc.Streaming.Lines.{cut, outcome, deliver}
use rupicola_go.Rpc.Streaming.Append.{write-eq-deliver, write-eq-header, write_header-IsOpen}

-- One object for each line, one for what follows the last line end, if there is something.
abbrev pub line_objects : Option Any → List Bytes → Bytes → List Envelope
line_objects id [] [] = []
line_objects id [] (c ∷ rest) = text_line (c ∷ rest) id ∷ []
line_objects id (l ∷ ls) rest = text_line l id ∷ line_objects id ls rest

abbrev pub marker : String → Option Any → Envelope
marker word id = new_result_ex (text (lit word)) id version20s

-- The header, the lines of an output, and the footer.
abbrev pub stream_objects : Option Any → Bytes → List Envelope
stream_objects id p =
    marker "OK" id ∷ line_objects id (cut [] p).0 (cut [] p).1 ++ marker "Done" id ∷ []

module _ (E : Env) where
  -- The objects one after the other, up to the first error.
  unfoldable pub encode_all : List Envelope → Response E.Sink → Outcome (Response E.Sink)
  encode_all [] base = (none, base)
  encode_all (v ∷ vs) base = encode_response E.marshal E.write v base or_return encode_all vs

  -- The same error, and the same base behind it.
  abbrev pub Follows : Outcome (Streaming E.Sink) → Outcome (Response E.Sink) → Type 0
  Follows o q = (o.0 ≡ q.0) × (o.1.base ≡ q.1)

  or_return-Follows :
      (o : Outcome (Streaming E.Sink)) (q : Outcome (Response E.Sink))
      (f : Streaming E.Sink → Outcome (Streaming E.Sink))
      (g : Response E.Sink → Outcome (Response E.Sink))
      → Follows o q
      → (o.0 ≡ none → Follows (f o.1) (g q.1))
      → Follows (o or_return f) (q or_return g)
  or_return-Follows (none, b) (none, base) f g h k = k refl
  or_return-Follows (some e, b) (some e', base) f g h k = h
  or_return-Follows (none, b) (some e', base) f g h k = cc h.0
  or_return-Follows (some e, b) (none, base) f g h k = cc h.0

  send-Follows :
      (v : Envelope) (b : Streaming E.Sink)
      → Follows (send E v b) (encode_response E.marshal E.write v b.base)
  unfolding send
  send-Follows v b = (refl, refl)

  send-id : (v : Envelope) (b : Streaming E.Sink) → (send E v b).1.base.id ≡ b.base.id
  unfolding send encode_response
  send-id v b = refl

  encode_all-one :
      (v : Envelope) (base : Response E.Sink)
      → encode_all (v ∷ []) base ≡ encode_response E.marshal E.write v base
  unfolding encode_all
  encode_all-one v base = ground arith

  encode_all-append :
      (vs ws : List Envelope) (base : Response E.Sink)
      → encode_all (vs ++ ws) base ≡ (encode_all vs base or_return encode_all ws)
  unfolding encode_all
  encode_all-append [] ws base = refl
  encode_all-append (v ∷ vs) ws base =
      ground (arith, encode_all-append vs ws (encode_response E.marshal E.write v base).1)

  -- The footer, where nothing waits.
  done-Follows :
      (b : Streaming E.Sink)
      → b.is_closed ≡ false
      → b.buffer ≡ []
      → Follows (close E b) (encode_response E.marshal E.write (marker "Done" b.base.id) b.base)
  unfolding close set_response_result commit send
  done-Follows b h k = ground arith

  -- What waits, and then the footer.
  rest-Follows :
      (b : Streaming E.Sink) (c : ℕ) (rest : Bytes)
      → b.is_closed ≡ false
      → b.chunk_size ≡ 0
      → b.buffer ≡ c ∷ rest
      → Follows (close E b) (
          encode_response E.marshal E.write (text_line (c ∷ rest) b.base.id) b.base
          or_return encode_response E.marshal E.write (marker "Done" b.base.id))
  unfolding close set_response_result commit send encode_response
  rest-Follows b c rest h z k = ground arith

  close-Follows :
      (b : Streaming E.Sink) (rest : Bytes)
      → b.is_closed ≡ false
      → b.chunk_size ≡ 0
      → b.buffer ≡ rest
      → Follows
          (close E b)
          (encode_all (line_objects b.base.id [] rest ++ marker "Done" b.base.id ∷ []) b.base)
  unfolding encode_all
  close-Follows b [] h z k = ground (arith, done-Follows b h k)
  close-Follows b (c ∷ rest) h z k = ground (arith, rest-Follows b c rest h z k)

  lines-Follows :
      (ls : List Bytes) (rest : Bytes) (b : Streaming E.Sink)
      → b.is_closed ≡ false
      → b.chunk_size ≡ 0
      → Follows
          (deliver E ls rest b or_return close E)
          (encode_all (line_objects b.base.id ls rest ++ marker "Done" b.base.id ∷ []) b.base)
  unfolding deliver encode_all send encode_response
  lines-Follows [] rest b h z = close-Follows (record b { buffer = rest }) rest h z refl
  lines-Follows (l ∷ ls) rest b h z =
      let sent = send E (text_line l b.base.id) (reset E b) in
      rw (or_return_assoc sent (deliver E ls rest) (close E)) (
        or_return-Follows sent (encode_response E.marshal E.write (text_line l b.base.id) b.base)
          (λ s. deliver E ls rest s or_return close E)
          (encode_all (line_objects b.base.id ls rest ++ marker "Done" b.base.id ∷ [])) (refl, refl)
          (λ e. lines-Follows ls rest sent.1 h z))

  -- A new stream in line mode.
  pub record IsNew (b : Streaming E.Sink) : Type 0 where
    pub closed : b.is_closed ≡ false
    pub chunk : b.chunk_size ≡ 0
    pub first : b.first_write ≡ true
    pub buffer : b.buffer ≡ []

  header-Follows :
      (b : Streaming E.Sink)
      → IsNew b
      → Follows
          (write_header E b)
          (encode_response E.marshal E.write (marker "OK" b.base.id) b.base)
        × ((write_header E b).1.buffer ≡ [])
        × ((write_header E b).1.base.id ≡ b.base.id)
  unfolding write_header set_response_result commit send encode_response
  header-Follows b new = ground arith

  pub write_close-Follows :
      (p : Bytes) (b : Streaming E.Sink)
      → IsNew b
      → Follows
          (outcome (write E p b) or_return close E)
          (encode_all (stream_objects b.base.id p) b.base)
  unfolding encode_all
  write_close-Follows p b new =
      let header = write_header E b in
      let first = header-Follows b new in
      let is_open = write_header-IsOpen E b new.closed new.chunk in
      let delivered : outcome (write E p header.1) ≡ deliver E (cut [] p).0 (cut [] p).1 header.1 =
        write-eq-deliver E p header.1 is_open
        ∙ ap (λ (w : Bytes). deliver E (cut w p).0 (cut w p).1 header.1) first.1 in
      let lines = lines-Follows (cut [] p).0 (cut [] p).1 header.1 is_open.closed is_open.chunk in
      let rest =
        λ (id : Option Any). line_objects id (cut [] p).0 (cut [] p).1 ++ marker "Done" id ∷ [] in
      let written =
        subst
          (λ (o : Outcome (Streaming E.Sink)).
            Follows (o or_return close E) (encode_all (rest header.1.base.id) header.1.base))
          (sym delivered) lines in
      let named =
        subst
          (λ (id : Option Any).
            Follows (outcome (write E p header.1) or_return close E)
              (encode_all (rest id) header.1.base))
          first.2 written in
      let rebased =
        subst
          (λ (base : Response E.Sink).
            Follows (outcome (write E p header.1) or_return close E)
              (encode_all (rest b.base.id) base))
          first.0.1 named in
      rw (write-eq-header E p b new.closed new.chunk) (
        rw (or_return_assoc header (λ b'. outcome (write E p b')) (close E)) (
          or_return-Follows header
            (encode_response E.marshal E.write (marker "OK" b.base.id) b.base)
            (λ b'. outcome (write E p b') or_return close E)
            (encode_all
              (line_objects b.base.id (cut [] p).0 (cut [] p).1 ++ marker "Done" b.base.id ∷ []))
            first.0 (λ e. rebased)))
