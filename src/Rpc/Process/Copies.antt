-- ===== src/Rpc/Process/Copies.antt =====
-- The copy of an output into a stream in line mode: it is one write of the whole output
-- (rupicolarpc/rupicolarpc.go, streaming.go).
use rupicola_go.Base.{
  ℕ, Bytes, List, [], ◌∷◌, ◌++◌, append-nil, flatten, none, some, ◌≡◌, ◌≢◌, ◌⊎◌, inl, inr, refl,
  sym, ap, ◌∙◌, arith, nat_eq,
}
use rupicola_go.Rpc.Limit.{Outcome, ◌or_return◌}
use rupicola_go.Rpc.Base.{Env}
use rupicola_go.Rpc.Streaming.{
  Streaming, send, commit, set_response_result, write, write_header, write_body, split_after,
}
use rupicola_go.Rpc.Streaming.Lines.{outcome}
use rupicola_go.Rpc.Streaming.Append.{write-append}
use rupicola_go.Rpc.Streaming.Counts.{write_count, write_lines-keeps}
use rupicola_go.Rpc.Responser
use rupicola_go.Rpc.Responser.{Responser, streaming, copy_chunk, copy_chunks}

or_return-end : {S : Type 0} (m : Outcome S) → (m or_return λ s. (none, s)) ≡ m
or_return-end (none, s) = refl
or_return-end (some e, s) = refl

module _ (E : Env) where
  abbrev pub as_streaming : Outcome (Streaming E.Sink) → Outcome (Responser E)
  as_streaming (e, b) = (e, streaming b)

  as_streaming-or_return :
      (m : Outcome (Streaming E.Sink)) (f : Streaming E.Sink → Outcome (Streaming E.Sink))
      (g : Responser E → Outcome (Responser E))
      → (m.0 ≡ none → g (streaming m.1) ≡ as_streaming (f m.1))
      → (as_streaming m or_return g) ≡ as_streaming (m or_return f)
  as_streaming-or_return (none, b) f g h = h refl
  as_streaming-or_return (some e, b) f g h = refl

  write-chunk_size :
      (p : Bytes) (b : Streaming E.Sink) → b.chunk_size ≡ 0 → (write E p b).sink.chunk_size ≡ 0
  unfolding write write_header set_response_result commit send write_body
  write-chunk_size p b h =
      let opened = (write_header E b).1 in
      ground (arith, write_lines-keeps E (split_after p) 0 opened)

  copy_chunk-write :
      (x : ℕ) (c : Bytes) (b : Streaming E.Sink)
      → b.chunk_size ≡ 0
      → copy_chunk E (x ∷ c) (streaming b) ≡ as_streaming (outcome (write E (x ∷ c) b))
  unfolding copy_chunk Responser.write
  copy_chunk-write x c b h = ground (arith, write_count E (x ∷ c) b)

  copy_chunks-empty :
      (cs : List Bytes) (s : Responser E) → flatten cs ≡ [] → copy_chunks E cs s ≡ (none, s)
  unfolding copy_chunks copy_chunk
  copy_chunks-empty [] s h = refl
  copy_chunks-empty ([] ∷ cs) s h = copy_chunks-empty cs s h
  copy_chunks-empty ((x ∷ c) ∷ cs) s h = cc

  empty_or : (p : Bytes) → (p ≡ []) ⊎ (p ≢ [])
  empty_or [] = inl refl
  empty_or (x ∷ p) = inr (λ e. cc)

  pub copy_chunks-write :
      (cs : List Bytes) (b : Streaming E.Sink)
      → b.chunk_size ≡ 0
      → flatten cs ≢ []
      → copy_chunks E cs (streaming b) ≡ as_streaming (outcome (write E (flatten cs) b))
  unfolding copy_chunks copy_chunk
  copy_chunks-write [] b h ne = absurd (ne refl)
  copy_chunks-write ([] ∷ cs) b h ne = copy_chunks-write cs b h ne
  copy_chunks-write ((x ∷ c) ∷ cs) b h ne =
      let m = outcome (write E (x ∷ c) b) in
      let first =
        ap (λ (o : Outcome (Responser E)). o or_return copy_chunks E cs)
          (copy_chunk-write x c b h) in
      elim (empty_or (flatten cs)) [
        | inl nothing ↦
            first
            ∙ as_streaming-or_return m (λ b'. (none, b')) (copy_chunks E cs)
                (λ e. copy_chunks-empty cs (streaming m.1) nothing)
            ∙ ap as_streaming (or_return-end m)
            ∙ ap (λ (p : Bytes). as_streaming (outcome (write E p b)))
                (sym (append-nil (x ∷ c)) ∙ ap (λ (q : Bytes). x ∷ c ++ q) (sym nothing))
        | inr more ↦
            first
            ∙ as_streaming-or_return m (λ b'. outcome (write E (flatten cs) b')) (copy_chunks E cs)
                (λ e. copy_chunks-write cs m.1 (write-chunk_size (x ∷ c) b h) more)
            ∙ ap as_streaming (sym (write-append E (x ∷ c) (flatten cs) b h))
      ]
