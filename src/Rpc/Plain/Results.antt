-- ===== src/Rpc/Plain/Results.antt =====
-- How the output of a method is gathered for a plain RPC response (rupicolarpc/rpcresponse.go).
use rupicola_go.Base.{
  ℕ, ◌-◌, ◌≤◌, ◌<◌, Bytes, List, [], ◌∷◌, ◌++◌, length, length-append, append-nil, append_assoc,
  flatten, false, Option, none, some, ◌≡◌, refl, arith, ◌∙◌, ap, sym,
}
use rupicola_go.Rpc.Value.{Any, rpc}
use rupicola_go.Rpc.Errors.{new_result, err_limit_exceed}
use rupicola_go.Rpc.Base.{Env}
use rupicola_go.Rpc.Limit.{Outcome, ◌or_return◌}
use rupicola_go.Rpc.Plain
use rupicola_go.Rpc.Plain.{Plain, buffer}
use rupicola_go.Rpc.Plain.Answers.{IsPending}
use rupicola_go.Rpc.Responser
use rupicola_go.Rpc.Responser.{Responser, plain, copy_chunk, copy_chunks}

-- No result is set, and `text` is written, with `room` left.
pub record Holds {T : Type 0} (out : T) (id : Option Any) (room : ℕ) (text : Bytes) (b : Plain T)
    : Type 0 where
  pub pending : IsPending out id b
  pub unset : b.base.result_set ≡ false
  pub clean : b.base.failed ≡ none
  pub left : b.base.limiter.room ≡ room
  pub held : b.base.limiter.sink ≡ text

module _ (E : Env) (out : E.Sink) (id : Option Any) where
  write-Holds :
      (p : Bytes) (room : ℕ) (text : Bytes) (b : Plain E.Sink)
      → Holds out id room text b
      → 0 < length p
      → length p ≤ room
      → ((Plain.write E p b).err ≡ none)
        × ((Plain.write E p b).n ≡ length p)
        × Holds out id (room - length p) (text ++ p) (Plain.write E p b).sink
  unfolding Plain.write
  write-Holds p room text b h l fits = (ground arith, ground arith, ground arith)

  pub Holds-same :
      (room room' : ℕ) (text text' : Bytes) (b : Plain E.Sink)
      → room ≡ room'
      → text ≡ text'
      → Holds out id room text b
      → Holds out id room' text' b
  Holds-same room room' text text' b e f h = record {
    pending = h.pending;
    unset = h.unset;
    clean = h.clean;
    left = h.left ∙ e;
    held = h.held ∙ f;
  }

  copy_chunk_nil : (s : Responser E) → copy_chunk E [] s ≡ (none, s)
  unfolding copy_chunk
  copy_chunk_nil s = refl

  copy_chunk_plain :
      (c : Bytes) (b : Plain E.Sink)
      → 0 < length c
      → (Plain.write E c b).err ≡ none
      → (Plain.write E c b).n ≡ length c
      → copy_chunk E c (plain b) ≡ (none, plain (Plain.write E c b).sink)
  unfolding copy_chunk Responser.write
  copy_chunk_plain c b l e n = ground arith

  copy_chunk-Holds :
      (c : Bytes) (room : ℕ) (text : Bytes) (b : Plain E.Sink)
      → Holds out id room text b
      → length c ≤ room
      → (b' : Plain E.Sink) × (copy_chunk E c (plain b) ≡ (none, plain b'))
        × Holds out id (room - length c) (text ++ c) b'
  copy_chunk-Holds [] room text b h fits = (
    b,
    copy_chunk_nil (plain b),
    Holds-same room (room - 0) text (text ++ []) b (omega arith) (sym (append-nil text)) h,
  )
  copy_chunk-Holds (x ∷ c) room text b h fits =
      let (e, n, h') = write-Holds (x ∷ c) room text b h (omega arith) fits in
      ((Plain.write E (x ∷ c) b).sink, copy_chunk_plain (x ∷ c) b (omega arith) e n, h')

  pub copy_chunks-Holds :
      (cs : List Bytes) (room : ℕ) (text : Bytes) (b : Plain E.Sink)
      → Holds out id room text b
      → length (flatten cs) ≤ room
      → (b' : Plain E.Sink) × (copy_chunks E cs (plain b) ≡ (none, plain b'))
        × Holds out id (room - length (flatten cs)) (text ++ flatten cs) b'
  unfolding copy_chunks
  copy_chunks-Holds [] room text b h fits = (
    b,
    refl,
    Holds-same room (room - 0) text (text ++ []) b (omega arith) (sym (append-nil text)) h,
  )
  copy_chunks-Holds (c ∷ cs) room text b h fits =
      let (b1, e1, h1) =
        copy_chunk-Holds c room text b h (omega (arith, length-append c (flatten cs))) in
      let (b2, e2, h2) =
        copy_chunks-Holds cs (room - length c) (text ++ c) b1 h1
          (omega (arith, length-append c (flatten cs))) in
      (
        b2,
        ap (λ (o : Outcome (Responser E)). o or_return copy_chunks E cs) e1 ∙ e2,
        Holds-same (room - length c - length (flatten cs)) (room - length (c ++ flatten cs))
            (text ++ c ++ flatten cs) (text ++ (c ++ flatten cs)) b2
            (omega (arith, length-append c (flatten cs))) (append_assoc text c (flatten cs)) h2,
      )

  -- A result that fits is kept, for Close to send.
  pub set_response_result_fits :
      (a : Any) (i : Any) (room : ℕ) (line : Bytes) (b : Plain E.Sink)
      → Holds out (some i) room [] b
      → E.marshal (new_result a (some i)) ≡ some line
      → 0 < length line
      → length line ≤ room
      → ((Plain.set_response_result E a b).0 ≡ none)
        × ((Plain.close E (Plain.set_response_result E a b).1).1.raw ≡ (E.write line out).sink)
  unfolding Plain.set_response_result Plain.close
  set_response_result_fits a i room line b h m l fits = ground arith

  -- One that does not is an error.
  pub set_response_result_exceeds :
      (a : Any) (i : Any) (room : ℕ) (line : Bytes) (b : Plain E.Sink)
      → Holds out (some i) room [] b
      → E.marshal (new_result a (some i)) ≡ some line
      → room < length line
      → (Plain.set_response_result E a b).0 ≡ some (rpc err_limit_exceed)
  unfolding Plain.set_response_result
  set_response_result_exceeds a i room line b h m fits = ground arith
