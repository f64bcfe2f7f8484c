-- ===== src/Rpc/Streaming/Final.antt =====
-- A streaming response behind its error (rupicolarpc/streaming.go).
use rupicola_go.Base.{Bytes, [], ◌∷◌, length, true, false, refl, none, some, ◌≡◌, arith}
use rupicola_go.Base.Int.{pos}
use rupicola_go.Rpc.Value.{Any, GoError, version20s}
use rupicola_go.Rpc.Errors.{new_error_ex}
use rupicola_go.Rpc.Limit.{Outcome, ◌or_return◌}
use rupicola_go.Rpc.Base.{Env, max_response}
use rupicola_go.Rpc.Streaming.{
  Streaming, eof, write, close, set_response_result, set_response_error, finish_error, commit, send,
}

length-eq-nil : (s : Bytes) → length s ≡ 0 → s ≡ []
length-eq-nil [] h = refl
length-eq-nil (c ∷ s) h = ground arith

module _ (E : Env) where
  -- Nothing more is sent.
  pub record IsFinal (b : Streaming E.Sink) : Type 0 where
    pub written : (p : Bytes) → write E p b ≡ record { n = 0; err = some eof; sink = b }
    pub closed : close E b ≡ (none, b)
    pub result_set : (r : Any) → set_response_result E r b ≡ (none, b)
    pub error_set : (e : GoError) → set_response_error E e b ≡ (none, b)

  closed-IsFinal : (b : Streaming E.Sink) → b.is_closed ≡ true → b.buffer ≡ [] → IsFinal b
  unfolding set_response_error write close set_response_result commit
  closed-IsFinal b h k = record {
    written = λ p. ground arith;
    closed = ground arith;
    result_set = λ r. ground arith;
    error_set = λ e. ground arith;
  }

  commit-empties : (b : Streaming E.Sink) → (commit E b).1.buffer ≡ []
  unfolding commit send
  commit-empties b = ground (arith, length-eq-nil b.buffer)

  finish_error-closed :
      (r : Outcome (Streaming E.Sink))
      → r.1.is_closed ≡ true
      → r.1.buffer ≡ []
      → ((finish_error E r).1.is_closed ≡ true) × ((finish_error E r).1.buffer ≡ [])
  unfolding finish_error close commit
  finish_error-closed (none, b) h k = ground arith
  finish_error-closed (some e, b) h k = ground arith

  -- The object of the error, behind what waited.
  abbrev send_error : GoError → Streaming E.Sink → Outcome (Streaming E.Sink)
  send_error e b = finish_error E (
      send E (new_error_ex e b.base.id version20s)
        (record b { base = max_response (pos 0) b.base; is_closed = true }))

  set_response_error_open :
      (e : GoError) (b : Streaming E.Sink)
      → b.is_closed ≡ false
      → set_response_error E e b ≡ (commit E b or_return send_error e)
  unfolding set_response_error
  set_response_error_open e b h = ground arith

  send_error-IsFinal :
      (e : GoError) (b : Streaming E.Sink) → b.buffer ≡ [] → IsFinal (send_error e b).1
  unfolding send
  send_error-IsFinal e b h =
      let (closed, empty) =
        finish_error-closed
          (send E (new_error_ex e b.base.id version20s)
            (record b { base = max_response (pos 0) b.base; is_closed = true }))
          refl h in
      closed-IsFinal (send_error e b).1 closed empty

  send_error-after :
      (e : GoError) (m : Outcome (Streaming E.Sink))
      → m.1.buffer ≡ []
      → (m or_return send_error e).0 ≡ none
      → IsFinal (m or_return send_error e).1
  send_error-after e (none, b) h k = send_error-IsFinal e b h
  send_error-after e (some err, b) h k = ground arith

  -- After SetResponseError succeeded on an open streaming response, writes report EOF and change
  -- nothing, and results, errors and Close change nothing and report no error.
  pub set_response_error-IsFinal :
      (e : GoError) (b : Streaming E.Sink)
      → b.is_closed ≡ false
      → (set_response_error E e b).0 ≡ none
      → IsFinal (set_response_error E e b).1
  set_response_error-IsFinal e b h =
      rw (set_response_error_open e b h) (send_error-after e (commit E b) (commit-empties b))
