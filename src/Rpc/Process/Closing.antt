-- ===== src/Rpc/Process/Closing.antt =====
-- Close of an RPC request whose responser is still pending (rupicolarpc/rupicolarpc.go).
use rupicola_go.Base.{◌<◌, Bytes, length, false, Option, none, some, ◌≡◌, refl, arith, ◌∙◌, ap}
use rupicola_go.Base.Int.{pos}
use rupicola_go.Rpc.Value.{Any, null, GoError}
use rupicola_go.Rpc.Errors.{new_error}
use rupicola_go.Rpc.Limit.{Outcome}
use rupicola_go.Rpc.Base.{Env, max_response}
use rupicola_go.Rpc.Plain
use rupicola_go.Rpc.Plain.{Plain}
use rupicola_go.Rpc.Plain.Answers.{IsPending, close-set_response_error, close_silent}
use rupicola_go.Rpc.Responser
use rupicola_go.Rpc.Responser.{
  Responser, plain, legacy, streaming, transport, change_protocol_if_required,
}
use rupicola_go.Rpc.Process.{finish_response, Live, ensure_protocol, close}
use rupicola_go.Rpc.Process.Pending.{Pending}

change_protocol-Pending :
    {E : Env} (out : E.Sink) (id : Option Any) (s : Responser E) (version : Bytes)
    → Pending out id s
    → change_protocol_if_required E s version ≡ s
unfolding change_protocol_if_required
change_protocol-Pending out id (plain b) version h = refl
change_protocol-Pending out id (legacy b) version h = absurd h
change_protocol-Pending out id (streaming b) version h = absurd h

pub ensure_protocol-Pending :
    {E : Env} {U : Type 0} (out : E.Sink) (id : Option Any) (f : Live E U)
    → Pending out id f.responser
    → ensure_protocol f ≡ f
unfolding ensure_protocol
ensure_protocol-Pending {E} {U} out id f h =
    ap (λ (s : Responser E). record f { responser = s })
      (change_protocol-Pending out id f.responser f.request.jsonrpc h)

-- A responser as newRPCResponse makes it.
abbrev pub Fresh : {E : Env} → E.Sink → Responser E → Type 0
Fresh out (plain b) = IsPending out (some null) b × (b.base.result_set ≡ false)
Fresh out _ = ⊥

pub Fresh-Pending :
    {E : Env} (out : E.Sink) (s : Responser E) → Fresh out s → Pending out (some null) s
Fresh-Pending out (plain b) h = h.0
Fresh-Pending out (legacy b) h = h
Fresh-Pending out (streaming b) h = h

pub identify-Pending :
    (E : Env) (out : E.Sink) (id : Option Any) (s : Responser E)
    → Fresh out s
    → Pending out id (Responser.identify E id s)
unfolding Responser.identify
identify-Pending E out id (plain b) h = ground arith
identify-Pending E out id (legacy b) h = absurd h
identify-Pending E out id (streaming b) h = absurd h

-- Close, where an error is kept and where the request has no id.
module _ (E : Env) (out : E.Sink) where
  limited-Pending :
      (id : Option Any) (b : Plain E.Sink)
      → IsPending out id b
      → IsPending out id (record b { base = max_response (pos 0) b.base })
  unfolding max_response
  limited-Pending id b h = ground arith

  pub finish_response-error :
      (e : GoError) (i : Any) (line : Bytes) (s : Responser E)
      → Pending out (some i) s
      → E.marshal (new_error e (some i)) ≡ some line
      → 0 < length line
      → transport E (finish_response (some e) s).1 ≡ (E.write line out).sink
  unfolding finish_response transport Responser.set_response_error Responser.close
      Responser.limit_response
  finish_response-error e i line (plain b) h m p =
      close-set_response_error E e (record b { base = max_response (pos 0) b.base }) out i line
        (limited-Pending (some i) b h) m p
  finish_response-error e i line (legacy b) h m p = absurd h
  finish_response-error e i line (streaming b) h m p = absurd h

  set_error_silent :
      (e : GoError) (b : Plain E.Sink)
      → IsPending out none b
      → Plain.set_response_error E e b ≡ (none, b)
  unfolding Plain.set_response_error
  set_error_silent e b h = ground arith

  pub finish_response-silent :
      (err : Option GoError) (s : Responser E)
      → Pending out none s
      → ((finish_response err s).0 ≡ err) × (transport E (finish_response err s).1 ≡ out)
  unfolding finish_response transport Responser.set_response_error Responser.close
      Responser.limit_response
  finish_response-silent none (plain b) h = close_silent E b out h
  finish_response-silent (some e) (plain b) h =
      let b' : Plain E.Sink = record b { base = max_response (pos 0) b.base } in
      let h' = limited-Pending none b h in
      (
        refl,
        ap (λ (o : Outcome (Plain E.Sink)). (Plain.close E o.1).1.raw) (set_error_silent e b' h')
            ∙ (close_silent E b' out h').1,
      )
  finish_response-silent err (legacy b) h = absurd h
  finish_response-silent err (streaming b) h = absurd h

module _ (E : Env) {U : Type 0} (out : E.Sink) (f : Live E U) where
  pub close-finish :
      (id : Option Any) → Pending out id f.responser → close f ≡ finish_response f.err f.responser
  unfolding close
  close-finish id h =
      ap (λ (g : Live E U). finish_response g.err g.responser) (ensure_protocol-Pending out id f h)
