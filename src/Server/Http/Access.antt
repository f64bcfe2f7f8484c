-- ===== src/Server/Http/Access.antt =====
-- What the handler does with a request that it does not let in (utils.go).
use rupicola_go.Base.{
  ℕ, ◌<◌, Bytes, lit, length, Bool, true, false, ◌&&◌, Option, some, ◌≡◌, refl, arith, bytes_eq,
  ==_iff,
}
use rupicola_go.Rpc.Value.{null, rpc, rpc_method}
use rupicola_go.Rpc.Errors.{new_error}
use rupicola_go.Rpc.Base.{Env}
use rupicola_go.Rpc.Registry.{Processor}
use rupicola_go.Rpc.Decode.{Body, unreadable, read_from}
use rupicola_go.Rpc.Process.{Schedule, process, process_context, read_from_transport, close}
use rupicola_go.Rpc.Process.Answers.{served, answer_id, rpc_error, process_context-served}
use rupicola_go.Server.Command.{RpcContext, rpc_unauthorized_error}
use rupicola_go.Settings.Def.{Config}
use rupicola_go.Server.Http.{
  HttpRequest, processed, serve_http, too_big, mode_of, context_of, reader_of, is_valid_auth,
  in_transport,
}

module _ (E : Env) (flush_keeps : (s : E.Sink) → E.flush s ≡ s) (p : Processor RpcContext)
    (ctx : RpcContext) (sched : Schedule) (flush_at : Option ℕ) (out : E.Sink) where
  abbrev refusal : Body
  refusal = unreadable (rpc rpc_unauthorized_error)

  served-refusal :
      (served E p refusal ctx sched flush_at out).err ≡ some (rpc rpc_unauthorized_error)
  unfolding served process read_from_transport read_from
  served-refusal = refl

  answer_id-refusal : answer_id refusal ≡ some null
  unfolding answer_id read_from
  answer_id-refusal = refl

  process_context-refusal :
      (line : Bytes)
      → E.marshal (new_error (rpc rpc_unauthorized_error) (some null)) ≡ some line
      → 0 < length line
      → in_transport (process_context {E = E} p refusal rpc_method ctx sched flush_at out)
        ≡ some (some (rpc rpc_unauthorized_error), (E.write line out).sink)
  process_context-refusal line m l =
      let r = close (served E p refusal ctx sched flush_at out) in
      let run = process_context-served E p refusal ctx sched flush_at out in
      let (e, s) =
        rpc_error E flush_keeps p refusal ctx sched flush_at out null line {r = r} run
          served-refusal answer_id-refusal m l in
      rw run (λ i. some (e i, s i))

-- A POST of an allowed size to the RPC address with wrong credentials, not let in from the loopback
-- by its bind point, is answered by the one write of the Unauthorized error with a null id; its
-- body is not read and no method is called. The error object has a text, and a flush adds nothing.
pub serve_http_unauthorized :
    (E : Env) (verify : Bytes → Bytes → Bool) (p : Processor RpcContext) (conf : Config)
    (bind_private : Bool) (r : HttpRequest) (sched : Schedule) (flush_at : Option ℕ) (out : E.Sink)
    (line : Bytes)
    → ((s : E.Sink) → E.flush s ≡ s)
    → r.method ≡ lit "POST"
    → too_big conf r ≡ false
    → r.uri ≡ conf.protocol.uri_rpc
    → is_valid_auth verify conf r.login r.password ≡ false
    → (r.loopback && bind_private) ≡ false
    → E.marshal (new_error (rpc rpc_unauthorized_error) (some null)) ≡ some line
    → 0 < length line
    → serve_http verify E p conf bind_private r sched flush_at out
      ≡ processed (some (some (rpc rpc_unauthorized_error), (E.write line out).sink))
unfolding serve_http context_of reader_of mode_of
serve_http_unauthorized E verify p conf bind_private r sched flush_at out line keeps post fits uri
      wrong remote m l =
    ground (
      arith,
      ==_iff r.method (lit "POST"),
      ==_iff r.uri conf.protocol.uri_rpc,
      process_context-refusal E keeps p
          (record { is_authorized = false; allow_private = false; is_rpc = true }) sched flush_at
          out line m l,
    )
