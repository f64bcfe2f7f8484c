-- ===== src/Server/Http.antt =====
-- The HTTP handler and the processor behind it (utils.go, processor.go).
pub mod Access
pub mod Rounds
pub mod Methods
pub mod Configured
use rupicola_go.Base.{
  ℕ, suc, Bytes, lit, List, [], ◌∷◌, Bool, true, false, not, ◌&&◌, ◌||◌, Option, none, some, ltb,
  ◌==◌, bytes_eq, nat_eq, if◌then◌else◌,
}
use rupicola_go.Base.Int.{ℤ, pos, pos_part, ltb_ℤ}
use rupicola_go.Base.Dict.{Dict}
use rupicola_go.Rpc.Value.{GoError, rpc, MethodType, rpc_method, streaming_method_legacy}
use rupicola_go.Rpc.Limit.{Outcome}
use rupicola_go.Rpc.Base.{Env}
use rupicola_go.Rpc.Responser.{Responser, transport}
use rupicola_go.Rpc.Registry.{
  Processor, new_json_rpc_processor, add_method, update_method, execution_timeout, max_size,
}
use rupicola_go.Rpc.Decode.{Body, unreadable}
use rupicola_go.Rpc.Process.{Schedule, process_context}
use rupicola_go.Settings.Def.{Config}
use rupicola_go.Method.Def.{MethodDef}
use rupicola_go.Server.Command.{RpcContext, System, invoke, rpc_unauthorized_error}

-- The credentials are checked by pwhash.Verify, of the given and the configured password.
module _ (verify : Bytes → Bytes → Bool) where
  unfoldable pub is_valid_auth : Config → Bytes → Bytes → Bool
  is_valid_auth conf login password =
      if conf.protocol.login == []
      then true
      else verify password conf.protocol.password && login == conf.protocol.login

-- What the handler reads of a request. `loopback` is the test on the remote address.
pub record HttpRequest : Type 0 where
  pub method : Bytes
  pub content_length : ℤ
  pub uri : Bytes
  pub login : Bytes
  pub password : Bytes
  pub loopback : Bool
  pub body : Body

-- The limits that a configured method overrides, those that are not negative.
abbrev pub with_timeout :
    Bytes → MethodType → MethodDef → Processor RpcContext → Processor RpcContext
with_timeout name metype m p =
    if ltb_ℤ m.limits.exec_timeout (pos 0)
    then p
    else update_method name metype (execution_timeout m.limits.exec_timeout) p

abbrev pub with_size : Bytes → MethodType → MethodDef → Processor RpcContext → Processor RpcContext
with_size name metype m p =
    if ltb_ℤ m.limits.max_response (pos 0)
    then p
    else update_method name metype (max_size (pos_part m.limits.max_response)) p

unfoldable pub type_of : MethodDef → MethodType
type_of m = if m.streamed then streaming_method_legacy else rpc_method

module _ (sys : System) where
  -- The loop of newRupicolaProcessorFromConfig, over the methods in any order.
  unfoldable pub add_methods : Dict MethodDef → Processor RpcContext → Option (Processor RpcContext)
  add_methods [] p = some p
  add_methods ((name, m) ∷ rest) p = elim (add_method name (type_of m) (invoke sys m) p) [
    | none ↦ none
    | some q ↦ add_methods rest (with_size name (type_of m) m (with_timeout name (type_of m) m q))
  ]

  unfoldable pub new_processor : Config → Option (Processor RpcContext)
  new_processor conf = add_methods conf.methods new_json_rpc_processor

-- The answer of the handler: a status with no body, nothing at all, or what ProcessContext returns
-- and leaves in the writer (`none` for its panic).
pub data Handled (S : Type 0) : Type 0 where
  method_not_allowed : Handled S
  bad_request : Handled S
  unrecognized : Handled S
  processed : Option (Option GoError × S) → Handled S

-- flushWrapper: a Write that flushes behind itself.
abbrev pub wrap_with_flusher : Env → Env
wrap_with_flusher E = record {
  Sink = E.Sink;
  write = λ p s. let r = E.write p s in record r { sink = E.flush r.sink };
  flush = E.flush;
  marshal = E.marshal;
}

abbrev pub in_transport :
    {E : Env} → Option (Outcome (Responser E)) → Option (Option GoError × E.Sink)
in_transport none = none
in_transport {E} (some (err, s)) = some (err, transport E s)

-- The test on the payload's size, of which 0 means no limit.
unfoldable pub too_big : Config → HttpRequest → Bool
too_big conf r =
    not (conf.limits.payload_size == 0) && ltb_ℤ (pos conf.limits.payload_size) r.content_length

-- The mode that the address asks for.
unfoldable pub mode_of : Config → Bytes → Option MethodType
mode_of conf uri =
    if uri == conf.protocol.uri_rpc
    then some rpc_method
    else if uri == conf.protocol.uri_streamed
    then some streaming_method_legacy
    else none

abbrev is_rpc_mode : MethodType → Bool
is_rpc_mode rpc_method = true
is_rpc_mode _ = false

module _ (verify : Bytes → Bytes → Bool) where
  -- The user data of the request, with the bind point's AllowPrivate.
  unfoldable pub context_of : Config → Bool → HttpRequest → MethodType → RpcContext
  unfolding is_valid_auth
  context_of conf bind_private r mode = record {
    is_authorized = is_valid_auth verify conf r.login r.password;
    allow_private = r.loopback && bind_private;
    is_rpc = is_rpc_mode mode;
  }

  abbrev pub let_in : RpcContext → Bool
  let_in ctx = ctx.is_authorized || ctx.allow_private

  -- The Reader of the request: its body, or the error that the handler has set.
  unfoldable pub reader_of : RpcContext → Body → Body
  reader_of ctx body = if let_in ctx then body else unreadable (rpc rpc_unauthorized_error)

  -- ServeHTTP. A streamed request that is let in writes through the flushing wrapper.
  unfoldable pub serve_http :
      (E : Env)
      → Processor RpcContext
      → Config
      → Bool
      → HttpRequest
      → Schedule
      → Option ℕ
      → E.Sink
      → Handled E.Sink
  serve_http E p conf bind_private r sched flush_at out =
      if not (r.method == lit "POST")
      then method_not_allowed
      else if too_big conf r
      then bad_request
      else elim (mode_of conf r.uri) [
        | none ↦ unrecognized
        | some mode ↦
            let ctx = context_of conf bind_private r mode in
            let body = reader_of ctx r.body in
            processed (
              if not ctx.is_rpc && let_in ctx
              then in_transport
                  (process_context {E = wrap_with_flusher E} p body mode ctx sched flush_at out)
              else in_transport (process_context {E = E} p body mode ctx sched flush_at out))
      ]
