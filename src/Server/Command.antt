-- ===== src/Server/Command.antt =====
-- Turning a request into a process and its output (rpcmethod.go).
pub mod Access
pub mod Encoded
use rupicola_go.Base.{
  ℕ, suc, ◌+◌, ◌-◌, ◌*◌, ◌/◌, ◌%◌, Bytes, lit, List, [], ◌∷◌, ◌++◌, Bool, true, false, not, ◌&&◌,
  ◌||◌, Option, none, some, ltb, if◌then◌else◌, flatten,
}
use rupicola_go.Base.Int.{ℤ, pos, neg}
use rupicola_go.Base.Dict.{Dict}
use rupicola_go.Rpc.Value.{Any, null, text, RpcError, GoError, rpc, Reader, Result, reader, value}
use rupicola_go.Rpc.Errors.{new_server_error, internal_error_data, invalid_params, int_beq}
use rupicola_go.Rpc.Registry.{Request, Returned, failure, success}
use rupicola_go.Method.Def.{MethodDef, Encoding, utf8, base64, base85, Args, RunAs}
use rupicola_go.Method.Params.{
  Checked, accepted, invalid_params as wrong_params, panicked, check_params,
}
use rupicola_go.Method.Args.{evaluate_all}

-- NewServerError(-32000, "Unauthorized")
abbrev pub rpc_unauthorized_error : RpcError
rpc_unauthorized_error = record {
  internal = none;
  code = neg 32000;
  message = lit "Unauthorized";
  info = null;
}

abbrev pub err_invalid_params : RpcError
err_invalid_params = record {
  internal = none;
  code = invalid_params;
  message = lit "Invalid params";
  info = null;
}

-- rupicolaRPCContext, without its pointer to the processor. `should_request_auth` is written by
-- prepareCommand and read nowhere.
pub record RpcContext : Type 0 where
  pub is_authorized : Bool
  pub allow_private : Bool
  pub is_rpc : Bool

pub record Command : Type 0 where
  pub exec : Bytes
  pub arguments : List Bytes
  pub run_as : RunAs

-- The operating system: whether the pipes are made, how a start fails, what a process prints and
-- how its output ends, the error of the wait for it; and json.Marshal of parameters.
pub record System : Type 0 where
  pub stdin_made : Command → Bool
  pub stdout_made : Command → Bool
  pub start : Command → Option Any
  pub output : Command → Reader
  pub wait : Command → Option GoError
  pub marshal : Dict Any → Option Bytes

-- An error, the process, or a panic.
pub data Prepared : Type 0 where
  refused : RpcError → Prepared
  prepared : Command → Prepared
  panics : Prepared

-- The test of prepareCommand.
unfoldable pub may_call : RpcContext → MethodDef → Bool
may_call ctx m = ctx.is_authorized || (ctx.allow_private && m.is_private)

module _ (sys : System) where
  -- From the parameters to the process: exec.CommandContext, SetUserGroup and the pipe.
  unfoldable pub make_command : MethodDef → Dict Any → Prepared
  make_command m params = elim (evaluate_all sys.marshal (some params) m.args).0 [
    | some e ↦ refused e
    | none ↦
        let c : Command = record {
          exec = m.exec;
          arguments = (evaluate_all sys.marshal (some params) m.args).1;
          run_as = m.run_as;
        } in
        if sys.stdin_made c then prepared c else refused (internal_error_data (text (lit "stdin")))
  ]

  -- A nil map of parameters is made empty.
  abbrev given_params : Option (Dict Any) → Dict Any
  given_params none = []
  given_params (some params) = params

  unfoldable pub prepare_command : MethodDef → RpcContext → Option (Dict Any) → Prepared
  unfolding may_call
  prepare_command m ctx params =
      if may_call ctx m
      then elim (check_params m.params (given_params params)) [
        | accepted params' ↦ make_command m params'
        | wrong_params ↦ refused err_invalid_params
        | panicked ↦ panics
      ]
      else refused rpc_unauthorized_error

-- A character of base64.URLEncoding.
unfoldable pub digit : ℕ → ℕ
digit n =
    if ltb n 26
    then b'A' + n
    else if ltb n 52
    then b'a' + (n - 26)
    else if ltb n 62
    then b'0' + (n - 52)
    else if ltb n 63
    then b'-'
    else b'_'

-- The text of the full groups of three bytes, and the bytes that are left.
unfoldable pub encode : Bytes → Bytes × Bytes
unfolding digit
encode [] = ([], [])
encode (a ∷ []) = ([], a ∷ [])
encode (a ∷ b ∷ []) = ([], a ∷ b ∷ [])
encode (a ∷ b ∷ c ∷ p) =
    let (written, left) = encode p in
    (
      digit (a / 4)
          ∷ digit (a % 4 * 16 + b / 16)
          ∷ digit (b % 16 * 4 + c / 64)
          ∷ digit (c % 64)
          ∷ written,
      left,
    )

-- The stream encoder of encoding/base64, by the bytes in its buffer: Write, with what it writes on.
unfoldable pub write_encoder : Bytes → Bytes → Bytes × Bytes
write_encoder buffer p = encode (buffer ++ p)

-- Its Close writes what the buffer holds, with padding.
unfoldable pub close_encoder : Bytes → Bytes × Bytes
unfolding digit
close_encoder (a ∷ []) = (digit (a / 4) ∷ digit (a % 4 * 16) ∷ b'=' ∷ b'=' ∷ [], [])
close_encoder (a ∷ b ∷ rest) =
    (digit (a / 4) ∷ digit (a % 4 * 16 + b / 16) ∷ digit (b % 16 * 4) ∷ b'=' ∷ [], [])
close_encoder [] = ([], [])

-- io.Copy into the encoder: what it writes to the pipe for each chunk.
unfoldable pub encode_chunks : Bytes → List Bytes → List Bytes
encode_chunks buffer [] = []
encode_chunks buffer (c ∷ cs) =
    let (written, left) = write_encoder buffer c in written ∷ encode_chunks left cs

-- What comes out of the pipe. The deferred Close of the encoder comes first: Invoke returns without
-- a wait for the goroutine, and nobody reads the pipe before. The goroutine then writes through the
-- encoder, which its end does not close again.
unfoldable pub piped : Encoding → Reader → Reader
piped base64 r =
    let (written, left) = close_encoder [] in
    record r { chunks = written ∷ encode_chunks left r.chunks }
piped utf8 r = r
piped base85 r = r

-- The goroutine that copies the output into the pipe. The reader of the pipe ends with the error of
-- the copy, or else with that of the wait for the process; only the first one that closes the pipe
-- is seen.
unfoldable pub pumped : Reader → Option GoError → Reader
pumped r waited = elim r.fault [ some e ↦ r | none ↦ record r { fault = waited } ]

module _ (sys : System) where
  unfoldable pub run_command : MethodDef → Command → Returned
  unfolding piped pumped int_beq
  run_command m c =
      if sys.stdout_made c
      then elim (sys.start c) [
        | some cause ↦ failure (rpc (internal_error_data cause))
        | none ↦
            if int_beq m.delay (pos 0)
            then success (reader (piped m.encoding (pumped (sys.output c) (sys.wait c))))
            else success (value (text (lit "OK")))
      ]
      else failure (rpc (internal_error_data (text (lit "stdout"))))

  -- (*MethodDef).Invoke. A panic is recovered from, and leaves both results nil.
  unfoldable pub invoke : MethodDef → Request RpcContext → Returned
  invoke m r = elim (prepare_command sys m r.user_data r.params) [
    | refused e ↦ failure (rpc e)
    | panics ↦ success (value null)
    | prepared c ↦ run_command m c
  ]
