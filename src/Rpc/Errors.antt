-- ===== src/Rpc/Errors.antt =====
-- The error constructors of rupicolarpc/rupicolarpc.go. `none` is a panic.
use rupicola_go.Base.{
  Bytes, lit, Bool, false, ◌||◌, Option, none, some, ◌≡◌, refl, arith, nat_beq, if◌then◌else◌,
}
use rupicola_go.Base.Int.{ℤ, pos, negsuc, neg, ltb_ℤ, ◌≤ℤ◌}
use rupicola_go.Rpc.Value.{
  Any, null, text, RpcError, GoError, rpc, other, Envelope, answer, version20,
}

abbrev pub parse_error : ℤ
parse_error = neg 32700

abbrev pub invalid_request : ℤ
invalid_request = neg 32600

abbrev pub method_not_found : ℤ
method_not_found = neg 32601

abbrev pub invalid_params : ℤ
invalid_params = neg 32602

abbrev pub internal_error : ℤ
internal_error = neg 32603

abbrev pub server_error_start : ℤ
server_error_start = neg 32000

abbrev pub server_error_end : ℤ
server_error_end = neg 32099

unfoldable pub new_server_error : ℤ → Bytes → Option RpcError
new_server_error code message =
    if ltb_ℤ server_error_start code || ltb_ℤ code server_error_end
    then none
    else some (record { internal = none; code = code; message = message; info = null })

unfoldable pub int_beq : ℤ → ℤ → Bool
int_beq (pos a) (pos b) = nat_beq a b
int_beq (negsuc a) (negsuc b) = nat_beq a b
int_beq _ _ = false

-- The switch on the code.
standard_message : ℤ → Option Bytes
unfolding int_beq
standard_message code =
    if int_beq code parse_error
    then some (lit "Parse error")
    else if int_beq code invalid_request
    then some (lit "Invalid Request")
    else if int_beq code method_not_found
    then some (lit "Method not found")
    else if int_beq code invalid_params
    then some (lit "Invalid params")
    else if int_beq code internal_error
    then some (lit "Internal error")
    else none

unfoldable pub new_standard_error_data : ℤ → Any → Option RpcError
unfolding standard_message
new_standard_error_data code info = elim (standard_message code) [
  | none ↦ none
  | some message ↦ some (record { internal = none; code = code; message = message; info = info })
]

unfoldable pub new_standard_error : ℤ → Option RpcError
unfolding new_standard_error_data
new_standard_error code = new_standard_error_data code null

-- The package's variables. The tests below show that their constructors do not panic.
abbrev pub err_parse_error : RpcError
err_parse_error = record {
  internal = none;
  code = parse_error;
  message = lit "Parse error";
  info = null;
}

abbrev pub err_method_not_found : RpcError
err_method_not_found = record {
  internal = none;
  code = method_not_found;
  message = lit "Method not found";
  info = null;
}

abbrev pub err_invalid_request : RpcError
err_invalid_request = record {
  internal = none;
  code = invalid_request;
  message = lit "Invalid Request";
  info = null;
}

abbrev pub err_timeout : RpcError
err_timeout = record { internal = none; code = neg 32099; message = lit "Timeout"; info = null }

abbrev pub err_limit_exceed : RpcError
err_limit_exceed = record {
  internal = none;
  code = neg 32098;
  message = lit "Limit Exceed";
  info = null;
}

abbrev pub err_batch_unsupported : RpcError
err_batch_unsupported = record {
  internal = none;
  code = neg 32097;
  message = lit "Batch is disabled";
  info = null;
}

-- NewStandardErrorData(InternalError, data), whose code never panics.
abbrev pub internal_error_data : Any → RpcError
internal_error_data info = record {
  internal = none;
  code = internal_error;
  message = lit "Internal error";
  info = info;
}

-- (*_Error).Error, and the Error method of any other error.
unfoldable pub error_text : GoError → Bytes
error_text (rpc e) = elim e.internal [ none ↦ e.message | some inner ↦ inner ]
error_text (other message) = message

unfoldable pub new_error_ex : GoError → Option Any → Bytes → Envelope
unfolding error_text
new_error_ex (rpc e) id version = answer version (some e) null id
new_error_ex (other message) id version =
    answer version (some (internal_error_data (text (error_text (other message))))) null id

unfoldable pub new_error : GoError → Option Any → Envelope
unfolding new_error_ex
new_error e id = new_error_ex e id version20

unfoldable pub new_result_ex : Any → Option Any → Bytes → Envelope
new_result_ex a id version = answer version none a id

unfoldable pub new_result : Any → Option Any → Envelope
unfolding new_result_ex
new_result a id = new_result_ex a id version20

server_errors :
    (new_server_error (neg 32099) (lit "Timeout") ≡ some err_timeout)
    × (new_server_error (neg 32098) (lit "Limit Exceed") ≡ some err_limit_exceed)
    × (new_server_error (neg 32097) (lit "Batch is disabled") ≡ some err_batch_unsupported)
unfolding new_server_error
server_errors = (refl, refl, refl)

standard_errors :
    (new_standard_error parse_error ≡ some err_parse_error)
    × (new_standard_error invalid_request ≡ some err_invalid_request)
    × (new_standard_error method_not_found ≡ some err_method_not_found)
    × (new_standard_error_data internal_error null ≡ some (internal_error_data null))
unfolding new_standard_error
standard_errors = (refl, refl, refl, refl)

-- Where NewServerError does not panic, its error has a code within the reserved range and the given
-- text.
pub new_server_error_range :
    (code : ℤ) (message : Bytes) (e : RpcError)
    → new_server_error code message ≡ some e
    → (server_error_end ≤ℤ e.code) × (e.code ≤ℤ server_error_start) × (e.message ≡ message)
unfolding new_server_error
new_server_error_range code message e h = ground arith
