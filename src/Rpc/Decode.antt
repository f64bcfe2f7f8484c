-- ===== src/Rpc/Decode.antt =====
-- Reading a request: `requestData` and its decoding (rupicolarpc/rupicolarpc.go).
use rupicola_go.Base.{
  ℕ, ◌+◌, Bytes, [], Bool, true, false, not, ◌&&◌, ◌||◌, Option, none, some, lit, leb, ◌==◌,
  bytes_eq, if◌then◌else◌, map,
}
use rupicola_go.Base.Dict.{Dict, insert}
use rupicola_go.Base.Decimal.{print_nat}
use rupicola_go.Rpc.Value.{
  Any, null, text, arr, obj, Items, nil, cons, Fields, end, field, RpcError, GoError, rpc, other,
  version20, version20s,
}
use rupicola_go.Rpc.Errors.{err_parse_error, err_invalid_request, err_batch_unsupported}

-- `params` is `none` for a nil map, and `id` for a nil pointer.
pub record RequestData : Type 0 where
  pub jsonrpc : Bytes
  pub method : Bytes
  pub params : Option (Dict Any)
  pub id : Option Any

abbrev pub empty_request : RequestData
empty_request = record { jsonrpc = []; method = []; params = none; id = none }

-- The entries of an object in a Go map: of two with one key the later counts.
abbrev map_from : Fields → Dict Any → Dict Any
map_from end d = d
map_from (field k v fs) d = map_from fs (insert k v d)

-- Positions count from 1.
abbrev number_from : ℕ → Items → Dict Any → Dict Any
number_from i nil d = d
number_from i (cons v vs) d = number_from (i + 1) vs (insert (print_nat i) v d)

-- (*jsonRPCRequestOptions).UnmarshalJSON; `none` is the error InvalidRequest.
unfoldable pub unmarshal_options : Any → Option (Dict Any)
unmarshal_options (obj fs) = some (map_from fs [])
unmarshal_options (arr items) = some (number_from 1 items [])
unmarshal_options _ = none

-- What encoding/json reports of a decoded value: an error of UnmarshalJSON stops it at once; a
-- value of a wrong type is passed over and reported at the end (`mistyped`).
pub data Decoded : Type 0 where
  aborted : RpcError → RequestData → Decoded
  decoded : RequestData → (mistyped : Bool) → Decoded

-- encoding/json finds a field by its name in any case.
lower : ℕ → ℕ
lower c = if leb b'A' c && leb c b'Z' then c + 32 else c

unfoldable pub to_lower : Bytes → Bytes
unfolding lower
to_lower = map lower

pub data Key : Type 0 where
  jsonrpc_key method_key params_key id_key unknown_key : Key

key_of : Bytes → Key
unfolding to_lower bytes_eq
key_of name =
    let k = to_lower name in
    if k == lit "jsonrpc"
    then jsonrpc_key
    else if k == lit "method"
    then method_key
    else if k == lit "params"
    then params_key
    else if k == lit "id"
    then id_key
    else unknown_key

-- One field, onto what the fields before it have set.
decode_field : Key → Any → RequestData → Decoded
unfolding unmarshal_options
decode_field jsonrpc_key (text s) r = decoded (record r { jsonrpc = s }) false
decode_field jsonrpc_key null r = decoded r false
decode_field jsonrpc_key _ r = decoded r true
decode_field method_key (text s) r = decoded (record r { method = s }) false
decode_field method_key null r = decoded r false
decode_field method_key _ r = decoded r true
decode_field params_key v r = elim (unmarshal_options v) [
  | none ↦ aborted err_invalid_request r
  | some d ↦ decoded (record r { params = some d }) false
]
decode_field id_key null r = decoded (record r { id = none }) false
decode_field id_key v r = decoded (record r { id = some v }) false
decode_field unknown_key v r = decoded r false

decode_fields : Fields → RequestData → Bool → Decoded
unfolding decode_field key_of
decode_fields end r mistyped = decoded r mistyped
decode_fields (field k v fs) r mistyped = elim (decode_field (key_of k) v r) [
  | aborted e r' ↦ aborted e r'
  | decoded r' wrong ↦ decode_fields fs r' (mistyped || wrong)
]

unfoldable pub decode_request : Any → Decoded
unfolding decode_fields
decode_request (obj fs) = decode_fields fs empty_request false
decode_request null = decoded empty_request false
decode_request _ = decoded empty_request true

-- What the decoder meets in the body: a failing read, a text that is no JSON (an empty one too), or
-- a first value and whether more follows it.
pub data Body : Type 0 where
  unreadable : GoError → Body
  malformed : Body
  document : Any → (more : Bool) → Body

-- The switch on the decoder's error.
finish : Decoded → Bool → Option GoError × RequestData
finish (aborted e r) more = (some (rpc e), r)
finish (decoded r true) more = (some (rpc err_invalid_request), r)
finish (decoded r false) true = (some (rpc err_batch_unsupported), r)
finish (decoded r false) false = (none, r)

-- (*requestData).ReadFrom
unfoldable pub read_from : Body → Option GoError × RequestData
unfolding decode_request finish
read_from (unreadable (rpc e)) = (some (rpc e), empty_request)
read_from (unreadable (other message)) = (some (rpc err_parse_error), empty_request)
read_from malformed = (some (rpc err_parse_error), empty_request)
read_from (document v more) = finish (decode_request v) more

unfoldable pub is_valid : RequestData → Bool
is_valid r = (r.jsonrpc == version20 || r.jsonrpc == version20s) && not (r.method == [])
