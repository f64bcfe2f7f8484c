-- ===== src/Rpc/Value.antt =====
-- Dynamic values, errors and the objects that are serialised (rupicolarpc/rupicolarpc.go).
use rupicola_go.Base.{Bytes, lit, Bool, Option, List}
use rupicola_go.Base.Int.{ℤ}

-- An `interface{}` as the JSON decoder, the YAML decoder and the program itself make them.
-- `float` holds the text that `%v` prints, which determines the number. An object is a Go map, its
-- entries listed by key, as both `fmt` and `encoding/json` visit them.
mutual
  pub data Any : Type 0 where
    null : Any
    bool : Bool → Any
    int : ℤ → Any
    float : Bytes → Any
    text : Bytes → Any
    arr : Items → Any
    obj : Fields → Any

  pub data Items : Type 0 where
    nil : Items
    cons : Any → Items → Items

  pub data Fields : Type 0 where
    end : Fields
    field : Bytes → Any → Fields → Fields

-- `_Error`. `info` is the source's field Data.
pub record RpcError : Type 0 where
  pub internal : Option Bytes
  pub code : ℤ
  pub message : Bytes
  pub info : Any

-- A non-nil `error`: an `*_Error`, or any other, which matters only by its text.
pub data GoError : Type 0 where
  rpc : RpcError → GoError
  other : Bytes → GoError

-- What is handed to a JSON encoder: a `JsonRpcResponse`, or the streaming object with a `data`
-- field, holding a string or a byte slice. The id is `none` for a nil pointer.
pub data Envelope : Type 0 where
  answer : Bytes → Option RpcError → Any → Option Any → Envelope
  text_line : Bytes → Option Any → Envelope
  byte_line : Bytes → Option Any → Envelope

-- MethodType
pub data MethodType : Type 0 where
  rpc_method streaming_method_legacy streaming_method unknown_method : MethodType

abbrev pub version20 : Bytes
version20 = lit "2.0"

abbrev pub version20s : Bytes
version20s = lit "2.0+s"

-- An io.Reader, by the chunks that its reads return and the error that ends them (`none` for EOF).
pub record Reader : Type 0 where
  pub chunks : List Bytes
  pub fault : Option GoError

-- What a method hands to SetResponseResult.
pub data Result : Type 0 where
  reader : Reader → Result
  value : Any → Result

-- A call that an invoked method makes on its responser.
pub data Call : Type 0 where
  set_error : GoError → Call
  set_result : Result → Call
