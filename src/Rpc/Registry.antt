-- ===== src/Rpc/Registry.antt =====
-- The table of methods and its limits: `jsonRpcProcessor` (rupicolarpc/rupicolarpc.go).
pub mod Lookup
use rupicola_go.Base.{ℕ, Bytes, List, [], ◌∷◌, Option, none, some, lit}
use rupicola_go.Base.Int.{ℤ, pos}
use rupicola_go.Base.Dict.{Dict, lookup, insert}
use rupicola_go.Rpc.Value.{
  Any, GoError, MethodType, rpc_method, streaming_method_legacy, streaming_method, unknown_method,
  Result, Call, set_error, set_result,
}

-- What an invoked method can ask of its request (the interface JsonRpcRequest).
pub record Request (U : Type 0) : Type 0 where
  pub method : Bytes
  pub version : Bytes
  pub params : Option (Dict Any)
  pub user_data : U

-- A NewInvoker, by the calls that it makes on its responser.
abbrev pub Invoker : Type 0 → Type 0
Invoker U = Request U → List Call

-- The result of an old Invoker: an error, or a value.
pub data Returned : Type 0 where
  failure : GoError → Returned
  success : Result → Returned

-- oldToNewAdapter
unfoldable pub old_to_new : {U : Type 0} → (Request U → Returned) → Invoker U
old_to_new invoke r = elim (invoke r) [
  | failure e ↦ set_error e ∷ []
  | success v ↦ set_result v ∷ []
]

pub record Limits : Type 0 where
  pub exec_timeout : ℤ
  pub max_response : ℕ

abbrev pub default_rpc_limits : Limits
default_rpc_limits = record { exec_timeout = pos 0; max_response = 5242880 }

abbrev pub default_streaming_limits : Limits
default_streaming_limits = record { exec_timeout = pos 0; max_response = 0 }

-- methodDef; it embeds its limits.
pub record MethodDef (U : Type 0) : Type 0 where
  pub invoker : Invoker U
  pub limits : Limits

-- A Go map keyed by the four method types.
pub record ByType {ℓ} (A : Type ℓ) : Type ℓ where
  pub at_rpc : Option A
  pub at_legacy : Option A
  pub at_streaming : Option A
  pub at_unknown : Option A

module _ {ℓ} {A : Type ℓ} where
  abbrev pub at : MethodType → ByType A → Option A
  at rpc_method m = m.at_rpc
  at streaming_method_legacy m = m.at_legacy
  at streaming_method m = m.at_streaming
  at unknown_method m = m.at_unknown

  abbrev pub put_at : MethodType → A → ByType A → ByType A
  put_at rpc_method a m = record m { at_rpc = some a }
  put_at streaming_method_legacy a m = record m { at_legacy = some a }
  put_at streaming_method a m = record m { at_streaming = some a }
  put_at unknown_method a m = record m { at_unknown = some a }

  abbrev pub empty_by_type : ByType A
  empty_by_type = record { at_rpc = none; at_legacy = none; at_streaming = none; at_unknown = none }

pub record Processor (U : Type 0) : Type 0 where
  pub methods : Dict (ByType (MethodDef U))
  pub limits : ByType Limits

module _ {U : Type 0} where
  unfoldable pub new_json_rpc_processor : Processor U
  new_json_rpc_processor = record {
    methods = [];
    limits = record {
      at_rpc = some default_rpc_limits;
      at_legacy = some default_streaming_limits;
      at_streaming = some default_streaming_limits;
      at_unknown = none;
    };
  }

  -- p.methods[name], or the empty map that AddMethodNew puts there.
  abbrev pub container : Bytes → Processor U → ByType (MethodDef U)
  container name p = elim (lookup name p.methods) [ none ↦ empty_by_type | some ms ↦ ms ]

  -- `none` is the panic on a type that has no limits.
  unfoldable pub add_method_new :
      Bytes → MethodType → Invoker U → Processor U → Option (Processor U)
  add_method_new name metype action p = elim (at metype p.limits) [
    | none ↦ none
    | some limits ↦
        let method : MethodDef U = record { invoker = action; limits = limits } in
        some
          (record p { methods = insert name (put_at metype method (container name p)) p.methods })
  ]

  unfoldable pub add_method :
      Bytes → MethodType → (Request U → Returned) → Processor U → Option (Processor U)
  unfolding add_method_new old_to_new
  add_method name metype action p = add_method_new name metype (old_to_new action) p

  -- A change through the pointer that AddMethod returns: the definition stays in the table.
  unfoldable pub update_method :
      Bytes → MethodType → (MethodDef U → MethodDef U) → Processor U → Processor U
  update_method name metype f p = elim (at metype (container name p)) [
    | none ↦ p
    | some m ↦ record p { methods = insert name (put_at metype (f m) (container name p)) p.methods }
  ]

  -- The methods ExecutionTimeout and MaxSize of a methodDef.
  unfoldable pub execution_timeout : ℤ → MethodDef U → MethodDef U
  execution_timeout timeout m = record m { limits = record (m.limits) { exec_timeout = timeout } }

  unfoldable pub max_size : ℕ → MethodDef U → MethodDef U
  max_size size m = record m { limits = record (m.limits) { max_response = size } }

  -- (*jsonRpcProcessor).ExecutionTimeout; `none` is the panic on a type that has no limits.
  unfoldable pub set_type_timeout : MethodType → ℤ → Processor U → Option (Processor U)
  set_type_timeout metype timeout p = elim (at metype p.limits) [
    | none ↦ none
    | some l ↦
        some (record p { limits = put_at metype (record l { exec_timeout = timeout }) p.limits })
  ]

  -- The second attempt of `method`: a streaming request is served by a legacy method.
  abbrev pub compatible : MethodType → ByType (MethodDef U) → Option (MethodDef U)
  compatible streaming_method ms = ms.at_legacy
  compatible _ ms = none

  -- (*jsonRpcProcessor).method; `none` is ErrMethodNotFound.
  unfoldable pub find_method : Bytes → MethodType → Processor U → Option (MethodDef U)
  find_method name metype p = elim (lookup name p.methods) [
    | none ↦ none
    | some ms ↦ elim (at metype ms) [ some m ↦ some m | none ↦ compatible metype ms ]
  ]
