-- ===== src/Method/Def.antt =====
-- The definition of a method (config.go): its parameters, arguments and limits.
use rupicola_go.Base.{ℕ, Bytes, Bool, bytes_eq}
use rupicola_go.Base.Int.{ℤ}
use rupicola_go.Base.Dict.{Dict}
use rupicola_go.Rpc.Value.{Any}

-- MethodParamType
pub data ParamType : Type 0 where
  string_type int_type bool_type number_type : ParamType

-- MethodEncoding
pub data Encoding : Type 0 where
  utf8 base64 base85 : Encoding

-- `default_val` is the Raw() of the configured value, `null` for nil.
pub record MethodParam : Type 0 where
  pub type : ParamType
  pub optional : Bool
  pub default_val : Any

-- methodArgs, with the arguments that make up a compound one.
mutual
  pub data Arg : Type 0 where
    arg : (param : Bytes) → (skip static compound : Bool) → Args → Arg

  pub data Args : Type 0 where
    nil : Args
    cons : Arg → Args → Args

pub record RunAs : Type 0 where
  pub uid : ℕ
  pub gid : ℕ

-- MethodLimits; a negative value stands for none.
pub record MethodLimits : Type 0 where
  pub exec_timeout : ℤ
  pub max_response : ℤ

-- MethodDef, its InvokeInfo among the fields. `delay` is in nanoseconds.
pub record MethodDef : Type 0 where
  pub streamed : Bool
  pub is_private : Bool
  pub encoding : Encoding
  pub params : Dict MethodParam
  pub exec : Bytes
  pub delay : ℤ
  pub args : Args
  pub run_as : RunAs
  pub limits : MethodLimits
