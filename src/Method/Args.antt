-- ===== src/Method/Args.antt =====
-- The arguments of a command (config.go, rpcmethod.go): from the configuration, and evaluated for
-- a request.
pub mod Laws
use rupicola_go.Base.{
  Bytes, lit, List, [], ◌∷◌, ◌++◌, Bool, true, false, not, ◌||◌, Option, none, some, ◌==◌, bytes_eq,
  if◌then◌else◌,
}
use rupicola_go.Base.Dict.{Dict, lookup}
use rupicola_go.Rpc.Value.{Any, null, text, RpcError}
use rupicola_go.Rpc.Errors.{internal_error_data}
use rupicola_go.Rpc.Format.{sprint}
use rupicola_go.Config.Value
use rupicola_go.Config.Value.{
  Value, invalid, mapa, lista, scalar, Values, Entries, as_string, as_bool, get_key, raw,
}
use rupicola_go.Method.Def.{Arg, arg, Args, nil, cons}

-- fromVal, by what the value is.
unfoldable mutual
  unfolding as_string as_bool get_key raw sprint

  pub from_val : Value → Arg
  from_val (mapa es) =
      arg (as_string (get_key (lit "param") (mapa es)) [])
        (as_bool (get_key (lit "skip") (mapa es)) false) false false nil
  from_val (lista vs) = arg [] false false true (from_vals vs)
  from_val invalid = arg (sprint null) false true false nil
  from_val (scalar a) = arg (sprint a) false true false nil

  pub from_vals : Values → Args
  from_vals Value.nil = nil
  from_vals (Value.cons v vs) = cons (from_val v) (from_vals vs)

abbrev pub self : Bytes
self = lit "self"

-- Whether the argument is to be skipped, and the output; or an error.
pub data Evaluated : Type 0 where
  done : Bool → Bytes → Evaluated
  failed : RpcError → Evaluated

-- An argument's text, and whether its parameter is there. `marshal` is json.Marshal of the
-- parameters, which are `none` for a nil map.
abbrev found_text : Option Any → Bytes
found_text none = []
found_text (some null) = []
found_text (some a) = sprint a

abbrev is_there : Option Any → Bool
is_there none = false
is_there (some a) = true

abbrev look : Bytes → Option (Dict Any) → Option Any
look k none = none
look k (some params) = lookup k params

module _ (marshal : Dict Any → Option Bytes) (params : Option (Dict Any)) where
  -- The error "self", or the value and `has`.
  unfoldable pub value_of : Bytes → Option (Bytes × Bool)
  unfolding sprint
  value_of param =
      if param == self
      then elim params [
        | none ↦ some ([], true)
        | some d ↦ elim (marshal d) [ none ↦ none | some json ↦ some (json, true) ]
      ]
      else some (found_text (look param params), is_there (look param params))

  -- evalueateArgs, onto the output so far, and its loop over the parts.
  unfoldable mutual
    unfolding value_of

    pub evaluate : Arg → Bytes → Evaluated
    evaluate (arg param skip true compound child) out = done false (out ++ param)
    evaluate (arg param skip false compound child) out = elim (value_of param) [
      | none ↦ failed (internal_error_data (text self))
      | some (value, has) ↦
          let parts = evaluate_parts child false (if skip then out else out ++ value) in
          if has || compound then parts else done skip out
    ]

    pub evaluate_parts : Args → Bool → Bytes → Evaluated
    evaluate_parts nil skips out = done skips out
    evaluate_parts (cons a rest) skips out = elim (evaluate a out) [
      | failed e ↦ failed e
      | done skip out' ↦ evaluate_parts rest (skips || skip) out'
    ]

  -- The loop of prepareCommand: the arguments that are not skipped.
  unfoldable pub evaluate_all : Args → Option RpcError × List Bytes
  unfolding evaluate
  evaluate_all nil = (none, [])
  evaluate_all (cons a rest) = elim (evaluate a []) [
    | failed e ↦ (some e, [])
    | done skip out ↦
        let (err, outs) = evaluate_all rest in (err, if skip then outs else out ∷ outs)
  ]
