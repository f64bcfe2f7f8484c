-- ===== src/Method/Params.antt =====
-- CheckParams (config.go). Go visits a map in any order: the theorems hold for every order of the
-- declared parameters.
pub mod Laws
use rupicola_go.Base.{Bytes, List, [], ◌∷◌, Bool, true, false, Option, none, some, if◌then◌else◌}
use rupicola_go.Base.Int.{pos}
use rupicola_go.Base.Dict.{Dict, lookup, insert}
use rupicola_go.Rpc.Value.{Any, null, bool, int, float, text}
use rupicola_go.Method.Def.{ParamType, string_type, int_type, bool_type, number_type, MethodParam}

-- (MethodParamType).defaultValue
unfoldable pub default_value : ParamType → Any
default_value string_type = text []
default_value number_type = int (pos 0)
default_value int_type = int (pos 0)
default_value bool_type = bool false

-- The switch on the type: of numbers every kind is fit for an int, and no case is for `number`.
unfoldable pub has_type : ParamType → Any → Bool
has_type string_type (text s) = true
has_type int_type (int n) = true
has_type int_type (float printed) = true
has_type bool_type (bool b) = true
has_type _ _ = false

-- The parameters, with a default that was added; the error InvalidParams; or the panic of
-- reflect.TypeOf(nil).Kind().
pub data Checked : Type 0 where
  accepted : Dict Any → Checked
  invalid_params : Checked
  panicked : Checked

-- `if val == nil` of the default.
unfoldable pub default_of : MethodParam → Any
unfolding default_value
default_of p = elim p.default_val [ null ↦ default_value p.type | _ ↦ p.default_val ]

-- What a given value makes of the round: `rest` is that of the parameters behind it.
abbrev check_value : ParamType → Any → Checked → Checked
check_value type null rest = panicked
check_value type v rest = if has_type type v then rest else invalid_params

unfoldable pub check_params : Dict MethodParam → Dict Any → Checked
unfolding default_of has_type
check_params [] params = accepted params
check_params ((name, p) ∷ declared) params =
    let rest = check_params declared params in
    elim (lookup name params) [
      | none ↦ if p.optional then accepted (insert name (default_of p) params) else invalid_params
      | some v ↦ check_value p.type v rest
    ]
