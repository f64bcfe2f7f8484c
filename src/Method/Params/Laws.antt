-- ===== src/Method/Params/Laws.antt =====
-- What CheckParams accepts (config.go).
use rupicola_go.Base.{
  Bytes, [], ◌∷◌, ◌++◌, Bool, true, false, ◌&&◌, Option, none, some, ◌≡◌, ◌⊎◌, refl, arith,
  if◌then◌else◌,
}
use rupicola_go.Base.Int.{ℤ}
use rupicola_go.Base.Dict.{Dict, lookup, insert}
use rupicola_go.Rpc.Value.{Any, null, bool, int, float, text, arr, obj}
use rupicola_go.Method.Def.{ParamType, string_type, int_type, bool_type, number_type, MethodParam}
use rupicola_go.Method.Params.{
  has_type, default_of, Checked, accepted, invalid_params, check_value, check_params,
}

-- A value is there, and it is not nil.
abbrev pub IsGiven : Option Any → Type 0
IsGiven none = ⊥
IsGiven (some null) = ⊥
IsGiven (some _) = Unit

abbrev pub AllGiven : Dict MethodParam → Dict Any → Type 0
AllGiven [] params = Unit
AllGiven ((name, p) ∷ declared) params = IsGiven (lookup name params) × AllGiven declared params

abbrev fits : ParamType → Option Any → Bool
fits type none = false
fits type (some v) = has_type type v

abbrev pub all_typed : Dict MethodParam → Dict Any → Bool
all_typed [] params = true
all_typed ((name, p) ∷ declared) params =
    fits p.type (lookup name params) && all_typed declared params

-- One parameter that is given, before the others.
check_given :
    (type : ParamType) (given : Option Any) (rest missing : Checked)
    → IsGiven given
    → (elim given [ none ↦ missing | some v ↦ check_value type v rest ])
      ≡ (if fits type given then rest else invalid_params)
check_given type none rest missing h = absurd h
check_given type (some null) rest missing h = absurd h
check_given type (some (bool b)) rest missing h = refl
check_given type (some (int n)) rest missing h = refl
check_given type (some (float s)) rest missing h = refl
check_given type (some (text s)) rest missing h = refl
check_given type (some (arr s)) rest missing h = refl
check_given type (some (obj s)) rest missing h = refl

check_params_step :
    (name : Bytes) (p : MethodParam) (declared : Dict MethodParam) (params : Dict Any)
    → IsGiven (lookup name params)
    → check_params ((name, p) ∷ declared) params
      ≡ (if fits p.type (lookup name params) then check_params declared params else invalid_params)
unfolding check_params
check_params_step name p declared params h = check_given p.type (lookup name params) _ _ h

-- The values of a type: a text, any number, a truth value. No configuration gives a parameter the type
-- `number_type`, since the word number is read as `int_type`; it has no values.
abbrev pub Takes : ParamType → Any → Type 0
Takes string_type v = (s : Bytes) × (v ≡ text s)
Takes int_type v = ((n : ℤ) × (v ≡ int n)) ⊎ ((printed : Bytes) × (v ≡ float printed))
Takes bool_type v = (b : Bool) × (v ≡ bool b)
Takes number_type v = ⊥

-- Each declared parameter has a value that its type takes.
abbrev pub AllTaken : Dict MethodParam → Dict Any → Type 0
AllTaken [] params = Unit
AllTaken ((name, p) ∷ declared) params =
    ((v : Any) × (lookup name params ≡ some v) × Takes p.type v) × AllTaken declared params

check_params_default :
    (name : Bytes) (p : MethodParam) (after : Dict MethodParam) (params : Dict Any)
    → lookup name params ≡ none
    → p.optional ≡ true
    → check_params ((name, p) ∷ after) params ≡ accepted (insert name (default_of p) params)
unfolding check_params
check_params_default name p after params missing optional = ground arith

-- CheckParams ends at the first optional parameter that is missing: the call is accepted with its
-- default, whatever is declared behind it, required parameters that are missing included. The
-- parameters before it are given and have their types.
pub check_params_stops :
    (before after : Dict MethodParam) (name : Bytes) (p : MethodParam) (params : Dict Any)
    → AllGiven before params
    → all_typed before params ≡ true
    → lookup name params ≡ none
    → p.optional ≡ true
    → check_params (before ++ (name, p) ∷ after) params
      ≡ accepted (insert name (default_of p) params)
check_params_stops [] after name p params h t missing optional =
    check_params_default name p after params missing optional
check_params_stops ((j, q) ∷ before) after name p params (h, hs) t missing optional = ground (
  arith,
  check_params_step j q (before ++ (name, p) ∷ after) params h,
  check_params_stops before after name p params hs,
)
