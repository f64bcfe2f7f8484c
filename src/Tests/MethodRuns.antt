-- ===== src/Tests/MethodRuns.antt =====
-- Methods with their parameters and arguments.
use rupicola_go.Base.{lit, [], ◌∷◌, true, false, none, some, ◌≡◌, refl, bytes_eq}
use rupicola_go.Base.Int.{pos}
use rupicola_go.Base.Dict.{Dict}
use rupicola_go.Rpc.Value.{Any, null, text, int}
use rupicola_go.Method.Def.{MethodParam, string_type, int_type, arg, nil, cons, Args}
use rupicola_go.Method.Params.{check_params, accepted, default_of, has_type}
use rupicola_go.Method.Params.Laws.{check_params_stops}
use rupicola_go.Method.Args.{done, evaluate}
use rupicola_go.Method.Args.Laws.{
  Nested, word, nest, last, next, argument, text_of, evaluate-configured,
}
use rupicola_go.Method.Validate.{validate}
use rupicola_go.Method.Validate.Laws.{is_none, all_declared, validate-all_declared}

abbrev required_name : MethodParam
required_name = record { type = string_type; optional = false; default_val = null }

abbrev optional_count : MethodParam
optional_count = record { type = int_type; optional = true; default_val = null }

abbrev given : Dict Any
given = (lit "name", text (lit "x")) ∷ []

check_params_stops_example :
    check_params
      ((lit "name", required_name) ∷ (lit "count", optional_count) ∷ (lit "id", required_name) ∷ [])
      given
    ≡ accepted ((lit "name", text (lit "x")) ∷ (lit "count", int (pos 0)) ∷ [])
unfolding bytes_eq has_type default_of
check_params_stops_example =
    check_params_stops ((lit "name", required_name) ∷ []) ((lit "id", required_name) ∷ [])
      (lit "count") optional_count given (tt, tt) refl refl refl

-- The list a, [b], [].
abbrev mixed : Nested
mixed =
    nest (next (word (lit "a")) (next (nest (next (word (lit "b")) last)) (next (nest last) last)))

evaluate-configured_example :
    evaluate (λ d. none) (some given) (argument mixed) [] ≡ done false (lit "ab<nil>")
unfolding bytes_eq text_of
evaluate-configured_example = evaluate-configured (λ d. none) (some given) mixed []

abbrev nested_args : Args
nested_args =
    cons (arg [] false false true (cons (arg (lit "name") true false false nil) nil))
      (cons (arg (lit "self") false false false nil) nil)

validate-all_declared_example :
    is_none (validate nested_args ((lit "name", required_name) ∷ []))
    ≡ all_declared ((lit "name", required_name) ∷ []) nested_args
validate-all_declared_example = validate-all_declared nested_args ((lit "name", required_name) ∷ [])
