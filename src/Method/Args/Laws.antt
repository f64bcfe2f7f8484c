-- ===== src/Method/Args/Laws.antt =====
-- What arguments evaluate to (evalueateArgs of config.go).
use rupicola_go.Base.{
  Bytes, lit, [], ◌∷◌, ◌++◌, Bool, true, false, not, Option, none, some, ◌≡◌, ◌≢◌, refl, ap, ◌∙◌,
  arith, append-nil, append_assoc, bytes_eq, ==_iff,
}
use rupicola_go.Base.Dict.{Dict, lookup, insert, lookup-insert}
use rupicola_go.Rpc.Value.{Any, text}
use rupicola_go.Rpc.Format.{sprint}
use rupicola_go.Config.Value.{Yaml, plain, seq, Yamls, stop, item, val_from, array_from}
use rupicola_go.Method.Def.{Arg, arg, Args, nil, cons, MethodParam}
use rupicola_go.Method.Params.{default_of, accepted, check_params}
use rupicola_go.Method.Params.Laws.{check_params_stops, AllGiven, all_typed}
use rupicola_go.Method.Args.{
  self, done, found_text, is_there, look, value_of, evaluate, evaluate_parts, from_val, from_vals,
}

-- An argument of texts in nested lists, as it is configured.
mutual
  pub data Nested : Type 0 where
    word : Bytes → Nested
    nest : NestedList → Nested

  pub data NestedList : Type 0 where
    last : NestedList
    next : Nested → NestedList → NestedList

-- What the YAML decoder makes of it.
unfoldable mutual
  pub configured : Nested → Yaml
  configured (word s) = plain (text s)
  configured (nest ns) = seq (configured_list ns)

  pub configured_list : NestedList → Yamls
  configured_list last = stop
  configured_list (next n ns) = item (configured n) (configured_list ns)

-- Its text, if each list in it starts with `wild`; of an empty list, that of nil.
unfoldable mutual
  pub text_of : Bytes → Nested → Bytes
  text_of wild (word s) = s
  text_of wild (nest last) = lit "<nil>"
  text_of wild (nest (next n ns)) = wild ++ (text_of wild n ++ text_of_list wild ns)

  pub text_of_list : Bytes → NestedList → Bytes
  text_of_list wild last = []
  text_of_list wild (next n ns) = text_of wild n ++ text_of_list wild ns

-- The argument that ReadConfig makes of what is configured.
abbrev pub argument : Nested → Arg
argument n = from_val (val_from (configured n))

abbrev arguments : NestedList → Args
arguments ns = from_vals (array_from (configured_list ns))

module _ (marshal : Dict Any → Option Bytes) (params : Option (Dict Any)) where
  -- A list has no name of its own: it looks for the parameter with the empty name.
  value_of-nil :
      value_of marshal params [] ≡ some (found_text (look [] params), is_there (look [] params))
  unfolding value_of bytes_eq
  value_of-nil = refl

  abbrev pub wild : Bytes
  wild = found_text (look [] params)

  -- A compound argument with no name and no skip mark.
  evaluate-compound :
      (parts : Args) (out : Bytes)
      → evaluate marshal params (arg [] false false true parts) out
        ≡ evaluate_parts marshal params parts false (out ++ wild)
  unfolding evaluate bytes_eq
  evaluate-compound parts out = ground arith

  evaluate_parts-done :
      (a : Arg) (rest : Args) (skips : Bool) (out out' : Bytes)
      → evaluate marshal params a out ≡ done false out'
      → evaluate_parts marshal params (cons a rest) skips out
        ≡ evaluate_parts marshal params rest skips out'
  unfolding evaluate
  evaluate_parts-done a rest skips out out' h = ground arith

  evaluate_parts-nil :
      (skips : Bool) (out : Bytes) → evaluate_parts marshal params nil skips out ≡ done skips out
  unfolding evaluate
  evaluate_parts-nil skips out = refl

  evaluate-static :
      (s out : Bytes)
      → evaluate marshal params (arg s false true false nil) out ≡ done false (out ++ s)
  unfolding evaluate
  evaluate-static s out = refl

  mutual
    unfolding text_of configured val_from from_val sprint

    evaluate_nested :
        (n : Nested) (out : Bytes)
        → evaluate marshal params (argument n) out ≡ done false (out ++ text_of wild n)
    evaluate_nested (word s) out = evaluate-static s out
    evaluate_nested (nest last) out = evaluate-static (lit "<nil>") out
    evaluate_nested (nest (next n ns)) out =
        evaluate-compound (arguments (next n ns)) out
        ∙ evaluate_nested_list (next n ns) (out ++ wild)
        ∙ ap (done false) (append_assoc out wild (text_of_list wild (next n ns)))

    evaluate_nested_list :
        (ns : NestedList) (out : Bytes)
        → evaluate_parts marshal params (arguments ns) false out
          ≡ done false (out ++ text_of_list wild ns)
    evaluate_nested_list last out = evaluate_parts-nil false out ∙ rw (append-nil out)
    evaluate_nested_list (next n ns) out =
        evaluate_parts-done (argument n) (arguments ns) false out _ (evaluate_nested n out)
        ∙ evaluate_nested_list ns (out ++ text_of wild n)
        ∙ rw (append_assoc out (text_of wild n) (text_of_list wild ns))

  -- An argument configured as nested lists of texts gives these texts in a row, however they are
  -- nested, but an empty list is printed as <nil>, and each other list also prints the value of the
  -- parameter with the empty name, which a request can set.
  pub evaluate-configured :
      (n : Nested) (out : Bytes)
      → evaluate marshal params (argument n) out ≡ done false (out ++ text_of wild n)
  evaluate-configured n out = evaluate_nested n out

-- An argument that is bound to the presence of a parameter: a text, and the parameter with its
-- skip mark.
abbrev pub phantom : Bytes → Bytes → Arg
phantom s param =
    arg [] false false true
      (cons (arg s false true false nil) (cons (arg param true false false nil) nil))

-- An argument bound to the presence of a parameter has its text, and is skipped exactly if the
-- parameter is missing where it is evaluated. The parameter is not self, and there is no parameter
-- with the empty name.
pub evaluate-phantom :
    (marshal : Dict Any → Option Bytes) (params : Dict Any) (s param out : Bytes)
    → param ≢ self
    → lookup [] params ≡ none
    → evaluate marshal (some params) (phantom s param) out
      ≡ done (not (is_there (lookup param params))) (out ++ s)
unfolding evaluate
evaluate-phantom marshal params s param out h k =
    ground (arith, ==_iff [] self, ==_iff param self, append-nil out)

-- An optional parameter that a call leaves out is given its default by CheckParams, so an argument
-- bound to it is passed on all the same. The parameters before it are given and have their types,
-- the parameter is not self, and the request has no parameter with the empty name.
pub evaluate-phantom_of_missing :
    (marshal : Dict Any → Option Bytes) (before after : Dict MethodParam) (name : Bytes)
    (p : MethodParam) (params : Dict Any) (s : Bytes)
    → AllGiven before params
    → all_typed before params ≡ true
    → lookup name params ≡ none
    → p.optional ≡ true
    → name ≢ self
    → name ≢ []
    → lookup [] params ≡ none
    → (given : Dict Any) × (check_params (before ++ (name, p) ∷ after) params ≡ accepted given)
      × (evaluate marshal (some given) (phantom s name) [] ≡ done false s)
evaluate-phantom_of_missing marshal before after name p params s h t missing optional k k' e =
    let given = insert name (default_of p) params in
    (
      given,
      check_params_stops before after name p params h t missing optional,
      ground (
        arith,
        evaluate-phantom marshal given s name [] k,
        lookup-insert name [] (default_of p) params,
        lookup-insert name name (default_of p) params,
        ==_iff name [],
        ==_iff name name,
      ),
    )
