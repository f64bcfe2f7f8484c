-- ===== src/Method/Validate/Laws.antt =====
-- Validate accepts a method exactly if every parameter that its arguments name is declared
-- (config.go).
use rupicola_go.Base.{
  Bytes, List, [], ◌∷◌, Bool, true, false, ◌&&◌, Option, none, some, ◌≡◌, refl, arith, bytes_eq,
  ==_iff, if◌then◌else◌,
}
use rupicola_go.Base.Dict.{Dict, lookup}
use rupicola_go.Method.Def.{Arg, arg, Args, nil, cons, MethodParam}
use rupicola_go.Method.Validate.{
  contains, include, names_param, aggregate, aggregate_all, undeclared, validate,
}

abbrev pub is_none {ℓ} : {A : Type ℓ} → Option A → Bool
is_none none = true
is_none (some a) = false

abbrev pub is_some {ℓ} : {A : Type ℓ} → Option A → Bool
is_some none = false
is_some (some a) = true

-- The specification, by recursion on the arguments.
unfoldable mutual
  pub declared_in : Dict MethodParam → Arg → Bool
  declared_in params (arg param skip static compound child) =
      (if names_param param static compound then is_some (lookup param params) else true)
      && all_declared params child

  pub all_declared : Dict MethodParam → Args → Bool
  all_declared params nil = true
  all_declared params (cons a rest) = declared_in params a && all_declared params rest

module _ (params : Dict MethodParam) where
  undeclared-contains :
      (k : Bytes) (s : List Bytes)
      → contains k s ≡ true
      → is_none (undeclared s params) ≡ true
      → is_some (lookup k params) ≡ true
  unfolding undeclared
  undeclared-contains k [] h u = ground arith
  undeclared-contains k (j ∷ s) h u = ground (arith, ==_iff j k, undeclared-contains k s)

  undeclared-include :
      (k : Bytes) (s : List Bytes)
      → is_none (undeclared (include k s) params)
        ≡ (is_some (lookup k params) && is_none (undeclared s params))
  unfolding undeclared
  undeclared-include k s = ground (arith, undeclared-contains k s)

  mutual
    unfolding aggregate declared_in

    undeclared-aggregate :
        (a : Arg) (s : List Bytes)
        → is_none (undeclared (aggregate a s) params)
          ≡ (declared_in params a && is_none (undeclared s params))
    undeclared-aggregate (arg param skip static compound child) s = ground (
      arith,
      undeclared-aggregate_all child
          (if names_param param static compound then include param s else s),
      undeclared-include param s,
    )

    undeclared-aggregate_all :
        (more : Args) (s : List Bytes)
        → is_none (undeclared (aggregate_all more s) params)
          ≡ (all_declared params more && is_none (undeclared s params))
    undeclared-aggregate_all nil s = refl
    undeclared-aggregate_all (cons a rest) s =
        ground (arith, undeclared-aggregate_all rest (aggregate a s), undeclared-aggregate a s)

-- Validate reports no error exactly if each argument, at any depth, that takes its text from a
-- parameter other than self names a declared one.
pub validate-all_declared :
    (args : Args) (params : Dict MethodParam)
    → is_none (validate args params) ≡ all_declared params args
unfolding validate
validate-all_declared args params = ground (arith, undeclared-aggregate_all params args [])
