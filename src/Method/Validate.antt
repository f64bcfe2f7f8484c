-- ===== src/Method/Validate.antt =====
-- `aggregateArgs` and `Validate` (config.go): every argument's parameter is declared.
pub mod Laws
use rupicola_go.Base.{
  Bytes, List, [], ◌∷◌, Bool, true, false, not, ◌&&◌, ◌||◌, Option, none, some, ◌==◌, bytes_eq,
  if◌then◌else◌,
}
use rupicola_go.Base.Dict.{Dict, lookup}
use rupicola_go.Method.Def.{Arg, arg, Args, nil, cons, MethodParam}
use rupicola_go.Method.Args.{self}

abbrev pub contains : Bytes → List Bytes → Bool
contains k [] = false
contains k (j ∷ js) = j == k || contains k js

-- b[k] = true, of a map used as a set.
abbrev pub include : Bytes → List Bytes → List Bytes
include k s = if contains k s then s else k ∷ s

-- The test on one argument.
abbrev pub names_param : Bytes → Bool → Bool → Bool
names_param param static compound = not static && (not compound && not (param == self))

unfoldable mutual
  pub aggregate : Arg → List Bytes → List Bytes
  aggregate (arg param skip static compound child) b =
      aggregate_all child (if names_param param static compound then include param b else b)

  pub aggregate_all : Args → List Bytes → List Bytes
  aggregate_all nil b = b
  aggregate_all (cons a rest) b = aggregate_all rest (aggregate a b)

-- The loop over the names used: the first one that is not declared (`none` if all are).
unfoldable pub undeclared : List Bytes → Dict MethodParam → Option Bytes
undeclared [] params = none
undeclared (k ∷ ks) params =
    let rest = undeclared ks params in elim (lookup k params) [ none ↦ some k | some p ↦ rest ]

-- Validate: the name in its error, `none` for nil.
unfoldable pub validate : Args → Dict MethodParam → Option Bytes
unfolding aggregate undeclared
validate args params = undeclared (aggregate_all args []) params
