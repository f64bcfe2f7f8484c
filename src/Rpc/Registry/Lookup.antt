-- ===== src/Rpc/Registry/Lookup.antt =====
-- What `method` finds after AddMethod (rupicolarpc/rupicolarpc.go).
use rupicola_go.Base.{
  Bytes, Option, none, some, ◌≡◌, arith, ap, sym, ◌∙◌, ◌==◌, bytes_eq, if◌then◌else◌,
}
use mathlib.Core.Option.{some-injective}
use rupicola_go.Base.Dict.{insert, lookup-insert}
use rupicola_go.Rpc.Value.{MethodType}
use rupicola_go.Rpc.Registry.{
  Request, Returned, MethodDef, Limits, Processor, at, put_at, container, compatible, add_method,
  old_to_new, find_method, ByType,
}

module _ {U : Type 0} where
  -- The search among the definitions of one name.
  abbrev pub resolve : MethodType → ByType (MethodDef U) → Option (MethodDef U)
  resolve metype ms = elim (at metype ms) [ some m ↦ some m | none ↦ compatible metype ms ]

  find_method-insert :
      (name j : Bytes) (t : MethodType) (ms : ByType (MethodDef U)) (p : Processor U)
      → find_method j t (record p { methods = insert name ms p.methods })
        ≡ (if name == j then resolve t ms else find_method j t p)
  unfolding find_method
  find_method-insert name j t ms p = ground (arith, lookup-insert name j ms p.methods)

  -- The definition that AddMethod makes: the limits are a copy of those of the type.
  abbrev pub defined : (Request U → Returned) → Limits → MethodDef U
  defined action limits = record { invoker = old_to_new action; limits = limits }

  added :
      (name : Bytes) (metype : MethodType) (action : Request U → Returned) (p : Processor U)
      {limits : Limits}
      → at metype p.limits ≡ some limits
      → add_method name metype action p
        ≡ some (record p {
          methods =
              insert name (put_at metype (defined action limits) (container name p)) p.methods;
        })
  unfolding add_method
  added name metype action p h = ground arith

  -- After AddMethod the name has the new definition under its type and, if the type is the legacy
  -- streaming one, under the streaming type too unless that has one of its own; no other name and
  -- no other type has changed. The type has limits.
  pub find_method-add_method :
      (name : Bytes) (metype : MethodType) (action : Request U → Returned) (p q : Processor U)
      (j : Bytes) (t : MethodType) {limits : Limits}
      → at metype p.limits ≡ some limits
      → add_method name metype action p ≡ some q
      → find_method j t q ≡ (
          if name == j
          then resolve t (put_at metype (defined action limits) (container name p))
          else find_method j t p)
  find_method-add_method name metype action p q j t {limits} h run =
      let ms = put_at metype (defined action limits) (container name p) in
      ap (find_method j t) (
        some-injective q (record p { methods = insert name ms p.methods })
          (sym run ∙ added name metype action p h))
      ∙ find_method-insert name j t ms p
