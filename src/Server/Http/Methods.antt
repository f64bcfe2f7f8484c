-- ===== src/Server/Http/Methods.antt =====
-- The methods of the configuration in the processor that is made of it (processor.go).
use rupicola_go.Base.{
  Bytes, [], ◌∷◌, true, none, some, ◌≡◌, refl, ◌∙◌, arith, ◌==◌, bytes_eq, ==_iff, if◌then◌else◌,
  Bool-cases, inl, inr,
}
use mathlib.Core.Path.{subst}
use rupicola_go.Base.Int.{pos, pos_part, ltb_ℤ}
use rupicola_go.Base.Dict.{NodupNames, Dict, lookup}
use rupicola_go.Rpc.Value.{MethodType}
use rupicola_go.Rpc.Registry.{
  new_json_rpc_processor, add_method, execution_timeout, max_size, find_method, at,
}
use rupicola_go.Rpc.Registry.Lookup.{defined}
use rupicola_go.Method.Def.{MethodDef}
use rupicola_go.Server.Command.{RpcContext, System, invoke}
use rupicola_go.Settings.Def.{Config}
use rupicola_go.Server.Http.{type_of, add_methods, new_processor}
use rupicola_go.Server.Http.Rounds.{
  Entry, Table, Has, written, written-Has, written-Differs, Wrote, default_limits, limits_of,
  with_limits, with_timeout-Wrote, with_size-Wrote,
}

module _ (sys : System) where
  abbrev pub definition : MethodDef → Entry
  definition m = defined (invoke sys m) (limits_of m)

  limits_set :
      (m : MethodDef)
      → (let d = defined (invoke sys m) (default_limits m) in
          let d' : Entry =
            if ltb_ℤ m.limits.exec_timeout (pos 0)
            then d
            else execution_timeout m.limits.exec_timeout d in
          (if ltb_ℤ m.limits.max_response (pos 0)
            then d'
            else max_size (pos_part m.limits.max_response) d')
          ≡ definition m)
  unfolding execution_timeout max_size
  limits_set m = ground arith

  with_limits-Wrote :
      (name : Bytes) (m : MethodDef) (p0 q : Table)
      → Wrote p0 q name (type_of m) (defined (invoke sys m) (default_limits m))
      → Wrote p0 (with_limits m q name) name (type_of m) (definition m)
  with_limits-Wrote name m p0 q h =
      subst (λ (d : Entry). Wrote p0 (with_limits m q name) name (type_of m) d) (limits_set m)
        (with_size-Wrote name m p0 _ _ (with_timeout-Wrote name m p0 q _ h))

  -- The table has the limits that NewJsonRpcProcessor gives it.
  abbrev Standard : Table → Type 0
  Standard p = p.limits ≡ (new_json_rpc_processor {U = RpcContext}).limits

  type_of-limits :
      (m : MethodDef) (p : Table) → Standard p → at (type_of m) p.limits ≡ some (default_limits m)
  unfolding type_of new_json_rpc_processor
  type_of-limits m p h = ground arith

  add_method-written :
      (name : Bytes) (m : MethodDef) (p : Table)
      → Standard p
      → add_method name (type_of m) (invoke sys m) p
        ≡ some (written name (type_of m) (defined (invoke sys m) (default_limits m)) p)
  unfolding add_method
  add_method-written name m p h = ground (arith, type_of-limits m p h)

  -- The table after one round of the loop.
  abbrev round : Bytes → MethodDef → Table → Table
  round name m p =
      with_limits m (written name (type_of m) (defined (invoke sys m) (default_limits m)) p) name

  round-Wrote :
      (name : Bytes) (m : MethodDef) (p : Table)
      → Wrote p (round name m p) name (type_of m) (definition m)
  round-Wrote name m p =
      let d = defined (invoke sys m) (default_limits m) in
      with_limits-Wrote name m p _ (record {
        has = written-Has name (type_of m) d p;
        differs =
            written-Differs name (type_of m) d p p (record { others = λ j n. refl; limits = refl });
      })

  add_methods-round :
      (name : Bytes) (m : MethodDef) (rest : Dict MethodDef) (p : Table)
      → Standard p
      → add_methods sys ((name, m) ∷ rest) p ≡ add_methods sys rest (round name m p)
  unfolding add_methods
  add_methods-round name m rest p h = ground (arith, add_method-written name m p h)

  -- The loop ends with a table that has every method, and of other names what it had before.
  record Added (ds : Dict MethodDef) (p q : Table) : Type 0 where
    done : add_methods sys ds p ≡ some q
    has :
        (name : Bytes) (m : MethodDef)
        → lookup name ds ≡ some m
        → Has q name (type_of m) (definition m)
    others : (j : Bytes) → lookup j ds ≡ none → lookup j q.methods ≡ lookup j p.methods

  Has-same :
      (p q : Table) (name : Bytes) (metype : MethodType) (d : Entry)
      → lookup name q.methods ≡ lookup name p.methods
      → Has p name metype d
      → Has q name metype d
  Has-same p q name metype d e h = record { group = h.group; there = e ∙ h.there; typed = h.typed }

  -- The name of this round is no later one, and is found with its own method.
  Added-own :
      (name : Bytes) (m : MethodDef) (rest : Dict MethodDef) (p q : Table) (j : Bytes)
      (m' : MethodDef)
      → lookup name rest ≡ none
      → Added rest (round name m p) q
      → (name == j) ≡ true
      → lookup j ((name, m) ∷ rest) ≡ some m'
      → Has q j (type_of m') (definition m')
  Added-own name m rest p q j m' fresh a same e =
      let found : Has q name (type_of m) (definition m) =
        Has-same (round name m p) q name (type_of m) (definition m) (a.others name fresh)
          (round-Wrote name m p).has in
      let own : m ≡ m' = ground arith in
      let named : name ≡ j = ground (arith, ==_iff name j) in
      subst (λ (i : Bytes). Has q i (type_of m') (definition m')) named
        (subst (λ (x : MethodDef). Has q name (type_of x) (definition x)) own found)

  Added-Has :
      (name : Bytes) (m : MethodDef) (rest : Dict MethodDef) (p q : Table) (j : Bytes)
      (m' : MethodDef)
      → lookup name rest ≡ none
      → Added rest (round name m p) q
      → lookup j ((name, m) ∷ rest) ≡ some m'
      → Has q j (type_of m') (definition m')
  Added-Has name m rest p q j m' fresh a e = elim (Bool-cases (name == j)) [
    | inl same ↦ Added-own name m rest p q j m' fresh a same e
    | inr other ↦ a.has j m' (ground arith)
  ]

  Added-others :
      (name : Bytes) (m : MethodDef) (rest : Dict MethodDef) (p q : Table) (j : Bytes)
      → Added rest (round name m p) q
      → lookup j ((name, m) ∷ rest) ≡ none
      → lookup j q.methods ≡ lookup j p.methods
  Added-others name m rest p q j a e =
      a.others j (ground arith) ∙ (round-Wrote name m p).differs.others j (ground arith)

  Added-step :
      (name : Bytes) (m : MethodDef) (rest : Dict MethodDef) (p q : Table)
      → Standard p
      → lookup name rest ≡ none
      → Added rest (round name m p) q
      → Added ((name, m) ∷ rest) p q
  Added-step name m rest p q h fresh a = record {
    done = add_methods-round name m rest p h ∙ a.done;
    has = λ j m' e. Added-Has name m rest p q j m' fresh a e;
    others = λ j e. Added-others name m rest p q j a e;
  }

  add_methods-Added :
      (ds : Dict MethodDef) (p : Table) → Standard p → NodupNames ds → (q : Table) × Added ds p q
  unfolding add_methods
  add_methods-Added [] p h n =
      (p, record { done = refl; has = λ name m e. ground arith; others = λ j e. refl })
  add_methods-Added ((name, m) ∷ rest) p h (fresh, n) =
      let (q, a) =
        add_methods-Added rest (round name m p) ((round-Wrote name m p).differs.limits ∙ h) n in
      (q, Added-step name m rest p q h fresh a)

  find_method-Has :
      (p : Table) (name : Bytes) (metype : MethodType) (d : Entry)
      → Has p name metype d
      → find_method name metype p ≡ some d
  unfolding find_method
  find_method-Has p name metype d h = ground (arith, h.there, h.typed)

  -- A processor is made of every configuration, and each configured method is found in it under the
  -- type that it is configured with, with the limits that it overrides and those of its type
  -- otherwise. No name is configured twice.
  pub new_processor_finds :
      (conf : Config) (name : Bytes) (m : MethodDef)
      → NodupNames conf.methods
      → lookup name conf.methods ≡ some m
      → (p : Table) × (new_processor sys conf ≡ some p)
        × (find_method name (type_of m) p ≡ some (definition m))
  unfolding new_processor
  new_processor_finds conf name m n e =
      let (q, a) = add_methods-Added conf.methods new_json_rpc_processor refl n in
      (q, a.done, find_method-Has q name (type_of m) (definition m) (a.has name m e))
