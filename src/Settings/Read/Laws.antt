-- ===== src/Settings/Read/Laws.antt =====
-- What holds of every configuration that ReadConfig accepts (config.go).
use rupicola_go.Base.{
  Bytes, [], ◌∷◌, lit, true, Option, none, some, ◌≡◌, refl, ◌∙◌, sym, ap, arith, bytes_eq,
}
use mathlib.Core.Path.{subst}
use rupicola_go.Base.Dict.{Dict, lookup, NodupNames}
use rupicola_go.Config.Value.{Value, Entries, end, entry, find, mapa, get, entries}
use rupicola_go.Config.Merge.{NodupKeys}
use rupicola_go.Method.Def.{MethodDef}
use rupicola_go.Method.Validate.{validate}
use rupicola_go.Method.Validate.Laws.{all_declared, is_none, validate-all_declared}
use rupicola_go.Settings.Def.{Config}
use rupicola_go.Settings.Read.{
  Read, Identity, ok, failed, checked, read_method, read_methods, read_log, read_config, ◌and_then◌,
}

-- The methods section of the merged values.
abbrev pub methods_of : Entries → Entries
methods_of root = entries (get (lit "methods" ∷ []) (mapa root))

-- The method that a name of the section stands for.
abbrev pub read_as : Identity → Option Value → Option MethodDef
read_as me none = none
read_as me (some v) = some (read_method me v)

and_then-ok {ℓ κ} :
    {A : Type ℓ} {B : Type κ} (r : Read A) (k : A → Read B) (b : B)
    → (r and_then k) ≡ ok b
    → (a : A) × (r ≡ ok a) × (k a ≡ ok b)
and_then-ok (ok a) k b h = (a, refl, h)
and_then-ok (failed e) k b h = ground arith

ok_same : (m n : Dict MethodDef) → (ok m) ≡ (ok n) → n ≡ m
ok_same m n h = ground arith

checked-ok : (m m' : MethodDef) → checked m ≡ ok m' → (m' ≡ m) × (validate m.args m.params ≡ none)
unfolding checked
checked-ok m m' h = ground arith

read_methods-entry :
    (me : Identity) (name : Bytes) (v : Value) (es : Entries) (ms : Dict MethodDef)
    → read_methods me (entry name v es) ≡ ok ms
    → (rest : Dict MethodDef) × (read_methods me es ≡ ok rest)
      × (ms ≡ (name, read_method me v) ∷ rest)
      × (validate (read_method me v).args (read_method me v).params ≡ none)
unfolding read_methods
read_methods-entry me name v es ms h =
    let (m, e, k) = and_then-ok (checked (read_method me v)) _ ms h in
    let (rest, f, g) = and_then-ok (read_methods me es) _ ms k in
    let (same, valid) = checked-ok (read_method me v) m e in
    (
      rest,
      f,
      ok_same ((name, m) ∷ rest) ms g ∙ ap (λ (n : MethodDef). (name, n) ∷ rest) same,
      valid,
    )

-- The methods read are those of the section, by name.
pub lookup-read_methods :
    (me : Identity) (es : Entries) (ms : Dict MethodDef) (name : Bytes)
    → read_methods me es ≡ ok ms
    → lookup name ms ≡ read_as me (find name es)
unfolding read_methods
lookup-read_methods me end ms name h = ground arith
lookup-read_methods me (entry j v es) ms name h =
    let (rest, f, g, valid) = read_methods-entry me j v es ms h in
    ap (λ (d : Dict MethodDef). lookup name d) g
    ∙ ground (arith, lookup-read_methods me es rest name f)

read_methods-valid :
    (me : Identity) (es : Entries) (ms : Dict MethodDef) (name : Bytes) (v : Value)
    → read_methods me es ≡ ok ms
    → find name es ≡ some v
    → validate (read_method me v).args (read_method me v).params ≡ none
read_methods-valid me end ms name v h e = ground arith
read_methods-valid me (entry j w es) ms name v h e =
    let (rest, f, g, valid) = read_methods-entry me j w es ms h in
    ground (arith, read_methods-valid me es rest name v f, valid)

pub read_methods-NodupNames :
    (me : Identity) (es : Entries) (ms : Dict MethodDef)
    → NodupKeys es
    → read_methods me es ≡ ok ms
    → NodupNames ms
unfolding read_methods
read_methods-NodupNames me end ms n h =
    subst (λ (d : Dict MethodDef). NodupNames d) (sym (ok_same [] ms h)) tt
read_methods-NodupNames me (entry j v es) ms (fresh, n) h =
    let (rest, f, g, valid) = read_methods-entry me j v es ms h in
    subst (λ (d : Dict MethodDef). NodupNames d) (sym g)
      (
        lookup-read_methods me es rest j f ∙ ap (read_as me) fresh,
        read_methods-NodupNames me es rest n f,
      )

abbrev methods_read : Read Config → Read (Dict MethodDef)
methods_read (ok c) = ok c.methods
methods_read (failed e) = failed e

pub read_config-methods :
    (me : Identity) (root : Entries) (conf : Config)
    → read_config me root ≡ ok conf
    → read_methods me (methods_of root) ≡ ok conf.methods
unfolding read_config
read_config-methods me root conf h =
    let (ms, e, k) = and_then-ok (read_methods me (methods_of root)) _ conf h in
    let (log, f, g) = and_then-ok (read_log (get (lit "log" ∷ []) (mapa root))) _ conf k in
    e ∙ ap methods_read g

-- The name stands for a value of the section.
read_as-some :
    (me : Identity) (found : Option Value) (m : MethodDef)
    → read_as me found ≡ some m
    → (v : Value) × (found ≡ some v) × (m ≡ read_method me v)
read_as-some me none m h = ground arith
read_as-some me (some v) m h = (v, refl, ground arith)

-- In a configuration that ReadConfig accepts, each argument of each method, at any depth, that
-- takes its text from a parameter other than self names a parameter that the method declares.
pub read_config-all_declared :
    (me : Identity) (root : Entries) (conf : Config) (name : Bytes) (m : MethodDef)
    → read_config me root ≡ ok conf
    → lookup name conf.methods ≡ some m
    → all_declared m.params m.args ≡ true
read_config-all_declared me root conf name m h e =
    let read = read_config-methods me root conf h in
    let (v, there, same) =
      read_as-some me (find name (methods_of root)) m
        (sym (lookup-read_methods me (methods_of root) conf.methods name read) ∙ e) in
    let valid = read_methods-valid me (methods_of root) conf.methods name v read there in
    subst (λ (n : MethodDef). all_declared n.params n.args ≡ true) (sym same)
      (sym (validate-all_declared (read_method me v).args (read_method me v).params)
        ∙ ap (λ (o : Option Bytes). is_none o) valid)
