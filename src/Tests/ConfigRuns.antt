-- ===== src/Tests/ConfigRuns.antt =====
-- Configuration files read and merged.
use mathlib.Core.Path.{subst}
use rupicola_go.Base.{
  Bytes, lit, List, [], ◌∷◌, ◌++◌, length, suc, none, some, ◌≡◌, ◌∙◌, sym, ap, refl, arith,
  bytes_eq, if◌then◌else◌, ◌==◌, Bool-cases, inl, inr, All, ℕ, ◌<◌, ◌+◌,
}
use rupicola_go.Base.Int.{pos}
use rupicola_go.Rpc.Value.{text, int, other}
use rupicola_go.Config.Value.{
  Value, get, is_valid, scalar, lista, mapa, Entries, nil, elements, get_key, cons, end, entry,
  find, Yaml, Yamls, YamlEntries, done, pair,
}
use rupicola_go.Config.Merge.{merge_map, merge_value, merged, find-merge_map}
use rupicola_go.Config.Merge.Paths.{get-merge_value}
use rupicola_go.Config.Load.{
  Files, Document, Loaded, fails, mapping, regular, ok, load, document_value, push_includes,
  include_of, search_files, push,
}
use rupicola_go.Config.Load.Order.{stacked, merge_all, includes, load-Leaves, load_itself}
use rupicola_go.Config.Load.Ends.{IsRanked, load_ends}

abbrev old_limits : Entries
old_limits =
    entry (lit "limits") (mapa (entry (lit "timeout") (scalar (int (pos 1))) end))
      (entry (lit "bind") (lista (cons (scalar (text (lit "a"))) nil)) end)

abbrev new_limits : Entries
new_limits =
    entry (lit "bind") (lista (cons (scalar (text (lit "b"))) nil))
      (entry (lit "log") (scalar (text (lit "stdout"))) end)

find-merge_map_example :
    find (lit "bind") (merge_map old_limits new_limits)
    ≡ merged (find (lit "bind") old_limits) (find (lit "bind") new_limits)
unfolding bytes_eq
find-merge_map_example = find-merge_map old_limits new_limits (lit "bind") (refl, (refl, tt))

abbrev named : Bytes → YamlEntries
named s = pair (text (lit "log")) (Yaml.plain (text s)) done

abbrev own_include : YamlEntries
own_include =
    pair (text (lit "include")) (Yaml.seq (Yamls.item (Yaml.plain (text (lit "c"))) Yamls.stop))
      done

abbrev read_named : Bytes → Document
read_named path =
    if path == lit "a"
    then mapping (named (lit "first"))
    else if path == lit "b"
    then mapping (named (lit "second"))
    else if path == lit "c"
    then mapping own_include
    else fails (other (lit "no such file"))

abbrev files : Files
files = record { stat = λ path. regular; read = read_named; join = λ dir name. dir ++ name }

abbrev two_files : List (Bytes × YamlEntries)
two_files = (lit "a", named (lit "first")) ∷ (lit "b", named (lit "second")) ∷ []

load-Leaves_example :
    load (suc (length two_files)) files (stacked two_files) ≡ some (ok (merge_all end two_files))
unfolding document_value bytes_eq elements get_key
load-Leaves_example =
    load-Leaves files two_files
      (record { content = refl; alone = refl }, (record { content = refl; alone = refl }, tt))

load_itself_example : load 3 files (lit "c" ∷ []) ≡ none
unfolding document_value bytes_eq elements get_key
load_itself_example =
    load_itself 3 files (lit "c") own_include
      (record { content = refl; own = refl; there = refl; named = λ e. ground (arith, e) })

-- A file that includes one without includes.
abbrev including : YamlEntries
including =
    pair (text (lit "include")) (Yaml.seq (Yamls.item (Yaml.plain (text (lit "a"))) Yamls.stop))
      done

abbrev read_nested : Bytes → Document
read_nested path =
    if path == lit "d"
    then mapping including
    else if path == lit "a"
    then mapping (named (lit "first"))
    else fails (other (lit "no such file"))

abbrev nested : Files
nested = record { stat = λ path. regular; read = read_nested; join = λ dir name. dir ++ name }

abbrev depth : Bytes → ℕ
depth path = if path == lit "d" then 1 else 0

found_nested :
    (push_includes nested (includes including) [] ≡ ok (lit "a" ∷ []))
    × (push_includes nested (includes (named (lit "first"))) [] ≡ ok [])
unfolding push_includes document_value bytes_eq elements get_key include_of search_files push
found_nested = (refl, refl)

-- What is found for the includes of a document.
found_of :
    (xs found : List Bytes) (doc ys : YamlEntries)
    → push_includes nested (includes doc) [] ≡ ok xs
    → mapping doc ≡ mapping ys
    → push_includes nested (includes ys) [] ≡ ok found
    → xs ≡ found
found_of xs found doc ys h e e' =
    let same : doc ≡ ys = cc in
    let both : ok xs ≡ ok found =
      sym h ∙ ap (λ (y : YamlEntries). push_includes nested (includes y) []) same ∙ e' in
    cc

nested-IsRanked : IsRanked nested depth
unfolding bytes_eq
nested-IsRanked path ys found h e = elim (Bool-cases (path == lit "d")) [
  | inl outer ↦
      subst (λ (xs : List Bytes). All (λ f. depth f < depth path) xs)
        (found_of (lit "a" ∷ []) found including ys found_nested.0 (rw outer at h) e)
        (rw outer (omega arith), tt)
  | inr inner ↦ elim (Bool-cases (path == lit "a")) [
    | inl plain ↦
        subst (λ (xs : List Bytes). All (λ f. depth f < depth path) xs)
          (found_of [] found (named (lit "first")) ys found_nested.1 (rw (inner, plain) at h) e) tt
    | inr gone ↦
        absurd
          (let x : fails (other (lit "no such file")) ≡ mapping ys = rw (inner, gone) at h in cc)
  ]
]

load_ends_example :
    (fuel : ℕ) × (r : Loaded Entries) × ((more : ℕ)
      → load (fuel + more) nested (lit "d" ∷ []) ≡ some r)
load_ends_example = load_ends nested depth (lit "d" ∷ []) nested-IsRanked

-- The limits of two files, the later of which sets the timeout again.
abbrev later_limits : Value
later_limits =
    mapa (entry (lit "limits") (mapa (entry (lit "timeout") (scalar (int (pos 2))) end)) end)

abbrev timeout_key : List Bytes
timeout_key = lit "limits" ∷ lit "timeout" ∷ []

get-merge_value_example :
    get timeout_key (merge_value (mapa old_limits) later_limits)
    ≡ merge_value (get timeout_key (mapa old_limits)) (get timeout_key later_limits)
unfolding get get_key is_valid bytes_eq
get-merge_value_example =
    get-merge_value timeout_key (mapa old_limits) later_limits ((refl, tt), ((refl, tt), tt)) refl
