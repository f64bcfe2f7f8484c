-- ===== src/Config/Load/Order.antt =====
-- The order in which Load reads files, and files that include themselves (config/config.go).
use rupicola_go.Base.{
  ℕ, zero, suc, Bytes, lit, List, [], ◌∷◌, ◌++◌, length, false, none, some, ◌≡◌, ◌≢◌, refl, sym,
  ◌∙◌, arith, append-nil, append_assoc, bytes_eq, ==_iff, Bool,
}
use rupicola_go.Rpc.Value.{text}
use rupicola_go.Config.Value.{
  scalar, Values, nil, cons, Entries, end, YamlEntries, get_key, elements, entries,
}
use rupicola_go.Config.Merge.{merge_map}
use rupicola_go.Config.Load.{
  Files, regular, mapping, ok, push, pop, push_all, push_includes, search_files, include_of,
  document_value, load_file, load_loop, load,
}

-- Pop takes what was pushed last.
pub pop-push : (q : List Bytes) (n : Bytes) → pop (push q n) ≡ some (n, q)
unfolding pop push
pop-push [] n = refl
pop-push (m ∷ q) n = rw (pop-push q n, pop)

pub push_all-append : (fs stack : List Bytes) → push_all fs stack ≡ stack ++ fs
unfolding push
push_all-append [] stack = sym (append-nil stack)
push_all-append (f ∷ fs) stack =
    push_all-append fs (stack ++ f ∷ []) ∙ append_assoc stack (f ∷ []) fs

abbrev pub includes : YamlEntries → Values
includes ys = elements (get_key (lit "include") (document_value ys))

-- A file that is read into a map with no includes.
pub record IsLeaf (fs : Files) (path : Bytes) (ys : YamlEntries) : Type 0 where
  pub content : fs.read path ≡ mapping ys
  pub alone : includes ys ≡ nil

load_file-leaf :
    (fs : Files) (path : Bytes) (ys : YamlEntries) (stack : List Bytes) (root : Entries)
    → IsLeaf fs path ys
    → load_file fs path stack root ≡ ok (stack, merge_map root (entries (document_value ys)))
unfolding load_file push_includes
load_file-leaf fs path ys stack root h = ground arith

-- Files without includes, in the order in which they are read.
abbrev pub Leaves : Files → List (Bytes × YamlEntries) → Type 0
Leaves fs [] = Unit
Leaves fs ((path, ys) ∷ rest) = IsLeaf fs path ys × Leaves fs rest

-- The stack from which they are read in this order.
abbrev pub stacked : List (Bytes × YamlEntries) → List Bytes
stacked [] = []
stacked ((path, ys) ∷ rest) = push (stacked rest) path

abbrev pub merge_all : Entries → List (Bytes × YamlEntries) → Entries
merge_all root [] = root
merge_all root ((path, ys) ∷ rest) = merge_all (merge_map root (entries (document_value ys))) rest

pub load_loop-file :
    (fuel : ℕ) (fs : Files) (path : Bytes) (stack : List Bytes) (root : Entries)
    {stack' : List Bytes} {root' : Entries}
    → load_file fs path stack root ≡ ok (stack', root')
    → load_loop (suc fuel) fs (push stack path) root ≡ load_loop fuel fs stack' root'
unfolding load_loop
load_loop-file fuel fs path stack root h = rw (pop-push stack path, load_loop) (rw (h, load_loop))

load_loop-Leaves :
    (fs : Files) (files : List (Bytes × YamlEntries)) (root : Entries)
    → Leaves fs files
    → load_loop (suc (length files)) fs (stacked files) root ≡ some (ok (merge_all root files))
load_loop-Leaves fs [] root h = unfold load_loop pop in refl
load_loop-Leaves fs ((path, ys) ∷ rest) root (leaf, leaves) =
    load_loop-file (suc (length rest)) fs path (stacked rest) root
      (load_file-leaf fs path ys (stacked rest) root leaf)
    ∙ load_loop-Leaves fs rest _ leaves

-- Files without includes are all read, the last of the given paths first, and each is merged into
-- what was read before it; one round for each and one more are enough.
pub load-Leaves :
    (fs : Files) (files : List (Bytes × YamlEntries))
    → Leaves fs files
    → load (suc (length files)) fs (stacked files) ≡ some (ok (merge_all end files))
unfolding load
load-Leaves fs files h = rw (push_all-append (stacked files) []) (load_loop-Leaves fs files end h)

-- A file whose one include is its own path.
pub record IncludesItself (fs : Files) (path : Bytes) (ys : YamlEntries) : Type 0 where
  pub content : fs.read path ≡ mapping ys
  pub own : includes ys ≡ cons (scalar (text path)) nil
  pub there : fs.stat path ≡ regular
  pub named : path ≢ []

include_of-text : (path : Bytes) → path ≢ [] → include_of (scalar (text path)) ≡ (path, false)
unfolding include_of
include_of-text path h = ground (arith, ==_iff path [])

search_files-regular :
    (fs : Files) (path : Bytes) (required : Bool)
    → fs.stat path ≡ regular
    → search_files fs path required ≡ ok (path ∷ [])
unfolding search_files
search_files-regular fs path required h = ground arith

load_file-itself :
    (fs : Files) (path : Bytes) (ys : YamlEntries) (stack : List Bytes) (root : Entries)
    → IncludesItself fs path ys
    → load_file fs path stack root
      ≡ ok (push stack path, merge_map root (entries (document_value ys)))
unfolding load_file push_includes
load_file-itself fs path ys stack root h =
    ground (arith, include_of-text path h.named, search_files-regular fs path false h.there)

load_loop-itself :
    (fuel : ℕ) (fs : Files) (path : Bytes) (ys : YamlEntries) (root : Entries)
    → IncludesItself fs path ys
    → load_loop fuel fs (push [] path) root ≡ none
load_loop-itself zero fs path ys root h = unfold load_loop in refl
load_loop-itself (suc fuel) fs path ys root h =
    load_loop-file fuel fs path [] root (load_file-itself fs path ys [] root h)
    ∙ load_loop-itself fuel fs path ys _ h

-- A file that includes itself is read again without end: no number of rounds of the loop is enough.
pub load_itself :
    (fuel : ℕ) (fs : Files) (path : Bytes) (ys : YamlEntries)
    → IncludesItself fs path ys
    → load fuel fs (path ∷ []) ≡ none
unfolding load
load_itself fuel fs path ys h = load_loop-itself fuel fs path ys end h
