-- ===== src/Config/Load.antt =====
-- Reading the configuration files and those that they include: `Load`, `searchFiles` and the stack
-- (config/config.go, config/stack.go).
pub mod Order
pub mod Ends
use rupicola_go.Base.{
  ℕ, zero, suc, Bytes, lit, List, [], ◌∷◌, ◌++◌, length, Bool, true, false, not, ◌&&◌, Option, none,
  some, ◌==◌, nat_eq, bytes_eq, if◌then◌else◌,
}
use rupicola_go.Rpc.Value.{GoError}
use rupicola_go.Config.Value.{
  Value, invalid, mapa, Values, nil, cons, Entries, end, entry, YamlEntries, map_from, as_string,
  as_bool, get_key, elements, entries,
}
use rupicola_go.Config.Merge.{merge_map}

-- What os.Stat and ioutil.ReadDir tell of a path. `denied` is an error other than "not exist".
pub data FileInfo : Type 0 where
  missing : GoError → FileInfo
  denied : FileInfo
  regular : FileInfo
  directory : List (Bytes × Bool) → FileInfo
  unlisted : GoError → FileInfo

-- A file read and given to the YAML decoder: the entries of a map, a document that is no map (which
-- leaves `Mapa` nil), a list with an item that is not null, which the decoder cannot put into a Value,
-- or the error of reading or decoding it.
pub data Document : Type 0 where
  fails : GoError → Document
  mapping : YamlEntries → Document
  other : Document
  unfit : Document

-- The file system, with filepath.Join.
pub record Files : Type 0 where
  pub stat : Bytes → FileInfo
  pub read : Bytes → Document
  pub join : Bytes → Bytes → Bytes

-- The stack, its top at the end.
unfoldable pub push : List Bytes → Bytes → List Bytes
push q n = q ++ n ∷ []

-- The top and the rest; an empty stack panics, and Load never pops one.
unfoldable pub pop : List Bytes → Option (Bytes × List Bytes)
pop [] = none
pop (n ∷ q) = elim (pop q) [ none ↦ some (n, []) | some (top, rest) ↦ some (top, n ∷ rest) ]

-- filepath.Ext of a name in a directory: from its last dot on.
abbrev ext : Bytes → Bytes
ext [] = []
ext (c ∷ s) = let e = ext s in if length e == 0 && c == b'.' then c ∷ s else e

-- The files of a directory that are configurations.
conf_files : Files → Bytes → List (Bytes × Bool) → List Bytes
conf_files fs path [] = []
conf_files fs path ((name, is_dir) ∷ more) =
    let rest = conf_files fs path more in
    if not is_dir && ext name == lit ".conf" then fs.join path name ∷ rest else rest

-- A result, an error, or a panic.
pub data Loaded {ℓ} (A : Type ℓ) : Type ℓ where
  ok : A → Loaded A
  failed : GoError → Loaded A
  panicked : Loaded A

-- `denied` dereferences the nil FileInfo.
unfoldable pub search_files : Files → Bytes → Bool → Loaded (List Bytes)
unfolding conf_files
search_files fs path required = elim (fs.stat path) [
  | missing e ↦ if required then failed e else ok []
  | denied ↦ panicked
  | regular ↦ ok (path ∷ [])
  | directory names ↦ ok (conf_files fs path names)
  | unlisted e ↦ failed e
]

-- The path of one include and whether it is required: a string, or the first entry of a map.
first_entry : Entries → Bytes × Bool
unfolding as_bool
first_entry end = ([], false)
first_entry (entry k v es) = (k, as_bool v false)

unfoldable pub include_of : Value → Bytes × Bool
unfolding first_entry as_string entries
include_of v =
    let path = as_string v [] in if path == [] then first_entry (entries v) else (path, false)

abbrev pub push_all : List Bytes → List Bytes → List Bytes
push_all [] stack = stack
push_all (f ∷ fs) stack = push_all fs (push stack f)

-- The loop over the includes: the stack with the files found pushed onto it.
unfoldable pub push_includes : Files → Values → List Bytes → Loaded (List Bytes)
unfolding search_files include_of push
push_includes fs nil stack = ok stack
push_includes fs (cons v vs) stack =
    let (path, required) = include_of v in
    elim (search_files fs path required) [
      | ok found ↦ push_includes fs vs (push_all found stack)
      | failed e ↦ failed e
      | panicked ↦ panicked
    ]

-- The value that a document is read into.
unfoldable pub document_value : YamlEntries → Value
unfolding map_from
document_value ys = mapa (map_from ys end)

-- One round of Load's loop: the stack and the root after it.
unfoldable pub load_file : Files → Bytes → List Bytes → Entries → Loaded (List Bytes × Entries)
load_file fs path stack root = elim (fs.read path) [
  | fails e ↦ failed e
  | other ↦ ok (stack, merge_map root end)
  | unfit ↦ panicked
  | mapping ys ↦
      let val = document_value ys in
      elim (push_includes fs (elements (get_key (lit "include") val)) stack) [
        | ok stack' ↦ ok (stack', merge_map root (entries val))
        | failed e ↦ failed e
        | panicked ↦ panicked
      ]
]

-- Load with fuel, `none` where it is used up: the loop of the source has no bound.
unfoldable pub load_loop : ℕ → Files → List Bytes → Entries → Option (Loaded Entries)
load_loop zero fs stack root = none
load_loop (suc fuel) fs stack root = elim (pop stack) [
  | none ↦ some (ok root)
  | some (path, rest) ↦ elim (load_file fs path rest root) [
    | ok (stack', root') ↦ load_loop fuel fs stack' root'
    | failed e ↦ some (failed e)
    | panicked ↦ some panicked
  ]
]

-- (*config).Load, of a new configuration.
unfoldable pub load : ℕ → Files → List Bytes → Option (Loaded Entries)
unfolding push
load fuel fs paths = load_loop fuel fs (push_all paths []) end
