-- ===== src/Config/Value.antt =====
-- `value` and its getters (config/config.go).
pub mod Bounds
use rupicola_go.Base.{
  ℕ, ◌-◌, ◌%◌, ◌^◌, Bytes, List, [], ◌∷◌, Bool, true, false, Option, none, some, ltb, ◌==◌,
  bytes_eq, if◌then◌else◌,
}
use rupicola_go.Base.Int.{ℤ, pos, negsuc, ltb_ℤ}
use rupicola_go.Rpc.Value.{Any, null, bool, int, text}
use rupicola_go.Rpc.Errors.{int_beq}
use rupicola_go.Rpc.Format.{sprint}

-- What the YAML decoder makes: a scalar (`null` for nil), a list, a map with keys of any type.
mutual
  pub data Yaml : Type 0 where
    plain : Any → Yaml
    seq : Yamls → Yaml
    map : YamlEntries → Yaml

  pub data Yamls : Type 0 where
    stop : Yamls
    item : Yaml → Yamls → Yamls

  pub data YamlEntries : Type 0 where
    done : YamlEntries
    pair : Any → Yaml → YamlEntries → YamlEntries

-- `value`, by which of its three fields is not nil: Mapa, Lista, Other, or none (`emptyValue`). A
-- scalar is never `null`.
mutual
  pub data Value : Type 0 where
    invalid : Value
    mapa : Entries → Value
    lista : Values → Value
    scalar : Any → Value

  pub data Values : Type 0 where
    nil : Values
    cons : Value → Values → Values

  pub data Entries : Type 0 where
    end : Entries
    entry : Bytes → Value → Entries → Entries

abbrev pub find : Bytes → Entries → Option Value
find k end = none
find k (entry j v es) = if j == k then some v else find k es

-- m[k] = v
abbrev pub set_entry : Bytes → Value → Entries → Entries
set_entry k v end = entry k v end
set_entry k v (entry j w es) = if j == k then entry k v es else entry j w (set_entry k v es)

-- The key of mapFrom: a string, or what fmt.Sprint prints.
unfoldable pub key_text : Any → Bytes
unfolding sprint
key_text (text s) = s
key_text k = sprint k

-- arrayFrom leaves a nil slice where there is nothing to append.
abbrev pub list_value : Values → Value
list_value nil = invalid
list_value (cons v vs) = lista (cons v vs)

abbrev pub scalar_value : Any → Value
scalar_value null = invalid
scalar_value a = scalar a

-- valFrom with arrayFrom and mapFrom.
unfoldable mutual
  unfolding key_text

  pub val_from : Yaml → Value
  val_from (plain a) = scalar_value a
  val_from (seq ys) = list_value (array_from ys)
  val_from (map es) = mapa (map_from es end)

  pub array_from : Yamls → Values
  array_from stop = nil
  array_from (item y ys) = cons (val_from y) (array_from ys)

  pub map_from : YamlEntries → Entries → Entries
  map_from done m = m
  map_from (pair k y es) m = map_from es (set_entry (key_text k) (val_from y) m)

unfoldable pub is_array : Value → Bool
is_array (lista vs) = true
is_array _ = false

unfoldable pub is_map : Value → Bool
is_map (mapa es) = true
is_map _ = false

unfoldable pub is_valid : Value → Bool
is_valid invalid = false
is_valid _ = true

-- `null` for nil.
unfoldable pub raw : Value → Any
raw (scalar a) = a
raw _ = null

unfoldable pub as_string : Value → Bytes → Bytes
as_string (scalar (text s)) def = s
as_string _ def = def

unfoldable pub as_bool : Value → Bool → Bool
as_bool (scalar (bool b)) def = b
as_bool _ def = def

unfoldable pub int64 : Value → ℤ → ℤ
int64 (scalar (int n)) def = n
int64 _ def = def

-- The entries of a map, none for anything else (a nil map).
unfoldable pub entries : Value → Entries
entries (mapa es) = es
entries _ = end

-- Array(nil)
unfoldable pub elements : Value → Values
elements (lista vs) = vs
elements _ = nil

unfoldable pub get_key : Bytes → Value → Value
get_key k (mapa es) = elim (find k es) [ none ↦ invalid | some v ↦ v ]
get_key k _ = invalid

unfoldable pub get : List Bytes → Value → Value
get [] v = v
get (k ∷ ks) v = get ks (get_key k v)

-- The conversions uint32(n) and int32(n): the low 32 bits, and the same with bit 31 as the sign.
abbrev low32 : ℤ → ℕ
low32 (pos n) = n % 2 ^ 32
low32 (negsuc n) = 2 ^ 32 - 1 - n % 2 ^ 32

abbrev pub to_int32 : ℤ → ℤ
to_int32 n = if ltb (low32 n) (2 ^ 31) then pos (low32 n) else negsuc (2 ^ 32 - 1 - low32 n)

unfoldable pub uint32 : Value → ℕ → ℕ
unfolding int64
uint32 v def = low32 (int64 v (pos def))

unfoldable pub int32 : Value → ℤ → ℤ
unfolding int64 int_beq
int32 v def =
    let big = int64 v def in
    if int_beq big def then def else if ltb_ℤ (pos (2 ^ 31 - 1)) big then def else to_int32 big
