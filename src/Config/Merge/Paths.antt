-- ===== src/Config/Merge/Paths.antt =====
-- What a query by several keys finds in merged values (config/config.go).
use rupicola_go.Base.{
  Bytes, List, [], ◌∷◌, Option, none, some, true, ◌≡◌, ◌≢◌, refl, sym, ap, ◌∙◌, arith, Option-cases,
  inl, inr,
}
use rupicola_go.Config.Value.{
  Value, invalid, mapa, lista, scalar, Entries, find, get_key, get, is_valid,
}
use rupicola_go.Config.Merge.{merge_value, merge_map, merged, NodupKeys, find-merge_map}

-- Each map on the way of a query has each key once.
abbrev pub KeysAlong : List Bytes → Value → Type 0
KeysAlong [] v = Unit
KeysAlong (k ∷ ks) (mapa es) = NodupKeys es × KeysAlong ks (get_key k (mapa es))
KeysAlong (k ∷ ks) v = Unit

get-invalid : (ks : List Bytes) → get ks invalid ≡ invalid
unfolding get get_key
get-invalid [] = refl
get-invalid (k ∷ ks) = get-invalid ks

merge_value-invalid : (b : Value) → merge_value invalid b ≡ b
unfolding merge_value
merge_value-invalid b = refl

merge_value-mapa : (a b : Entries) → merge_value (mapa a) (mapa b) ≡ mapa (merge_map a b)
unfolding merge_value merge_map
merge_value-mapa a b = refl

-- What Get makes of what a map has under a key.
abbrev value_of : Option Value → Value
value_of none = invalid
value_of (some v) = v

get_key-find : (k : Bytes) (es : Entries) → get_key k (mapa es) ≡ value_of (find k es)
unfolding get_key
get_key-find k es = ground arith

merged-value_of :
    (old : Option Value) (w : Value) → value_of (merged old (some w)) ≡ merge_value (value_of old) w
unfolding merged merge_value
merged-value_of none w = refl
merged-value_of (some v) w = refl

get_key-merge :
    (k : Bytes) (a b : Entries) (w : Value)
    → NodupKeys b
    → find k b ≡ some w
    → get_key k (mapa (merge_map a b)) ≡ merge_value (get_key k (mapa a)) w
get_key-merge k a b w h e =
    get_key-find k (merge_map a b)
    ∙ ap value_of (find-merge_map a b k h ∙ ap (merged (find k a)) e)
    ∙ merged-value_of (find k a) w
    ∙ ap (λ (v : Value). merge_value v w) (sym (get_key-find k a))

no_value : (ks : List Bytes) → is_valid (get ks invalid) ≢ true
unfolding is_valid
no_value ks h = cc (ap is_valid (get-invalid ks), h)

-- What a query finds below something that is no map, merged with a map, is what it finds in the map.
get-over :
    (a : Value) (k : Bytes) (ks : List Bytes) (b : Value)
    → get_key k a ≡ invalid
    → merge_value a b ≡ b
    → get (k ∷ ks) (merge_value a b) ≡ merge_value (get (k ∷ ks) a) (get (k ∷ ks) b)
unfolding get merge_value
get-over a k ks b no_key over =
    ap (λ (v : Value). get ks (get_key k v)) over
    ∙ sym (
        ap (λ (v : Value). merge_value v (get ks (get_key k b)))
          (ap (get ks) no_key ∙ get-invalid ks))

-- A query by several keys that finds a value in the second of two merged values finds, in the
-- result, the merge of what it finds in both, which is the value of the second where the first has
-- none. Each map on the way in the second has each key once.
pub get-merge_value :
    (ks : List Bytes) (a b : Value)
    → KeysAlong ks b
    → is_valid (get ks b) ≡ true
    → get ks (merge_value a b) ≡ merge_value (get ks a) (get ks b)
unfolding get get_key merge_value
get-merge_value [] a b keys h = refl
get-merge_value (k ∷ ks) (mapa a) (mapa b) (nodup, keys) h = elim (Option-cases (find k b)) [
  | inl e ↦ absurd (
      no_value ks
        (ap (λ (v : Value). is_valid (get ks v)) (sym (get_key-find k b ∙ ap value_of e)) ∙ h))
  | inr (w, e) ↦
      let there = get_key-find k b ∙ ap value_of e in
      ap (λ (v : Value). get ks (get_key k v)) (merge_value-mapa a b)
      ∙ ap (get ks)
          (get_key-merge k a b w nodup e ∙ ap (merge_value (get_key k (mapa a))) (sym there))
      ∙ get-merge_value ks (get_key k (mapa a)) (get_key k (mapa b)) keys h
]
get-merge_value (k ∷ ks) invalid (mapa b) keys h = get-over invalid k ks (mapa b) refl refl
get-merge_value (k ∷ ks) (lista a) (mapa b) keys h = get-over (lista a) k ks (mapa b) refl refl
get-merge_value (k ∷ ks) (scalar a) (mapa b) keys h = get-over (scalar a) k ks (mapa b) refl refl
get-merge_value (k ∷ ks) a invalid keys h = absurd (no_value ks h)
get-merge_value (k ∷ ks) a (lista b) keys h = absurd (no_value ks h)
get-merge_value (k ∷ ks) a (scalar b) keys h = absurd (no_value ks h)
