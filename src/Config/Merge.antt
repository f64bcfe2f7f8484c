-- ===== src/Config/Merge.antt =====
-- `mergeValue` and `mergeMap` (config/config.go), and what a query finds in a merged map.
pub mod Paths
use rupicola_go.Base.{
  Bytes, Option, none, some, ◌≡◌, refl, arith, ◌==◌, bytes_eq, ==_iff, if◌then◌else◌, Option-cases,
  inl, inr,
}
use rupicola_go.Config.Value.{
  Value, mapa, lista, Values, nil, cons, Entries, end, entry, find, set_entry,
}

-- append(a, b...)
abbrev pub append : Values → Values → Values
append nil ws = ws
append (cons v vs) ws = cons v (append vs ws)

-- The entries of b go, merged with those of a, into a copy c of a.
unfoldable mutual
  pub merge_value : Value → Value → Value
  merge_value (mapa a) (mapa b) = mapa (merge_entries a b a)
  merge_value (lista a) (lista b) = lista (append a b)
  merge_value _ b = b

  pub merge_entries : Entries → Entries → Entries → Entries
  merge_entries a end c = c
  merge_entries a (entry k v b) c =
      merge_entries a b (set_entry k (elim (find k a) [ none ↦ v | some av ↦ merge_value av v ]) c)

unfoldable pub merge_map : Entries → Entries → Entries
unfolding merge_value
merge_map a b = merge_entries a b a

find-set_entry :
    (k j : Bytes) (v : Value) (es : Entries)
    → find j (set_entry k v es) ≡ (if k == j then some v else find j es)
find-set_entry k j v end = refl
find-set_entry k j v (entry i w es) =
    ground (arith, ==_iff k j, ==_iff i k, ==_iff i j, find-set_entry k j v es)

-- A Go map has each key once.
abbrev pub NodupKeys : Entries → Type 0
NodupKeys end = Unit
NodupKeys (entry k v es) = (find k es ≡ none) × NodupKeys es

-- Of a key in both maps the values are merged; any other keeps its value.
unfoldable pub merged : Option Value → Option Value → Option Value
merged old none = old
merged none (some v) = some v
merged (some av) (some v) = some (merge_value av v)

-- The value that an entry of b gets.
abbrev combined : Option Value → Value → Value
combined none v = v
combined (some av) v = merge_value av v

merge_entries-entry :
    (a : Entries) (j : Bytes) (v : Value) (b c : Entries)
    → merge_entries a (entry j v b) c ≡ merge_entries a b (set_entry j (combined (find j a) v) c)
unfolding merge_value
merge_entries-entry a j v b c = elim (Option-cases (find j a)) [
  | inl e ↦ rw (e, merge_entries)
  | inr (w, e) ↦ rw (e, merge_entries)
]

merge_entries-end : (a c : Entries) → merge_entries a end c ≡ c
unfolding merge_value
merge_entries-end a c = refl

-- What is found once the rest of b is through, for one more entry of b.
merge_step :
    (a b c : Entries) (j k : Bytes) (v : Value) (result : Option Value)
    → find j b ≡ none
    → result ≡ (elim (find k b) [
      | none ↦ find k (set_entry j (combined (find j a) v) c)
      | some w ↦ merged (find k a) (some w)
    ])
    → result
      ≡ (elim (find k (entry j v b)) [ none ↦ find k c | some w ↦ merged (find k a) (some w) ])
unfolding merged
merge_step a b c j k v result fresh ih =
    ground (arith, ==_iff j k, find-set_entry j k (combined (find j a) v) c)

find-merge_entries :
    (a b c : Entries) (k : Bytes)
    → NodupKeys b
    → find k (merge_entries a b c)
      ≡ (elim (find k b) [ none ↦ find k c | some v ↦ merged (find k a) (some v) ])
find-merge_entries a end c k h = rw merge_entries-end
find-merge_entries a (entry j v b) c k h = rw merge_entries-entry (
    merge_step a b c j k v _ h.0
      (find-merge_entries a b (set_entry j (combined (find j a) v) c) k h.1))

-- A query by one key of a merged map finds the merged value of a key that both maps have, the only
-- value of one that one map has, and nothing otherwise. The keys of the second map are distinct.
pub find-merge_map :
    (a b : Entries) (k : Bytes)
    → NodupKeys b
    → find k (merge_map a b) ≡ merged (find k a) (find k b)
unfolding merge_map merged
find-merge_map a b k h = ground (arith, find-merge_entries a b a k h)
