-- ===== src/Rpc/Format.antt =====
-- fmt.Sprint of a dynamic value.
use rupicola_go.Base.{Bytes, lit, true, false, ◌∷◌, ◌++◌, ◌≡◌, refl}
use rupicola_go.Base.Int.{pos}
use rupicola_go.Base.Decimal.{print_int}
use rupicola_go.Rpc.Value.{
  Any, null, bool, int, float, text, arr, obj, Items, nil, cons, Fields, end, field,
}

-- A list prints its elements between brackets, a map its entries in the order of their keys.
unfoldable mutual
  unfolding print_int

  pub sprint : Any → Bytes
  sprint null = lit "<nil>"
  sprint (bool true) = lit "true"
  sprint (bool false) = lit "false"
  sprint (int n) = print_int n
  sprint (float printed) = printed
  sprint (text s) = s
  sprint (arr items) = lit "[" ++ sprint_items items
  sprint (obj fields) = lit "map[" ++ sprint_fields fields

  sprint_items : Items → Bytes
  sprint_items nil = lit "]"
  sprint_items (cons a nil) = sprint a ++ lit "]"
  sprint_items (cons a (cons b rest)) = sprint a ++ b' ' ∷ sprint_items (cons b rest)

  sprint_fields : Fields → Bytes
  sprint_fields end = lit "]"
  sprint_fields (field k a end) = k ++ b':' ∷ (sprint a ++ lit "]")
  sprint_fields (field k a (field j b rest)) =
      k ++ b':' ∷ (sprint a ++ b' ' ∷ sprint_fields (field j b rest))

sprint_nested :
    sprint (arr (cons (int (pos 12)) (cons (obj (field (lit "a") null end)) nil)))
    ≡ lit "[12 map[a:<nil>]]"
unfolding sprint
sprint_nested = refl
