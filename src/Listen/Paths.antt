-- ===== src/Listen/Paths.antt =====
-- Slash-separated paths, as Go's package path has them, and the name of a lock file (filelock.go).
pub mod Apart
use rupicola_go.Base.{
  ℕ, Bytes, lit, List, [], ◌∷◌, ◌++◌, Bool, true, false, ◌||◌, ◌≡◌, refl, ◌==◌, bytes_eq, nat_eq,
  if◌then◌else◌,
}

-- The parts between the slashes; a path has at least one.
unfoldable pub add_to_first : ℕ → List Bytes → List Bytes
add_to_first c [] = (c ∷ []) ∷ []
add_to_first c (part ∷ parts) = (c ∷ part) ∷ parts

unfoldable pub parts_of : Bytes → List Bytes
unfolding add_to_first
parts_of [] = [] ∷ []
parts_of (c ∷ s) = let parts = parts_of s in if c == b'/' then [] ∷ parts else add_to_first c parts

-- One ".." behind the parts so far, the last of them first.
unfoldable pub up : Bool → List Bytes → List Bytes
up true [] = []
up false [] = lit ".." ∷ []
up rooted (part ∷ before) = if part == lit ".." then lit ".." ∷ part ∷ before else before

unfoldable pub resolve : Bool → List Bytes → List Bytes → List Bytes
unfolding up
resolve rooted [] before = before
resolve rooted (part ∷ parts) before = resolve rooted parts (
    if part == [] || part == lit "."
    then before
    else if part == lit ".."
    then up rooted before
    else part ∷ before)

-- The parts, the last of them first, with slashes between them.
unfoldable pub join_parts : List Bytes → Bytes
join_parts [] = []
join_parts (part ∷ []) = part
join_parts (part ∷ before) = join_parts before ++ b'/' ∷ part

unfoldable pub starts_with : Bytes → Bytes → Bool
starts_with [] s = true
starts_with (c ∷ p) [] = false
starts_with (c ∷ p) (d ∷ s) = let rest = starts_with p s in if c == d then rest else false

-- strings.HasPrefix(s, prefix)
unfoldable pub has_prefix : Bytes → Bytes → Bool
unfolding starts_with
has_prefix s prefix = starts_with prefix s

-- path.Clean
unfoldable pub clean : Bytes → Bytes
unfolding resolve parts_of join_parts has_prefix
clean s =
    let rooted = has_prefix s (lit "/") in
    let text = join_parts (resolve rooted (parts_of s) []) in
    if rooted then b'/' ∷ text else if text == [] then lit "." else text

-- path.Split: up to the last slash, and what follows it.
unfoldable pub split : Bytes → Bytes × Bytes
split [] = ([], [])
split (c ∷ s) =
    let (dir, file) = split s in
    if dir == [] then if c == b'/' then (c ∷ [], file) else ([], c ∷ file) else (c ∷ dir, file)

-- path.Join of two elements, the second of which is not empty.
unfoldable pub join : Bytes → Bytes → Bytes
unfolding clean
join dir file = if dir == [] then clean file else clean (dir ++ b'/' ∷ file)

-- The lock file of an address.
unfoldable pub lock_path : Bytes → Bytes
unfolding clean split join
lock_path addr = let (dir, file) = split (clean addr) in join dir (lit "~lock." ++ file)

clean_test :
    (clean (lit "/run//./a/../b/") ≡ lit "/run/b")
    × (clean (lit "../../x") ≡ lit "../../x")
    × (clean (lit "/..") ≡ lit "/")
    × (clean [] ≡ lit ".")
unfolding clean bytes_eq
clean_test = (refl, refl, refl, refl)

lock_path_test :
    (lock_path (lit "/run/rupicola.sock") ≡ lit "/run/~lock.rupicola.sock")
    × (lock_path (lit "./a.sock") ≡ lit "~lock.a.sock")
unfolding lock_path bytes_eq
lock_path_test = (refl, refl)
