-- ===== src/Listen/Paths/Apart.antt =====
-- The lock file of an address never has the address as its name (filelock.go).
use mathlib.Core.Path.{subst}
use rupicola_go.Base.{
  ℕ, Bytes, lit, List, [], ◌∷◌, ◌++◌, length, length-append, Bool, true, false, ◌||◌, ◌≡◌, ◌≢◌, ◌⊎◌,
  inl, inr, refl, sym, ap, ◌∙◌, ◌==◌, bytes_eq, nat_eq, arith, if◌then◌else◌, All,
}
use rupicola_go.Listen.Paths.{
  parts_of, add_to_first, resolve, join_parts, has_prefix, clean, split, join, lock_path,
}

abbrev NoSlash : Bytes → Type 0
NoSlash = All (λ c. (c == b'/') ≡ false)

split-NoSlash : (p : Bytes) → NoSlash p → split p ≡ ([], p)
unfolding split bytes_eq
split-NoSlash [] h = refl
split-NoSlash (c ∷ p) (h, hs) = rw (split-NoSlash p hs) (ground (arith, h))

split-last : (p l : Bytes) → NoSlash l → split (p ++ b'/' ∷ l) ≡ (p ++ b'/' ∷ [], l)
unfolding split bytes_eq
split-last [] l h = rw (split-NoSlash l h) refl
split-last (c ∷ []) l h = rw (split-last [] l h) refl
split-last (c ∷ d ∷ p) l h = rw (split-last (d ∷ p) l h) refl

-- How what split gives and the parts of a path hang together.
abbrev Parted : Bytes × Bytes → List Bytes → Type 0
Parted (dir, file) parts =
    NoSlash file
    × (((dir ≡ []) × (parts ≡ file ∷ []))
        ⊎ ((dir ≢ []) × (part : Bytes) × (init : List Bytes) × (parts ≡ part ∷ init ++ file ∷ [])))

cons_ne : (c : ℕ) (p : Bytes) → c ∷ p ≢ []
cons_ne c p e = cc e

-- One byte more in front, which is a slash or not.
next-Parted :
    (c : ℕ) (b : Bool) (dir file : Bytes) (parts : List Bytes)
    → (c == b'/') ≡ b
    → Parted (dir, file) parts
    → Parted
        (if dir == [] then if b then (c ∷ [], file) else ([], c ∷ file) else (c ∷ dir, file))
        (if b then [] ∷ parts else add_to_first c parts)
unfolding add_to_first bytes_eq
next-Parted c true [] file parts h (plain, inl (e, k)) =
    (plain, inr (cons_ne c [], [], [], ap (λ (ps : List Bytes). [] ∷ ps) k))
next-Parted c false [] file parts h (plain, inl (e, k)) =
    ((h, plain), inl (refl, ap (add_to_first c) k))
next-Parted c b [] file parts h (plain, inr (ne, part, init, k)) = absurd (ne refl)
next-Parted c b (d ∷ dir) file parts h (plain, inl (e, k)) = absurd (cons_ne d dir e)
next-Parted c true (d ∷ dir) file parts h (plain, inr (ne, part, init, k)) =
    (plain, inr (cons_ne c (d ∷ dir), [], part ∷ init, ap (λ (ps : List Bytes). [] ∷ ps) k))
next-Parted c false (d ∷ dir) file parts h (plain, inr (ne, part, init, k)) =
    (plain, inr (cons_ne c (d ∷ dir), c ∷ part, init, ap (add_to_first c) k))

split-Parted : (s : Bytes) → Parted (split s) (parts_of s)
unfolding split parts_of
split-Parted [] = (tt, inl (refl, refl))
split-Parted (c ∷ s) =
    next-Parted c (c == b'/') (split s).0 (split s).1 (parts_of s) refl (split-Parted s)

-- The last part is at the end of the parts.
parts-end : (s : Bytes) → (init : List Bytes) × (parts_of s ≡ init ++ (split s).1 ∷ [])
parts-end s = elim (split-Parted s).1 [
  | inl (e, k) ↦ ([], k)
  | inr (ne, part, init, k) ↦ (part ∷ init, k)
]

-- A part that Clean keeps.
abbrev IsKept : Bytes → Type 0
IsKept part = ((part == [] || part == lit ".") ≡ false) × ((part == lit "..") ≡ false)

resolve-end :
    (rooted : Bool) (init : List Bytes) (last : Bytes) (before : List Bytes)
    → IsKept last
    → (kept : List Bytes) × (resolve rooted (init ++ last ∷ []) before ≡ last ∷ kept)
unfolding resolve
resolve-end rooted [] last before (h, k) = (before, rw (h, k) refl)
resolve-end rooted (part ∷ init) last before h = resolve-end rooted init last _ h

append-some : (p q : Bytes) (c : ℕ) → ((p ++ c ∷ q) == []) ≡ false
unfolding bytes_eq
append-some [] q c = refl
append-some (d ∷ p) q c = refl

-- What Clean makes of the parts that are left.
cleaned-split :
    (rooted : Bool) (last : Bytes) (kept : List Bytes)
    → NoSlash last
    → IsKept last
    → (split (
        let text = join_parts (last ∷ kept) in
        if rooted then b'/' ∷ text else if text == [] then lit "." else text)).1
      ≡ last
unfolding join_parts bytes_eq
cleaned-split rooted [] kept plain (h, k) = cc h
cleaned-split true (c ∷ last) [] plain h =
    ap (λ (x : Bytes × Bytes). x.1) (split-last [] (c ∷ last) plain)
cleaned-split true (c ∷ last) (part ∷ kept) plain h =
    ap (λ (x : Bytes × Bytes). x.1) (split-last (b'/' ∷ join_parts (part ∷ kept)) (c ∷ last) plain)
cleaned-split false (c ∷ last) [] plain h =
    ap (λ (x : Bytes × Bytes). x.1) (split-NoSlash (c ∷ last) plain)
cleaned-split false (c ∷ last) (part ∷ kept) plain h =
    rw (append-some (join_parts (part ∷ kept)) (c ∷ last) b'/')
      (ap (λ (x : Bytes × Bytes). x.1) (split-last (join_parts (part ∷ kept)) (c ∷ last) plain))

-- Clean keeps the last part of a path, if it is not empty, "." or "..".
clean-split : (s : Bytes) → IsKept (split s).1 → (split (clean s)).1 ≡ (split s).1
unfolding clean
clean-split s h =
    let (init, e) = parts-end s in
    let rooted = has_prefix s (lit "/") in
    let (kept, k) = resolve-end rooted init (split s).1 [] h in
    ap
      (λ (ps : List Bytes).
        (split (
          let text = join_parts ps in
          if rooted then b'/' ∷ text else if text == [] then lit "." else text)).1)
      (ap (λ (ps : List Bytes). resolve rooted ps []) e ∙ k)
    ∙ cleaned-split rooted (split s).1 kept (split-Parted s).0 h

-- The name of a lock file is one that Clean keeps.
lock-IsKept : (file : Bytes) → IsKept (lit "~lock." ++ file)
unfolding bytes_eq
lock-IsKept file = (refl, refl)

join-split : (dir file : Bytes) → NoSlash file → IsKept file → (split (join dir file)).1 ≡ file
unfolding join bytes_eq
join-split [] file plain h =
    let same = ap (λ (x : Bytes × Bytes). x.1) (split-NoSlash file plain) in
    clean-split file (subst IsKept (sym same) h) ∙ same
join-split (d ∷ dir) file plain h =
    let same = ap (λ (x : Bytes × Bytes). x.1) (split-last (d ∷ dir) file plain) in
    clean-split ((d ∷ dir) ++ b'/' ∷ file) (subst IsKept (sym same) h) ∙ same

lock_path-split :
    (addr : Bytes) → (split (lock_path addr)).1 ≡ lit "~lock." ++ (split (clean addr)).1
unfolding lock_path
lock_path-split addr =
    join-split (split (clean addr)).0 (lit "~lock." ++ (split (clean addr)).1)
      (refl, (refl, (refl, (refl, (refl, (refl, (split-Parted (clean addr)).0))))))
      (lock-IsKept (split (clean addr)).1)

-- The lock file of an address is not the address.
pub lock_path-apart : (addr : Bytes) → addr ≢ lock_path addr
lock_path-apart addr e =
    let file = (split (clean addr)).1 in
    let named : (split addr).1 ≡ lit "~lock." ++ file =
      ap (λ (p : Bytes). (split p).1) e ∙ lock_path-split addr in
    let cleaned : file ≡ lit "~lock." ++ file =
      clean-split addr (subst IsKept (sym named) (lock-IsKept file)) ∙ named in
    omega (arith, ap (λ (p : Bytes). length p) cleaned, length-append (lit "~lock.") file)
