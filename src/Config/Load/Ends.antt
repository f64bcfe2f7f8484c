-- ===== src/Config/Load/Ends.antt =====
-- The end of Load's loop where no file includes itself, however deep (config/config.go).
use mathlib.Core.Path.{subst}
use rupicola_go.Base.{
  ℕ, zero, suc, ◌+◌, ◌<◌, ◌≤◌, Bytes, List, [], ◌∷◌, ◌++◌, All, some, ◌≡◌, ◌⊎◌, inl, inr, refl, sym,
  ap, ◌∙◌, arith, append-nil, append_assoc,
}
use rupicola_go.Rpc.Value.{GoError}
use rupicola_go.Config.Value.{Values, nil, cons, Entries, end, YamlEntries, entries}
use rupicola_go.Config.Merge.{merge_map}
use rupicola_go.Config.Load.{
  Files, Document, fails, mapping, other, unfit, Loaded, ok, failed, panicked, push, pop, push_all,
  push_includes, search_files, include_of, document_value, load_file, load_loop, load,
}
use rupicola_go.Config.Load.Order.{includes, pop-push, push_all-append, load_loop-file}

-- What is found for the includes goes onto the stack as it is.
abbrev pushed_onto : List Bytes → Loaded (List Bytes) → Loaded (List Bytes)
pushed_onto stack (ok found) = ok (stack ++ found)
pushed_onto stack (failed e) = failed e
pushed_onto stack panicked = panicked

Loaded-cases {ℓ} :
    {A : Type ℓ} (r : Loaded A)
    → ((a : A) × (r ≡ ok a)) ⊎ (((e : GoError) × (r ≡ failed e)) ⊎ (r ≡ panicked))
Loaded-cases (ok a) = inl (a, refl)
Loaded-cases (failed e) = inr (inl (e, refl))
Loaded-cases panicked = inr (inr refl)

push_includes-onto :
    (fs : Files) (vs : Values) (a b : List Bytes)
    → push_includes fs vs (a ++ b) ≡ pushed_onto a (push_includes fs vs b)
unfolding push_includes
push_includes-onto fs nil a b = refl
push_includes-onto fs (cons v vs) a b =
    let include = include_of v in
    elim (Loaded-cases (search_files fs include.0 include.1)) [
      | inl (found, e) ↦
          rw (e, push_includes)
            (ap (λ (s : List Bytes). push_includes fs vs s)
                (push_all-append found (a ++ b)
                  ∙ append_assoc a b found
                  ∙ ap (λ (s : List Bytes). a ++ s) (sym (push_all-append found b)))
              ∙ push_includes-onto fs vs a (push_all found b))
      | inr (inl (x, e)) ↦ rw (e, push_includes) refl
      | inr (inr e) ↦ rw (e, push_includes) refl
    ]

-- Every file has a rank above those of the files that it includes.
abbrev pub IsRanked : Files → (Bytes → ℕ) → Type 0
IsRanked fs rank =
    (path : Bytes) (ys : YamlEntries) (found : List Bytes)
    → fs.read path ≡ mapping ys
    → push_includes fs (includes ys) [] ≡ ok found
    → All (λ f. rank f < rank path) found

Document-cases :
    (d : Document)
    → ((e : GoError) × (d ≡ fails e))
      ⊎ (((ys : YamlEntries) × (d ≡ mapping ys)) ⊎ ((d ≡ other) ⊎ (d ≡ unfit)))
Document-cases (fails e) = inl (e, refl)
Document-cases (mapping ys) = inr (inl (ys, refl))
Document-cases other = inr (inr (inl refl))
Document-cases unfit = inr (inr (inr refl))

load_loop-failed :
    (fuel : ℕ) (fs : Files) (path : Bytes) (stack : List Bytes) (root : Entries) (e : GoError)
    → load_file fs path stack root ≡ failed e
    → load_loop (suc fuel) fs (push stack path) root ≡ some (failed e)
unfolding load_loop
load_loop-failed fuel fs path stack root e h =
    rw (pop-push stack path, load_loop) (rw (h, load_loop) refl)

load_loop-panicked :
    (fuel : ℕ) (fs : Files) (path : Bytes) (stack : List Bytes) (root : Entries)
    → load_file fs path stack root ≡ panicked
    → load_loop (suc fuel) fs (push stack path) root ≡ some panicked
unfolding load_loop
load_loop-panicked fuel fs path stack root h =
    rw (pop-push stack path, load_loop) (rw (h, load_loop) refl)

load_file-mapping :
    (fs : Files) (path : Bytes) (ys : YamlEntries) (stack : List Bytes) (root : Entries)
    → fs.read path ≡ mapping ys
    → load_file fs path stack root ≡ elim (pushed_onto stack (push_includes fs (includes ys) [])) [
      | ok stack' ↦ ok (stack', merge_map root (entries (document_value ys)))
      | failed e ↦ failed e
      | panicked ↦ panicked
    ]
unfolding load_file
load_file-mapping fs path ys stack root h =
    let onto =
      ap (λ (s : List Bytes). push_includes fs (includes ys) s) (sym (append-nil stack))
      ∙ push_includes-onto fs (includes ys) stack [] in
    rw (h, load_file) (rw (onto, load_file) refl)

zero-add : (n : ℕ) → 0 + n ≡ n
zero-add n = omega arith

one-add : (n : ℕ) → 1 + n ≡ suc n
one-add n = omega arith

module _ (fs : Files) (rank : Bytes → ℕ) (ranked : IsRanked fs rank) where
  -- After some rounds the stack is as before, or the loop has ended.
  abbrev Settles : List Bytes → List Bytes → Entries → Type 0
  Settles above stack root =
      (k : ℕ) × (((root' : Entries) × ((fuel : ℕ)
            → load_loop (k + fuel) fs (stack ++ above) root ≡ load_loop fuel fs stack root'))
        ⊎ ((r : Loaded Entries) × ((fuel : ℕ)
              → load_loop (k + fuel) fs (stack ++ above) root ≡ some r)))

  -- What one round does with the file on the top.
  abbrev Round : Bytes → List Bytes → Entries → Type 0
  Round path stack root =
      ((found : List Bytes) × (root' : Entries) × (load_file fs path stack root
          ≡ ok (stack ++ found, root'))
        × All (λ f. rank f < rank path) found)
      ⊎ ((r : Loaded Entries) × ((fuel : ℕ)
            → load_loop (suc fuel) fs (push stack path) root ≡ some r))

  round_mapping :
      (path : Bytes) (ys : YamlEntries) (stack : List Bytes) (root : Entries)
      → fs.read path ≡ mapping ys
      → Round path stack root
  round_mapping path ys stack root h =
      let read = load_file-mapping fs path ys stack root h in
      elim (Loaded-cases (push_includes fs (includes ys) [])) [
        | inl (found, e) ↦ inl (
          found,
          merge_map root (entries (document_value ys)),
          rw e at read,
          ranked path ys found h e,
        )
        | inr (inl (x, e)) ↦
            inr (failed x, λ fuel. load_loop-failed fuel fs path stack root x (rw e at read))
        | inr (inr e) ↦
            inr (panicked, λ fuel. load_loop-panicked fuel fs path stack root (rw e at read))
      ]

  round : (path : Bytes) (stack : List Bytes) (root : Entries) → Round path stack root
  unfolding load_file
  round path stack root = elim (Document-cases (fs.read path)) [
    | inl (e, h) ↦
        inr (failed e, λ fuel. load_loop-failed fuel fs path stack root e (rw (h, load_file) refl))
    | inr (inl (ys, h)) ↦ round_mapping path ys stack root h
    | inr (inr (inr h)) ↦
        inr (panicked, λ fuel. load_loop-panicked fuel fs path stack root (rw (h, load_file) refl))
    | inr (inr (inl h)) ↦ inl (
      [],
      merge_map root end,
      rw (h, load_file)
          (ap (λ (s : List Bytes). ok (s, merge_map root end)) (sym (append-nil stack))),
      tt,
    )
  ]

  load_loop-round :
      (k fuel : ℕ) (path : Bytes) (stack : List Bytes) (root : Entries) {stack' : List Bytes}
      {root' : Entries}
      → load_file fs path stack root ≡ ok (stack', root')
      → load_loop (suc k + fuel) fs (push stack path) root ≡ load_loop (k + fuel) fs stack' root'
  load_loop-round k fuel path stack root {stack'} {root'} h =
      subst
        (λ (n : ℕ). load_loop n fs (push stack path) root ≡ load_loop (k + fuel) fs stack' root')
        (let e : suc (k + fuel) ≡ suc k + fuel = omega arith in e)
        (load_loop-file (k + fuel) fs path stack root h)

  All-below :
      {m n : ℕ} (found : List Bytes)
      → All (λ f. rank f < m) found
      → m ≤ n
      → All (λ f. rank f < n) found
  All-below [] h le = tt
  All-below (f ∷ found) (small, rest) le = (omega arith, All-below found rest le)

  -- From a file on the top to the files that it includes, and on.
  Settles-found :
      (path : Bytes) (stack found : List Bytes) (root root' : Entries)
      → load_file fs path stack root ≡ ok (stack ++ found, root')
      → Settles found stack root'
      → Settles (path ∷ []) stack root
  unfolding push
  Settles-found path stack found root root' h (k, inl (root'', more)) =
      (suc k, inl (root'', λ fuel. load_loop-round k fuel path stack root h ∙ more fuel))
  Settles-found path stack found root root' h (k, inr (r, stop)) =
      (suc k, inr (r, λ fuel. load_loop-round k fuel path stack root h ∙ stop fuel))

  -- The same loop, with its rounds and its stack written otherwise.
  regroup :
      (m n : ℕ) (f : Bytes) (above stack : List Bytes) (root : Entries)
      → m ≡ n
      → load_loop m fs (stack ++ f ∷ above) root ≡ load_loop n fs ((stack ++ f ∷ []) ++ above) root
  regroup m n f above stack root e =
      ap (λ (k : ℕ). load_loop k fs (stack ++ f ∷ above) root) e
      ∙ ap (λ (s : List Bytes). load_loop n fs s root) (sym (append_assoc stack (f ∷ []) above))

  Settles-above :
      (above : List Bytes) (f : Bytes) (stack : List Bytes) (root : Entries)
      → Settles above (stack ++ f ∷ []) root
      → ((root' : Entries) → Settles (f ∷ []) stack root')
      → Settles (f ∷ above) stack root
  Settles-above above f stack root (k, inr (r, stop)) later =
      (k, inr (r, λ fuel. regroup (k + fuel) (k + fuel) f above stack root refl ∙ stop fuel))
  Settles-above above f stack root (k, inl (root', more)) later =
      let (m, way) = later root' in
      elim way [
        | inl (root'', again) ↦ (
          k + m,
          inl (
            root'',
            λ fuel.
                regroup (k + m + fuel) (k + (m + fuel)) f above stack root (omega arith)
                ∙ more (m + fuel)
                ∙ again fuel,
          ),
        )
        | inr (r, stop) ↦ (
          k + m,
          inr (
            r,
            λ fuel.
                regroup (k + m + fuel) (k + (m + fuel)) f above stack root (omega arith)
                ∙ more (m + fuel)
                ∙ stop fuel,
          ),
        )
      ]

  Settles-All :
      (n : ℕ)
      → ((f : Bytes)
          → rank f < n
          → (stack : List Bytes) (root : Entries) → Settles (f ∷ []) stack root)
      → (found : List Bytes) (stack : List Bytes) (root : Entries) → All (λ f. rank f < n) found
      → Settles found stack root
  Settles-All n each [] stack root h = (
    0,
    inl (
      root,
      λ fuel.
          ap (λ (k : ℕ). load_loop k fs (stack ++ []) root) (zero-add fuel)
          ∙ ap (λ (s : List Bytes). load_loop fuel fs s root) (append-nil stack),
    ),
  )
  Settles-All n each (f ∷ found) stack root (small, rest) =
      Settles-above found f stack root (Settles-All n each found (stack ++ f ∷ []) root rest)
        (λ root'. each f small stack root')

  Settles-ranked :
      (n : ℕ) (path : Bytes)
      → rank path < n
      → (stack : List Bytes) (root : Entries) → Settles (path ∷ []) stack root
  unfolding push
  Settles-ranked zero path h stack root = elim h [ ]
  Settles-ranked (suc n) path h stack root = elim (round path stack root) [
    | inl (found, root', e, smaller) ↦
        Settles-found path stack found root root' e (
          Settles-All n (Settles-ranked n) found stack root'
            (All-below found smaller (omega arith)))
    | inr (r, stop) ↦ (
      1,
      inr (
        r,
        λ fuel. ap (λ (k : ℕ). load_loop k fs (push stack path) root) (one-add fuel) ∙ stop fuel,
      ),
    )
  ]

  load_loop_done : (fuel : ℕ) (root : Entries) → load_loop (suc fuel) fs [] root ≡ some (ok root)
  unfolding load_loop pop
  load_loop_done fuel root = refl

  -- The loop ends from any stack, with some number of rounds and with any larger one.
  load_loop_ends :
      (n : ℕ) (stack : List Bytes) (root : Entries)
      → All (λ f. rank f < n) stack
      → (fuel : ℕ) × (r : Loaded Entries) × ((more : ℕ)
          → load_loop (fuel + more) fs stack root ≡ some r)
  load_loop_ends n stack root small =
      let (k, way) = Settles-All n (Settles-ranked n) stack [] root small in
      elim way [
        | inl (root', on) ↦ (
          k + 1,
          ok root',
          λ more.
              ap (λ (m : ℕ). load_loop m fs stack root) (omega arith)
              ∙ on (suc more)
              ∙ load_loop_done more root',
        )
        | inr (r, stop) ↦ (k, r, stop)
      ]

-- A number above the ranks of all paths of a list.
top : (Bytes → ℕ) → List Bytes → ℕ
top rank [] = 0
top rank (f ∷ fs) = suc (rank f + top rank fs)

ranks-le : (rank : Bytes → ℕ) (fs : List Bytes) (n : ℕ) → top rank fs ≤ n → All (λ f. rank f < n) fs
unfolding top
ranks-le rank [] n h = tt
ranks-le rank (f ∷ fs) n h = (omega arith, ranks-le rank fs n (omega arith))

-- If each file can be given a number above those of the files that it includes, Load ends, whatever
-- the paths: some number of rounds gives a result, and any larger number gives the same.
pub load_ends :
    (fs : Files) (rank : Bytes → ℕ) (paths : List Bytes)
    → IsRanked fs rank
    → (fuel : ℕ) × (r : Loaded Entries) × ((more : ℕ) → load (fuel + more) fs paths ≡ some r)
unfolding load
load_ends fs rank paths ranked =
    let n = top rank paths in
    let (fuel, r, h) =
      load_loop_ends fs rank ranked n paths end (ranks-le rank paths n (omega arith)) in
    (
      fuel,
      r,
      λ more.
          ap (λ (s : List Bytes). load_loop (fuel + more) fs s end) (push_all-append paths [])
          ∙ h more,
    )
