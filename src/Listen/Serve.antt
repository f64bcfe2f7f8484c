-- ===== src/Listen/Serve.antt =====
-- All bind points together: `ListenAndServe`, `spawnChild` and `listen` (rupicola.go, processor.go).
use rupicola_go.Base.{
  ℕ, Bytes, List, [], ◌∷◌, Bool, not, ◌&&◌, Option, none, some, leb, ◌==◌, bytes_eq, if◌then◌else◌,
  ◌≡◌, refl,
}
use rupicola_go.Settings.Def.{Bind, Protocol, Config}

-- ServeMux.Handle accepts a pattern that is not empty and not there yet; otherwise it panics.
unfoldable pub spawn_child : Protocol → Bool
spawn_child c =
    not (c.uri_rpc == []) && not (c.uri_streamed == []) && not (c.uri_streamed == c.uri_rpc)

-- The end of the first worker that ends, of all that do: its time and its error.
unfoldable pub first_end : List (Option (ℕ × Bytes)) → Option (ℕ × Bytes)
first_end [] = none
first_end (none ∷ rest) = first_end rest
first_end (some (t, e) ∷ rest) = elim (first_end rest) [
  | none ↦ some (t, e)
  | some (u, d) ↦ if leb t u then some (t, e) else some (u, d)
]

pub data Served : Type 0 where
  panics : Served
  serves : Served
  fails : Bytes → Served

-- When and with which error the worker of each bind point ends, if it does: the channel is read
-- once, so the first error is the result.
module _ (listen : Bind → Option (ℕ × Bytes)) where
  abbrev pub ends : List Bind → List (Option (ℕ × Bytes))
  ends [] = []
  ends (b ∷ bs) = listen b ∷ ends bs

  abbrev failure : Option (ℕ × Bytes) → Served
  failure none = serves
  failure (some (t, e)) = fails e

  unfoldable pub listen_and_serve : Config → Served
  unfolding spawn_child first_end
  listen_and_serve conf = elim conf.protocol.bind [
    | [] ↦ serves
    | b ∷ bs ↦ if spawn_child conf.protocol then failure (first_end (ends (b ∷ bs))) else panics
  ]

first_end_test :
    first_end (some (5, []) ∷ none ∷ some (3, 1 ∷ []) ∷ some (3, []) ∷ []) ≡ some (3, 1 ∷ [])
unfolding first_end
first_end_test = refl
