-- ===== src/Rpc/Limit.antt =====
-- `exceptionalLimitedWriter` and the JSON encoder over it (rupicolarpc/rupicolarpc.go). The writer
-- below is a parameter: bytes.Buffer, or the transport.
pub mod Bounds
use rupicola_go.Base.{
  ℕ, ◌-◌, Bytes, length, ◌++◌, ◌||◌, Option, none, some, lit, ltb, ◌==◌, nat_eq, if◌then◌else◌, ◌≡◌,
  refl,
}
use rupicola_go.Base.Int.{ℤ, pos, pos_part, ltb_ℤ, max_int64}
use rupicola_go.Rpc.Value.{GoError, rpc, other, Envelope}
use rupicola_go.Rpc.Errors.{err_limit_exceed}

-- The results of a Write, and the writer after it.
pub record Wrote (S : Type 0) : Type 0 where
  pub n : ℕ
  pub err : Option GoError
  pub sink : S

abbrev pub Write : Type 0 → Type 0
Write S = Bytes → S → Wrote S

-- bytes.Buffer's Write never fails.
abbrev pub buffer_write : Write Bytes
buffer_write p b = record { n = length p; err = none; sink = b ++ p }

-- `room` is the field N. It is at least 0, since a writer reports at most the bytes that it was
-- given; below 0 it would act like 0.
pub record Limiter (S : Type 0) : Type 0 where
  pub sink : S
  pub room : ℕ

unfoldable pub set_limit : {S : Type 0} → ℤ → Limiter S → Limiter S
set_limit limit l = record l { room = if ltb_ℤ (pos 0) limit then pos_part limit else max_int64 }

unfoldable pub exceptional_limit_write : {S : Type 0} → S → ℤ → Limiter S
unfolding set_limit
exceptional_limit_write s n = set_limit n (record { sink = s; room = 0 })

module _ {S : Type 0} (write : Write S) where
  unfoldable pub limited_write : Write (Limiter S)
  limited_write p l =
      if l.room == 0 || ltb l.room (length p)
      then record { n = 0; err = some (rpc err_limit_exceed); sink = l }
      else let r = write p l.sink in
        record { n = r.n; err = r.err; sink = record { sink = r.sink; room = l.room - r.n } }

-- An error or nil, and the state behind it. `s or_return k` goes on with k where there was none.
abbrev pub Outcome : Type 0 → Type 0
Outcome S = Option GoError × S

infixl 5 ◌or_return◌
abbrev pub ◌or_return◌ : {S : Type 0} → Outcome S → (S → Outcome S) → Outcome S
(none, s) or_return k = k s
(some e, s) or_return k = (some e, s)

pub or_return-cong :
    {S : Type 0} (m : Outcome S) (f g : S → Outcome S)
    → (m.0 ≡ none → f m.1 ≡ g m.1)
    → (m or_return f) ≡ (m or_return g)
or_return-cong (none, s) f g h = h refl
or_return-cong (some e, s) f g h = refl

-- What a step keeps, a sequence of steps keeps, whether or not it stops early.
pub or_return-keeps :
    {S : Type 0} (P : S → Type 0) (m : Outcome S) (f : S → Outcome S)
    → P m.1
    → ((s : S) → P s → P (f s).1)
    → P (m or_return f).1
or_return-keeps P (none, s) f h k = k s h
or_return-keeps P (some e, s) f h k = h

pub or_return_assoc :
    {S : Type 0} (m : Outcome S) (f g : S → Outcome S)
    → (m or_return f or_return g) ≡ (m or_return λ s. f s or_return g)
or_return_assoc (none, s) f g = refl
or_return_assoc (some e, s) f g = refl

abbrev pub err_marshal : GoError
err_marshal = other (lit "json: unsupported value")

-- json.Encoder.Encode: one Write of the text with its line end. An error of that Write is kept and
-- returned by every later call; `failed` is that error, kept beside the writer.
module _ {S : Type 0} (marshal : Envelope → Option Bytes) (write : Write S) where
  put : Bytes → Limiter S → Option GoError × Option GoError × Limiter S
  unfolding limited_write
  put line l = let r = limited_write write line l in (r.err, r.err, r.sink)

  unfoldable pub encode :
      Envelope → Option GoError → Limiter S → Option GoError × Option GoError × Limiter S
  unfolding put
  encode v (some e) l = (some e, some e, l)
  encode v none l = elim (marshal v) [ none ↦ (some err_marshal, none, l) | some line ↦ put line l ]
