-- ===== src/Server/Command/Encoded.antt =====
-- What comes out of the pipe of a method with base64 encoding (rpcmethod.go).
use rupicola_go.Base.{
  ℕ, ◌+◌, ◌-◌, ◌*◌, ◌/◌, ◌%◌, ◌<◌, Bytes, List, [], ◌∷◌, ◌++◌, append-nil, append_assoc, length,
  flatten, ltb, ◌≡◌, refl, sym, ap, ◌∙◌, arith, All, if◌then◌else◌, ◌==◌, nat_eq,
}
use rupicola_go.Rpc.Value.{Reader}
use rupicola_go.Method.Def.{base64}
use rupicola_go.Server.Command.{digit, encode, write_encoder, close_encoder, encode_chunks, piped}

-- A text of the URL and filename safe alphabet of RFC 4648, read back: the value of a character,
-- and the bytes of the full groups of four.
unfoldable value : ℕ → ℕ
value c =
    if c == b'_'
    then 63
    else if c == b'-'
    then 62
    else if ltb c b'A'
    then c - b'0' + 52
    else if ltb c b'a'
    then c - b'A'
    else c - b'a' + 26

unfoldable pub decode : Bytes → Bytes
unfolding value
decode (w ∷ x ∷ y ∷ z ∷ s) =
    (value w * 4 + value x / 16)
    ∷ (value x % 16 * 16 + value y / 4)
    ∷ (value y % 4 * 64 + value z)
    ∷ decode s
decode _ = []

value-digit : (n : ℕ) → n < 64 → value (digit n) ≡ n
unfolding value digit
value-digit n h = ground arith

abbrev pub AllBytes : Bytes → Type 0
AllBytes = All (λ c. c < 256)

decode-group :
    (a b c : ℕ) (s : Bytes)
    → (a < 256) × (b < 256) × (c < 256)
    → decode (
        digit (a / 4)
        ∷ digit (a % 4 * 16 + b / 16)
        ∷ digit (b % 16 * 4 + c / 64)
        ∷ digit (c % 64)
        ∷ s)
      ≡ a ∷ b ∷ c ∷ decode s
unfolding decode
decode-group a b c s (ha, hb, hc) = ground (
  arith,
  value-digit (a / 4) (omega (arith, ha)),
  value-digit (a % 4 * 16 + b / 16) (omega (arith, hb)),
  value-digit (b % 16 * 4 + c / 64) (omega (arith, hc)),
  value-digit (c % 64) (omega arith),
)

-- The text decodes to all bytes but those that are left, of which there are one or two or none.
encode-decode :
    (p : Bytes)
    → AllBytes p
    → (p ≡ decode (encode p).0 ++ (encode p).1) × (length (encode p).1 ≡ length p % 3)
unfolding encode decode
encode-decode [] h = (refl, refl)
encode-decode (a ∷ []) h = (refl, refl)
encode-decode (a ∷ b ∷ []) h = (refl, refl)
encode-decode (a ∷ b ∷ c ∷ p) (ha, (hb, (hc, h))) =
    let (same, few) = encode-decode p h in
    (
      ap (λ (q : Bytes). a ∷ b ∷ c ∷ q) same
          ∙ ap (λ (q : Bytes). q ++ (encode p).1)
              (sym (decode-group a b c (encode p).0 (ha, hb, hc))),
      omega (arith, few),
    )

encode-append :
    (p q : Bytes)
    → encode (p ++ q)
      ≡ ((encode p).0 ++ (encode ((encode p).1 ++ q)).0, (encode ((encode p).1 ++ q)).1)
unfolding encode
encode-append [] q = refl
encode-append (a ∷ []) q = refl
encode-append (a ∷ b ∷ []) q = refl
encode-append (a ∷ b ∷ c ∷ p) q =
    ap
      (λ (x : Bytes × Bytes). (
        digit (a / 4)
            ∷ digit (a % 4 * 16 + b / 16)
            ∷ digit (b % 16 * 4 + c / 64)
            ∷ digit (c % 64)
            ∷ x.0,
        x.1,
      ))
      (encode-append p q)

encode-nil : (encode []).0 ≡ []
unfolding encode
encode-nil = refl

-- What is left makes no group.
encode-left : (p : Bytes) → (encode (encode p).1).0 ≡ []
unfolding encode
encode-left [] = refl
encode-left (a ∷ []) = refl
encode-left (a ∷ b ∷ []) = refl
encode-left (a ∷ b ∷ c ∷ p) = encode-left p

-- What the copy writes, in one piece.
encode_chunks-flatten :
    (buffer : Bytes) (cs : List Bytes)
    → (encode buffer).0 ≡ []
    → flatten (encode_chunks buffer cs) ≡ (encode (buffer ++ flatten cs)).0
unfolding encode_chunks write_encoder
encode_chunks-flatten buffer [] h = sym (ap (λ (q : Bytes). (encode q).0) (append-nil buffer) ∙ h)
encode_chunks-flatten buffer (c ∷ cs) h =
    let all = buffer ++ c in
    ap (λ (q : Bytes). (encode all).0 ++ q)
      (encode_chunks-flatten (encode all).1 cs (encode-left all))
    ∙ ap (λ (x : Bytes × Bytes). x.0) (sym (encode-append all (flatten cs)))
    ∙ ap (λ (q : Bytes). (encode q).0) (append_assoc buffer c (flatten cs))

-- What comes out of the pipe of a method with base64 encoding, in whatever chunks its output came
-- in, is a text that decodes, by the URL alphabet of RFC 4648, to the output without its last
-- bytes, as many as are left when it is cut into groups of three.
pub piped-decode :
    (r : Reader)
    → AllBytes (flatten r.chunks)
    → (left : Bytes) × (flatten r.chunks ≡ decode (flatten (piped base64 r).chunks) ++ left)
      × (length left ≡ length (flatten r.chunks) % 3)
unfolding piped close_encoder
piped-decode r h =
    let (same, few) = encode-decode (flatten r.chunks) h in
    (
      (encode (flatten r.chunks)).1,
      same
          ∙ ap (λ (s : Bytes). decode s ++ (encode (flatten r.chunks)).1)
              (sym (encode_chunks-flatten [] r.chunks encode-nil)),
      few,
    )
